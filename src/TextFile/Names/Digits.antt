-- ===== src/TextFile/Names/Digits.antt =====
-- The digits that file_counter_formatter writes (text_file_backend.cpp).
use boost_log.Base.{
  ℕ, zero, suc, ◌+◌, ◌-◌, ◌*◌, ◌/◌, ◌%◌, ◌^◌, ◌≡◌, ◌≢◌, ◌≤◌, ◌<◌, true, List, [], ◌∷◌, ◌++◌, All,
  length, length-append, ltb, Bool-cases, inl, inr, arith, refl, ap, ◌∙◌,
}
use boost_log.TextFile.Names.{is_digit, decimal, zeros, padded}

abbrev pub IsDigit : ℕ → Type 0
IsDigit c = is_digit c ≡ true

-- The number that digits stand for, behind a number.
unfoldable pub value : ℕ → List ℕ → ℕ
value n [] = n
value n (c ∷ ds) = value (10 * n + (c - b'0')) ds

decimal-IsDigit :
    (fuel n : ℕ) (rest : List ℕ) → All IsDigit rest → All IsDigit (decimal fuel n rest)
unfolding decimal
decimal-IsDigit zero n rest all = all
decimal-IsDigit (suc fuel) n rest all = elim (Bool-cases (ltb n 10)) [
  | inl e ↦ rw e (ground (arith, e), all)
  | inr e ↦ rw e (decimal-IsDigit fuel (n / 10) ((b'0' + n % 10) ∷ rest) (ground arith, all))
]

zeros-IsDigit : (k : ℕ) (ds : List ℕ) → All IsDigit ds → All IsDigit (zeros k ++ ds)
unfolding zeros
zeros-IsDigit zero ds all = all
zeros-IsDigit (suc k) ds all = (refl, zeros-IsDigit k ds all)

pub padded-IsDigit : (width n : ℕ) → All IsDigit (padded width n)
unfolding padded
padded-IsDigit width n =
    zeros-IsDigit (width - length (decimal 10 n [])) (decimal 10 n []) (decimal-IsDigit 10 n [] tt)

length-zeros : (k : ℕ) → length (zeros k) ≡ k
unfolding zeros
length-zeros zero = refl
length-zeros (suc k) = ap suc (length-zeros k)

pub length-padded : (width n : ℕ) → width ≤ length (padded width n)
unfolding padded
length-padded width n = omega (
  arith,
  length-append (zeros (width - length (decimal 10 n []))) (decimal 10 n []),
  length-zeros (width - length (decimal 10 n [])),
)

length-decimal : (fuel n : ℕ) (rest : List ℕ) → length rest ≤ length (decimal fuel n rest)
unfolding decimal
length-decimal zero n rest = omega arith
length-decimal (suc fuel) n rest =
    ground (arith, length-decimal fuel (n / 10) ((b'0' + n % 10) ∷ rest))

some_decimal : (fuel n : ℕ) (rest : List ℕ) → 1 ≤ length (decimal (suc fuel) n rest)
unfolding decimal
some_decimal fuel n rest = ground (arith, length-decimal fuel (n / 10) ((b'0' + n % 10) ∷ rest))

-- There is a digit at least.
pub padded-ne-nil : (width n : ℕ) → padded width n ≢ []
unfolding padded
padded-ne-nil width n e = absurd (
    omega (
      arith,
      ap length e,
      length-append (zeros (width - length (decimal 10 n []))) (decimal 10 n []),
      some_decimal 9 n [],
    ))

value-decimal :
    (fuel n : ℕ) (rest : List ℕ) → n < 10 ^ fuel → value 0 (decimal fuel n rest) ≡ value n rest
unfolding decimal value
value-decimal zero n rest lt = ap (λ k. value k rest) (omega (arith, lt))
value-decimal (suc fuel) n rest lt = elim (Bool-cases (ltb n 10)) [
  | inl e ↦ rw e (ap (λ k. value k rest) (omega arith))
  | inr e ↦ rw e (
      value-decimal fuel (n / 10) ((b'0' + n % 10) ∷ rest) (grind arith)
      ∙ ap (λ k. value k rest) (omega arith))
]

value-zeros : (k : ℕ) (ds : List ℕ) → value 0 (zeros k ++ ds) ≡ value 0 ds
unfolding value zeros
value-zeros zero ds = refl
value-zeros (suc k) ds = value-zeros k ds

-- A number of 32 bits has at most ten digits.
pub value-padded : (width n : ℕ) → n < 2 ^ 32 → value 0 (padded width n) ≡ n
unfolding padded value
value-padded width n lt =
    value-zeros (width - length (decimal 10 n [])) (decimal 10 n [])
    ∙ value-decimal 10 n [] (omega (arith, lt))
