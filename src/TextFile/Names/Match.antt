-- ===== src/TextFile/Names/Match.antt =====
-- match_pattern (text_file_backend.cpp).
use boost_log.Base.{
  ℕ, zero, suc, ◌-◌, Bool, true, false, Option, none, some, List, [], ◌∷◌, ◌==◌, ◌||◌,
  if◌then◌else◌, length,
}
use boost_log.TextFile.Names.{Scan, scanned, no_match, past_end, scan_digits, skip_digits}

-- What Boost.Spirit answers: for a counter placeholder after the percent sign, the position behind it
-- and the width, if it finds one; for the digits of a file name, the number, if it fits. Besides, the
-- number of digits of fractional seconds of Boost.DateTime.
pub record Grammar : Type 0 where
  pub parse_placeholder : List ℕ → Option (List ℕ × ℕ)
  pub parse_number : List ℕ → Option ℕ
  pub fractional_digits : ℕ

-- The file counter is handed on through the call. `invalid` is the exception for a placeholder that is
-- not supported; `fault` is a read past the end.
pub data Match : Type 0 where
  matched : ℕ → Match
  mismatch : Match
  invalid fault : Match

-- What follows a scan of digits.
abbrev pub and_then : Scan → (List ℕ → Match) → Match
and_then (scanned it) k = k it
and_then no_match k = mismatch
and_then past_end k = fault

unfoldable pub take : ℕ → List ℕ → List ℕ
take zero xs = []
take (suc n) [] = []
take (suc n) (x ∷ xs) = x ∷ take n xs

-- The digits between two positions of a name: `f` is a suffix of `f_it`.
unfoldable pub between : List ℕ → List ℕ → List ℕ
unfolding take
between f_it f = take (length f_it - length f) f_it

-- The cases of the switch for date and time components: the number of their digits.
unfoldable pub fixed_digits : Grammar → ℕ → Option ℕ
fixed_digits g c =
    if c == b'S' || c == b'M' || c == b'H' || c == b'd' || c == b'm' || c == b'y'
    then some 2
    else if c == b'Y'
    then some 4
    else if c == b'f'
    then some g.fractional_digits
    else none

-- spirit::parse with assign_a: the counter changes if the number is found.
abbrev assign : Option ℕ → ℕ → ℕ
assign none counter = counter
assign (some n) counter = n

-- The default branch, with what the parser of the placeholder answers: `again` is the rest of the loop.
unfoldable pub match_counter :
    Grammar → (List ℕ → List ℕ → ℕ → Match) → List ℕ → ℕ → Option (List ℕ × ℕ) → Match
unfolding between
match_counter g again f_it counter none = invalid
match_counter g again f_it counter (some (p, width)) =
    and_then (scan_digits width f_it) (λ f.
      again (skip_digits f) p (assign (g.parse_number (between f_it (skip_digits f))) counter))

-- The loop: `placeholder` stands for placeholder_expected. The fuel bounds the rounds, each of which
-- moves on in the pattern.
unfoldable pub match_loop : Grammar → ℕ → List ℕ → List ℕ → Bool → ℕ → Match
unfolding scan_digits skip_digits match_counter fixed_digits
match_loop g fuel [] [] placeholder counter = matched counter
match_loop g fuel [] (p_c ∷ p_it) placeholder counter = mismatch
match_loop g fuel (f_c ∷ f_it) [] placeholder counter =
    and_then (scan_digits (suc (length f_it)) (f_c ∷ f_it)) (λ _. matched counter)
match_loop g zero (f_c ∷ f_it) (p_c ∷ p_it) placeholder counter = fault
match_loop g (suc fuel) (f_c ∷ f_it) (p_c ∷ p_it) false counter = elim (p_c == b'%') [
  | true ↦ match_loop g fuel (f_c ∷ f_it) p_it true counter
  | false ↦ elim (p_c == f_c) [
    | true ↦ match_loop g fuel f_it p_it false counter
    | false ↦ mismatch
  ]
]
match_loop g (suc fuel) (f_c ∷ f_it) (p_c ∷ p_it) true counter = elim (p_c == b'%') [
  | true ↦ elim (p_c == f_c) [ true ↦ match_loop g fuel f_it p_it false counter | false ↦ mismatch ]
  | false ↦ elim (fixed_digits g p_c) [
    | some n ↦ and_then (scan_digits n (f_c ∷ f_it)) (λ f. match_loop g fuel f p_it false counter)
    | none ↦
        match_counter g (λ f p n. match_loop g fuel f p false n) (f_c ∷ f_it) counter
          (g.parse_placeholder (p_c ∷ p_it))
  ]
]

-- The pattern is the fuel.
unfoldable pub match_pattern : Grammar → List ℕ → List ℕ → ℕ → Match
unfolding match_loop
match_pattern g file_name pattern counter =
    match_loop g (length pattern) file_name pattern false counter
