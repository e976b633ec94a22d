-- ===== src/Base/Lists.antt =====
-- Lists measured by native numbers, what they count and hold, and predicates on them that compute.
use Prim.Native.Nat.{ℕ, zero, suc, ◌+◌, ◌<◌}
use mathlib.Core.Path.{◌≡◌, ◌∙◌, refl, sym, subst}
use mathlib.Core.List.{List, [], ◌∷◌, ◌++◌, Perm, append_assoc}
use mathlib.Core.List.Perm
use mathlib.Core.Option.{Option, none, some}
use native.Mathlib.Omega.{arith}
use mathlib.Core.Logic.{inl, inr}
use boost_log.Base.Tests.{◌==◌, if◌then◌else◌, Option-cases}

module _ {ℓ} {A : Type ℓ} where
  abbrev pub length : List A → ℕ
  length [] = 0
  length (x ∷ xs) = suc (length xs)

  pub length-append : (xs ys : List A) → length (xs ++ ys) ≡ length xs + length ys
  length-append [] ys = omega arith
  length-append (x ∷ xs) ys = omega (arith, length-append xs ys)

-- A predicate that every element meets.
abbrev pub All {ℓ κ} : {A : Type ℓ} → (A → Type κ) → List A → Type κ
All P [] = Unit
All P (x ∷ xs) = P x × All P xs

-- How often a number stands in a list.
unfoldable pub count : ℕ → List ℕ → ℕ
count a [] = 0
count a (x ∷ xs) = if x == a then suc (count a xs) else count a xs

pub count-append : (a : ℕ) (xs ys : List ℕ) → count a (xs ++ ys) ≡ count a xs + count a ys
unfolding count
count-append a [] ys = omega arith
count-append a (x ∷ xs) ys = ground (arith, count-append a xs ys)

abbrev pub get_elem? {ℓ} : {A : Type ℓ} → List A → ℕ → Option A
get_elem? [] i = none
get_elem? (x ∷ xs) zero = some x
get_elem? (x ∷ xs) (suc i) = get_elem? xs i

pub get_elem?-append :
    {A : Type 0} (xs : List A) (y : A) (i : ℕ)
    → get_elem? (xs ++ y ∷ []) i ≡ (if i == length xs then some y else get_elem? xs i)
get_elem?-append [] y zero = refl
get_elem?-append [] y (suc i) = ground arith
get_elem?-append (x ∷ xs) y zero = ground arith
get_elem?-append (x ∷ xs) y (suc i) = ground (arith, get_elem?-append xs y i)

pub get_elem?-length :
    {A : Type 0} (xs : List A) (i : ℕ) (x : A) → get_elem? xs i ≡ some x → i < length xs
get_elem?-length [] i x e = absurd (ground (arith, e))
get_elem?-length (y ∷ ys) zero x e = omega arith
get_elem?-length (y ∷ ys) (suc i) x e = omega (arith, get_elem?-length ys i x e)

-- The element at an index, and the others.
unfoldable pub take_at {ℓ} : {A : Type ℓ} → ℕ → List A → Option (A × List A)
take_at i [] = none
take_at zero (x ∷ xs) = some (x, xs)
take_at (suc i) (x ∷ xs) = elim (take_at i xs) [
  | none ↦ none
  | some (found, others) ↦ some (found, x ∷ others)
]

pub take_at-All :
    {A : Type 0} (P : A → Type 0) (i : ℕ) (xs : List A) (x : A) (others : List A)
    → All P xs
    → take_at i xs ≡ some (x, others)
    → P x × All P others
unfolding take_at
take_at-All P i [] x others all e = absurd (ground (arith, e))
take_at-All P zero (y ∷ ys) x others (at_y, all) e =
    (subst P (ground (arith, e)) at_y, subst (All P) (ground (arith, e)) all)
take_at-All P (suc i) (y ∷ ys) x others (at_y, all) e = elim (Option-cases (take_at i ys)) [
  | inl f ↦ absurd (ground (arith, e, f))
  | inr ((z, zs), f) ↦
      let (at_z, rest) = take_at-All P i ys z zs all f in
      let same : y ∷ zs ≡ others = ground (arith, e, f) in
      (subst P (ground (arith, e, f)) at_z, subst (All P) same (at_y, rest))
]

-- A sum over the elements is that of the one and of the others.
pub take_at-sum :
    {A : Type 0} (sum : List A → ℕ)
    → ((x : A) (xs : List A) → sum (x ∷ xs) ≡ sum (x ∷ []) + sum xs)
    → (i : ℕ) (xs : List A) (x : A) (others : List A) → take_at i xs ≡ some (x, others)
    → sum xs ≡ sum (x ∷ []) + sum others
unfolding take_at
take_at-sum sum step i [] x others e = absurd (ground (arith, e))
take_at-sum sum step zero (y ∷ ys) x others e =
    let same_x : y ≡ x = ground (arith, e) in
    let same : ys ≡ others = ground (arith, e) in
    step y ys ∙ (λ k. sum (same_x k ∷ []) + sum (same k))
take_at-sum sum step (suc i) (y ∷ ys) x others e = elim (Option-cases (take_at i ys)) [
  | inl f ↦ absurd (ground (arith, e, f))
  | inr ((z, zs), f) ↦
      let same_x : z ≡ x = ground (arith, e, f) in
      let same : y ∷ zs ≡ others = ground (arith, e, f) in
      let all : sum (y ∷ ys) ≡ sum (z ∷ []) + sum (y ∷ zs) =
        omega (arith, step y ys, step y zs, take_at-sum sum step i ys z zs f) in
      all ∙ (λ k. sum (same_x k ∷ []) + sum (same k))
]

pub take_at-count :
    (a i : ℕ) (xs : List ℕ) (x : ℕ) (others : List ℕ)
    → take_at i xs ≡ some (x, others)
    → count a xs ≡ count a (x ∷ []) + count a others
unfolding count
take_at-count a = take_at-sum (count a) (λ x xs. ground arith)

-- Two changes of a list, each of which takes elements in and gives others out, one after the other.
pub sequence-Perm {ℓ} :
    {A : Type ℓ} (a ins outs b more_ins more_outs c : List A)
    → Perm (a ++ ins) (outs ++ b)
    → Perm (b ++ more_ins) (more_outs ++ c)
    → Perm (a ++ (ins ++ more_ins)) ((outs ++ more_outs) ++ c)
sequence-Perm a ins outs b more_ins more_outs c first second =
    rw (sym (append_assoc a ins more_ins), append_assoc outs more_outs c)
      (Perm.trans (Perm.append_right more_ins first) (
        subst (λ l. Perm l (outs ++ (more_outs ++ c))) (sym (append_assoc outs b more_ins))
          (Perm.append_left outs second)))
