-- ===== src/Core/Push/Count.antt =====
-- How often a sink stands in a trace, and what leaves its number in a list as it is, for the proofs about push_record (core.cpp).
use mathlib.Core.Logic.{∥∥₁_elim}
use mathlib.Core.List.{Perm, Permᴰ}
use native.Mathlib.Nat.{ℕ_set}
use boost_log.Base.{
  ℕ, suc, ◌+◌, ◌≡◌, refl, ap, ◌∙◌, List, [], ◌∷◌, arith, ◌==◌, if◌then◌else◌, length, count,
}
use boost_log.Core.Push.{Trace, delivered, failed, last_to_front}

-- How often the record was delivered to a sink, and how often the sink failed to take it.
unfoldable pub deliveries : ℕ → Trace → ℕ
deliveries a [] = 0
deliveries a (delivered s ∷ t) = if s == a then suc (deliveries a t) else deliveries a t
deliveries a (_ ∷ t) = deliveries a t

unfoldable pub failures : ℕ → Trace → ℕ
failures a [] = 0
failures a (failed s ∷ t) = if s == a then suc (failures a t) else failures a t
failures a (_ ∷ t) = failures a t

abbrev pub settled : ℕ → Trace → ℕ
settled a t = deliveries a t + failures a t

pub count-last_to_front : (a : ℕ) (xs : List ℕ) → count a (last_to_front xs) ≡ count a xs
unfolding count last_to_front
count-last_to_front a [] = refl
count-last_to_front a (x ∷ xs) = ground (arith, count-last_to_front a xs)

pub length-last_to_front : (xs : List ℕ) → length (last_to_front xs) ≡ length xs
unfolding last_to_front
length-last_to_front [] = refl
length-last_to_front (x ∷ xs) = ground (arith, length-last_to_front xs)

count-Permᴰ : (a : ℕ) {xs ys : List ℕ} → Permᴰ xs ys → count a xs ≡ count a ys
unfolding count
count-Permᴰ a Permᴰ.nil = refl
count-Permᴰ a (Permᴰ.cons e p) = ground (arith, count-Permᴰ a p)
count-Permᴰ a (Permᴰ.swap e f) = ground arith
count-Permᴰ a (Permᴰ.trans p q) = count-Permᴰ a p ∙ count-Permᴰ a q

pub count-perm : (a : ℕ) {xs ys : List ℕ} → Perm xs ys → count a xs ≡ count a ys
count-perm a p = ∥∥₁_elim p (ℕ_set _ _) (count-Permᴰ a)

length-Permᴰ : {xs ys : List ℕ} → Permᴰ xs ys → length xs ≡ length ys
length-Permᴰ Permᴰ.nil = refl
length-Permᴰ (Permᴰ.cons e p) = ap suc (length-Permᴰ p)
length-Permᴰ (Permᴰ.swap e f) = refl
length-Permᴰ (Permᴰ.trans p q) = length-Permᴰ p ∙ length-Permᴰ q

pub length-perm : {xs ys : List ℕ} → Perm xs ys → length xs ≡ length ys
length-perm p = ∥∥₁_elim p (ℕ_set _ _) length-Permᴰ
