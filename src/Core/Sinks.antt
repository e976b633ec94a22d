-- ===== src/Core/Sinks.antt =====
-- The list of sinks: add_sink, remove_sink, remove_all_sinks (core.cpp).
use boost_log.Base.{
  ℕ, ◌≡◌, refl, ◌∙◌, sym, List, [], ◌∷◌, ◌++◌, Bool, true, false, inl, inr, arith, ◌==◌,
  if◌then◌else◌, Bool-cases, ==_iff,
}
use boost_log.Core.State.{Core}

-- std::find over the list.
unfoldable pub registered : ℕ → List ℕ → Bool
registered s [] = false
registered s (x ∷ xs) = if x == s then true else registered s xs

-- std::find and vector::erase: the first one goes.
erase_first : ℕ → List ℕ → List ℕ
erase_first s [] = []
erase_first s (x ∷ xs) = if x == s then xs else x ∷ erase_first s xs

module _ {A : Type 0} where
  add_sink : ℕ → Core A → Core A
  add_sink s c = if registered s c.sinks then c else record c { sinks = c.sinks ++ s ∷ [] }

  remove_sink : ℕ → Core A → Core A
  remove_sink s c = record c { sinks = erase_first s c.sinks }

  unfoldable pub remove_all_sinks : Core A → Core A
  remove_all_sinks c = record c { sinks = [] }

-- No sink is in the list twice.
abbrev pub IsDistinct : List ℕ → Type 0
IsDistinct [] = Unit {0}
IsDistinct (x ∷ xs) = (registered x xs ≡ false) × IsDistinct xs

registered-append :
    (s y : ℕ) (xs : List ℕ)
    → registered s (xs ++ y ∷ []) ≡ (if y == s then true else registered s xs)
unfolding registered
registered-append s y [] = refl
registered-append s y (x ∷ xs) = ground (arith, registered-append s y xs)

append-IsDistinct :
    (s : ℕ) (xs : List ℕ) → registered s xs ≡ false → IsDistinct xs → IsDistinct (xs ++ s ∷ [])
unfolding registered
append-IsDistinct s [] h d = (refl, tt)
append-IsDistinct s (x ∷ xs) h d =
    (ground (arith, registered-append x s xs), append-IsDistinct s xs (ground arith) d.1)

registered-erase_ne :
    (s t : ℕ) (xs : List ℕ) → registered t xs ≡ false → registered t (erase_first s xs) ≡ false
unfolding registered erase_first
registered-erase_ne s t [] h = refl
registered-erase_ne s t (x ∷ xs) h = ground (arith, registered-erase_ne s t xs)

erase_first-IsDistinct : (s : ℕ) (xs : List ℕ) → IsDistinct xs → IsDistinct (erase_first s xs)
unfolding erase_first
erase_first-IsDistinct s [] d = tt
erase_first-IsDistinct s (x ∷ xs) d =
    ground (arith, erase_first-IsDistinct s xs d.1, registered-erase_ne s x xs d.0)

registered-erase_self :
    (s : ℕ) (xs : List ℕ) → IsDistinct xs → registered s (erase_first s xs) ≡ false
unfolding registered erase_first
registered-erase_self s [] d = refl
registered-erase_self s (x ∷ xs) d = ground (arith, ==_iff x s, registered-erase_self s xs d.1)

erase_first-append :
    (s : ℕ) (xs : List ℕ) → registered s xs ≡ false → erase_first s (xs ++ s ∷ []) ≡ xs
unfolding registered erase_first
erase_first-append s [] h = ground arith
erase_first-append s (x ∷ xs) h = ground (arith, erase_first-append s xs)

module _ {A : Type 0} (c : Core A) (s : ℕ) (distinct : IsDistinct c.sinks) where
  -- From a list of sinks without duplicates: after add_sink the list still has none and has the sink,
  -- and after remove_sink it still has none and the sink is gone, whether or not it was registered.
  add_remove-IsDistinct :
      IsDistinct (add_sink s c).sinks
      × (registered s (add_sink s c).sinks ≡ true)
      × IsDistinct (remove_sink s c).sinks
      × (registered s (remove_sink s c).sinks ≡ false)
  unfolding add_sink remove_sink
  add_remove-IsDistinct = elim (Bool-cases (registered s c.sinks)) [
    | inl there ↦ (
      rw there distinct,
      rw there there,
      erase_first-IsDistinct s c.sinks distinct,
      registered-erase_self s c.sinks distinct,
    )
    | inr absent ↦ (
      rw absent (append-IsDistinct s c.sinks absent distinct),
      rw absent (ground (arith, registered-append s s c.sinks)),
      erase_first-IsDistinct s c.sinks distinct,
      registered-erase_self s c.sinks distinct,
    )
  ]

registered-append_self : (s : ℕ) (xs : List ℕ) → registered s (xs ++ s ∷ []) ≡ true
registered-append_self s xs = ground (arith, registered-append s s xs)

erase_first_absent : (s : ℕ) (xs : List ℕ) → registered s xs ≡ false → erase_first s xs ≡ xs
unfolding registered erase_first
erase_first_absent s [] h = refl
erase_first_absent s (x ∷ xs) h = ground (arith, erase_first_absent s xs)

-- To add a sink and then remove it leaves the same list as to remove it at once, whether or not it
-- was registered before; and to add it twice is to add it once.
remove-add :
    {A : Type 0} (c : Core A) (s : ℕ)
    → ((remove_sink s (add_sink s c)).sinks ≡ (remove_sink s c).sinks)
      × (add_sink s (add_sink s c) ≡ add_sink s c)
unfolding add_sink remove_sink
remove-add c s = elim (Bool-cases (registered s c.sinks)) [
  | inl there ↦ (rw there, rw (there, there))
  | inr absent ↦ (
    rw absent (erase_first-append s c.sinks absent ∙ sym (erase_first_absent s c.sinks absent)),
    rw absent (rw (registered-append_self s c.sinks)),
  )
]
