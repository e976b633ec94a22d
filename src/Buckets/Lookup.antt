-- ===== src/Buckets/Lookup.antt =====
-- What searches by key find in lists of nodes that have grown (attribute_set_impl.hpp).
use boost_log.Base.{
  ℕ, ◌≡◌, inl, inr, true, Bool-cases, none, some, List, [], ◌∷◌, ◌++◌, ◌==◌, if◌then◌else◌, All,
  arith, refl, subst,
}
use boost_log.Buckets.{Node, insert_before, insert_after}
use boost_log.Buckets.Lists.{has, lookup}

module _ {V : Type 0} where
  -- Looking a key up.
  pub lookup-append :
      (key : ℕ) (xs ys : List (Node V))
      → lookup key xs ≡ none
      → lookup key (xs ++ ys) ≡ lookup key ys
  unfolding lookup
  lookup-append key [] ys e = refl
  lookup-append key (x ∷ xs) ys e = ground (arith, lookup-append key xs ys, e)

  pub lookup-append_left :
      (key : ℕ) (xs ys : List (Node V))
      → lookup key ys ≡ none
      → lookup key (xs ++ ys) ≡ lookup key xs
  unfolding lookup
  lookup-append_left key [] ys e = e
  lookup-append_left key (x ∷ xs) ys e = ground (arith, lookup-append_left key xs ys, e)

  pub lookup-All :
      (P : ℕ → Type 0) (key : ℕ) (ns : List (Node V))
      → ¬ P key
      → All (λ n. P n.key) ns
      → lookup key ns ≡ none
  unfolding lookup
  lookup-All P key [] p f = refl
  lookup-All P key (n ∷ ns) p f = elim (Bool-cases (n.key == key)) [
    | inl e ↦ absurd (p (subst P (ground (arith, e)) f.0))
    | inr e ↦ rw e (lookup-All P key ns p f.1)
  ]

  pub lookup-insert_before :
      (a key : ℕ) (x : Node V) (ns : List (Node V))
      → lookup x.key ns ≡ none
      → has a ns ≡ true
      → lookup key (insert_before a x ns) ≡ (if x.key == key then some x else lookup key ns)
  unfolding lookup insert_before has
  lookup-insert_before a key x [] e h = absurd (ground (arith, h))
  lookup-insert_before a key x (n ∷ ns) e h = ground (arith, e, h, lookup-insert_before a key x ns)

  pub lookup-insert_after :
      (a key : ℕ) (x : Node V) (ns : List (Node V))
      → lookup x.key ns ≡ none
      → has a ns ≡ true
      → lookup key (insert_after a x ns) ≡ (if x.key == key then some x else lookup key ns)
  unfolding lookup insert_after has
  lookup-insert_after a key x [] e h = absurd (ground (arith, h))
  lookup-insert_after a key x (n ∷ ns) e h = ground (arith, e, h, lookup-insert_after a key x ns)

  pub lookup-append_node :
      (key : ℕ) (x : Node V) (ns : List (Node V))
      → lookup x.key ns ≡ none
      → lookup key (ns ++ x ∷ []) ≡ (if x.key == key then some x else lookup key ns)
  unfolding lookup
  lookup-append_node key x [] e = ground arith
  lookup-append_node key x (n ∷ ns) e = ground (arith, e, lookup-append_node key x ns)
