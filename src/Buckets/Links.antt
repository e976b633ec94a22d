-- ===== src/Buckets/Links.antt =====
-- The links of the nodes in a run, and the run after a removal (erase of attribute_set_impl.hpp).
use boost_log.Base.{
  ℕ, ◌≡◌, ◌≢◌, ◌<◌, inl, inr, true, false, Bool-cases, none, some, List, [], ◌∷◌, ◌++◌, ◌==◌, arith,
  refl, ap,
}
use boost_log.Buckets.{Node, from, remove, get_next, get_previous}
use boost_log.Buckets.Lists.{has, lookup, Distinct, All-remove, has-Absent}
use boost_log.Buckets.Sorted.{IsSorted, last_of, last_of-apart, lookup_above, above_trans}

module _ {V : Type 0} where
  pub get_next-append :
      (n m : Node V) (before rest : List (Node V))
      → has n.address before ≡ false
      → get_next n.address (before ++ n ∷ m ∷ rest) ≡ some m.address
  unfolding get_next has
  get_next-append n m [] rest h = ground arith
  get_next-append n m (y ∷ []) rest h = ground (arith, h)
  get_next-append n m (y ∷ z ∷ zs) rest h = ground (arith, h, get_next-append n m (z ∷ zs) rest)

  pub get_previous-append :
      (a : ℕ) (n : Node V) (before rest : List (Node V))
      → has a before ≡ false
      → n.address ≢ a
      → get_previous a (before ++ n ∷ rest) ≡ get_previous a (n ∷ rest)
  unfolding get_previous has
  get_previous-append a n [] rest h e = refl
  get_previous-append a n (y ∷ []) rest h e = ground (arith, h, e)
  get_previous-append a n (y ∷ z ∷ zs) rest h e =
      ground (arith, h, get_previous-append a n (z ∷ zs) rest)

  -- The link back from the last node leads to the node that is last without it.
  pub get_previous-last :
      (n m : Node V) (ms after : List (Node V))
      → Distinct (n ∷ m ∷ ms)
      → get_previous (last_of m ms).address (n ∷ m ∷ (ms ++ after))
        ≡ some (last_of n (remove (last_of m ms).address (m ∷ ms))).address
  unfolding get_previous last_of remove
  get_previous-last n m [] after d = ground arith
  get_previous-last n m (k ∷ ks) after d =
      ground (arith, last_of-apart m.address k ks d.1.0, get_previous-last m k ks after d.1)

  -- The removal of another node leaves the last one in place.
  pub last_of-remove :
      (a : ℕ) (n : Node V) (ns : List (Node V))
      → (last_of n ns).address ≢ a
      → last_of n (remove a ns) ≡ last_of n ns
  unfolding last_of remove
  last_of-remove a n [] e = refl
  last_of-remove a n (m ∷ []) e = ground (arith, e)
  last_of-remove a n (m ∷ k ∷ ks) e = ground (arith, last_of-remove a m (k ∷ ks) e)

  pub remove-IsSorted : (a : ℕ) (ns : List (Node V)) → IsSorted ns → IsSorted (remove a ns)
  unfolding remove
  remove-IsSorted a [] s = tt
  remove-IsSorted a (n ∷ ns) s = elim (Bool-cases (n.address == a)) [
    | inl e ↦ rw e s.1
    | inr e ↦ rw e (All-remove (λ m. n.key < m.key) a ns s.0, remove-IsSorted a ns s.1)
  ]

  pub lookup-has :
      (key : ℕ) (p : Node V) (ns : List (Node V))
      → lookup key ns ≡ some p
      → (has p.address ns ≡ true) × (p.key ≡ key)
  unfolding lookup has
  lookup-has key p [] e = absurd (ground (arith, e))
  lookup-has key p (n ∷ ns) e =
      (ground (arith, e, lookup-has key p ns), ground (arith, e, lookup-has key p ns))

  -- In a sorted run a key stands once.
  pub lookup-remove_self :
      (key : ℕ) (p : Node V) (ns : List (Node V))
      → IsSorted ns
      → Distinct ns
      → lookup key ns ≡ some p
      → lookup key (remove p.address ns) ≡ none
  unfolding lookup remove
  lookup-remove_self key p [] s d e = refl
  lookup-remove_self key p (n ∷ ns) s d e = elim (Bool-cases (n.key == key)) [
    | inl q ↦
        let same : n ≡ p = ground (arith, q, e) in
        ground (
          arith,
          ap (λ (m : Node V). m.address) same,
          lookup_above key ns (above_trans key n.key ns (ground (arith, q)) s.0),
        )
    | inr q ↦ ground (
      arith,
      q,
      e,
      lookup-has key p ns,
      has-Absent n.address ns d.0,
      lookup-remove_self key p ns s.1 d.1,
    )
  ]

  -- Another key is not touched.
  pub lookup-remove_ne :
      (a key : ℕ) (p : Node V) (ns ms : List (Node V))
      → from a ns ≡ p ∷ ms
      → p.key ≢ key
      → lookup key (remove a ns) ≡ lookup key ns
  unfolding lookup remove from
  lookup-remove_ne a key p [] ms e ne = refl
  lookup-remove_ne a key p (n ∷ ns) ms e ne = ground (arith, e, ne, lookup-remove_ne a key p ns ms)

  pub has-last : (n : Node V) (ns : List (Node V)) → has (last_of n ns).address (n ∷ ns) ≡ true
  unfolding has last_of
  has-last n [] = ground arith
  has-last n (m ∷ ms) = ground (arith, has-last m ms)

  -- The node with a key is the first one at its address.
  pub from-lookup :
      (key : ℕ) (p : Node V) (ns : List (Node V))
      → Distinct ns
      → lookup key ns ≡ some p
      → (ms : List (Node V)) × (from p.address ns ≡ p ∷ ms)
  unfolding from lookup
  from-lookup key p [] d e = absurd (ground (arith, e))
  from-lookup key p (n ∷ ns) d e = elim (Bool-cases (n.key == key)) [
    | inl q ↦ (ns, ground (arith, q, e))
    | inr q ↦
        let rest : lookup key ns ≡ some p = ground (arith, q, e) in
        let (ms, f) = from-lookup key p ns d.1 rest in
        (ms, ground (arith, f, lookup-has key p ns, rest, has-Absent n.address ns d.0))
  ]
