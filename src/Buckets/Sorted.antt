-- ===== src/Buckets/Sorted.antt =====
-- The run of one bucket (attribute_set_impl.hpp): nodes in the order of their keys, which find_in_bucket
-- walks through, and into which insert puts a node.
use boost_log.Base.{
  ℕ, ◌≡◌, ◌≢◌, ◌<◌, ◌≤◌, Bool, true, false, Bool-cases, none, some, List, [], ◌∷◌, ◌++◌, ◌&&◌, ltb,
  ◌==◌, if◌then◌else◌, All, arith, refl, inl, inr,
}
use boost_log.Buckets.{Node, with_key, walk, insert_before, insert_after}
use boost_log.Buckets.Lists.{has, lookup, Absent, Distinct}

module _ {V : Type 0} where
  abbrev pub IsSorted : List (Node V) → Type 0
  IsSorted [] = Unit
  IsSorted (n ∷ ns) = All (λ m. n.key < m.key) ns × IsSorted ns

  -- The last node of the run `n ∷ ns`.
  unfoldable pub last_of : Node V → List (Node V) → Node V
  last_of n [] = n
  last_of n (m ∷ ms) = last_of m ms

  -- Where the walk stops: at the first node whose key is not smaller, or else at the last node.
  pub stop : ℕ → Node V → List (Node V) → Node V
  stop key n [] = n
  stop key n (m ∷ ms) = if ltb n.key key then stop key m ms else n

  pub last_of-apart :
      (a : ℕ) (n : Node V) (ns : List (Node V)) → Absent a (n ∷ ns) → (last_of n ns).address ≢ a
  unfolding last_of
  last_of-apart a n [] f = f.0
  last_of-apart a n (m ∷ ms) f = last_of-apart a m ms f.1

  -- find_in_bucket in the run of the bucket.
  pub walk-stop :
      (key : ℕ) (n : Node V) (ns post : List (Node V))
      → Distinct (n ∷ ns)
      → walk (last_of n ns).address key (n ∷ ns ++ post) ≡ some (stop key n ns)
  unfolding walk last_of stop
  walk-stop key n [] post d = ground arith
  walk-stop key n (m ∷ ms) post d =
      ground (arith, last_of-apart n.address m ms d.0, walk-stop key m ms post d.1)

  pub lookup_above :
      (key : ℕ) (ns : List (Node V)) → All (λ m. key < m.key) ns → lookup key ns ≡ none
  unfolding lookup
  lookup_above key [] f = refl
  lookup_above key (n ∷ ns) f = ground (arith, f.0, lookup_above key ns f.1)

  pub above_trans :
      (a b : ℕ) (ns : List (Node V)) → a ≤ b → All (λ m. b < m.key) ns → All (λ m. a < m.key) ns
  above_trans a b [] l f = tt
  above_trans a b (n ∷ ns) l f = (omega (arith, f.0), above_trans a b ns l f.1)

  -- A key smaller than the first one is nowhere in the run.
  pub lookup_below :
      (key : ℕ) (n : Node V) (ns : List (Node V))
      → IsSorted (n ∷ ns)
      → key < n.key
      → lookup key (n ∷ ns) ≡ none
  unfolding lookup
  lookup_below key n ns s l =
      ground (arith, lookup_above key ns (above_trans key n.key ns (omega (arith, l)) s.0))

  -- The walk finds the key where it is.
  pub with_key-stop :
      (key : ℕ) (n : Node V) (ns : List (Node V))
      → IsSorted (n ∷ ns)
      → with_key key (some (stop key n ns)) ≡ lookup key (n ∷ ns)
  unfolding stop lookup
  with_key-stop key n [] s = ground arith
  with_key-stop key n (m ∷ ms) s =
      ground (arith, with_key-stop key m ms s.1, lookup_below key m ms s.1, s.0.0)

  pub has-stop :
      (key : ℕ) (n : Node V) (ns : List (Node V)) → has (stop key n ns).address (n ∷ ns) ≡ true
  unfolding has stop
  has-stop key n [] = ground arith
  has-stop key n (m ∷ ms) = ground (arith, has-stop key m ms)

  stop-apart :
      (a key : ℕ) (n : Node V) (ns : List (Node V))
      → Absent a (n ∷ ns)
      → (stop key n ns).address ≢ a
  unfolding stop
  stop-apart a key n [] f = f.0
  stop-apart a key n (m ∷ ms) f = elim (Bool-cases (ltb n.key key)) [
    | inl e ↦ rw e (stop-apart a key m ms f.1)
    | inr e ↦ rw e f.0
  ]

  All-stop :
      (P : Node V → Type 0) (key : ℕ) (n : Node V) (ns : List (Node V))
      → All P (n ∷ ns)
      → P (stop key n ns)
  unfolding stop
  All-stop P key n [] f = f.0
  All-stop P key n (m ∷ ms) f = elim (Bool-cases (ltb n.key key)) [
    | inl e ↦ rw e (All-stop P key m ms f.1)
    | inr e ↦ rw e f.0
  ]

  pub stop_first :
      (key : ℕ) (n : Node V) (ns : List (Node V)) → ltb n.key key ≡ false → stop key n ns ≡ n
  unfolding stop
  stop_first key n [] e = refl
  stop_first key n (m ∷ ms) e = rw e refl

  -- The run after the insertion of a node behind its first one: the list, and its last node.
  pub put : Node V → List (Node V) → List (Node V)
  put x [] = x ∷ []
  put x (m ∷ ms) = if ltb x.key m.key then x ∷ m ∷ ms else m ∷ put x ms

  -- Whether insert puts the node after the last one.
  abbrev pub is_last : Node V → Node V → List (Node V) → Bool
  is_last x n ns =
      (stop x.key n ns).address == (last_of n ns).address && ltb (stop x.key n ns).key x.key

  abbrev placed : Node V → Node V → List (Node V) → List (Node V) → List (Node V)
  placed x n ns run =
      if is_last x n ns
      then insert_after (stop x.key n ns).address x run
      else insert_before (stop x.key n ns).address x run

  -- What insert does in the run, where the key is larger than the first one.
  pub placed-put :
      (x n : Node V) (ns : List (Node V))
      → IsSorted (n ∷ ns)
      → Distinct (n ∷ ns)
      → n.key < x.key
      → lookup x.key ns ≡ none
      → (placed x n ns (n ∷ ns) ≡ n ∷ put x ns)
        × (last_of n (put x ns) ≡ (if is_last x n ns then x else last_of n ns))
  unfolding insert_before insert_after stop last_of put lookup
  placed-put x n [] s d l e = (ground arith, ground arith)
  placed-put x n (m ∷ ms) s d l e = elim (Bool-cases (ltb m.key x.key)) [
    | inl q ↦
        let (p1, p2) = placed-put x m ms s.1 d.1 (ground (arith, q)) (ground (arith, e)) in
        (ground (arith, q, l, p1, stop-apart n.address x.key m ms d.0), ground (arith, q, l, p2))
    | inr q ↦
        let first : stop x.key m ms ≡ m = stop_first x.key m ms q in
        (
          rw (stop_second l, first) (ground (arith, q, e, d.0.0)),
          rw (stop_second l, first) (ground (arith, q, e)),
        )
  ]
    where
      stop_second : n.key < x.key → stop x.key n (m ∷ ms) ≡ stop x.key m ms
      stop_second h = ground arith

  pub All-put :
      (P : Node V → Type 0) (x : Node V) (ns : List (Node V)) → P x → All P ns → All P (put x ns)
  unfolding put
  All-put P x [] p f = (p, tt)
  All-put P x (m ∷ ms) p f = elim (Bool-cases (ltb x.key m.key)) [
    | inl e ↦ rw e (p, f)
    | inr e ↦ rw e (f.0, All-put P x ms p f.1)
  ]

  pub put-IsSorted :
      (x n : Node V) (ns : List (Node V))
      → IsSorted (n ∷ ns)
      → n.key < x.key
      → lookup x.key ns ≡ none
      → IsSorted (n ∷ put x ns)
  unfolding put lookup
  put-IsSorted x n [] s l e = ((l, tt), (tt, tt))
  put-IsSorted x n (m ∷ ms) s l e = elim (Bool-cases (ltb x.key m.key)) [
    | inl q ↦
        rw q (
          (l, s.0),
          ((ground (arith, q), above_trans x.key m.key ms (ground (arith, q)) s.1.0), s.1),
        )
    | inr q ↦ rw q (
      (s.0.0, All-put (λ k. n.key < k.key) x ms l s.0.1),
      put-IsSorted x m ms s.1 (ground (arith, e, q)) (ground (arith, e)),
    )
  ]
