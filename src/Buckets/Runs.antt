-- ===== src/Buckets/Runs.antt =====
-- The invariant of the table (attribute_set_impl.hpp): each bucket points to the ends of a run of the
-- list, sorted by key, with all nodes of the bucket and no other; and the search over it.
use boost_log.Base.{ℕ, ◌≡◌, ◌≢◌, Option, none, some, List, [], ◌∷◌, ◌++◌, All, arith, refl, subst}
use boost_log.Buckets.{
  Node, Bucket, Table, bucket_of, with_key, empty_table, from, head?, first_of, position, find,
}
use boost_log.Buckets.Lists.{
  has, lookup, Distinct, from-append, Distinct-right, Distinct-left, Distinct-has,
}
use boost_log.Buckets.Lookup.{lookup-append, lookup-append_left, lookup-All}
use boost_log.Buckets.Sorted.{IsSorted, last_of, stop, walk-stop, with_key-stop}

module _ {V : Type 0} where
  abbrev pub InBucket : ℕ → List (Node V) → Type 0
  InBucket b = All (λ n. bucket_of n.key ≡ b)

  abbrev pub OffBucket : ℕ → List (Node V) → Type 0
  OffBucket b = All (λ n. bucket_of n.key ≢ b)

  abbrev pub ends : List (Node V) → Bucket
  ends [] = none
  ends (n ∷ ns) = some (n.address, (last_of n ns).address)

  -- The list of a table is cut at the run of a bucket.
  pub record Run (t : Table V) (b : ℕ) : Type 0 where
    pub before : List (Node V)
    pub run : List (Node V)
    pub after : List (Node V)
    pub cut : t.nodes ≡ before ++ (run ++ after)
    pub pointers : t.buckets b ≡ ends run
    pub sorted : IsSorted run
    pub inside : InBucket b run
    pub off_before : OffBucket b before
    pub off_after : OffBucket b after

  pub record IsTable (t : Table V) : Type 0 where
    pub runs : (b : ℕ) → Run t b
    pub distinct : Distinct t.nodes

  pub empty_table-IsTable : IsTable empty_table
  unfolding empty_table
  empty_table-IsTable = record {
    runs = λ b. record {
      before = [];
      run = [];
      after = [];
      cut = refl;
      pointers = refl;
      sorted = tt;
      inside = tt;
      off_before = tt;
      off_after = tt;
    };
    distinct = tt;
  }

  pub lookup_off :
      (key : ℕ) (ns : List (Node V)) → OffBucket (bucket_of key) ns → lookup key ns ≡ none
  lookup_off key ns f = lookup-All (λ k. bucket_of k ≢ bucket_of key) key ns (λ h. h refl) f

  -- To look a key up in the whole list is to look it up in its run.
  pub lookup-run :
      (t : Table V) (key : ℕ) (r : Run t (bucket_of key)) → lookup key t.nodes ≡ lookup key r.run
  lookup-run t key r =
      rw
        (
          r.cut,
          lookup-append key r.before (r.run ++ r.after) (lookup_off key r.before r.off_before),
        )
        (lookup-append_left key r.run r.after (lookup_off key r.after r.off_after))

  from_head : (n : Node V) (ns : List (Node V)) → from n.address (n ∷ ns) ≡ n ∷ ns
  unfolding from
  from_head n ns = ground arith

  -- Where find and insert stop: nowhere in an empty bucket.
  abbrev pub stop_in : ℕ → List (Node V) → Option (Node V)
  stop_in key [] = none
  stop_in key (n ∷ ns) = some (stop key n ns)

  from_run :
      (n : Node V) (before rest : List (Node V))
      → Distinct (before ++ n ∷ rest)
      → from n.address (before ++ n ∷ rest) ≡ n ∷ rest
  unfolding has
  from_run n before rest d =
      rw
        (
          from-append n.address before (n ∷ rest),
          Distinct-has before (n ∷ rest) n.address d (ground arith),
        )
        (from_head n rest)

  pub position_cut :
      (t : Table V) (key : ℕ) (before run after : List (Node V))
      → t.nodes ≡ before ++ (run ++ after)
      → t.buckets (bucket_of key) ≡ ends run
      → Distinct (before ++ (run ++ after))
      → position key t ≡ stop_in key run
  unfolding position
  position_cut t key before [] after c p d = rw (position, p) refl
  position_cut t key before (n ∷ ns) after c p d =
      rw (position, p, c, from_run n before (ns ++ after) d)
        (walk-stop key n ns after
          (Distinct-left (n ∷ ns) after (Distinct-right before (n ∷ ns ++ after) d)))

  pub position-run :
      (t : Table V) (key : ℕ) (r : Run t (bucket_of key))
      → Distinct t.nodes
      → position key t ≡ stop_in key r.run
  position-run t key r d =
      position_cut t key r.before r.run r.after r.cut r.pointers (subst Distinct r.cut d)

  first_of_cut :
      (t : Table V) (key : ℕ) (before run after : List (Node V))
      → t.nodes ≡ before ++ (run ++ after)
      → t.buckets (bucket_of key) ≡ ends run
      → Distinct (before ++ (run ++ after))
      → first_of key t ≡ head? run
  unfolding first_of
  first_of_cut t key before [] after c p d = rw (first_of, p) refl
  first_of_cut t key before (n ∷ ns) after c p d =
      rw (first_of, p, c, from_run n before (ns ++ after) d) refl

  pub first_of-run :
      (t : Table V) (key : ℕ) (r : Run t (bucket_of key))
      → Distinct t.nodes
      → first_of key t ≡ head? r.run
  first_of-run t key r d =
      first_of_cut t key r.before r.run r.after r.cut r.pointers (subst Distinct r.cut d)

  with_key-stop_in :
      (key : ℕ) (run : List (Node V))
      → IsSorted run
      → with_key key (stop_in key run) ≡ lookup key run
  unfolding lookup
  with_key-stop_in key [] s = refl
  with_key-stop_in key (n ∷ ns) s = with_key-stop key n ns s

  -- The search through the bucket of a key finds the node with the key in the whole list, if there is
  -- one.
  pub find-lookup : (t : Table V) (key : ℕ) → IsTable t → find key t ≡ lookup key t.nodes
  unfolding find
  find-lookup t key is =
      rw
        (
          position-run t key (is.runs (bucket_of key)) is.distinct,
          lookup-run t key (is.runs (bucket_of key)),
        )
        (with_key-stop_in key (is.runs (bucket_of key)).run (is.runs (bucket_of key)).sorted)
