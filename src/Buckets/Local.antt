-- ===== src/Buckets/Local.antt =====
-- A change of the list at one address (attribute_set_impl.hpp) stays within the run of one bucket.
use boost_log.Base.{
  ℕ, ◌≡◌, ◌≢◌, inl, inr, true, false, Bool-cases, List, ◌∷◌, ◌++◌, ◌==◌, if◌then◌else◌, arith, refl,
  subst, sym, ap, ◌∙◌, ==_iff,
}
use boost_log.Buckets.{Node, Table, bucket_of, from}
use boost_log.Buckets.Lists.{
  has, Distinct, Distinct-has, has-append, All-from, from-append, from-has,
}
use boost_log.Buckets.Sorted.{IsSorted}
use boost_log.Buckets.Runs.{InBucket, OffBucket, ends, Run}

module _ {V : Type 0} (a : ℕ) (f : List (Node V) → List (Node V)) where
  -- The change reaches the first part of a list that has the address.
  abbrev IsLocal : Type 0
  IsLocal = (xs ys : List (Node V)) → f (xs ++ ys) ≡ (if has a xs then f xs ++ ys else xs ++ f ys)

  module _ (local : IsLocal) (t t' : Table V) (changed : t'.nodes ≡ f t.nodes) where
    -- In the run that has the address.
    own_run :
        (b : ℕ) (before run run' after : List (Node V))
        → t.nodes ≡ before ++ (run ++ after)
        → has a before ≡ false
        → has a run ≡ true
        → f run ≡ run'
        → t'.buckets b ≡ ends run'
        → IsSorted run'
        → InBucket b run'
        → OffBucket b before
        → OffBucket b after
        → Run t' b
    own_run b before run run' after cut h1 h2 e p s i ob oa = record {
      before = before;
      run = run';
      after = after;
      cut = rw (changed, cut, local before (run ++ after), h1, local run after, h2, e) refl;
      pointers = p;
      sorted = s;
      inside = i;
      off_before = ob;
      off_after = oa;
    }

    run_lacks :
        (b : ℕ) (before run after : List (Node V))
        → InBucket b run
        → (m : Node V) (ms : List (Node V)) → from a (before ++ (run ++ after)) ≡ m ∷ ms
        → bucket_of m.key ≢ b
        → has a before ≡ false
        → has a run ≡ false
    run_lacks b before run after i m ms e ne h = elim (Bool-cases (has a run)) [
      | inl y ↦
          let (k, ks, q) = from-has a run y in
          let same : k ∷ (ks ++ after) ≡ m ∷ ms =
            rw (from-append a before (run ++ after), h, from-append a run after, y, q) at e in
          let inside : InBucket b (k ∷ ks) =
            subst (InBucket b) q (All-from (λ n. bucket_of n.key ≡ b) a run i) in
          absurd (ne (ground (arith, same, inside.0)))
      | inr n ↦ n
    ]

    -- The run of another bucket is as it was.
    other_run :
        (b : ℕ)
        → Run t b
        → t'.buckets b ≡ t.buckets b
        → (m : Node V) (ms : List (Node V)) → from a t.nodes ≡ m ∷ ms
        → bucket_of m.key ≢ b
        → ((xs : List (Node V)) → OffBucket b xs → OffBucket b (f xs))
        → Run t' b
    other_run b r p m ms e ne keep = elim (Bool-cases (has a r.before)) [
      | inl h ↦ record {
        before = f r.before;
        run = r.run;
        after = r.after;
        cut = rw (changed, r.cut, local r.before (r.run ++ r.after), h) refl;
        pointers = p ∙ r.pointers;
        sorted = r.sorted;
        inside = r.inside;
        off_before = keep r.before r.off_before;
        off_after = r.off_after;
      }
      | inr h ↦
          let lacks : has a r.run ≡ false =
            run_lacks b r.before r.run r.after r.inside m ms (ap (from a) (sym r.cut) ∙ e) ne h in
          record {
            before = r.before;
            run = r.run;
            after = f r.after;
            cut =
                rw
                  (changed, r.cut, local r.before (r.run ++ r.after), h, local r.run r.after, lacks)
                  refl;
            pointers = p ∙ r.pointers;
            sorted = r.sorted;
            inside = r.inside;
            off_before = r.off_before;
            off_after = keep r.after r.off_after;
          }
    ]

    -- All runs of the changed table, where the address is in the run of the bucket `b`.
    pub all_runs :
        (b : ℕ) (r : Run t b) (run' : List (Node V))
        → ((c : ℕ) → Run t c)
        → Distinct t.nodes
        → has a r.run ≡ true
        → f r.run ≡ run'
        → t'.buckets b ≡ ends run'
        → IsSorted run'
        → InBucket b run'
        → ((c : ℕ) → c ≢ b → t'.buckets c ≡ t.buckets c)
        → ((c : ℕ) → c ≢ b → (xs : List (Node V)) → OffBucket c xs → OffBucket c (f xs))
        → (c : ℕ) → Run t' c
    all_runs b r run' runs d h e p s i others keep c = elim (Bool-cases (c == b)) [
      | inl q ↦
          subst (Run t') (sym ((==_iff c b).0 q))
            (own_run b r.before r.run run' r.after r.cut lacks h e p s i r.off_before r.off_after)
      | inr q ↦
          let ne : c ≢ b = λ w. ground (arith, q, w) in
          let (m, ms, g) = from-has a r.run h in
          let inside : InBucket b (m ∷ ms) =
            subst (InBucket b) g (All-from (λ n. bucket_of n.key ≡ b) a r.run r.inside) in
          other_run c (runs c) (others c ne) m (ms ++ r.after)
            (rw
              (
                r.cut,
                from-append a r.before (r.run ++ r.after),
                lacks,
                from-append a r.run r.after,
                h,
                g,
              )
              refl)
            (λ w. ne (sym w ∙ inside.0)) (keep c ne)
    ]
      where
        lacks : has a r.before ≡ false
        lacks =
            Distinct-has r.before (r.run ++ r.after) a (subst Distinct r.cut d)
              (rw (has-append a r.run r.after, h) refl)
