-- ===== src/Buckets/Erase.antt =====
-- The removal of a node from the table (erase of attribute_set_impl.hpp).
use boost_log.Base.{
  ℕ, suc, ◌≡◌, ◌≢◌, inl, inr, true, false, Bool-cases, none, some, List, [], ◌∷◌, ◌++◌, ◌==◌,
  if◌then◌else◌, length, arith, refl, subst, sym, ap, ◌∙◌, ==_iff,
}
use boost_log.Buckets.{Node, Table, bucket_of, set_bucket, remove, shrink_bucket, erase_node}
use boost_log.Buckets.Lists.{
  has, lookup, Absent, Distinct, Distinct-left, Distinct-right, Distinct-has, has-append,
  All-remove, remove-append, remove-Distinct, remove-Absent, length-remove,
}
use boost_log.Buckets.Lookup.{lookup-append, lookup-append_left}
use boost_log.Buckets.Sorted.{last_of, last_of-apart}
use boost_log.Buckets.Runs.{ends, Run, IsTable, lookup-run, lookup_off}
use boost_log.Buckets.Local.{all_runs}
use boost_log.Buckets.Links.{
  get_next-append, get_previous-append, get_previous-last, last_of-remove, remove-IsSorted,
  lookup-has, lookup-remove_self, lookup-remove_ne, has-last, from-lookup,
}

module _ {V : Type 0} where
  module _ (a : ℕ) (before after : List (Node V)) where
    -- The bucket that erase computes points to the ends of the shorter run.
    shrink-run :
        (n : Node V) (ns : List (Node V))
        → Distinct (n ∷ ns)
        → has a before ≡ false
        → has n.address before ≡ false
        → has (last_of n ns).address before ≡ false
        → has a (n ∷ ns) ≡ true
        → shrink_bucket a (before ++ n ∷ (ns ++ after)) (ends (n ∷ ns)) ≡ ends (remove a (n ∷ ns))
    unfolding shrink_bucket remove last_of has
    shrink-run n [] d h1 h2 h3 h = ground arith
    shrink-run n (m ∷ ms) d h1 h2 h3 h = elim (Bool-cases (a == n.address)) [
      | inl q ↦
          ground (
            arith,
            q,
            last_of-apart n.address m ms d.0,
            get_next-append n m before (ms ++ after) h2,
          )
      | inr q ↦ elim (Bool-cases (a == (last_of m ms).address)) [
        | inl l ↦ ground (
          arith,
          q,
          l,
          last_of-apart n.address m ms d.0,
          get_previous-append (last_of m ms).address n before (m ∷ (ms ++ after)) h3,
          get_previous-last n m ms after d,
        )
        | inr l ↦ ground (arith, q, l, last_of-remove a n (m ∷ ms))
      ]
    ]

  -- What a table is after the removal of the node with a key.
  pub record Erased (p : Node V) (t t' : Table V) : Type 0 where
    pub table : IsTable t'
    pub looks_up :
        (other : ℕ)
        → lookup other t'.nodes ≡ (if p.key == other then none else lookup other t.nodes)
    pub counted : suc (length t'.nodes) ≡ length t.nodes
    pub kept : (a : ℕ) → Absent a t.nodes → Absent a t'.nodes
    pub released : Absent p.address t'.nodes

  module _ (p : Node V) (t : Table V) (is : IsTable t) (found : lookup p.key t.nodes ≡ some p) where
    abbrev b : ℕ
    b = bucket_of p.key

    abbrev r : Run t b
    r = is.runs b

    in_run : lookup p.key r.run ≡ some p
    in_run = sym (lookup-run t p.key r) ∙ found

    has_p : has p.address r.run ≡ true
    has_p = (lookup-has p.key p r.run in_run).0

    has_nodes : has p.address t.nodes ≡ true
    has_nodes = (lookup-has p.key p t.nodes found).0

    apart : Distinct (r.before ++ (r.run ++ r.after))
    apart = subst Distinct r.cut is.distinct

    lacks : (c : ℕ) → has c r.run ≡ true → has c r.before ≡ false
    lacks c h =
        Distinct-has r.before (r.run ++ r.after) c apart (rw (has-append c r.run r.after, h) refl)

    Distinct-run : Distinct r.run
    Distinct-run = Distinct-left r.run r.after (Distinct-right r.before (r.run ++ r.after) apart)

    shrinks :
        (run : List (Node V))
        → r.run ≡ run
        → shrink_bucket p.address t.nodes (t.buckets b) ≡ ends (remove p.address r.run)
    unfolding has
    shrinks [] e = absurd (ground (arith, subst (λ l. has p.address l ≡ true) e has_p))
    shrinks (n ∷ ns) e =
        ap (λ l. shrink_bucket p.address l (t.buckets b)) whole
        ∙ ap (shrink_bucket p.address (r.before ++ n ∷ (ns ++ r.after))) (r.pointers ∙ ap ends e)
        ∙ shrink-run p.address r.before r.after n ns (subst Distinct e Distinct-run)
            (lacks p.address has_p) (lacks n.address (rw e (ground arith)))
            (lacks (last_of n ns).address (rw e (has-last n ns)))
            (subst (λ l. has p.address l ≡ true) e has_p)
        ∙ ap (λ l. ends (remove p.address l)) (sym e)
      where
        whole : t.nodes ≡ r.before ++ n ∷ (ns ++ r.after)
        whole = subst (λ run. t.nodes ≡ r.before ++ (run ++ r.after)) e r.cut

    abbrev t' : Table V
    t' = record {
      nodes = remove p.address t.nodes;
      buckets = set_bucket b (shrink_bucket p.address t.nodes (t.buckets b)) t.buckets;
    }

    runs' : (c : ℕ) → Run t' c
    runs' =
        all_runs p.address (remove p.address) (remove-append p.address) t t' refl b r
          (remove p.address r.run) is.runs is.distinct has_p refl
          (ground arith ∙ shrinks r.run refl) (remove-IsSorted p.address r.run r.sorted)
          (All-remove (λ m. bucket_of m.key ≡ b) p.address r.run r.inside)
          (λ c ne. ground (arith, ne))
          (λ c ne xs f. All-remove (λ m. bucket_of m.key ≢ c) p.address xs f)

    removed : remove p.address t.nodes ≡ r.before ++ (remove p.address r.run ++ r.after)
    removed =
        ap (remove p.address) r.cut
        ∙ remove-append p.address r.before (r.run ++ r.after)
        ∙ ground (arith, lacks p.address has_p, remove-append p.address r.run r.after, has_p)

    gone : lookup p.key (remove p.address t.nodes) ≡ none
    gone =
        ap (lookup p.key) removed
        ∙ lookup-append p.key r.before (remove p.address r.run ++ r.after)
            (lookup_off p.key r.before r.off_before)
        ∙ lookup-append_left p.key (remove p.address r.run) r.after
            (lookup_off p.key r.after r.off_after)
        ∙ lookup-remove_self p.key p r.run r.sorted Distinct-run in_run

    stays :
        (other : ℕ) → p.key ≢ other → lookup other (remove p.address t.nodes) ≡ lookup other t.nodes
    stays other ne =
        let (ms, f) = from-lookup p.key p t.nodes is.distinct found in
        lookup-remove_ne p.address other p t.nodes ms f ne

    pub erase_node-Erased : Erased p t (erase_node p t)
    unfolding erase_node
    erase_node-Erased = record {
      table = record { runs = runs'; distinct = remove-Distinct p.address t.nodes is.distinct };
      looks_up = λ other. elim (Bool-cases (p.key == other)) [
        | inl e ↦ rw e (
            subst (λ k. lookup k (remove p.address t.nodes) ≡ none) ((==_iff p.key other).0 e) gone)
        | inr e ↦ rw e (stays other (λ w. ground (arith, e, w)))
      ];
      counted = length-remove p.address t.nodes has_nodes;
      kept = λ a f. All-remove (λ m. m.address ≢ a) p.address t.nodes f;
      released = remove-Absent p.address t.nodes is.distinct;
    }
