-- ===== src/Buckets/Insert.antt =====
-- Insertion into the table (insert of attribute_set_impl.hpp, insert_node of attribute_values_view.cpp).
use boost_log.Base.{
  ℕ, suc, ◌≡◌, ◌≢◌, ◌<◌, inl, inr, true, false, Bool-cases, Option, none, some, List, [], ◌∷◌, ◌++◌,
  ◌==◌, if◌then◌else◌, length, length-append, arith, refl, subst, sym, ap, ◌∙◌, ==_iff,
}
use mathlib.Core.List.{append_assoc}
use boost_log.Buckets.{
  Node, Table, Bucket, bucket_of, set_bucket, head?, first_of, position, insert_before,
  insert_after, insert_node,
}
use boost_log.Buckets.Lists.{
  has, lookup, Absent, Distinct, has-append, All-append, All-insert_before, All-insert_after,
  insert_before-append, insert_after-append, insert_before-Distinct, Distinct-left, Distinct-right,
  insert_after-Distinct, append-Distinct, length-insert_before, length-insert_after,
}
use boost_log.Buckets.Lookup.{lookup-insert_before, lookup-insert_after, lookup-append_node}
use boost_log.Buckets.Sorted.{
  IsSorted, last_of, stop, has-stop, put, is_last, placed-put, All-put, put-IsSorted,
}
use boost_log.Buckets.Runs.{
  InBucket, OffBucket, ends, Run, IsTable, lookup-run, first_of-run, stop_in, position-run,
}
use boost_log.Buckets.Local.{all_runs}

module _ {V : Type 0} where
  -- The first node of the key's bucket, if there is one, has a smaller key.
  abbrev pub FitsAfter : ℕ → Option (Node V) → Type 0
  FitsAfter key none = Unit
  FitsAfter key (some n) = n.key < key

  -- What a table is after the insertion of a node with a new key.
  pub record Inserted (x : Node V) (t t' : Table V) : Type 0 where
    pub table : IsTable t'
    pub looks_up :
        (key : ℕ) → lookup key t'.nodes ≡ (if x.key == key then some x else lookup key t.nodes)
    pub counted : length t'.nodes ≡ suc (length t.nodes)
    pub kept : (a : ℕ) → x.address ≢ a → Absent a t.nodes → Absent a t'.nodes

  module _ (x : Node V) (t : Table V) (is : IsTable t) (new : lookup x.key t.nodes ≡ none)
      (fresh : Absent x.address t.nodes) where
    abbrev b : ℕ
    b = bucket_of x.key

    abbrev r : Run t b
    r = is.runs b

    other_buckets : (v : Bucket) (c : ℕ) → c ≢ b → set_bucket b v t.buckets c ≡ t.buckets c
    other_buckets v c ne = ground (arith, ne)

    own_bucket : (v : Bucket) → set_bucket b v t.buckets b ≡ v
    own_bucket v = ground arith

    abbrev pushed : Table V
    pushed = record {
      nodes = t.nodes ++ x ∷ [];
      buckets = set_bucket b (some (x.address, x.address)) t.buckets;
    }

    pushed-Run : r.run ≡ [] → (c : ℕ) → Run pushed c
    unfolding last_of
    pushed-Run e c = elim (Bool-cases (c == b)) [
      | inl q ↦ subst (Run pushed) (sym ((==_iff c b).0 q)) (record {
        before = t.nodes;
        run = x ∷ [];
        after = [];
        cut = refl;
        pointers = own_bucket (some (x.address, x.address));
        sorted = (tt, tt);
        inside = (refl, tt);
        off_before =
            subst (OffBucket b) (sym whole)
              (All-append (λ m. bucket_of m.key ≢ b) r.before r.after r.off_before r.off_after);
        off_after = tt;
      })
      | inr q ↦
          let ne : c ≢ b = λ w. ground (arith, q, w) in
          let old : Run t c = is.runs c in
          record {
            before = old.before;
            run = old.run;
            after = old.after ++ x ∷ [];
            cut =
                rw
                  (
                    old.cut,
                    append_assoc old.before (old.run ++ old.after) (x ∷ []),
                    append_assoc old.run old.after (x ∷ []),
                  )
                  refl;
            pointers = other_buckets (some (x.address, x.address)) c ne ∙ old.pointers;
            sorted = old.sorted;
            inside = old.inside;
            off_before = old.off_before;
            off_after =
                All-append (λ m. bucket_of m.key ≢ c) old.after (x ∷ []) old.off_after
                  ((λ w. ne (sym w)), tt);
          }
    ]
      where
        whole : t.nodes ≡ r.before ++ r.after
        whole = subst (λ run. t.nodes ≡ r.before ++ (run ++ r.after)) e r.cut

    pushed-Inserted : r.run ≡ [] → Inserted x t pushed
    pushed-Inserted e = record {
      table = record {
        runs = pushed-Run e;
        distinct = append-Distinct x t.nodes fresh is.distinct;
      };
      looks_up = λ key. lookup-append_node key x t.nodes new;
      counted = omega (arith, length-append t.nodes (x ∷ []));
      kept = λ a ne f. All-append (λ m. m.address ≢ a) t.nodes (x ∷ []) f (ne, tt);
    }

    module _ (n : Node V) (ns : List (Node V)) (run : r.run ≡ n ∷ ns) (above : n.key < x.key) where
      abbrev p : Node V
      p = stop x.key n ns

      abbrev after_last : Table V
      after_last = record {
        nodes = insert_after p.address x t.nodes;
        buckets = set_bucket b (some (n.address, x.address)) t.buckets;
      }

      abbrev within : Table V
      within = record t { nodes = insert_before p.address x t.nodes }

      has_p : has p.address r.run ≡ true
      has_p = rw (run) (has-stop x.key n ns)

      has_nodes : has p.address t.nodes ≡ true
      has_nodes =
          rw
            (
              r.cut,
              has-append p.address r.before (r.run ++ r.after),
              has-append p.address r.run r.after,
              has_p,
            )
            (ground arith)

      sorted : IsSorted (n ∷ ns)
      sorted = subst IsSorted run r.sorted

      inside : InBucket b (n ∷ ns)
      inside = subst (InBucket b) run r.inside

      absent : lookup x.key (n ∷ ns) ≡ none
      absent = subst (λ l. lookup x.key l ≡ none) run (sym (lookup-run t x.key r) ∙ new)

      distinct : Distinct (n ∷ ns)
      distinct = subst Distinct run (
          Distinct-left r.run r.after
            (Distinct-right r.before (r.run ++ r.after) (subst Distinct r.cut is.distinct)))

      pointers : t.buckets b ≡ some (n.address, (last_of n ns).address)
      pointers = r.pointers ∙ ap ends run

      new_tail : lookup x.key ns ≡ none
      unfolding lookup
      new_tail = ground (arith, absent)

      put_inside : InBucket b (n ∷ put x ns)
      put_inside = (inside.0, All-put (λ m. bucket_of m.key ≡ b) x ns refl inside.1)

      tail_put :
          ((if is_last x n ns
              then insert_after p.address x (n ∷ ns)
              else insert_before p.address x (n ∷ ns))
            ≡ n ∷ put x ns)
          × (last_of n (put x ns) ≡ (if is_last x n ns then x else last_of n ns))
      tail_put = placed-put x n ns sorted distinct above new_tail

      after_last-Inserted : is_last x n ns ≡ true → Inserted x t after_last
      after_last-Inserted e = record {
        table = record {
          runs =
              all_runs p.address (insert_after p.address x) (insert_after-append p.address x) t
                after_last refl b r (n ∷ put x ns) is.runs is.distinct has_p
                (rw run (rw e at (tail_put.0)))
                (rw ends_in_new (own_bucket (some (n.address, x.address))))
                (put-IsSorted x n ns sorted above new_tail) put_inside
                (other_buckets (some (n.address, x.address)))
                (λ c ne xs f.
                  All-insert_after (λ m. bucket_of m.key ≢ c) p.address x xs (λ w. ne (sym w)) f);
          distinct = insert_after-Distinct p.address x t.nodes fresh is.distinct;
        };
        looks_up = λ key. lookup-insert_after p.address key x t.nodes new has_nodes;
        counted = length-insert_after p.address x t.nodes has_nodes;
        kept = λ a ne f. All-insert_after (λ m. m.address ≢ a) p.address x t.nodes ne f;
      }
        where
          ends_in_new : last_of n (put x ns) ≡ x
          ends_in_new = rw e at (tail_put.1)

      within-Inserted : is_last x n ns ≡ false → Inserted x t within
      within-Inserted e = record {
        table = record {
          runs =
              all_runs p.address (insert_before p.address x) (insert_before-append p.address x) t
                within refl b r (n ∷ put x ns) is.runs is.distinct has_p
                (rw run (rw e at (tail_put.0)))
                (pointers ∙ ap (λ (m : Node V). some (n.address, m.address)) (sym same_end))
                (put-IsSorted x n ns sorted above new_tail) put_inside (λ c ne. refl)
                (λ c ne xs f.
                  All-insert_before (λ m. bucket_of m.key ≢ c) p.address x xs (λ w. ne (sym w)) f);
          distinct = insert_before-Distinct p.address x t.nodes fresh is.distinct;
        };
        looks_up = λ key. lookup-insert_before p.address key x t.nodes new has_nodes;
        counted = length-insert_before p.address x t.nodes has_nodes;
        kept = λ a ne f. All-insert_before (λ m. m.address ≢ a) p.address x t.nodes ne f;
      }
        where
          same_end : last_of n (put x ns) ≡ last_of n ns
          same_end = rw e at (tail_put.1)

      insert_node_run : insert_node x (some p) t ≡ (if is_last x n ns then after_last else within)
      unfolding insert_node
      insert_node_run = rw (insert_node, pointers) refl

      insert_run-Inserted : Inserted x t (insert_node x (some p) t)
      insert_run-Inserted = elim (Bool-cases (is_last x n ns)) [
        | inl e ↦ subst (Inserted x t) (sym (rw e at insert_node_run)) (after_last-Inserted e)
        | inr e ↦ subst (Inserted x t) (sym (rw e at insert_node_run)) (within-Inserted e)
      ]

    insert_pushed : r.run ≡ [] → insert_node x none t ≡ pushed
    unfolding insert_node
    insert_pushed e = rw (insert_node, r.pointers ∙ ap ends e) refl

    insert_in-Inserted :
        (run : List (Node V))
        → r.run ≡ run
        → FitsAfter x.key (head? run)
        → Inserted x t (insert_node x (stop_in x.key run) t)
    insert_in-Inserted [] e f = subst (Inserted x t) (sym (insert_pushed e)) (pushed-Inserted e)
    insert_in-Inserted (n ∷ ns) e f = insert_run-Inserted n ns e f

    -- A node with a new key that is larger than the first one of its bucket becomes part of the table.
    pub insert_node-Inserted :
        FitsAfter x.key (first_of x.key t) → Inserted x t (insert_node x (position x.key t) t)
    insert_node-Inserted f = rw (position-run t x.key r is.distinct) (
        insert_in-Inserted r.run refl
          (subst (FitsAfter x.key) (first_of-run t x.key r is.distinct) f))
