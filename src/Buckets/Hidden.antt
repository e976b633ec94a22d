-- ===== src/Buckets/Hidden.antt =====
-- The insertion of a node before the first one of its bucket (insert of attribute_set_impl.hpp,
-- insert_node of attribute_values_view.cpp).
use boost_log.Base.{
  ℕ, suc, ◌≡◌, ◌<◌, true, false, Option, none, some, List, [], ◌∷◌, ◌++◌, length, arith, refl,
  subst, sym, ap, ◌∙◌,
}
use mathlib.Core.List.{append_assoc}
use boost_log.Buckets.{
  Node, Table, bucket_of, head?, first_of, position, with_key, find, insert_before, insert_node,
}
use boost_log.Buckets.Lists.{
  has, lookup, Absent, Distinct, Distinct-has, has-append, insert_before-append,
  insert_before-Distinct, length-insert_before,
}
use boost_log.Buckets.Lookup.{lookup-insert_before}
use boost_log.Buckets.Sorted.{IsSorted, last_of, stop, stop_first, lookup_below}
use boost_log.Buckets.Runs.{find-lookup, ends, Run, IsTable, lookup-run, first_of-run, position_cut}

-- A table, cut before the first node `n` of the bucket of `x`, whose key is larger.
module _ {V : Type 0} (x n : Node V) (before ns after : List (Node V)) (t : Table V)
    (cut : t.nodes ≡ before ++ n ∷ (ns ++ after))
    (pointers : t.buckets (bucket_of x.key) ≡ some (n.address, (last_of n ns).address))
    (distinct : Distinct t.nodes) (fresh : Absent x.address t.nodes) (below : x.key < n.key) where
  abbrev hiding : Table V
  hiding = record t { nodes = insert_before n.address x t.nodes }

  apart_cut : Distinct (before ++ n ∷ (ns ++ after))
  apart_cut = subst Distinct cut distinct

  lacks : has n.address before ≡ false
  unfolding has
  lacks = Distinct-has before (n ∷ (ns ++ after)) n.address apart_cut (ground arith)

  has_nodes : has n.address t.nodes ≡ true
  unfolding has
  has_nodes = rw (cut, has-append n.address before (n ∷ (ns ++ after)), lacks) (ground arith)

  stops : stop x.key n ns ≡ n
  stops = stop_first x.key n ns (ground (arith, below))

  insert_at_head : insert_node x (some n) t ≡ hiding
  unfolding insert_node
  insert_at_head = rw (insert_node, pointers) (ground (arith, below))

  -- The search stops at `n`, which has another key.
  pub find_stuck : find x.key t ≡ none
  unfolding find
  find_stuck =
      ap (with_key x.key) (position_cut t x.key before (n ∷ ns) after cut pointers apart_cut)
      ∙ ap (λ m. with_key x.key (some m)) stops
      ∙ ground (arith, below)

  pub insert_hiding : insert_node x (position x.key t) t ≡ hiding
  insert_hiding =
      ap (λ w. insert_node x w t)
        (position_cut t x.key before (n ∷ ns) after cut pointers apart_cut ∙ ap some stops)
      ∙ insert_at_head

  insert_before_head : insert_before n.address x (n ∷ (ns ++ after)) ≡ x ∷ n ∷ (ns ++ after)
  unfolding insert_before
  insert_before_head = ground arith

  pub inserted : insert_before n.address x t.nodes ≡ (before ++ x ∷ []) ++ (n ∷ (ns ++ after))
  inserted =
      ap (insert_before n.address x) cut
      ∙ insert_before-append n.address x before (n ∷ (ns ++ after))
      ∙ ground (arith, lacks, insert_before_head, append_assoc before (x ∷ []) (n ∷ (ns ++ after)))

  find_hiding : find x.key hiding ≡ none
  unfolding find
  find_hiding =
      rw
        (
          find,
          position_cut hiding x.key (before ++ x ∷ []) (n ∷ ns) after inserted pointers
              (subst Distinct inserted (insert_before-Distinct n.address x t.nodes fresh distinct)),
          stops,
        )
        (ground (arith, below))

  hiding_counted : length (insert_before n.address x t.nodes) ≡ suc (length t.nodes)
  hiding_counted = length-insert_before n.address x t.nodes has_nodes

-- What a table is after a node was inserted where the search does not reach it: the list has it, and
-- the search for its key fails.
pub record Hides {V : Type 0} (x : Node V) (t t' : Table V) : Type 0 where
  pub not_found : find x.key t' ≡ none
  in_list : lookup x.key t'.nodes ≡ some x
  pub counted : length t'.nodes ≡ suc (length t.nodes)

module _ {V : Type 0} (x : Node V) (t : Table V) (is : IsTable t)
    (fresh : Absent x.address t.nodes) where
  Hides-run :
      (n : Node V) (ns : List (Node V)) (r : Run t (bucket_of x.key))
      → r.run ≡ n ∷ ns
      → x.key < n.key
      → Hides x t (insert_node x (position x.key t) t)
  Hides-run n ns r e l = subst (Hides x t) (sym insert) (record {
    not_found = find_hiding x n r.before ns r.after t cut pointers is.distinct fresh l;
    in_list =
        lookup-insert_before n.address x.key x t.nodes absent
          (has_nodes x n r.before ns r.after t cut pointers is.distinct fresh l)
        ∙ ground arith;
    counted = hiding_counted x n r.before ns r.after t cut pointers is.distinct fresh l;
  })
    where
      cut : t.nodes ≡ r.before ++ n ∷ (ns ++ r.after)
      cut = subst (λ run. t.nodes ≡ r.before ++ (run ++ r.after)) e r.cut

      pointers : t.buckets (bucket_of x.key) ≡ some (n.address, (last_of n ns).address)
      pointers = r.pointers ∙ ap ends e

      absent : lookup x.key t.nodes ≡ none
      absent =
          lookup-run t x.key r
          ∙ ap (lookup x.key) e
          ∙ lookup_below x.key n ns (subst IsSorted e r.sorted) l

      insert :
          insert_node x (position x.key t) t
          ≡ hiding x n r.before ns r.after t cut pointers is.distinct fresh l
      insert = insert_hiding x n r.before ns r.after t cut pointers is.distinct fresh l

  Hides-in :
      (n : Node V) (run : List (Node V)) (r : Run t (bucket_of x.key))
      → r.run ≡ run
      → head? run ≡ some n
      → x.key < n.key
      → Hides x t (insert_node x (position x.key t) t)
  Hides-in n [] r e h l = absurd (ground (arith, h))
  Hides-in n (m ∷ ms) r e h l = Hides-run m ms r e (ground (arith, h, l))

  -- A node whose key is smaller than that of the first one of its bucket is hidden.
  pub insert_node-Hides :
      (n : Node V)
      → first_of x.key t ≡ some n
      → x.key < n.key
      → Hides x t (insert_node x (position x.key t) t)
  insert_node-Hides n f l = Hides-in n r.run r refl (sym (first_of-run t x.key r is.distinct) ∙ f) l
    where
      r : Run t (bucket_of x.key)
      r = is.runs (bucket_of x.key)

module _ {V : Type 0} (key : ℕ) (t : Table V) (is : IsTable t) where
  below_in :
      (n : Node V) (run : List (Node V))
      → IsSorted run
      → head? run ≡ some n
      → key < n.key
      → lookup key run ≡ none
  below_in n [] s h l = absurd (ground (arith, h))
  below_in n (m ∷ ms) s h l = lookup_below key m ms s (ground (arith, ap (λ o. keyed o) h, l))
    where
      keyed : Option (Node V) → ℕ
      keyed none = 0
      keyed (some k) = k.key

  -- A key smaller than that of the first node of its bucket is not in the table.
  pub find_below : (n : Node V) → first_of key t ≡ some n → key < n.key → find key t ≡ none
  find_below n f l =
      find-lookup t key is
      ∙ lookup-run t key r
      ∙ below_in n r.run r.sorted (sym (first_of-run t key r is.distinct) ∙ f) l
    where
      r : Run t (bucket_of key)
      r = is.runs (bucket_of key)
