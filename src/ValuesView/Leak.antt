-- ===== src/ValuesView/Leak.antt =====
-- Searches in a view (attribute_values_view.cpp) for a key that is smaller than the first one in its
-- bucket.
use boost_log.Base.{
  ℕ, zero, suc, ◌+◌, ◌≡◌, ◌<◌, Option, none, some, List, [], ◌∷◌, ◌++◌, All, arith, refl, subst,
  sym, ap, ◌∙◌,
}
use boost_log.Buckets.{
  Node, Table, bucket_of, with_key, position, insert_node, insert_before, first_of, head?,
}
use boost_log.Buckets
use boost_log.Buckets.Lists.{Absent, Distinct, All-insert_before, insert_before-Distinct}
use boost_log.Buckets.Sorted.{last_of}
use boost_log.Buckets.Runs.{IsTable, Run, ends, first_of-run}
use boost_log.Buckets.Hidden.{find_stuck, insert_hiding, inserted}
use boost_log.ValuesView.{Attributes, ValuesView, find_attribute, freeze_node, find}

module _ {A V : Type 0} (get_value : A → V) where
  -- The list is cut before the first node of the bucket of the key, whose key is larger; the sets have an
  -- attribute with the key, and the nodes are in the storage.
  record IsStuck (key : ℕ) (a : A) (v : ValuesView A V) : Type 0 where
    sets : Attributes A
    unfrozen : v.attributes ≡ some sets
    has_key : find_attribute get_value key sets ≡ some a
    first : Node V
    before : List (Node V)
    rest : List (Node V)
    after : List (Node V)
    cut : v.table.nodes ≡ before ++ first ∷ (rest ++ after)
    pointers : v.table.buckets (bucket_of key) ≡ some (first.address, (last_of first rest).address)
    distinct : Distinct v.table.nodes
    stored : All (λ n. n.address < v.end) v.table.nodes
    below : key < first.key

  Absent-of_stored : (e : ℕ) (ns : List (Node V)) → All (λ n. n.address < e) ns → Absent e ns
  Absent-of_stored e [] f = tt
  Absent-of_stored e (n ∷ ns) f = ((λ q. omega (arith, f.0, q)), Absent-of_stored e ns f.1)

  stored_suc :
      (e : ℕ) (ns : List (Node V)) → All (λ n. n.address < e) ns → All (λ n. n.address < suc e) ns
  stored_suc e [] f = tt
  stored_suc e (n ∷ ns) f = (omega (arith, f.0), stored_suc e ns f.1)

  abbrev taken : ℕ → A → ValuesView A V → Node V
  taken key a v = record { address = v.end; key = key; value = get_value a }

  -- A search that does not find the key in the table goes to the sets.
  pub find_unfrozen :
      (key : ℕ) (v : ValuesView A V) (sets : Attributes A)
      → Buckets.find key v.table ≡ none
      → v.attributes ≡ some sets
      → find get_value key v ≡ freeze_node get_value key (find_attribute get_value key sets) v
  unfolding find Buckets.find
  find_unfrozen key v sets e u = rw (find, e) (ap (λ (o : Option (Attributes A)). from_sets o) u)
    where
      from_sets : Option (Attributes A) → ValuesView A V × Option (Node V)
      from_sets o = elim o [
        | none ↦ (v, none)
        | some sets' ↦ freeze_node get_value key (find_attribute get_value key sets') v
      ]

  find_taken :
      (key : ℕ) (a : A) (v : ValuesView A V) (s : IsStuck key a v)
      → find get_value key v ≡ (
        record v {
          table = insert_node (taken key a v) (position key v.table) v.table;
          end = suc v.end;
        },
        some (taken key a v),
      )
  unfolding freeze_node
  find_taken key a v s =
      find_unfrozen key v s.sets
        (find_stuck (taken key a v) s.first s.before s.rest s.after v.table s.cut s.pointers
          s.distinct (Absent-of_stored v.end v.table.nodes s.stored) s.below)
        s.unfrozen
      ∙ ap (λ o. freeze_node get_value key o v) s.has_key

  taken-IsStuck :
      (key : ℕ) (a : A) (v : ValuesView A V)
      → IsStuck key a v
      → IsStuck key a (record v {
        table = insert_node (taken key a v) (position key v.table) v.table;
        end = suc v.end;
      })
  taken-IsStuck key a v s =
      subst (λ t. IsStuck key a (record v { table = t; end = suc v.end })) (sym same)
        (record {
          sets = s.sets;
          unfrozen = s.unfrozen;
          has_key = s.has_key;
          first = s.first;
          before = s.before ++ x ∷ [];
          rest = s.rest;
          after = s.after;
          cut =
              inserted x s.first s.before s.rest s.after v.table s.cut s.pointers s.distinct fresh
                s.below;
          pointers = s.pointers;
          distinct = insert_before-Distinct s.first.address x v.table.nodes fresh s.distinct;
          stored =
              All-insert_before (λ n. n.address < suc v.end) s.first.address x v.table.nodes
                (omega arith) (stored_suc v.end v.table.nodes s.stored);
          below = s.below;
        })
    where
      x : Node V
      x = taken key a v

      fresh : Absent v.end v.table.nodes
      fresh = Absent-of_stored v.end v.table.nodes s.stored

      same :
          insert_node x (position key v.table) v.table
          ≡ record v.table { nodes = insert_before s.first.address x v.table.nodes }
      same =
          insert_hiding x s.first s.before s.rest s.after v.table s.cut s.pointers s.distinct fresh
            s.below

  -- As many searches for the key.
  find_times : ℕ → ℕ → ValuesView A V → ValuesView A V
  find_times zero key v = v
  find_times (suc k) key v = find_times k key (find get_value key v).0

  stuck_end :
      (k key : ℕ) (a : A) (v : ValuesView A V)
      → IsStuck key a v
      → ((find_times k key v).end ≡ v.end + k) × ((find_times k key v).eos ≡ v.eos)
  unfolding find_times
  stuck_end zero key a v s = (omega arith, refl)
  stuck_end (suc k) key a v s = ground (
    arith,
    find_taken key a v s,
    stuck_end k key a
        (record v {
          table = insert_node (taken key a v) (position key v.table) v.table;
          end = suc v.end;
        })
        (taken-IsStuck key a v s),
  )

  IsStuck-run :
      (key : ℕ) (a : A) (v : ValuesView A V) (sets : Attributes A) (first : Node V)
      → IsTable v.table
      → All (λ n. n.address < v.end) v.table.nodes
      → v.attributes ≡ some sets
      → find_attribute get_value key sets ≡ some a
      → key < first.key
      → (r : Run v.table (bucket_of key)) (run : List (Node V)) → r.run ≡ run
      → head? run ≡ some first
      → IsStuck key a v
  IsStuck-run key a v sets first is stored u h l r [] e f = absurd (ground (arith, f))
  IsStuck-run key a v sets first is stored u h l r (n ∷ ns) e f = record {
    sets = sets;
    unfrozen = u;
    has_key = h;
    first = n;
    before = r.before;
    rest = ns;
    after = r.after;
    cut = subst (λ run. v.table.nodes ≡ r.before ++ (run ++ r.after)) e r.cut;
    pointers = r.pointers ∙ ap ends e;
    distinct = is.distinct;
    stored = stored;
    below = ground (arith, f, l);
  }

  -- In a view that is not frozen, with an attribute whose key is smaller than that of the first node in
  -- its bucket, every search for the key takes another node of the storage, so that after some searches
  -- for the same key the end of the nodes lies beyond the end of the storage.
  find_times-overflows :
      (key : ℕ) (a : A) (v : ValuesView A V) (sets : Attributes A) (first : Node V)
      → IsTable v.table
      → All (λ n. n.address < v.end) v.table.nodes
      → v.attributes ≡ some sets
      → find_attribute get_value key sets ≡ some a
      → first_of key v.table ≡ some first
      → key < first.key
      → ((k : ℕ) → (find_times k key v).end ≡ v.end + k)
        × ((find_times (suc v.eos) key v).eos < (find_times (suc v.eos) key v).end)
  find_times-overflows key a v sets first is stored u h f l =
      ((λ k. (stuck_end k key a v stuck).0), omega (arith, stuck_end (suc v.eos) key a v stuck))
    where
      stuck : IsStuck key a v
      stuck =
          IsStuck-run key a v sets first is stored u h l (is.runs (bucket_of key))
            (is.runs (bucket_of key)).run refl
            (sym (first_of-run v.table key (is.runs (bucket_of key)) is.distinct) ∙ f)
