-- ===== src/ValuesView/Composed.antt =====
-- What a view (attribute_values_view.cpp) shows of the three attribute sets, and the room that it takes in
-- its storage.
use boost_log.Base.{
  ℕ, suc, ◌+◌, ◌≡◌, ◌≤◌, inl, inr, Option-cases, Option, none, some, List, [], ◌∷◌, ◌++◌, arith,
  refl, subst, sym, ap, ◌∙◌, length, length-append,
}
use boost_log.Buckets.{Node, Table, empty_table, with_key, position, insert_node, first_of}
use boost_log.Buckets
use boost_log.Buckets.Lists.{lookup, Absent}
use boost_log.Buckets.Runs.{IsTable, find-lookup, empty_table-IsTable}
use boost_log.Buckets.Insert.{FitsAfter, Inserted, insert_node-Inserted}
use boost_log.ValuesView.{Attributes, ValuesView, find_attribute, freeze_node, find, create}
use boost_log.ValuesView.Leak.{find_unfrozen}

module _ {A V : Type 0} (get_value : A → V) where
  -- All attributes: those of the source first, then those of the thread, then the global ones.
  abbrev all_attributes : Attributes A → List (Node A)
  all_attributes sets =
      sets.source_attributes.nodes ++ (sets.thread_attributes.nodes ++ sets.global_attributes.nodes)

  abbrev value_in : Option (Node A) → Option V
  value_in none = none
  value_in (some n) = some (get_value n.value)

  abbrev pub value_of : Option (Node V) → Option V
  value_of none = none
  value_of (some n) = some n.value

  -- The value of the first attribute with the key, by a search through all of them.
  abbrev pub composed : Attributes A → ℕ → Option V
  composed sets key = value_in (lookup key (all_attributes sets))

  pub record AreTables (sets : Attributes A) : Type 0 where
    pub source : IsTable sets.source_attributes
    pub thread : IsTable sets.thread_attributes
    pub globals : IsTable sets.global_attributes

  abbrev attribute_of : Option (Node A) → Option A
  attribute_of none = none
  attribute_of (some n) = some n.value

  abbrev or_first : Option (Node A) → Option (Node A) → Option (Node A)
  or_first none o = o
  or_first (some n) o = some n

  lookup-append_any :
      (key : ℕ) (xs ys : List (Node A))
      → lookup key (xs ++ ys) ≡ or_first (lookup key xs) (lookup key ys)
  unfolding lookup
  lookup-append_any key [] ys = refl
  lookup-append_any key (x ∷ xs) ys = ground (arith, lookup-append_any key xs ys)

  -- The search through the three hash tables, one after the other.
  find_attribute-lookup :
      (key : ℕ) (sets : Attributes A)
      → AreTables sets
      → find_attribute get_value key sets ≡ attribute_of (lookup key (all_attributes sets))
  unfolding find_attribute
  find_attribute-lookup key sets are = ground (
    arith,
    find-lookup sets.source_attributes key are.source,
    find-lookup sets.thread_attributes key are.thread,
    find-lookup sets.global_attributes key are.globals,
    lookup-append_any key sets.source_attributes.nodes
        (sets.thread_attributes.nodes ++ sets.global_attributes.nodes),
    lookup-append_any key sets.thread_attributes.nodes sets.global_attributes.nodes,
  )

  abbrev missing_one : Option (Node V) → ℕ
  missing_one none = 1
  missing_one (some n) = 0

  -- How many attributes are not in the view yet.
  pub missing : Table V → List (Node A) → ℕ
  missing t [] = 0
  missing t (n ∷ ns) = missing_one (lookup n.key t.nodes) + missing t ns

  -- A view that is not frozen, over the sets.
  pub record IsView (sets : Attributes A) (v : ValuesView A V) : Type 0 where
    pub unfrozen : v.attributes ≡ some sets
    pub table : IsTable v.table
    agrees :
        (key : ℕ) (n : Node V)
        → lookup key v.table.nodes ≡ some n
        → some n.value ≡ composed sets key
    pub stored : (a : ℕ) → v.end ≤ a → Absent a v.table.nodes
    pub room : v.end + missing v.table (all_attributes sets) ≤ v.eos

  missing-empty : (ns : List (Node A)) → missing empty_table ns ≡ length ns
  unfolding missing empty_table lookup
  missing-empty [] = refl
  missing-empty (n ∷ ns) = omega (arith, missing-empty ns)

  pub create-IsView : (sets : Attributes A) → IsView sets (create sets)
  unfolding create empty_table lookup
  create-IsView sets = record {
    unfrozen = refl;
    table = empty_table-IsTable;
    agrees = λ key n e. absurd (ground (arith, e));
    stored = λ a l. tt;
    room = omega (
      arith,
      missing-empty (all_attributes sets),
      length-append sets.source_attributes.nodes
          (sets.thread_attributes.nodes ++ sets.global_attributes.nodes),
      length-append sets.thread_attributes.nodes sets.global_attributes.nodes,
    );
  }

  module _ (x : Node V) (t t' : Table V) (ins : Inserted x t t')
      (new : lookup x.key t.nodes ≡ none) where
    missing-le : (ns : List (Node A)) → missing t' ns ≤ missing t ns
    unfolding missing
    missing-le [] = omega arith
    missing-le (n ∷ ns) = ground (arith, missing-le ns, ins.looks_up n.key)

    missing-lt :
        (ns : List (Node A)) (n : Node A)
        → lookup x.key ns ≡ some n
        → suc (missing t' ns) ≤ missing t ns
    unfolding missing lookup
    missing-lt [] n e = absurd (ground (arith, e))
    missing-lt (m ∷ ms) n e =
        ground (arith, e, new, missing-le ms, missing-lt ms n, ins.looks_up m.key)

  abbrev Shows : ℕ → Attributes A → ValuesView A V → ValuesView A V × Option (Node V) → Type 0
  Shows key sets v (v', n) =
      (value_of n ≡ composed sets key)
      × (FitsAfter key (first_of key v.table) → IsView sets v' × (v'.end ≤ v'.eos))
      × (v'.eos ≡ v.eos)

  Shows-frozen :
      (key : ℕ) (sets : Attributes A) (v : ValuesView A V) (p : Node V)
      → IsView sets v
      → Buckets.find key v.table ≡ some p
      → Shows key sets v (v, some p)
  Shows-frozen key sets v p is e = (
    is.agrees key p (sym (find-lookup v.table key is.table) ∙ e),
    (λ fits. (is, omega (arith, is.room))),
    refl,
  )

  freeze_node-Shows :
      (key : ℕ) (sets : Attributes A) (v : ValuesView A V)
      → IsView sets v
      → Buckets.find key v.table ≡ none
      → (o : Option (Node A)) → lookup key (all_attributes sets) ≡ o
      → Shows key sets v (freeze_node get_value key (attribute_of o) v)
  unfolding freeze_node
  freeze_node-Shows key sets v is e none l =
      (rw l refl, (λ fits. (is, omega (arith, is.room))), refl)
  freeze_node-Shows key sets v is e (some n) l =
      (rw l refl, (λ fits. (view fits, omega (arith, (view fits).room))), refl)
    where
      x : Node V
      x = record { address = v.end; key = key; value = get_value n.value }

      t' : Table V
      t' = insert_node x (position key v.table) v.table

      new : lookup key v.table.nodes ≡ none
      new = sym (find-lookup v.table key is.table) ∙ e

      ins : FitsAfter key (first_of key v.table) → Inserted x v.table t'
      ins fits = insert_node-Inserted x v.table is.table new (is.stored v.end (omega arith)) fits

      view :
          FitsAfter key (first_of key v.table)
          → IsView sets (record v { table = t'; end = suc v.end })
      view fits = record {
        unfrozen = is.unfrozen;
        table = (ins fits).table;
        agrees = λ key' n' h.
            ground (arith, h, (ins fits).looks_up key', is.agrees key' n', ap value_in l);
        stored =
            λ a q. (ins fits).kept a (λ w. omega (arith, q, w)) (is.stored a (omega (arith, q)));
        room =
            omega
              (arith, is.room, missing-lt x v.table t' (ins fits) new (all_attributes sets) n l);
      }

  -- If the three attribute sets are well formed tables, which sets that hide an element behind the first node of
  -- its bucket are not, a search in a well formed view of them, which is not frozen, gives the value of the first
  -- attribute with the key, the attributes of the source standing before those of the thread and these before the
  -- global ones, and none where no set has the key. If the first node of the key's bucket in the view has a smaller key
  -- or there is none, the view stays well formed, and its nodes stay within the storage.
  pub find-composed :
      (key : ℕ) (sets : Attributes A) (v : ValuesView A V)
      → AreTables sets
      → IsView sets v
      → let (v', n) = find get_value key v in
        (value_of n ≡ composed sets key)
        × (FitsAfter key (first_of key v.table) → IsView sets v' × (v'.end ≤ v'.eos))
        × (v'.eos ≡ v.eos)
  unfolding find Buckets.find
  find-composed key sets v are is = elim (Option-cases (Buckets.find key v.table)) [
    | inl e ↦
        subst (Shows key sets v)
          (sym (
            find_unfrozen get_value key v sets e is.unfrozen
            ∙ ap (λ o. freeze_node get_value key o v) (find_attribute-lookup key sets are)))
          (freeze_node-Shows key sets v is e (lookup key (all_attributes sets)) refl)
    | inr (p, e) ↦ subst (Shows key sets v) (sym (found p e)) (Shows-frozen key sets v p is e)
  ]
    where
      found : (p : Node V) → Buckets.find key v.table ≡ some p → find get_value key v ≡ (v, some p)
      found p e = rw (find, e) refl
