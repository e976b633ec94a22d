-- ===== src/ValuesView.antt =====
-- basic_attribute_values_view (attribute_values_view.cpp): the values of the attributes of a record. A view
-- adopts three attribute sets and takes a value from them when a key is searched for, or all values when
-- it is frozen. Its nodes lie in one block of storage, and their addresses are counted from its start.
pub mod Composed
pub mod Leak
mod Examples
use boost_log.Base.{ℕ, suc, ◌+◌, Bool, true, false, Option, none, some, List, [], ◌∷◌, length}
use boost_log.Buckets.{Node, Table, empty_table, position, with_key, insert_node, append_node}
use boost_log.Buckets

-- The sets that are adopted: their lists and buckets.
pub record Attributes (A : Type 0) : Type 0 where
  pub source_attributes : Table A
  pub thread_attributes : Table A
  pub global_attributes : Table A

-- `attributes` are the pointers to the sets, null in a frozen view. `end` is m_pEnd, and `eos` m_pEOS,
-- each less m_pStorage.
pub record ValuesView (A V : Type 0) : Type 0 where
  pub attributes : Option (Attributes A)
  pub table : Table V
  pub end : ℕ
  pub eos : ℕ

-- get_value of an attribute is an argument.
module _ {A V : Type 0} (get_value : A → V) where
  insert_node_at : ℕ → V → ValuesView A V → ValuesView A V × Option (Node V)
  insert_node_at key value v =
      let n : Node V = record { address = v.end; key = key; value = value } in
      (record v { table = insert_node n (position key v.table) v.table; end = suc v.end }, some n)

  -- The first of the sets, in the order source, thread, global, that has the key.
  pub find_attribute : ℕ → Attributes A → Option A
  find_attribute key sets = elim (Buckets.find key sets.source_attributes) [
    | some n ↦ some n.value
    | none ↦ elim (Buckets.find key sets.thread_attributes) [
      | some n ↦ some n.value
      | none ↦ elim (Buckets.find key sets.global_attributes) [
        | some n ↦ some n.value
        | none ↦ none
      ]
    ]
  ]

  pub freeze_node : ℕ → Option A → ValuesView A V → ValuesView A V × Option (Node V)
  unfolding insert_node_at
  freeze_node key none v = (v, none)
  freeze_node key (some a) v = insert_node_at key (get_value a) v

  unfoldable pub find : ℕ → ValuesView A V → ValuesView A V × Option (Node V)
  unfolding freeze_node find_attribute
  find key v = elim (with_key key (position key v.table)) [
    | some p ↦ (v, some p)
    | none ↦ elim v.attributes [
      | none ↦ (v, none)
      | some sets ↦ freeze_node key (find_attribute key sets) v
    ]
  ]

  pub freeze_nodes_from : List (Node A) → ValuesView A V → ValuesView A V
  unfolding insert_node_at
  freeze_nodes_from [] v = v
  freeze_nodes_from (n ∷ ns) v =
      freeze_nodes_from ns (elim (with_key n.key (position n.key v.table)) [
        | some p ↦ v
        | none ↦ (insert_node_at n.key (get_value n.value) v).0
      ])

  pub freeze : ValuesView A V → ValuesView A V
  unfolding freeze_nodes_from
  freeze v = elim v.attributes [
    | none ↦ v
    | some sets ↦
        record (freeze_nodes_from sets.global_attributes.nodes (
          freeze_nodes_from sets.thread_attributes.nodes
            (freeze_nodes_from sets.source_attributes.nodes v))) { attributes = none }
  ]

  -- size freezes the view.
  pub size : ValuesView A V → ValuesView A V × ℕ
  unfolding freeze
  size v = let v' = freeze v in (v', v'.end)

  unfoldable pub copy_nodes : List (Node V) → ValuesView A V → ValuesView A V
  copy_nodes [] v = v
  copy_nodes (n ∷ ns) v =
      copy_nodes ns
        (record v { table = append_node (record n { address = v.end }) v.table; end = suc v.end })

  -- The copied view, which is frozen by it, and the copy.
  pub copy : ValuesView A V → ValuesView A V × ValuesView A V
  unfolding size copy_nodes
  copy v =
      let (v', n) = size v in
      (
        v',
        copy_nodes v'.table.nodes
            (record { attributes = none; table = empty_table; end = 0; eos = n }),
      )

-- The storage has room for every attribute of the three sets.
pub create : {A V : Type 0} → Attributes A → ValuesView A V
create sets = record {
  attributes = some sets;
  table = empty_table;
  end = 0;
  eos =
      length sets.source_attributes.nodes
      + length sets.thread_attributes.nodes
      + length sets.global_attributes.nodes;
}
