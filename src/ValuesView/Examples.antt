-- ===== src/ValuesView/Examples.antt =====
-- Runs of views (attribute_values_view.cpp) on concrete attributes.
use boost_log.Base.{ℕ, ◌+◌, ◌≡◌, ◌≤◌, ◌<◌, some, [], ◌∷◌, map, All, arith, refl}
use boost_log.Buckets
use boost_log.Buckets.{Node, Table, empty_table, first_of, position, insert_node, append_node, from}
use boost_log.Buckets.Lists.{lookup}
use boost_log.Buckets.Runs.{IsTable, empty_table-IsTable}
use boost_log.Buckets.Insert.{FitsAfter, insert_node-Inserted}
use boost_log.ValuesView.{
  Attributes, ValuesView, find_attribute, freeze_node, find, freeze, freeze_nodes_from, size, copy,
  copy_nodes, create,
}
use boost_log.ValuesView.Composed.{
  AreTables, IsView, create-IsView, composed, value_of, find-composed,
}

abbrev get_value : ℕ → ℕ
get_value a = a + 100

abbrev attribute : ℕ → ℕ → Node ℕ
attribute key value = record { address = key; key = key; value = value }

abbrev with_one : Node ℕ → Table ℕ
with_one n = insert_node n (position n.key empty_table) empty_table

with_one-IsTable : (n : Node ℕ) → IsTable (with_one n)
unfolding empty_table lookup first_of
with_one-IsTable n = (insert_node-Inserted n empty_table empty_table-IsTable refl tt tt).table

-- The source and the thread have the key 19, and there is a global attribute with the key 3, which has
-- the same bucket.
abbrev sets : Attributes ℕ
sets = record {
  source_attributes = with_one (attribute 19 7);
  thread_attributes = with_one (attribute 19 8);
  global_attributes = with_one (attribute 3 9);
}

sets-AreTables : AreTables get_value sets
sets-AreTables = record {
  source = with_one-IsTable (attribute 19 7);
  thread = with_one-IsTable (attribute 19 8);
  globals = with_one-IsTable (attribute 3 9);
}

find-composed_example :
    let (v', n) = find get_value 19 (create sets) in
    (value_of get_value n ≡ composed get_value sets 19)
    × (FitsAfter 19 (first_of {V = ℕ} 19 (create {V = ℕ} sets).table)
        → IsView get_value sets v' × (v'.end ≤ v'.eos))
    × (v'.eos ≡ (create {V = ℕ} sets).eos)
find-composed_example =
    find-composed get_value 19 sets (create sets) sets-AreTables (create-IsView get_value sets)

abbrev searched : ValuesView ℕ ℕ
searched = (find get_value 19 (create sets)).0

searched-IsView : IsView get_value sets searched
unfolding create empty_table first_of
searched-IsView =
    ((find-composed get_value 19 sets (create sets) sets-AreTables (create-IsView get_value sets)).1
      tt).0

searched_stored : All (λ n. n.address < searched.end) searched.table.nodes
unfolding find create empty_table Buckets.find position insert_node find_attribute freeze_node
searched_stored = omega arith

has_three : find_attribute get_value 3 sets ≡ some 9
unfolding find_attribute empty_table Buckets.find position insert_node
has_three = refl

first_three : first_of 3 searched.table ≡ some (record { address = 0; key = 19; value = 107 })
unfolding first_of from find create empty_table Buckets.find position insert_node find_attribute
    freeze_node
first_three = refl

-- A frozen view has each key once, with the value of the source; its copy has the same nodes.
frozen_run :
    (map (λ n. n.value) (freeze get_value (create sets)).table.nodes ≡ 109 ∷ 107 ∷ [])
    × ((size get_value (create sets)).1 ≡ 2)
    × (map (λ n. n.value) (copy get_value (create sets)).1.table.nodes ≡ 109 ∷ 107 ∷ [])
    × ((copy get_value (create sets)).1.eos ≡ 2)
unfolding find freeze freeze_nodes_from create empty_table Buckets.find position insert_node
    find_attribute size copy copy_nodes append_node
frozen_run = (refl, refl, refl, refl)
