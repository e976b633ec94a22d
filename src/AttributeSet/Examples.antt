-- ===== src/AttributeSet/Examples.antt =====
-- Runs of attribute sets (attribute_set.cpp, attribute_set_impl.hpp) on concrete keys.
use boost_log.Base.{
  ℕ, suc, ◌+◌, ◌≡◌, true, false, none, some, [], ◌∷◌, if◌then◌else◌, map, arith, refl, subst, sym,
}
use boost_log.Buckets
use boost_log.Buckets.{
  Node, Table, empty_table, first_of, position, insert_node, erase_node, append_node, from,
  find_in_bucket, walk,
}
use boost_log.Buckets.Insert.{FitsAfter}
use boost_log.AttributeSet.{
  AttributeSet, construct, size, find, insert, erase, erase_range, clear, copy, allocate,
  copy_nodes,
}
use boost_log.AttributeSet.Map.{
  IsAttributeSet, IsFree, contents, insert_new, without, is_some, construct-IsAttributeSet,
}
use boost_log.AttributeSet.Laws.{insert-refines, insert-hides, erase-refines}

-- A set with the key 19, whose bucket is that of the key 3 too.
abbrev one_key : AttributeSet ℕ
one_key = (insert 100 19 7 construct).0

one_key-IsAttributeSet : IsAttributeSet one_key
unfolding first_of construct empty_table
one_key-IsAttributeSet =
    (insert-refines 100 19 7 construct construct-IsAttributeSet
      (record { of_nodes = tt; of_pool = tt }) tt).0

one_key-IsFree : IsFree 101 one_key
unfolding insert find Buckets.find construct empty_table position insert_node allocate
one_key-IsFree = record { of_nodes = ((λ e. ground (arith, e)), tt); of_pool = tt }

one_key_first : first_of 35 one_key.table ≡ some (record { address = 100; key = 19; value = 7 })
unfolding first_of from insert find Buckets.find construct empty_table position insert_node allocate
one_key_first = refl

insert-refines_example :
    let (s', n, new) = insert 101 35 8 one_key in
    IsAttributeSet s'
    × (contents s' ≡ insert_new 35 8 (contents one_key))
    × (some n.value ≡ contents s' 35)
    × (new ≡ (if is_some (contents one_key 35) then false else true))
    × (size s' ≡ (if new then suc (size one_key) else size one_key))
insert-refines_example =
    insert-refines 101 35 8 one_key one_key-IsAttributeSet one_key-IsFree
      (subst (FitsAfter 35) (sym one_key_first) (omega arith))

insert-hides_example :
    let (s', n, new) = insert 101 3 8 one_key in
    (new ≡ true)
    × (size s' ≡ suc (size one_key))
    × (find 3 s' ≡ none)
    × ((insert 102 3 9 s').2 ≡ true)
unfolding first_of
insert-hides_example =
    insert-hides 101 102 3 8 9 one_key (record { address = 100; key = 19; value = 7 })
      one_key-IsAttributeSet one_key-IsFree one_key_first (omega arith)

erase-refines_example :
    let (s', n) = erase 19 one_key in
    IsAttributeSet s'
    × (contents s' ≡ without 19 (contents one_key))
    × (n ≡ (if is_some (contents one_key 19) then 1 else 0))
    × (size s' + n ≡ size one_key)
erase-refines_example = erase-refines 19 one_key one_key-IsAttributeSet

-- Three keys of one bucket and one of another, without the middle one of the three.
abbrev four_keys : AttributeSet ℕ
four_keys = (erase 35 (insert 103 51 4 (insert 102 4 3 (insert 101 35 2 one_key).0).0).0).0

four_keys_run :
    (map (λ n. n.key) four_keys.table.nodes ≡ 19 ∷ 51 ∷ 4 ∷ [])
    × (four_keys.table.buckets 3 ≡ some (100, 103))
    × (four_keys.pool ≡ 101 ∷ [])
    × ((clear four_keys).pool ≡ 102 ∷ 103 ∷ 100 ∷ 101 ∷ [])
    × (size (erase_range four_keys.table.nodes four_keys) ≡ 0)
    × ((copy (λ i. i) four_keys).table.buckets 3 ≡ some (0, 1))
    × (contents (copy (λ i. i) four_keys) 51 ≡ some 4)
unfolding insert find Buckets.find construct empty_table position insert_node allocate erase
    erase_node clear erase_range copy copy_nodes append_node
four_keys_run = (refl, refl, refl, refl, refl, refl, refl)
