-- ===== src/AttributeSet.antt =====
-- basic_attribute_set (attribute_set.cpp, attribute_set_impl.hpp): a table of attributes by the identifiers
-- of their names, and the pool from which its nodes are allocated.
pub mod Map
pub mod Inserting
pub mod Erasing
pub mod Laws
mod Examples
use boost_log.Base.{
  ℕ, zero, suc, ◌≡◌, Bool, true, false, Option, none, some, List, [], ◌∷◌, ltb, if◌then◌else◌,
  length,
}
use boost_log.Buckets.{Node, Table, empty_table, position, insert_node, erase_node, append_node}
use boost_log.Buckets

-- pool_allocator: the addresses in m_Pool, the last one first. std::allocator answers with `heap`.
pub allocate : ℕ → List ℕ → ℕ × List ℕ
allocate heap [] = (heap, [])
allocate heap (a ∷ pool) = (a, pool)

pub deallocate : ℕ → List ℕ → List ℕ
deallocate a pool = if ltb (length pool) 8 then a ∷ pool else pool

pub record AttributeSet (V : Type 0) : Type 0 where
  pub table : Table V
  pub pool : List ℕ

module _ {V : Type 0} where
  unfoldable pub construct : AttributeSet V
  construct = record { table = empty_table; pool = [] }

  abbrev pub size : AttributeSet V → ℕ
  size s = length s.table.nodes

  unfoldable pub find : ℕ → AttributeSet V → Option (Node V)
  find key s = Buckets.find key s.table

  -- The iterator is the node, and the flag says whether it is new.
  pub insert : ℕ → ℕ → V → AttributeSet V → AttributeSet V × Node V × Bool
  unfolding allocate find
  insert heap key value s = elim (find key s) [
    | some p ↦ (s, p, false)
    | none ↦
        let (address, pool) = allocate heap s.pool in
        let n : Node V = record { address = address; key = key; value = value } in
        (record { table = insert_node n (position key s.table) s.table; pool = pool }, n, true)
  ]

  -- erase by an iterator, and by a key.
  pub erase_at : Node V → AttributeSet V → AttributeSet V
  unfolding deallocate
  erase_at p s = record { table = erase_node p s.table; pool = deallocate p.address s.pool }

  pub erase : ℕ → AttributeSet V → AttributeSet V × ℕ
  unfolding erase_at find
  erase key s = elim (find key s) [ none ↦ (s, 0) | some p ↦ (erase_at p s, 1) ]

  -- erase of a range of iterators.
  pub erase_range : List (Node V) → AttributeSet V → AttributeSet V
  unfolding erase_at
  erase_range [] s = s
  erase_range (p ∷ ps) s = erase_range ps (erase_at p s)

  -- The nodes are disposed of from the first one on.
  dispose : List (Node V) → List ℕ → List ℕ
  unfolding deallocate
  dispose [] pool = pool
  dispose (n ∷ ns) pool = dispose ns (deallocate n.address pool)

  pub clear : AttributeSet V → AttributeSet V
  unfolding dispose
  clear s = record { table = empty_table; pool = dispose s.table.nodes s.pool }

  -- The copy constructor: its pool is empty, and `heap i` is the i-th address that it gets.
  unfoldable pub copy_nodes : (ℕ → ℕ) → ℕ → List (Node V) → Table V → Table V
  copy_nodes heap i [] t = t
  copy_nodes heap i (n ∷ ns) t =
      copy_nodes heap (suc i) ns (append_node (record n { address = heap i }) t)

  pub copy : (ℕ → ℕ) → AttributeSet V → AttributeSet V
  unfolding copy_nodes
  copy heap s = record { table = copy_nodes heap 0 s.table.nodes empty_table; pool = [] }
