-- ===== src/AttributeSet/Map.antt =====
-- Attribute sets (attribute_set.cpp, attribute_set_impl.hpp) as finite maps from identifiers to attributes: when
-- a set is well formed, and the map that it stands for.
use boost_log.Base.{
  ℕ, ◌≡◌, ◌≢◌, ◌≤◌, Bool, true, false, Option, none, some, List, [], ◌∷◌, ◌==◌, if◌then◌else◌,
  length, All, arith,
}
use boost_log.Buckets.{Node, empty_table}
use boost_log.Buckets.Lists.{lookup, Absent}
use boost_log.Buckets.Runs.{IsTable, find-lookup, empty_table-IsTable}
use boost_log.AttributeSet.{AttributeSet, construct, find}

abbrev pub Different : List ℕ → Type 0
Different [] = Unit
Different (a ∷ rest) = All (λ c. c ≢ a) rest × Different rest

module _ {V : Type 0} where
  -- The addresses in the pool are free: none is in the list, and none is there twice.
  pub record IsAttributeSet (s : AttributeSet V) : Type 0 where
    pub table : IsTable s.table
    pub pooled : All (λ a. Absent a s.table.nodes) s.pool
    pub different : Different s.pool
    pub pool_bound : length s.pool ≤ 8

  -- An address that std::allocator may give: it is in use neither by the list nor by the pool.
  pub record IsFree (a : ℕ) (s : AttributeSet V) : Type 0 where
    pub of_nodes : Absent a s.table.nodes
    pub of_pool : All (λ c. c ≢ a) s.pool

  -- The map that a set stands for.
  abbrev pub value_of : Option (Node V) → Option V
  value_of none = none
  value_of (some n) = some n.value

  abbrev pub contents : AttributeSet V → ℕ → Option V
  contents s key = value_of (find key s)

  -- Insertion into a map does not replace a value.
  abbrev pub insert_new : ℕ → V → (ℕ → Option V) → ℕ → Option V
  insert_new key value f other =
      if key == other then elim (f key) [ none ↦ some value | some old ↦ some old ] else f other

  abbrev pub without : ℕ → (ℕ → Option V) → ℕ → Option V
  without key f other = if key == other then none else f other

  abbrev pub is_some : Option V → Bool
  is_some none = false
  is_some (some v) = true

  find-lookup_set :
      (s : AttributeSet V) (key : ℕ) → IsAttributeSet s → find key s ≡ lookup key s.table.nodes
  unfolding find
  find-lookup_set s key is = find-lookup s.table key is.table

  -- A new set is empty.
  pub construct-IsAttributeSet : IsAttributeSet (construct {V = V})
  unfolding construct empty_table
  construct-IsAttributeSet = record {
    table = empty_table-IsTable;
    pooled = tt;
    different = tt;
    pool_bound = omega arith;
  }
