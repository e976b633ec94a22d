-- ===== src/Buckets.antt =====
-- The table that attribute sets (attribute_set_impl.hpp) and views of attribute values
-- (attribute_values_view.cpp) share: one intrusive list of nodes, and 16 buckets that point to the first
-- and the last node of a run of it. A pointer is an address, a key the identifier of a name. In a walk
-- `none` means that it runs off the end of the list.
pub mod Lists
pub mod Lookup
pub mod Sorted
pub mod Runs
mod Local
pub mod Insert
pub mod Hidden
pub mod Links
pub mod Erase
use boost_log.Base.{
  ℕ, ◌%◌, Bool, true, false, Option, none, some, List, [], ◌∷◌, ◌++◌, ◌&&◌, ltb, ◌==◌,
  if◌then◌else◌,
}

pub record Node (V : Type 0) : Type 0 where
  pub address : ℕ
  pub key : ℕ
  pub value : V

-- A bucket: the addresses `first` and `last`, or two null pointers.
abbrev pub Bucket : Type 0
Bucket = Option (ℕ × ℕ)

pub record Table (V : Type 0) : Type 0 where
  pub nodes : List (Node V)
  pub buckets : ℕ → Bucket

-- id & (buckets::static_size - 1)
abbrev pub bucket_of : ℕ → ℕ
bucket_of id = id % 16

abbrev pub set_bucket : ℕ → Bucket → (ℕ → Bucket) → ℕ → Bucket
set_bucket b v buckets c = if c == b then v else buckets c

-- The bucket after `first` or `last` was moved along a link.
abbrev with_last : ℕ → Option ℕ → Bucket
with_last first none = none
with_last first (some last) = some (first, last)

abbrev with_first : Option ℕ → ℕ → Bucket
with_first none last = none
with_first (some first) last = some (first, last)

module _ {V : Type 0} where
  unfoldable pub empty_table : Table V
  empty_table = record { nodes = []; buckets = λ b. none }

  abbrev pub head? : List (Node V) → Option (Node V)
  head? [] = none
  head? (n ∷ ns) = some n

  -- The nodes from an address on.
  unfoldable pub from : ℕ → List (Node V) → List (Node V)
  from a [] = []
  from a (n ∷ ns) = if n.address == a then n ∷ ns else from a ns

  -- The loop of find_in_bucket.
  pub walk : ℕ → ℕ → List (Node V) → Option (Node V)
  walk last key [] = none
  walk last key (n ∷ ns) =
      if n.address == last then some n else if ltb n.key key then walk last key ns else some n

  pub find_in_bucket : ℕ → ℕ → ℕ → Table V → Option (Node V)
  unfolding walk from
  find_in_bucket key first last t = walk last key (from first t.nodes)

  -- The pointer `p` of find and insert: null where the bucket is empty.
  unfoldable pub position : ℕ → Table V → Option (Node V)
  unfolding find_in_bucket
  position key t = elim (t.buckets (bucket_of key)) [
    | none ↦ none
    | some (first, last) ↦ find_in_bucket key first last t
  ]

  abbrev pub with_key : ℕ → Option (Node V) → Option (Node V)
  with_key key none = none
  with_key key (some p) = if p.key == key then some p else none

  unfoldable pub find : ℕ → Table V → Option (Node V)
  unfolding position
  find key t = with_key key (position key t)

  -- The node to which `first` of the key's bucket points.
  unfoldable pub first_of : ℕ → Table V → Option (Node V)
  unfolding from
  first_of key t = elim (t.buckets (bucket_of key)) [
    | none ↦ none
    | some (first, last) ↦ head? (from first t.nodes)
  ]

  -- m_Nodes.insert before the node at an address, and after it.
  pub insert_before : ℕ → Node V → List (Node V) → List (Node V)
  insert_before a x [] = []
  insert_before a x (n ∷ ns) = if n.address == a then x ∷ n ∷ ns else n ∷ insert_before a x ns

  pub insert_after : ℕ → Node V → List (Node V) → List (Node V)
  insert_after a x [] = []
  insert_after a x (n ∷ ns) = if n.address == a then n ∷ x ∷ ns else n ∷ insert_after a x ns

  -- The end of insert, and insert_node: the new node becomes the first of its bucket, the last, or one
  -- within it. The position is null only where the bucket is empty.
  unfoldable pub insert_node : Node V → Option (Node V) → Table V → Table V
  unfolding insert_before insert_after
  insert_node x where_to t = elim (t.buckets (bucket_of x.key)) [
    | none ↦ record {
      nodes = t.nodes ++ x ∷ [];
      buckets = set_bucket (bucket_of x.key) (some (x.address, x.address)) t.buckets;
    }
    | some (first, last) ↦ elim where_to [
      | none ↦ t
      | some p ↦
          if p.address == last && ltb p.key x.key
          then record {
            nodes = insert_after p.address x t.nodes;
            buckets = set_bucket (bucket_of x.key) (some (first, x.address)) t.buckets;
          }
          else record t { nodes = insert_before p.address x t.nodes }
    ]
  ]

  -- m_Nodes.erase, and the links of a node.
  pub remove : ℕ → List (Node V) → List (Node V)
  remove a [] = []
  remove a (n ∷ ns) = if n.address == a then ns else n ∷ remove a ns

  pub get_next : ℕ → List (Node V) → Option ℕ
  get_next a (n ∷ m ∷ ns) = if n.address == a then some m.address else get_next a (m ∷ ns)
  get_next a _ = none

  pub get_previous : ℕ → List (Node V) → Option ℕ
  get_previous a (n ∷ m ∷ ns) = if m.address == a then some n.address else get_previous a (m ∷ ns)
  get_previous a _ = none

  -- The switch of erase.
  pub shrink_bucket : ℕ → List (Node V) → Bucket → Bucket
  unfolding get_next get_previous
  shrink_bucket a nodes none = none
  shrink_bucket a nodes (some (first, last)) =
      if a == first
      then (if a == last then none else with_first (get_next first nodes) last)
      else (if a == last then with_last first (get_previous last nodes) else some (first, last))

  unfoldable pub erase_node : Node V → Table V → Table V
  unfolding shrink_bucket remove
  erase_node p t = record {
    nodes = remove p.address t.nodes;
    buckets =
        set_bucket (bucket_of p.key) (shrink_bucket p.address t.nodes (t.buckets (bucket_of p.key)))
          t.buckets;
  }

  -- A copy of a node at the end of a table: the bucket gets a new last node.
  unfoldable pub append_node : Node V → Table V → Table V
  append_node x t = record {
    nodes = t.nodes ++ x ∷ [];
    buckets =
        set_bucket (bucket_of x.key)
          (elim (t.buckets (bucket_of x.key)) [
            | none ↦ some (x.address, x.address)
            | some (first, last) ↦ some (first, x.address)
          ])
          t.buckets;
  }
