-- ===== src/AttributeNames.antt =====
-- attribute_name_repository (attribute_name.cpp): names of attributes and their identifiers. The set of
-- nodes by name is an intrusive::set of Boost.Intrusive, an interface here; order_by_name compares with
-- the terminating 0, so that two nodes are equivalent when their names are equal. A name is a list of
-- characters.
pub mod RoundTrip
mod Examples
use boost_log.Base.{
  get_elem?, ℕ, zero, suc, ◌+◌, ◌%◌, ◌≡◌, Bool, true, false, Option, none, some, List, [], ◌∷◌,
  ◌++◌, ◌&&◌, ◌==◌, if◌then◌else◌, length,
}

-- Whether neither of two names comes before the other.
pub is_same : List ℕ → List ℕ → Bool
is_same [] [] = true
is_same [] (y ∷ ys) = false
is_same (x ∷ xs) [] = false
is_same (x ∷ xs) (y ∷ ys) = x == y && is_same xs ys

-- The set, with the identifiers of its nodes: what is found after an insertion.
pub record NodeSet (S : Type 0) : Type 0 where
  pub empty : S
  pub find : S → List ℕ → Option ℕ
  pub insert : S → List ℕ → ℕ → S
  pub find-empty : (name : List ℕ) → find empty name ≡ none
  pub find-insert :
      (s : S) (name other : List ℕ) (id : ℕ)
      → find s name ≡ none
      → find (insert s name id) other ≡ (if is_same other name then some id else find s other)

pub record Repository (S : Type 0) : Type 0 where
  pub node_list : List (List ℕ)
  pub node_set : S

module _ {S : Type 0} (set : NodeSet S) where
  pub empty_repository : Repository S
  empty_repository = record { node_list = []; node_set = set.empty }

  -- The part of get_id_from_string under the exclusive lock. lower_bound with the test of the name that
  -- follows it is a search for the name. An identifier is an unsigned int.
  pub find_or_insert : List ℕ → Repository S → Repository S × ℕ
  find_or_insert name r =
      let id = length r.node_list % 4294967296 in
      elim (set.find r.node_set name) [
        | some found ↦ (r, found)
        | none ↦ (
          record { node_list = r.node_list ++ name ∷ []; node_set = set.insert r.node_set name id },
          id,
        )
      ]

  -- What other threads add between the two locks.
  pub add_all : List (List ℕ) → Repository S → Repository S
  unfolding find_or_insert
  add_all [] r = r
  add_all (name ∷ names) r = add_all names (find_or_insert name r).0

  -- get_id_from_string: the search under the shared lock comes first, and other threads may add names
  -- after it.
  pub get_id_from_string : List (List ℕ) → List ℕ → Repository S → Repository S × ℕ
  unfolding add_all find_or_insert
  get_id_from_string others name r = elim (set.find r.node_set name) [
    | some found ↦ (add_all others r, found)
    | none ↦ find_or_insert name (add_all others r)
  ]

-- get_string_from_id, where `none` is an access past the end.
pub get_string_from_id : {S : Type 0} → ℕ → Repository S → Option (List ℕ)
get_string_from_id id r = get_elem? r.node_list id
