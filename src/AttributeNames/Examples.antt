-- ===== src/AttributeNames/Examples.antt =====
-- Runs of attribute_name_repository (attribute_name.cpp) over a set that is an association list.
use boost_log.Base.{
  ℕ, ◌≡◌, ◌≤◌, Option, none, some, List, [], ◌∷◌, if◌then◌else◌, length, arith, refl,
}
use boost_log.AttributeNames.{
  is_same, NodeSet, empty_repository, get_id_from_string, get_string_from_id,
}
use boost_log.AttributeNames.RoundTrip.{
  IsRepository, Extends, empty-IsRepository, get_id-round_trip,
}

abbrev find_pair : List (List ℕ × ℕ) → List ℕ → Option ℕ
find_pair [] other = none
find_pair ((name, id) ∷ pairs) other = if is_same other name then some id else find_pair pairs other

abbrev pairs_set : NodeSet (List (List ℕ × ℕ))
pairs_set = record {
  empty = [];
  find = find_pair;
  insert = λ s name id. (name, id) ∷ s;
  find-empty = λ name. refl;
  find-insert = λ s name other id e. refl;
}

abbrev name_a : List ℕ
name_a = 97 ∷ []

abbrev name_b : List ℕ
name_b = 98 ∷ []

-- The thread asks for the name "b", while another one adds "a".
get_id-round_trip_example :
    let (r, id) = get_id_from_string pairs_set (name_a ∷ []) name_b (empty_repository pairs_set) in
    IsRepository pairs_set r
    × Extends pairs_set (empty_repository pairs_set) r
    × (get_string_from_id id r ≡ some name_b)
    × (length r.node_list ≤ 2)
unfolding empty_repository
get_id-round_trip_example =
    get_id-round_trip pairs_set (name_a ∷ []) name_b (empty_repository pairs_set)
      (empty-IsRepository pairs_set) (omega arith)
