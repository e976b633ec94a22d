-- ===== src/RecordOrdering.antt =====
-- attribute_value_ordering and handle_ordering (utility/record_ordering.hpp), the predicates by which the
-- ordering queues sort records.
pub mod Laws
mod Examples
use boost_log.Base.{ℕ, Bool, true, false, Option, none, some}

-- attribute_value_ordering::operator(), with the extraction of the value and the functor as arguments.
pub value_ordering : {R V : Type 0} → (R → Option V) → (V → V → Bool) → R → R → Bool
value_ordering extract fun left right = elim (extract left) [
  | some left_value ↦ elim (extract right) [
    | some right_value ↦ fun left_value right_value
    | none ↦ false
  ]
  | none ↦ elim (extract right) [ some _ ↦ false | none ↦ true ]
]

-- handle_ordering::operator(): the functor compares the handles.
pub handle_ordering : {R H : Type 0} → (R → H) → (H → H → Bool) → R → R → Bool
handle_ordering handle fun left right = fun (handle left) (handle right)
