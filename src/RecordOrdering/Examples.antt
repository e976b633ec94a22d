-- ===== src/RecordOrdering/Examples.antt =====
-- The orders of utility/record_ordering.hpp on concrete records.
use boost_log.Base.{
  ◌%◌, ◌/◌, ◌==◌, if◌then◌else◌, ℕ, ◌≡◌, ◌↔◌, true, false, Option, none, some, List, [], ◌∷◌, ltb,
  arith, refl,
}
use boost_log.Queues.Ordering.{PriorityQueue, IsPriorityQueue, EnqueuedRecord, order}
use boost_log.RecordOrdering.{value_ordering, handle_ordering}
use boost_log.RecordOrdering.Laws.{value_ordering-reflexive, value_ordering-no_queue}

-- A record is its handle; even ones have half of it for a value.
abbrev half : ℕ → Option ℕ
half r = if r % 2 == 0 then some (r / 2) else none

orders :
    (value_ordering half ltb 4 6 ≡ true)
    × (value_ordering half ltb 6 4 ≡ false)
    × (handle_ordering (λ (r : ℕ). r) ltb 4 5 ≡ true)
unfolding value_ordering handle_ordering
orders = (refl, refl, refl)

value_ordering-reflexive_example : (value_ordering half ltb 5 5 ≡ true) ↔ (half 5 ≡ none)
value_ordering-reflexive_example = value_ordering-reflexive half ltb (λ v. ground arith) 5

abbrev first_in : PriorityQueue (EnqueuedRecord ℕ) (List (EnqueuedRecord ℕ))
first_in = record {
  empty = [];
  push = λ e s. e ∷ s;
  top = λ s. elim s [ [] ↦ none | x ∷ xs ↦ some x ];
  pop = λ s. elim s [ [] ↦ [] | x ∷ xs ↦ xs ];
  contents = λ s. s;
}

value_ordering-no_queue_example : IsPriorityQueue (order (value_ordering half ltb)) first_in → ⊥
value_ordering-no_queue_example = value_ordering-no_queue half ltb first_in 5 refl
