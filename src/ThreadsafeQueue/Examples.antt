-- ===== src/ThreadsafeQueue/Examples.antt =====
-- Tests of the queue with two locks.
use boost_log.Base.{ℕ, ◌≡◌, Option, none, some, List, [], ◌∷◌, refl, take_at, ◌++◌}
use boost_log.ThreadsafeQueue.{
  Memory, Queue, Action, Event, destroy, created, push, link, move_tail, try_pop, take_value, idle,
  allocated, linked, tail_moved, found_empty, head_moved, returned, construct, run,
}
use boost_log.ThreadsafeQueue.Chain.{values}
use boost_log.ThreadsafeQueue.Invariant.{IsQueue, promise}
use boost_log.ThreadsafeQueue.Fifo.{
  AcceptsAll, all_linked, all_returned, to_list, run-refines, run-linked,
}
use boost_log.ThreadsafeQueue.Destruction.{IsQuiet, destroy-frees}

abbrev schedule : List (Action ℕ)
schedule =
    try_pop
    ∷ push (created 1) 10
    ∷ push (created 2) 20
    ∷ link 0
    ∷ link 0
    ∷ try_pop
    ∷ take_value
    ∷ move_tail
    ∷ link 0
    ∷ try_pop
    ∷ []

abbrev events_of : Option (Queue ℕ × List (Event ℕ)) → List (Event ℕ)
events_of none = []
events_of (some (q, es)) = es

-- The node to which the tail points is freed before the tail is moved.
schedule-events :
    events_of (run schedule (construct 0))
    ≡ found_empty
      ∷ allocated
      ∷ allocated
      ∷ linked 20
      ∷ idle
      ∷ head_moved
      ∷ returned 20
      ∷ tail_moved
      ∷ linked 10
      ∷ head_moved
      ∷ []
unfolding run construct take_at
schedule-events = refl

run-refines_example :
    (q : Queue ℕ) × (es : List (Event ℕ)) × (run schedule (construct 0) ≡ some (q, es))
    × (cells : List (ℕ × ℕ)) × (hand : Option ℕ) × IsQueue q cells hand
    × AcceptsAll es (promise [] none) (promise cells hand)
run-refines_example = run-refines schedule 0

run-linked_example :
    (q : Queue ℕ) × (es : List (Event ℕ)) × (run schedule (construct 0) ≡ some (q, es))
    × (cells : List (ℕ × ℕ)) × (hand : Option ℕ) × IsQueue q cells hand
    × (all_linked es ≡ all_returned es ++ (to_list hand ++ values cells))
run-linked_example = run-linked schedule 0

-- Two values are pushed, and one of them is popped.
abbrev one_left : List (Action ℕ)
one_left =
    push (created 1) 10
    ∷ link 0
    ∷ move_tail
    ∷ push (created 2) 20
    ∷ link 0
    ∷ try_pop
    ∷ move_tail
    ∷ take_value
    ∷ []

abbrev queue_of : Option (Queue ℕ × List (Event ℕ)) → Queue ℕ
queue_of none = construct 0
queue_of (some (q, es)) = q

one_left_runs :
    run one_left (construct 0)
    ≡ some (queue_of (run one_left (construct 0)), events_of (run one_left (construct 0)))
unfolding run construct take_at
one_left_runs = refl

one_left-IsQuiet : IsQuiet (queue_of (run one_left (construct 0)))
unfolding run construct take_at
one_left-IsQuiet = record { not_popping = refl; not_linking = refl; not_pushing = refl }

destroy-frees_example :
    (k : ℕ) × (m : Memory ℕ) × (destroy k (queue_of (run one_left (construct 0))) ≡ some m)
    × ((c : ℕ) → m c ≡ none)
destroy-frees_example =
    destroy-frees one_left 0 (queue_of (run one_left (construct 0)))
      (events_of (run one_left (construct 0))) one_left_runs one_left-IsQuiet
