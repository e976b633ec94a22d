-- ===== src/Queues/Ordering/Examples.antt =====
-- Runs of unbounded_ordering_queue (sinks/unbounded_ordering_queue.hpp) over a list that is searched for
-- its least record.
use mathlib.Core.List.{not-mem-nil}
use boost_log.Base.{ℕ, ◌≡◌, List, [], ◌∷◌, ltb, arith, refl}
use boost_log.Queues.Ordering.{
  Action, enqueue, try_dequeue_ready, dequeue_ready, elapsed, empty_queue, enqueue_unlocked, take,
  step, run,
}
use boost_log.Queues.Ordering.Searched.{searched, searched-IsPriorityQueue, least, without_least}
use boost_log.Queues.Ordering.Window.{IsClock, IsOrdered, run-IsOrdered}
use boost_log.Queues.Ordering.Records.{all_taken}

-- Two records, the greater one first, and a window of 30 milliseconds.
abbrev two_records : List (ℕ × Action ℕ)
two_records =
    (5, enqueue 9)
    ∷ (1000005, enqueue 4)
    ∷ (2000005, dequeue_ready)
    ∷ (30000005, try_dequeue_ready)
    ∷ (31000005, dequeue_ready)
    ∷ (31000006, dequeue_ready)
    ∷ []

-- The lesser one is taken first, although the other one had its window before.
two_records-results :
    all_taken (run searched 30 two_records (empty_queue searched)).1
    ≡ record { timestamp = 1000005; rec = 4 } ∷ record { timestamp = 5; rec = 9 } ∷ []
unfolding run step enqueue_unlocked take elapsed empty_queue searched least without_least all_taken
two_records-results = refl

run-IsOrdered_example :
    IsOrdered searched ltb 30 (run searched 30 two_records (empty_queue searched)).1
unfolding empty_queue searched IsClock
run-IsOrdered_example =
    run-IsOrdered searched ltb 30 searched-IsPriorityQueue 0 two_records (empty_queue searched)
      (omega arith) (tt, (tt, (tt, (tt, (tt, (tt, tt)))))) (λ x m. absurd (not-mem-nil m))
