-- ===== src/Queues/Unbounded/Examples.antt =====
-- Runs of unbounded_fifo_queue (sinks/unbounded_fifo_queue.hpp) on a concrete schedule.
use boost_log.Base.{◌≡◌, ◌+◌, ◌≤◌, ◌⊎◌, inl, List, [], ◌∷◌, arith, refl}
use boost_log.Queues.Unbounded.{Action, enqueue, try_set, post, dequeue, construct, run}
use boost_log.Queues.Unbounded.Sleep.{run-awake}

-- The consumer falls asleep before a record is enqueued.
abbrev sleeps_early : List Action
sleeps_early = dequeue ∷ dequeue ∷ enqueue 7 ∷ []

-- When the event is set, it takes the record.
wakes_up :
    run (try_set ∷ post ∷ dequeue ∷ dequeue ∷ dequeue ∷ dequeue ∷ []) (run sleeps_early construct)
    ≡ construct
unfolding run construct
wakes_up = refl

run-awake_example :
    (1 ≤ (run sleeps_early construct).semaphore)
    ⊎ (1 ≤ (run sleeps_early construct).before_set + (run sleeps_early construct).before_post)
unfolding run construct
run-awake_example =
    run-awake sleeps_early (run sleeps_early construct) refl refl (inl (λ e. ground (arith, e)))
