-- ===== src/Queues/Bounded/Wakeup.antt =====
-- Which blocked threads wake up in bounded_fifo_queue with block_on_overflow
-- (sinks/bounded_fifo_queue.hpp, sinks/block_on_overflow.hpp).
use boost_log.Base.{ℕ, ◌≡◌, ◌<◌, true, false, List, [], ◌∷◌, length, arith, refl, take_at}
use boost_log.Queues.Bounded.{
  block_on_overflow, Queue, Action, resume, try_dequeue, push, on_queue_space_available, attempt,
  resume_thread, pop, step, run,
}

-- As many calls of try_dequeue as there are records.
abbrev pub dequeues : List ℕ → List Action
dequeues [] = []
dequeues (_ ∷ rs) = try_dequeue ∷ dequeues rs

-- A queue that is not full wakes nobody when it is emptied.
run-not_full :
    (m : ℕ) (rs : List ℕ) (q : Queue)
    → q.queue ≡ rs
    → length rs < m
    → (run block_on_overflow m (dequeues rs) q).0 ≡ record q { queue = [] }
unfolding run step pop
run-not_full m [] q e l = ground (arith, e)
run-not_full m (r ∷ rs) q e l = ground (arith, e, run-not_full m rs (record q { queue = rs }) refl)

module _ (m p : ℕ) (q : Queue) (ps : List ℕ) (t : q.thread_contexts ≡ p ∷ ps)
    (w : q.woken_threads ≡ []) where
  abbrev first_woken : Queue
  first_woken = record q {
    queue = [];
    thread_contexts = ps;
    woken_threads = record { waiting_record = p; result = true } ∷ [];
  }

  run-full :
      (rs : List ℕ)
      → q.queue ≡ rs
      → 1 < m
      → length rs ≡ m
      → (run block_on_overflow m (dequeues rs) q).0 ≡ first_woken
  unfolding run step pop on_queue_space_available
  run-full [] e b l = absurd (omega arith)
  run-full (r ∷ rs) e b l =
      ground (arith, e, t, w, l, run-not_full m rs (record first_woken { queue = rs }) refl)

  run-refill :
      1 < m
      → (run block_on_overflow m (resume 0 ∷ try_dequeue ∷ []) first_woken).0
        ≡ record first_woken { woken_threads = []; is_consumer_asleep = false }
  unfolding run step pop take_at resume_thread attempt push on_queue_space_available
  run-refill b = ground arith

-- In a full queue with a bound of at least 2, with blocked threads, the first of which wants to enqueue
-- `p`, and no woken ones, the consumer takes all records: only that first thread is woken, however much
-- room there is. When it has enqueued its record and the consumer has taken that too, the queue is
-- empty, and the other threads are still blocked, with no woken thread left.
pub run-starves :
    (m p : ℕ) (q : Queue) (ps : List ℕ)
    → 1 < m
    → length q.queue ≡ m
    → q.thread_contexts ≡ p ∷ ps
    → q.woken_threads ≡ []
    → ((run block_on_overflow m (dequeues q.queue) q).0 ≡ record q {
      queue = [];
      thread_contexts = ps;
      woken_threads = record { waiting_record = p; result = true } ∷ [];
    })
      × ((run block_on_overflow m
            (resume 0 ∷ try_dequeue ∷ [])
            (run block_on_overflow m (dequeues q.queue) q).0).0
          ≡ record q {
            queue = [];
            thread_contexts = ps;
            woken_threads = [];
            is_consumer_asleep = false;
          })
run-starves m p q ps b l t w = (full, rw (full, run-refill m p q ps t w b))
  where
    full : (run block_on_overflow m (dequeues q.queue) q).0 ≡ first_woken m p q ps t w
    full = run-full m p q ps t w q.queue refl b l
