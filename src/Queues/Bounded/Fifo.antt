-- ===== src/Queues/Bounded/Fifo.antt =====
-- The order and the number of the records in bounded_fifo_queue (sinks/bounded_fifo_queue.hpp), over all
-- orders of the steps of its threads.
use mathlib.Core.List.{append_assoc, append-nil}
use boost_log.Base.{
  ℕ, ◌≡◌, ◌≤◌, false, Option, none, some, List, [], ◌∷◌, ◌++◌, length, length-append, arith,
  take_at,
}
use boost_log.Queues.Bounded.{
  OverflowStrategy, Woken, Queue, Action, Result, pushed, taken, enqueue, resume, interrupt_blocked,
  interrupt_woken, leave_blocked, leave_woken, try_enqueue, try_dequeue, dequeue_ready,
  interrupt_dequeue, interrupt_consumer, push, on_overflow, on_queue_space_available, interrupt,
  attempt, resume_thread, pop, step, run,
}

-- The records that steps put into the queue, and those that they took from it.
abbrev pushed_by : Result → List ℕ
pushed_by (pushed r) = r ∷ []
pushed_by _ = []

abbrev taken_by : Result → List ℕ
taken_by (taken r) = r ∷ []
taken_by _ = []

pub all_pushed : List Result → List ℕ
all_pushed [] = []
all_pushed (r ∷ rs) = pushed_by r ++ all_pushed rs

pub all_taken : List Result → List ℕ
all_taken [] = []
all_taken (r ∷ rs) = taken_by r ++ all_taken rs

abbrev StepKeeps : ℕ → Queue → Queue × Result → Type 0
StepKeeps m q (q', result) =
    (q.queue ++ pushed_by result ≡ taken_by result ++ q'.queue)
    × (length q.queue ≤ m → length q'.queue ≤ m)

module _ (strategy : OverflowStrategy) (m : ℕ) where
  attempt-Keeps : (r : ℕ) (q : Queue) → StepKeeps m q (attempt strategy m r q)
  unfolding attempt push on_overflow
  attempt-Keeps r q = ground (arith, append-nil q.queue, length-append q.queue (r ∷ []))

  pop-Keeps : (q : Queue) → StepKeeps m q (pop strategy m q)
  unfolding pop on_queue_space_available
  pop-Keeps q = ground (arith, append-nil q.queue)

  resume_thread-Keeps :
      (q : Queue) (w : Option (Woken × List Woken)) → StepKeeps m q (resume_thread strategy m q w)
  unfolding resume_thread
  resume_thread-Keeps q none = ground (arith, append-nil q.queue)
  resume_thread-Keeps q (some (w, others)) = ground (
    arith,
    append-nil q.queue,
    attempt-Keeps w.waiting_record (record q { woken_threads = others }),
  )

  leave_blocked-Keeps : (q : Queue) (p : Option (ℕ × List ℕ)) → StepKeeps m q (leave_blocked q p)
  unfolding leave_blocked
  leave_blocked-Keeps q p = ground (arith, append-nil q.queue)

  leave_woken-Keeps :
      (q : Queue) (w : Option (Woken × List Woken)) → StepKeeps m q (leave_woken q w)
  unfolding leave_woken
  leave_woken-Keeps q w = ground (arith, append-nil q.queue)

  interrupt_queue : (q : Queue) → (interrupt strategy q).queue ≡ q.queue
  unfolding interrupt
  interrupt_queue q = ground arith

  step-Keeps : (a : Action) (q : Queue) → StepKeeps m q (step strategy m a q)
  unfolding step push
  step-Keeps (enqueue r) q = attempt-Keeps r q
  step-Keeps (resume i) q = resume_thread-Keeps q (take_at i q.woken_threads)
  step-Keeps (interrupt_blocked i) q = leave_blocked-Keeps q (take_at i q.thread_contexts)
  step-Keeps (interrupt_woken i) q = leave_woken-Keeps q (take_at i q.woken_threads)
  step-Keeps (try_enqueue owns_lock r) q =
      ground (arith, append-nil q.queue, length-append q.queue (r ∷ []))
  step-Keeps try_dequeue q = pop-Keeps q
  step-Keeps dequeue_ready q =
      ground (arith, append-nil q.queue, pop-Keeps (record q { is_consumer_asleep = false }))
  step-Keeps interrupt_consumer q = ground (arith, append-nil q.queue)
  step-Keeps interrupt_dequeue q = ground (arith, append-nil q.queue, interrupt_queue q)

  -- Over every sequence of steps, of whatever producers and consumer, and with either strategy: the
  -- records that were in the queue followed by those that were pushed are, in this order, those that
  -- were taken followed by those that are in the queue at the end, and the queue never grows beyond its
  -- bound.
  pub run-fifo :
      (actions : List Action) (q : Queue)
      → let (q', results) = run strategy m actions q in
        (q.queue ++ all_pushed results ≡ all_taken results ++ q'.queue)
        × (length q.queue ≤ m → length q'.queue ≤ m)
  unfolding run all_pushed all_taken
  run-fifo [] q = (append-nil q.queue, λ b. b)
  run-fifo (a ∷ rest) q = ground (
    arith,
    step-Keeps a q,
    run-fifo rest (step strategy m a q).0,
    append_assoc q.queue (pushed_by (step strategy m a q).1)
        (all_pushed (run strategy m rest (step strategy m a q).0).1),
    append_assoc (taken_by (step strategy m a q).1) (step strategy m a q).0.queue
        (all_pushed (run strategy m rest (step strategy m a q).0).1),
    append_assoc (taken_by (step strategy m a q).1)
        (all_taken (run strategy m rest (step strategy m a q).0).1)
        (run strategy m rest (step strategy m a q).0).0.queue,
  )
