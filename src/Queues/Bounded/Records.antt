-- ===== src/Queues/Bounded/Records.antt =====
-- What becomes of a record in bounded_fifo_queue (sinks/bounded_fifo_queue.hpp): it is in the queue, with
-- a thread that waits, taken or discarded, or its thread was interrupted.
use boost_log.Base.{
  ℕ, zero, suc, ◌+◌, ◌≡◌, Bool, false, Option, none, some, List, [], ◌∷◌, ◌++◌, map, count, take_at,
  count-append, arith, refl,
}
use boost_log.Queues.Bounded.{
  OverflowStrategy, Woken, Queue, Action, Result, discarded, refused, taken, interrupted, enqueue,
  resume, interrupt_blocked, interrupt_woken, leave_blocked, leave_woken, try_enqueue, try_dequeue,
  dequeue_ready, interrupt_dequeue, interrupt_consumer, push, on_overflow, on_queue_space_available,
  interrupt, attempt, resume_thread, pop, step, run,
}

-- The records that a step offers, and those that leave for good by it.
abbrev offered_by : Action → List ℕ
offered_by (enqueue r) = r ∷ []
offered_by (try_enqueue _ r) = r ∷ []
offered_by _ = []

abbrev settled_by : Result → List ℕ
settled_by (taken r) = r ∷ []
settled_by (discarded r) = r ∷ []
settled_by (refused r) = r ∷ []
settled_by (interrupted r) = r ∷ []
settled_by _ = []

pub all_offered : List Action → List ℕ
all_offered [] = []
all_offered (a ∷ rest) = offered_by a ++ all_offered rest

pub all_settled : List Result → List ℕ
all_settled [] = []
all_settled (r ∷ rs) = settled_by r ++ all_settled rs

woken_records : List Woken → List ℕ
woken_records [] = []
woken_records (w ∷ ws) = w.waiting_record ∷ woken_records ws

-- How often a record is in the queue or with a thread inside it.
pub held : ℕ → Queue → ℕ
unfolding count woken_records
held a q = count a q.queue + count a q.thread_contexts + count a (woken_records q.woken_threads)

woken_records-append :
    (xs ys : List Woken) → woken_records (xs ++ ys) ≡ woken_records xs ++ woken_records ys
unfolding woken_records
woken_records-append [] ys = refl
woken_records-append (x ∷ xs) ys = ground (arith, woken_records-append xs ys)

woken_records-map :
    (b : Bool) (ps : List ℕ)
    → woken_records (map (λ p. record { waiting_record = p; result = b }) ps) ≡ ps
unfolding woken_records
woken_records-map b [] = refl
woken_records-map b (p ∷ ps) = ground (arith, woken_records-map b ps)

module _ (a : ℕ) where
  abbrev TakesOne : List Woken → Option (Woken × List Woken) → Type 0
  TakesOne ws none = Unit
  TakesOne ws (some (w, others)) =
      count a (woken_records ws) ≡ count a (w.waiting_record ∷ woken_records others)

  take_at-TakesOne : (i : ℕ) (ws : List Woken) → TakesOne ws (take_at i ws)
  unfolding take_at count woken_records
  take_at-TakesOne i [] = tt
  take_at-TakesOne zero (w ∷ ws) = refl
  take_at-TakesOne (suc i) (w ∷ ws) = ground (arith, take_at-TakesOne i ws)

  abbrev TakesRecord : List ℕ → Option (ℕ × List ℕ) → Type 0
  TakesRecord rs none = Unit
  TakesRecord rs (some (r, others)) = count a rs ≡ count a (r ∷ others)

  take_at-TakesRecord : (i : ℕ) (rs : List ℕ) → TakesRecord rs (take_at i rs)
  unfolding take_at count
  take_at-TakesRecord i [] = tt
  take_at-TakesRecord zero (r ∷ rs) = refl
  take_at-TakesRecord (suc i) (r ∷ rs) = ground (arith, take_at-TakesRecord i rs)

  module _ (strategy : OverflowStrategy) (m : ℕ) where
    abbrev StepSettles : ℕ → Queue × Result → Type 0
    StepSettles n (q', result) = n ≡ count a (settled_by result) + held a q'

    on_queue_space_available-held :
        (q : Queue) → held a (on_queue_space_available strategy q) ≡ held a q
    unfolding on_queue_space_available held count woken_records
    on_queue_space_available-held q = grind (arith, woken_records-append, count-append)

    attempt-Settles :
        (r : ℕ) (q : Queue) → StepSettles (count a (r ∷ []) + held a q) (attempt strategy m r q)
    unfolding attempt push on_overflow held count
    attempt-Settles r q =
        ground (arith, count-append a q.queue (r ∷ []), count-append a q.thread_contexts (r ∷ []))

    pop-Settles : (q : Queue) → StepSettles (held a q) (pop strategy m q)
    unfolding pop held count
    pop-Settles q = grind (arith, on_queue_space_available-held)

    resume_thread-Settles :
        (q : Queue) (w : Option (Woken × List Woken))
        → TakesOne q.woken_threads w
        → StepSettles (held a q) (resume_thread strategy m q w)
    unfolding resume_thread held count woken_records
    resume_thread-Settles q none e = omega arith
    resume_thread-Settles q (some (w, others)) e =
        ground (arith, e, attempt-Settles w.waiting_record (record q { woken_threads = others }))

    leave_blocked-Settles :
        (q : Queue) (p : Option (ℕ × List ℕ))
        → TakesRecord q.thread_contexts p
        → StepSettles (held a q) (leave_blocked q p)
    unfolding leave_blocked held count
    leave_blocked-Settles q none e = omega arith
    leave_blocked-Settles q (some (r, others)) e = ground (arith, e)

    leave_woken-Settles :
        (q : Queue) (w : Option (Woken × List Woken))
        → TakesOne q.woken_threads w
        → StepSettles (held a q) (leave_woken q w)
    unfolding leave_woken held count woken_records
    leave_woken-Settles q none e = omega arith
    leave_woken-Settles q (some (w, others)) e = ground (arith, e)

    interrupt-held : (q : Queue) → held a (interrupt strategy q) ≡ held a q
    unfolding interrupt held count woken_records
    interrupt-held q = ground (
      arith,
      woken_records-append q.woken_threads
          (map {B = Woken} (λ p. record { waiting_record = p; result = false }) q.thread_contexts),
      woken_records-map false q.thread_contexts,
      count-append a (woken_records q.woken_threads) q.thread_contexts,
    )

    step-Settles :
        (action : Action) (q : Queue)
        → StepSettles (count a (offered_by action) + held a q) (step strategy m action q)
    unfolding step held count push
    step-Settles (enqueue r) q = attempt-Settles r q
    step-Settles (resume i) q = ground (
      arith,
      resume_thread-Settles q (take_at i q.woken_threads) (take_at-TakesOne i q.woken_threads),
    )
    step-Settles (interrupt_blocked i) q = ground (
      arith,
      leave_blocked-Settles q (take_at i q.thread_contexts)
          (take_at-TakesRecord i q.thread_contexts),
    )
    step-Settles (interrupt_woken i) q = ground (
      arith,
      leave_woken-Settles q (take_at i q.woken_threads) (take_at-TakesOne i q.woken_threads),
    )
    step-Settles (try_enqueue owns_lock r) q = ground (arith, count-append a q.queue (r ∷ []))
    step-Settles try_dequeue q = ground (arith, pop-Settles q)
    step-Settles dequeue_ready q =
        ground (arith, pop-Settles (record q { is_consumer_asleep = false }))
    step-Settles interrupt_consumer q = omega arith
    step-Settles interrupt_dequeue q = ground (arith, interrupt-held q)

    -- Over every sequence of steps and with either strategy every record is accounted for once: it
    -- is held as often at the end and has been taken, discarded, refused, or lost with the exception of a thread
    -- that was interrupted in on_overflow, together as often as it was held at the start and offered by the
    -- steps together, where held means that it is in the queue or with a thread that waits in on_overflow.
    pub run-conserves :
        (actions : List Action) (q : Queue)
        → let (q', results) = run strategy m actions q in
          count a (all_offered actions) + held a q ≡ count a (all_settled results) + held a q'
    unfolding run all_offered all_settled count
    run-conserves [] q = refl
    run-conserves (action ∷ rest) q = ground (
      arith,
      step-Settles action q,
      run-conserves rest (step strategy m action q).0,
      count-append a (offered_by action) (all_offered rest),
      count-append a (settled_by (step strategy m action q).1)
          (all_settled (run strategy m rest (step strategy m action q).0).1),
    )
