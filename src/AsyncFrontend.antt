-- ===== src/AsyncFrontend.antt =====
-- asynchronous_sink (sinks/async_frontend.hpp): the frontend that hands records to its backend in one
-- thread at a time. A step is what a thread does between two accesses to what the threads share; what it
-- does under the frontend's mutex is one step. A thread that waits may go on at any time, and looks at
-- what it waits for again. The queueing strategy is an interface; it is one whose `enqueue` does not
-- block. An exception of the backend is one that the exception handler does not stop.
pub mod Steps
pub mod Feeding
pub mod Stuck
pub mod Asked
pub mod Watched
pub mod Stopping
pub mod Records
pub mod Conservation
pub mod Ordering
pub mod Ordered
mod Examples
use boost_log.Base.{
  ℕ, ◌≡◌, Bool, true, false, not, ◌&&◌, Option, none, some, List, [], ◌∷◌, ◌==◌, if◌then◌else◌,
}

-- A pass of the loop in dequeue_ready.
pub data Pass (R : Type 0) : Type 0 where
  received : R → Pass R
  interrupted waits : Pass R

-- What the frontend asks of a queueing strategy, with the time of the call. `contents` are the records in
-- it, in any order.
pub record RecordQueue (R S : Type 0) : Type 0 where
  pub enqueue : ℕ → R → S → S
  pub try_enqueue : ℕ → Bool → R → S → S × Bool
  pub try_dequeue_ready : ℕ → S → S × Option R
  pub try_dequeue : ℕ → S → S × Option R
  pub dequeue_ready : ℕ → S → S × Pass R
  pub interrupt_dequeue : S → S
  pub contents : S → List R
  pub is_interrupted : S → Bool

-- What stop() relies on: a pass of dequeue_ready ends after an interruption.
pub record IsInterruptible {R S : Type 0} (strategy : RecordQueue R S) : Type 0 where
  pub interrupt : (s : S) → strategy.is_interrupted (strategy.interrupt_dequeue s) ≡ true
  pub enqueue :
      (now : ℕ) (r : R) (s : S)
      → strategy.is_interrupted s ≡ true
      → strategy.is_interrupted (strategy.enqueue now r s) ≡ true
  pub try_enqueue :
      (now : ℕ) (owns_lock : Bool) (r : R) (s : S)
      → strategy.is_interrupted s ≡ true
      → strategy.is_interrupted (strategy.try_enqueue now owns_lock r s).0 ≡ true
  pub dequeue_ready :
      (now : ℕ) (s : S)
      → strategy.is_interrupted s ≡ true
      → (strategy.dequeue_ready now s).1 ≡ interrupted

-- The functions that feed records.
pub data Caller : Type 0 where
  run feed_records flush : Caller

-- Where a thread is. From `looping` to `waiting` it is in the functions that feed records: at the test of
-- the loop in do_feed_records, at the test for a flush there, before it dequeues a record, with a record,
-- behind the loop, in flush_backend, in the destructor of the scoped_flag, back from do_feed_records, and
-- in dequeue_ready. In `leaving` it is in the destructor of its scoped_thread_id.
pub data Phase (R : Type 0) : Type 0 where
  outside starting : Phase R
  looping testing : Caller → Phase R
  dequeuing : Caller → Bool → Phase R
  feeding : Caller → R → Phase R
  ending flushing : Caller → Phase R
  resetting : Caller → Bool → Phase R
  back : Caller → Phase R
  waiting leaving : Phase R
  held_back enqueuing try_enqueuing : R → Phase R
  stopping joining flush_waiting : Phase R

pub record Frontend (R S : Type 0) : Type 0 where
  pub queue : S
  pub feeding_thread_id : Option ℕ
  pub dedicated_thread : Option ℕ
  pub is_stop_requested : Bool
  pub is_flush_requested : Bool

-- A call of a thread, or its next step, with the answer of what it calls: whether the backend returns,
-- a wait is not ended by thread interruption, a mutex is locked at once.
pub data Move (R : Type 0) : Type 0 where
  calls_consume calls_try_consume : R → Move R
  calls : Caller → Move R
  calls_stop : Move R
  goes_on : Bool → Move R

pub data Result (R : Type 0) : Type 0 where
  enqueued refused taken fed : R → Result R
  nothing : Result R

pub record Next (R S : Type 0) : Type 0 where
  pub frontend : Frontend R S
  pub phase : Phase R
  pub result : Result R

-- The frontend and where each thread is.
pub record System (R S : Type 0) : Type 0 where
  pub frontend : Frontend R S
  pub phases : ℕ → Phase R

-- A step that only leads on.
pub next : {R S : Type 0} → Phase R → Frontend R S → Next R S
next p f = record { frontend = f; phase = p; result = nothing }

-- The end of the dedicated thread, for join().
pub is_over : {R : Type 0} → (ℕ → Phase R) → Option ℕ → Bool
is_over phases none = true
is_over phases (some d) = elim (phases d) [ outside ↦ true | _ ↦ false ]

module _ {R S : Type 0} (strategy : RecordQueue R S) where
  -- scoped_thread_id, if no other thread feeds records; unexpected_call is thrown otherwise.
  pub enter : ℕ → Caller → Frontend R S → Next R S
  unfolding next
  enter t c f = elim f.feeding_thread_id [
    | none ↦ next (looping c) (record f { feeding_thread_id = some t })
    | some _ ↦ next outside f
  ]

  -- The part of flush() where the thread feeds the records itself.
  pub enter_flush : ℕ → Frontend R S → Next R S
  unfolding enter
  enter_flush t f = enter t flush (record f { is_flush_requested = true })

  pub begin_flush : ℕ → Frontend R S → Next R S
  unfolding enter_flush next
  begin_flush t f = elim f.feeding_thread_id [
    | none ↦ enter_flush t f
    | some _ ↦
        next flush_waiting
          (record f { is_flush_requested = true; queue = strategy.interrupt_dequeue f.queue })
  ]

  -- The end of the wait in flush().
  pub resume_flush : ℕ → Frontend R S → Next R S
  unfolding enter_flush next
  resume_flush t f =
      if not f.is_stop_requested && f.is_flush_requested
      then next flush_waiting f
      else elim f.feeding_thread_id [ none ↦ enter_flush t f | some _ ↦ next outside f ]

  pub begin_stop : Frontend R S → Next R S
  unfolding next
  begin_stop f =
      let asked : Next R S =
        next stopping
          (record f { is_stop_requested = true; queue = strategy.interrupt_dequeue f.queue }) in
      elim f.feeding_thread_id [
        | some _ ↦ asked
        | none ↦ elim f.dedicated_thread [ some _ ↦ asked | none ↦ next outside f ]
      ]

  -- consume() up to the wait for the end of a flush, and try_consume().
  pub begin_consume : R → Frontend R S → Next R S
  unfolding next
  begin_consume r f = if f.is_flush_requested then next (held_back r) f else next (enqueuing r) f

  pub begin_try_consume : R → Frontend R S → Next R S
  unfolding next
  begin_try_consume r f =
      if f.is_flush_requested
      then record { frontend = f; phase = outside; result = refused r }
      else next (try_enqueuing r) f

  -- What dequeuing gave to do_feed_records.
  pub dequeued : Caller → Frontend R S → S × Option R → Next R S
  dequeued c f (s, none) = record {
    frontend = record f { queue = s };
    phase = ending c;
    result = nothing;
  }
  dequeued c f (s, some r) = record {
    frontend = record f { queue = s };
    phase = feeding c r;
    result = taken r;
  }

  -- What a pass of dequeue_ready gave to run().
  pub passed : Frontend R S → S × Pass R → Next R S
  passed f (s, received r) = record {
    frontend = record f { queue = s };
    phase = feeding run r;
    result = taken r;
  }
  passed f (s, interrupted) = record {
    frontend = record f { queue = s };
    phase = looping run;
    result = nothing;
  }
  passed f (s, waits) = record {
    frontend = record f { queue = s };
    phase = waiting;
    result = nothing;
  }

  pub tried : R → Frontend R S → S × Bool → Next R S
  tried r f (s, true) = record {
    frontend = record f { queue = s };
    phase = outside;
    result = enqueued r;
  }
  tried r f (s, false) = record {
    frontend = record f { queue = s };
    phase = outside;
    result = refused r;
  }
