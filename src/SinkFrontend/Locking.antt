-- ===== src/SinkFrontend/Locking.antt =====
-- Exceptions and the lock of the backend in basic_sink_frontend (sinks/basic_sink_frontend.hpp).
use boost_log.Base.{
  ℕ, ◌≡◌, ◌≢◌, Bool, true, false, none, some, [], ◌∷◌, arith, Option-cases, inl, inr,
}
use boost_log.Core.State.{FilterAnswer, HandlerAnswer, Handler}
use boost_log.Core.Open.{returned, threw}
use boost_log.Core.Push.{ConsumeAnswer}
use boost_log.SinkFrontend.{
  Frontend, LockAnswer, busy, throws, consumed, catch_all, will_consume, call_backend,
  lock_and_call, feed_record, flush_backend, try_feed_record,
}

module _ {A : Type 0} (f : Frontend A) where
  -- Whether a frontend wants a record with these values, where an exception of the filter means no.
  abbrev wants : A → Bool
  wants values = elim f.filter [
    | none ↦ true
    | some filter ↦ elim (filter values) [ FilterAnswer.passes ↦ true | _ ↦ false ]
  ]

  -- If the exception handler of a frontend is set and always returns, and nothing is interrupted, no
  -- exception leaves the frontend: will_consume returns whether the filter is missing or passes, and
  -- feed_record, try_feed_record and flush_backend return, whatever the mutex and the backend do;
  -- try_feed_record returns false exactly if the mutex is busy.
  pub calls_return :
      (h : Handler) (values : A) (lock : LockAnswer) (answer : ConsumeAnswer)
      → f.exception_handler ≡ some h
      → ((n : ℕ) → h n ≡ HandlerAnswer.returns)
      → ((filter : A → FilterAnswer)
          → f.filter ≡ some filter
          → filter values ≢ FilterAnswer.interrupts)
      → lock ≢ LockAnswer.interrupts
      → answer ≢ ConsumeAnswer.interrupts
      → ((will_consume f values).outcome ≡ returned (wants values))
        × ((feed_record f lock answer).outcome ≡ returned tt)
        × ((flush_backend f lock answer).outcome ≡ returned tt)
        × ((try_feed_record f lock answer).outcome
            ≡ returned (elim lock [ busy ↦ false | _ ↦ true ]))
  unfolding will_consume feed_record flush_backend try_feed_record lock_and_call call_backend
      catch_all
  calls_return h values lock answer e r calm l a = (
    elim (Option-cases f.filter) [
      | inl missing ↦ ground (arith, missing)
      | inr (filter, is_set) ↦ ground (arith, e, is_set, calm filter is_set, r 0)
    ],
    ground (arith, e, r 0),
    ground (arith, e, r 0),
    ground (arith, e, r 0, r 1),
  )

  -- Unless the attempt to lock the mutex throws, try_feed_record calls the backend only with the mutex
  -- held: it returns true after it has called the backend once, and false if the mutex is busy, without
  -- a call of the backend.
  try_feed_record-locked :
      (lock : LockAnswer) (answer : ConsumeAnswer)
      → lock ≢ throws
      → let r = try_feed_record f lock answer in
        (r.outcome ≡ returned true → r.backend_calls ≡ consumed true ∷ [])
        × (r.outcome ≡ returned false → (lock ≡ busy) × (r.backend_calls ≡ []))
        × (r.outcome ≡ threw → r.backend_calls ≡ consumed true ∷ [])
  unfolding try_feed_record call_backend catch_all
  try_feed_record-locked lock answer n = (ground arith, ground arith, ground arith)
