-- ===== src/SinkFrontend/Synchronous.antt =====
-- synchronous_sink (sinks/sync_frontend.hpp): the frontend that feeds its backend in the calling thread,
-- under a mutex of its own.
use boost_log.Base.{◌≡◌, ◌⊎◌, Bool, true, false, [], ◌∷◌, arith}
use boost_log.Core.Push.{ConsumeAnswer}
use boost_log.SinkFrontend.{
  Frontend, LockAnswer, Feeding, consumed, flushed, feed_record, try_feed_record, flush_backend,
  lock_and_call, call_backend, catch_all,
}

module _ {A : Type 0} (f : Frontend A) (lock : LockAnswer) (answer : ConsumeAnswer) where
  consume : Feeding Unit
  unfolding feed_record
  consume = feed_record f lock answer

  try_consume : Feeding Bool
  unfolding try_feed_record
  try_consume = try_feed_record f lock answer

  flush : Feeding Unit
  unfolding flush_backend
  flush = flush_backend f lock answer

  -- consume() and flush() call the backend at most once, and only with the mutex held.
  consume_locked :
      ((consume.backend_calls ≡ []) ⊎ (consume.backend_calls ≡ consumed true ∷ []))
      × ((flush.backend_calls ≡ []) ⊎ (flush.backend_calls ≡ flushed true ∷ []))
  unfolding consume flush lock_and_call call_backend catch_all
  consume_locked = (ground arith, ground arith)

  -- try_consume() calls the backend at most once.
  try_consume_once :
      (try_consume.backend_calls ≡ [])
      ⊎ (try_consume.backend_calls ≡ consumed true ∷ [])
      ⊎ (try_consume.backend_calls ≡ consumed false ∷ [])
  unfolding try_consume call_backend catch_all
  try_consume_once = ground arith
