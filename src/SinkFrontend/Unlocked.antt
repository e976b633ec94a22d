-- ===== src/SinkFrontend/Unlocked.antt =====
-- unlocked_sink (sinks/unlocked_frontend.hpp): the frontend that leaves all locking to its backend. The
-- mutex that it hands to feed_record is a fake one, which is acquired at once and protects nothing.
use boost_log.Base.{◌≡◌, false, [], ◌∷◌, arith}
use boost_log.Core.Push.{ConsumeAnswer}
use boost_log.SinkFrontend.{
  Frontend, Feeding, consumed, flushed, call_backend, catch_all, nothing_yet,
}

module _ {A : Type 0} (f : Frontend A) (answer : ConsumeAnswer) where
  consume : Feeding Unit
  unfolding call_backend
  consume = call_backend f.exception_handler (consumed false) answer nothing_yet

  flush : Feeding Unit
  unfolding call_backend
  flush = call_backend f.exception_handler (flushed false) answer nothing_yet

  -- Each call reaches the backend exactly once, whatever it answers, and without a lock.
  consume_once :
      (consume.backend_calls ≡ consumed false ∷ []) × (flush.backend_calls ≡ flushed false ∷ [])
  unfolding consume flush call_backend catch_all
  consume_once = (ground arith, ground arith)
