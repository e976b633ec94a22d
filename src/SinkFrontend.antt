-- ===== src/SinkFrontend.antt =====
-- basic_sink_frontend (sinks/basic_sink_frontend.hpp): the filter of a sink, and the feeding of its backend
-- under the backend's mutex. What the mutex, the filter, the backend and the exception handler answer is
-- an argument.
pub mod Locking
pub mod Synchronous
pub mod Unlocked
mod Examples
use boost_log.Base.{ℕ, suc, ◌+◌, Bool, true, false, Option, none, some, List, [], ◌∷◌, ◌++◌}
use boost_log.Core.State.{FilterAnswer, HandlerAnswer, Handler}
use boost_log.Core.Open.{Outcome, returned, threw, interrupted}
use boost_log.Core.Push.{ConsumeAnswer}

pub record Frontend (A : Type 0) : Type 0 where
  pub filter : Option (A → FilterAnswer)
  pub exception_handler : Option Handler

-- An attempt to lock the backend's mutex; `busy` is an answer to try_to_lock only.
pub data LockAnswer : Type 0 where
  acquired busy throws interrupts : LockAnswer

-- What happens to the backend: a record is consumed or the buffers are flushed, with the mutex held
-- (`true`) or not.
pub data BackendEvent : Type 0 where
  consumed flushed : Bool → BackendEvent

-- How a call ends, the calls of the backend in order, and the number of calls of the handler.
pub record Feeding (T : Type 0) : Type 0 where
  pub outcome : Outcome T
  pub backend_calls : List BackendEvent
  handler_calls : ℕ

module _ {A : Type 0} where
  unfoldable pub set_filter : (A → FilterAnswer) → Frontend A → Frontend A
  set_filter filter f = record f { filter = some filter }

  unfoldable pub reset_filter : Frontend A → Frontend A
  reset_filter f = record f { filter = none }

  unfoldable pub set_exception_handler : Handler → Frontend A → Frontend A
  set_exception_handler handler f = record f { exception_handler = some handler }

  pub reset_exception_handler : Frontend A → Frontend A
  reset_exception_handler f = record f { exception_handler = none }

-- catch (...): without a handler the exception goes on; with one the call returns what follows it.
pub catch_all : {T : Type 0} → Option Handler → Feeding T → (Feeding T → Feeding T) → Feeding T
catch_all none r next = record r { outcome = threw }
catch_all (some h) r next =
    let called = record r { handler_calls = suc r.handler_calls } in
    elim (h r.handler_calls) [
      | HandlerAnswer.returns ↦ next called
      | HandlerAnswer.rethrows ↦ record called { outcome = threw }
      | HandlerAnswer.interrupts ↦ record called { outcome = interrupted }
    ]

pub will_consume : {A : Type 0} → Frontend A → A → Feeding Bool
unfolding catch_all
will_consume f values =
    let start : Bool → Feeding Bool =
      λ b. record { outcome = returned b; backend_calls = []; handler_calls = 0 } in
    elim f.filter [
      | none ↦ start true
      | some filter ↦ elim (filter values) [
        | FilterAnswer.passes ↦ start true
        | FilterAnswer.stops ↦ start false
        | FilterAnswer.throws ↦ catch_all f.exception_handler (start false) (λ r. r)
        | FilterAnswer.interrupts ↦ record (start false) { outcome = interrupted }
      ]
    ]

-- backend.consume or backend.flush in the try block, with the mutex held or not.
pub call_backend : Option Handler → BackendEvent → ConsumeAnswer → Feeding Unit → Feeding Unit
unfolding catch_all
call_backend handler event answer r =
    let called = record r { backend_calls = r.backend_calls ++ event ∷ [] } in
    elim answer [
      | ConsumeAnswer.done ↦ record called { outcome = returned tt }
      | ConsumeAnswer.throws ↦ catch_all handler called (λ r'. record r' { outcome = returned tt })
      | ConsumeAnswer.interrupts ↦ record called { outcome = interrupted }
    ]

-- The lock is inside the try block. An exclusive lock waits and is never `busy`.
pub lock_and_call :
    Option Handler → BackendEvent → LockAnswer → ConsumeAnswer → Feeding Unit → Feeding Unit
unfolding call_backend catch_all
lock_and_call handler event lock answer r = elim lock [
  | acquired ↦ call_backend handler event answer r
  | busy ↦ call_backend handler event answer r
  | throws ↦ catch_all handler r (λ r'. record r' { outcome = returned tt })
  | interrupts ↦ record r { outcome = interrupted }
]

abbrev pub nothing_yet : Feeding Unit
nothing_yet = record { outcome = returned tt; backend_calls = []; handler_calls = 0 }

pub feed_record : {A : Type 0} → Frontend A → LockAnswer → ConsumeAnswer → Feeding Unit
unfolding lock_and_call
feed_record f lock answer =
    lock_and_call f.exception_handler (consumed true) lock answer nothing_yet

-- flush_backend, for a backend that supports it.
pub flush_backend : {A : Type 0} → Frontend A → LockAnswer → ConsumeAnswer → Feeding Unit
unfolding lock_and_call
flush_backend f lock answer =
    lock_and_call f.exception_handler (flushed true) lock answer nothing_yet

-- The result `true` of try_feed_record, where feed_record returned.
abbrev and_true : Feeding Unit → Feeding Bool
and_true r = record {
  outcome = elim r.outcome [
    | returned _ ↦ returned true
    | threw ↦ threw
    | interrupted ↦ interrupted
  ];
  backend_calls = r.backend_calls;
  handler_calls = r.handler_calls;
}

-- try_feed_record: the call of feed_record at the end takes no lock of its own.
pub try_feed_record : {A : Type 0} → Frontend A → LockAnswer → ConsumeAnswer → Feeding Bool
unfolding catch_all call_backend
try_feed_record f lock answer =
    let start : Feeding Bool = record {
      outcome = returned false;
      backend_calls = [];
      handler_calls = 0;
    } in
    elim lock [
      | acquired ↦ and_true (call_backend f.exception_handler (consumed true) answer nothing_yet)
      | busy ↦ start
      | throws ↦ catch_all f.exception_handler start (λ r. and_true (
          call_backend f.exception_handler (consumed false) answer
            (record nothing_yet { handler_calls = r.handler_calls })))
      | interrupts ↦ record start { outcome = interrupted }
    ]
