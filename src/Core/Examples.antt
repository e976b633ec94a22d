-- ===== src/Core/Examples.antt =====
-- Runs of the core (core.cpp) on concrete sinks and filters.
use mathlib.Core.List.Perm
use boost_log.Base.{
  zero, suc, count, arith, ℕ, ◌+◌, ◌≡◌, ◌≤◌, ◌≢◌, refl, true, none, some, [], ◌∷◌, ◌==◌, ltb,
  if◌then◌else◌, All,
}
use boost_log.Core.Flush.{FlushAnswer, flush, failed_flushes, up_to_failure, flush-called}
use boost_log.Core.State.{FilterAnswer, HandlerAnswer, View, Core, construct, set_exception_handler}
use boost_log.Core.Sinks.{remove_all_sinks, registered, IsDistinct}
use boost_log.Core.Open.{Record, Outcome, returned, threw, open_record, compose_view, active_sinks}
use boost_log.Core.Open.Willing.{admits, willing, open_record-handled}
use boost_log.Core.Push.{TryAnswer, ConsumeAnswer, Trace, Environment, push_record, lock_sinks}
use boost_log.Core.Push.Count.{deliveries, failures}
use boost_log.Core.Push.Delivery.{push_record-total}
use boost_log.Core.Push.Once.{push_record-once}

abbrev with_sinks : Core ℕ
with_sinks = record {
  sinks = 11 ∷ 12 ∷ 13 ∷ [];
  default_sink = 10;
  global_attributes = 7;
  thread_data = λ _. none;
  enabled = true;
  filter = none;
  exception_handler = some (λ _. HandlerAnswer.returns);
}

-- Sink 12 throws and sink 13 accepts.
abbrev answers : ℕ → View ℕ → FilterAnswer
answers s v =
    if s == 12
    then FilterAnswer.throws
    else if s == 13
    then FilterAnswer.passes
    else FilterAnswer.stops

distinct : IsDistinct with_sinks.sinks
unfolding registered
distinct = (refl, (refl, (refl, tt)))

calm_answers :
    All
      (λ s. answers s (compose_view 0 1 5 with_sinks) ≢ FilterAnswer.interrupts)
      (active_sinks with_sinks)
calm_answers = ((λ e. cc), ((λ e. cc), ((λ e. cc), tt)))

abbrev opened_record : Record ℕ
opened_record = record {
  values = record { source_attributes = 5; thread_attributes = 0; global_attributes = 7 };
  accepting_sinks = 13 ∷ [];
}

open_record-handled_example :
    (open_record answers 0 1 5 with_sinks).0 ≡ returned (some opened_record)
unfolding compose_view admits willing
open_record-handled_example =
    open_record-handled answers 0 1 5 with_sinks calm_answers (λ e. cc) (λ _. HandlerAnswer.returns)
      (λ n. refl) refl

-- Sink 1 is busy until it is blocked on, sink 2 throws, sink 3 takes the record, sink 4 is gone.
abbrev environment : Environment
environment = record {
  lock = λ s. ltb s 4;
  try_consume =
      λ t s. if s == 1 then TryAnswer.busy else if s == 2 then TryAnswer.throws else TryAnswer.done;
  consume = λ t s. ConsumeAnswer.done;
  random_shuffle = λ t ss. ss;
  exception_handler = some (λ _. HandlerAnswer.returns);
}

try_calm : (t : Trace) (s : ℕ) → environment.try_consume t s ≢ TryAnswer.interrupts
try_calm t s e = ground arith

push_record-total_example :
    (o : Outcome (Unit {0})) × (t : Trace) × (push_record environment (1 ∷ 2 ∷ 3 ∷ 4 ∷ [])
      ≡ some (o, t))
    × ((a : ℕ)
        → deliveries a t + failures a t
          ≤ count a (lock_sinks environment.lock (1 ∷ 2 ∷ 3 ∷ 4 ∷ [])))
push_record-total_example =
    push_record-total environment (1 ∷ 2 ∷ 3 ∷ 4 ∷ []) (λ t ss. Perm.refl ss)

push_record-once_example :
    (t : Trace) × (push_record environment (1 ∷ 2 ∷ 3 ∷ 4 ∷ []) ≡ some (returned tt, t))
    × ((a : ℕ)
        → deliveries a t + failures a t
          ≡ count a (lock_sinks environment.lock (1 ∷ 2 ∷ 3 ∷ 4 ∷ [])))
push_record-once_example =
    push_record-once environment (λ _. HandlerAnswer.returns) (1 ∷ 2 ∷ 3 ∷ 4 ∷ []) try_calm
      (λ t s e. cc) refl (λ t. refl) (λ t ss. Perm.refl ss)

-- A new core is enabled and has its default sink only, and a core without sinks uses that one.
new_core_active :
    (active_sinks {A = ℕ} (construct 7 10) ≡ 10 ∷ [])
    × (active_sinks (remove_all_sinks with_sinks) ≡ 10 ∷ [])
    × ((set_exception_handler (λ _. HandlerAnswer.rethrows) with_sinks).exception_handler
        ≡ some (λ _. HandlerAnswer.rethrows))
unfolding construct remove_all_sinks set_exception_handler
new_core_active = (refl, refl, refl)

-- Three sinks, of which the second one cannot be flushed.
abbrev flush_second_fails : ℕ → FlushAnswer
flush_second_fails s = if s == 2 then FlushAnswer.throws else FlushAnswer.done

flush-called_example :
    let c : Core ℕ = record (construct 0 9) { sinks = 1 ∷ 2 ∷ 3 ∷ [] } in
    (flush flush_second_fails (record c { exception_handler = some (λ _. HandlerAnswer.returns) })
      ≡ record {
        called = 1 ∷ 2 ∷ 3 ∷ [];
        handled = failed_flushes flush_second_fails (1 ∷ 2 ∷ 3 ∷ []);
        end = returned tt;
      })
    × (flush flush_second_fails (record c { exception_handler = none }) ≡ record {
      called = up_to_failure flush_second_fails (1 ∷ 2 ∷ 3 ∷ []);
      handled = 0;
      end = elim (failed_flushes flush_second_fails (1 ∷ 2 ∷ 3 ∷ [])) [
        | zero ↦ returned tt
        | suc _ ↦ threw
      ];
    })
flush-called_example =
    flush-called flush_second_fails (record (construct 0 9) { sinks = 1 ∷ 2 ∷ 3 ∷ [] })
      (λ _. HandlerAnswer.returns) (λ i. refl) (λ s e. ground (arith, e))
