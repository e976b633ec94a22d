-- ===== src/Core/Open.antt =====
-- basic_core::open_record and implementation::apply_sink_filter (core.cpp).
-- A thread_interrupted exception passes every handler. Memory is never exhausted, so that only the
-- filters and the exception handler throw.
pub mod Willing
pub mod Sound
use boost_log.Base.{ℕ, ◌+◌, Option, none, some, List, [], ◌∷◌, ◌++◌, if◌then◌else◌}
use boost_log.Core.State.{FilterAnswer, HandlerAnswer, View, Handler, Core, get_thread_data}

-- record_type::private_data: the frozen values and the sinks that accepted the record.
pub record Record (A : Type 0) : Type 0 where
  pub values : View A
  pub accepting_sinks : List ℕ

-- How a call of the core ends: with a value, with an exception, or interrupted.
pub data Outcome {ℓ} (B : Type ℓ) : Type ℓ where
  returned : B → Outcome B
  threw : Outcome B
  interrupted : Outcome B

-- What apply_sink_filter leaves behind: the record, `none` where no sink has accepted it yet, how
-- often the exception handler has been called, and how the call ended.
pub record Opening (A : Type 0) : Type 0 where
  pub rec : Option (Record A)
  pub handled : ℕ
  pub end : Outcome (Unit {0})

module _ {A : Type 0} where
  -- The accepting branch: the record is created for the first sink that accepts.
  abbrev accept : View A → ℕ → Option (Record A) → Record A
  accept v sink none = record { values = v; accepting_sinks = sink ∷ [] }
  accept v sink (some r) = record r { accepting_sinks = r.accepting_sinks ++ sink ∷ [] }

  -- catch (...): a record without accepting sinks is destroyed.
  abbrev drop_empty : Option (Record A) → Option (Record A)
  drop_empty none = none
  drop_empty (some r) = elim r.accepting_sinks [ [] ↦ none | _ ∷ _ ↦ some r ]

  abbrev caught : Option Handler → Option (Record A) → ℕ → Opening A
  caught none rec n = record { rec = rec; handled = n; end = threw }
  caught (some h) rec n = elim (h n) [
    | HandlerAnswer.returns ↦ record { rec = drop_empty rec; handled = n + 1; end = returned tt }
    | HandlerAnswer.rethrows ↦ record { rec = rec; handled = n + 1; end = threw }
    | HandlerAnswer.interrupts ↦ record { rec = rec; handled = n + 1; end = interrupted }
  ]

  pub apply_sink_filter :
      (ℕ → View A → FilterAnswer) → Option Handler → View A → ℕ → Option (Record A) → ℕ → Opening A
  apply_sink_filter will_consume handler v sink rec n = elim (will_consume sink v) [
    | FilterAnswer.passes ↦ record {
      rec = some (accept v sink rec);
      handled = n;
      end = returned tt;
    }
    | FilterAnswer.stops ↦ record { rec = rec; handled = n; end = returned tt }
    | FilterAnswer.throws ↦ caught handler rec n
    | FilterAnswer.interrupts ↦ record { rec = rec; handled = n; end = interrupted }
  ]

  -- The loop over the sinks: it stops at the first call that does not return.
  pub apply_filters :
      (ℕ → View A → FilterAnswer)
      → Option Handler
      → View A
      → List ℕ
      → Option (Record A)
      → ℕ
      → Opening A
  unfolding apply_sink_filter
  apply_filters will_consume handler v [] rec n = record {
    rec = rec;
    handled = n;
    end = returned tt;
  }
  apply_filters will_consume handler v (sink ∷ sinks) rec n =
      let step = apply_sink_filter will_consume handler v sink rec n in
      elim step.end [
        | returned _ ↦ apply_filters will_consume handler v sinks step.rec step.handled
        | threw ↦ step
        | interrupted ↦ step
      ]

  -- The default sink stands in where no sink is registered.
  abbrev pub active_sinks : Core A → List ℕ
  active_sinks c = elim c.sinks [ [] ↦ c.default_sink ∷ [] | s ∷ ss ↦ s ∷ ss ]

  -- The global filter, and then the sinks.
  pub apply_all : (ℕ → View A → FilterAnswer) → Core A → View A → Opening A
  unfolding apply_filters
  apply_all will_consume c v = elim c.filter [
    | none ↦ apply_filters will_consume c.exception_handler v (active_sinks c) none 0
    | some f ↦ elim (f v) [
      | FilterAnswer.passes ↦
          apply_filters will_consume c.exception_handler v (active_sinks c) none 0
      | FilterAnswer.stops ↦ record { rec = none; handled = 0; end = returned tt }
      | FilterAnswer.throws ↦ record { rec = none; handled = 0; end = threw }
      | FilterAnswer.interrupts ↦ record { rec = none; handled = 0; end = interrupted }
    ]
  ]

  -- The outer catch (...) of open_record: the record composed so far is returned if the exception
  -- handler returns.
  finish : Option Handler → Opening A → Outcome (Option (Record A))
  finish handler o = elim o.end [
    | returned _ ↦ returned o.rec
    | interrupted ↦ interrupted
    | threw ↦ elim handler [
      | none ↦ threw
      | some h ↦ elim (h o.handled) [
        | HandlerAnswer.returns ↦ returned o.rec
        | HandlerAnswer.rethrows ↦ threw
        | HandlerAnswer.interrupts ↦ interrupted
      ]
    ]
  ]

  -- The view of the attributes that the thread sees.
  unfoldable pub compose_view : A → ℕ → A → Core A → View A
  unfolding get_thread_data
  compose_view no_attributes thread source c = record {
    source_attributes = source;
    thread_attributes = (get_thread_data no_attributes thread c).0;
    global_attributes = c.global_attributes;
  }

  unfoldable pub open_record :
      (ℕ → View A → FilterAnswer) → A → ℕ → A → Core A → Outcome (Option (Record A)) × Core A
  unfolding finish
  open_record will_consume no_attributes thread source c =
      if c.enabled
      then (
        finish c.exception_handler
            (apply_all will_consume c (compose_view no_attributes thread source c)),
        (get_thread_data no_attributes thread c).1,
      )
      else (returned none, c)
