-- ===== src/Core/Flush.antt =====
-- basic_core::flush (core.cpp). It holds the core's lock, so that no record is opened or pushed meanwhile.
use boost_log.Base.{
  ℕ, zero, suc, ◌+◌, ◌≡◌, ◌≢◌, Bool, true, false, Option, none, some, List, [], ◌∷◌, if◌then◌else◌,
  arith, refl, ap, ◌∙◌,
}
use boost_log.Core.State.{HandlerAnswer, Handler, Core}
use boost_log.Core.Open.{Outcome, returned, threw, interrupted}

-- sink::flush.
pub data FlushAnswer : Type 0 where
  done throws interrupts : FlushAnswer

-- The sinks that were flushed, or tried to be, how often the exception handler was called, and the end.
pub record Flushing : Type 0 where
  pub called : List ℕ
  pub handled : ℕ
  pub end : Outcome (Unit {0})

abbrev last_call : ℕ → ℕ → Outcome (Unit {0}) → Flushing
last_call s n end = record { called = s ∷ []; handled = n; end = end }

abbrev then_rest : ℕ → Flushing → Flushing
then_rest s rest = record rest { called = s ∷ rest.called }

-- The loop over the sinks, after `n` calls of the exception handler.
flush_all : (ℕ → FlushAnswer) → Option Handler → ℕ → List ℕ → Flushing
flush_all flush_sink handler n [] = record { called = []; handled = n; end = returned tt }
flush_all flush_sink handler n (s ∷ sinks) = elim (flush_sink s) [
  | FlushAnswer.done ↦ then_rest s (flush_all flush_sink handler n sinks)
  | FlushAnswer.interrupts ↦ last_call s n interrupted
  | FlushAnswer.throws ↦ elim handler [
    | none ↦ last_call s n threw
    | some h ↦ elim (h n) [
      | HandlerAnswer.returns ↦ then_rest s (flush_all flush_sink handler (suc n) sinks)
      | HandlerAnswer.rethrows ↦ last_call s (suc n) threw
      | HandlerAnswer.interrupts ↦ last_call s (suc n) interrupted
    ]
  ]
]

unfoldable pub flush : {A : Type 0} → (ℕ → FlushAnswer) → Core A → Flushing
unfolding flush_all
flush flush_sink c = flush_all flush_sink c.exception_handler 0 c.sinks

module _ (flush_sink : ℕ → FlushAnswer) where
  pub fails : ℕ → Bool
  fails s = elim (flush_sink s) [ FlushAnswer.done ↦ false | _ ↦ true ]

  -- The sinks up to the first one that fails, and how many fail.
  pub up_to_failure : List ℕ → List ℕ
  unfolding fails
  up_to_failure [] = []
  up_to_failure (s ∷ sinks) = if fails s then s ∷ [] else s ∷ up_to_failure sinks

  pub failed_flushes : List ℕ → ℕ
  unfolding fails
  failed_flushes [] = 0
  failed_flushes (s ∷ sinks) = if fails s then suc (failed_flushes sinks) else failed_flushes sinks

  flush_all-handled :
      (h : Handler) (n : ℕ) (sinks : List ℕ)
      → ((i : ℕ) → h i ≡ HandlerAnswer.returns)
      → ((s : ℕ) → flush_sink s ≢ FlushAnswer.interrupts)
      → flush_all flush_sink (some h) n sinks
        ≡ record { called = sinks; handled = n + failed_flushes sinks; end = returned tt }
  unfolding flush_all failed_flushes fails
  flush_all-handled h n [] returns calm =
      ap (λ k. record { called = []; handled = k; end = returned tt }) (omega arith)
  flush_all-handled h n (s ∷ sinks) returns calm = ground (
    arith,
    returns n,
    calm s,
    flush_all-handled h n sinks returns calm,
    flush_all-handled h (suc n) sinks returns calm,
  )

  flush_all-unhandled :
      (n : ℕ) (sinks : List ℕ)
      → ((s : ℕ) → flush_sink s ≢ FlushAnswer.interrupts)
      → flush_all flush_sink none n sinks ≡ record {
        called = up_to_failure sinks;
        handled = n;
        end = elim (failed_flushes sinks) [ zero ↦ returned tt | suc _ ↦ threw ];
      }
  unfolding flush_all failed_flushes fails up_to_failure
  flush_all-unhandled n [] calm = refl
  flush_all-unhandled n (s ∷ sinks) calm = ground (arith, calm s, flush_all-unhandled n sinks calm)

  -- Where no sink is interrupted: with an exception handler that returns, flush() flushes every sink once,
  -- in order, calls the handler once for each that fails, and returns; without one, it flushes the sinks up
  -- to the first one that fails, and lets its exception out.
  pub flush-called :
      {A : Type 0} (c : Core A) (h : Handler)
      → ((i : ℕ) → h i ≡ HandlerAnswer.returns)
      → ((s : ℕ) → flush_sink s ≢ FlushAnswer.interrupts)
      → (flush flush_sink (record c { exception_handler = some h })
          ≡ record { called = c.sinks; handled = failed_flushes c.sinks; end = returned tt })
        × (flush flush_sink (record c { exception_handler = none }) ≡ record {
          called = up_to_failure c.sinks;
          handled = 0;
          end = elim (failed_flushes c.sinks) [ zero ↦ returned tt | suc _ ↦ threw ];
        })
  unfolding flush
  flush-called c h returns calm = (
    flush_all-handled h 0 c.sinks returns calm
        ∙ ap (λ k. record { called = c.sinks; handled = k; end = returned tt }) (omega arith),
    flush_all-unhandled 0 c.sinks calm,
  )
