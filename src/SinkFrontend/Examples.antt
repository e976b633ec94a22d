-- ===== src/SinkFrontend/Examples.antt =====
-- Runs of basic_sink_frontend (sinks/basic_sink_frontend.hpp) on concrete answers.
use boost_log.Base.{true, ◌≢◌, ap, sym, arith, none, ℕ, ◌≡◌, false, some, ltb, if◌then◌else◌, refl}
use boost_log.Core.State.{FilterAnswer, HandlerAnswer}
use boost_log.Core.Open.{returned, threw}
use boost_log.Core.Push.{ConsumeAnswer}
use boost_log.SinkFrontend.{
  Frontend, throws, will_consume, feed_record, flush_backend, try_feed_record, set_filter,
  reset_filter, set_exception_handler, reset_exception_handler,
}
use boost_log.SinkFrontend.Locking.{calls_return}

-- The filter throws on small numbers, and the handler swallows exceptions.
abbrev careful : Frontend ℕ
careful = record {
  filter = some (λ v. if ltb v 5 then FilterAnswer.throws else FilterAnswer.passes);
  exception_handler = some (λ n. HandlerAnswer.returns);
}

setters :
    (set_exception_handler
        (λ n. HandlerAnswer.returns)
        (set_filter
          (λ v. if ltb v 5 then FilterAnswer.throws else FilterAnswer.passes)
          (reset_exception_handler (reset_filter careful)))
      ≡ careful)
    × ((will_consume (reset_exception_handler careful) 3).outcome ≡ threw)
unfolding set_filter reset_filter set_exception_handler reset_exception_handler will_consume
setters = (refl, refl)

calls_return_example :
    ((will_consume careful 3).outcome ≡ returned false)
    × ((feed_record careful throws ConsumeAnswer.throws).outcome ≡ returned tt)
    × ((flush_backend careful throws ConsumeAnswer.throws).outcome ≡ returned tt)
    × ((try_feed_record careful throws ConsumeAnswer.throws).outcome ≡ returned true)
calls_return_example =
    calls_return careful (λ n. HandlerAnswer.returns) 3 throws ConsumeAnswer.throws refl (λ n. refl)
      calm (λ e. cc) (λ e. cc)
  where
    at_three :
        {filter : ℕ → FilterAnswer} → careful.filter ≡ some filter → filter 3 ≡ FilterAnswer.throws
    at_three e = sym (ap (λ o. elim o [ none ↦ FilterAnswer.stops | some g ↦ g 3 ]) e)

    calm :
        (filter : ℕ → FilterAnswer)
        → careful.filter ≡ some filter
        → filter 3 ≢ FilterAnswer.interrupts
    calm filter e i = ground (arith, at_three e, i)
