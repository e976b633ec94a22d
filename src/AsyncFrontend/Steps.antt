-- ===== src/AsyncFrontend/Steps.antt =====
-- The steps of threads in asynchronous_sink (sinks/async_frontend.hpp), and runs of them in any order.
use boost_log.Base.{ℕ, Bool, true, false, Option, none, some, List, [], ◌∷◌, ◌==◌, if◌then◌else◌}
use boost_log.AsyncFrontend.{
  RecordQueue, run, feed_records, flush, Phase, outside, starting, looping, testing, dequeuing,
  feeding, ending, flushing, resetting, back, waiting, leaving, held_back, enqueuing, try_enqueuing,
  stopping, joining, flush_waiting, Frontend, System, Move, calls_consume, calls_try_consume, calls,
  calls_stop, goes_on, Result, enqueued, fed, Next, next, is_over, enter, begin_flush, resume_flush,
  begin_stop, begin_consume, begin_try_consume, dequeued, passed, tried,
}

module _ {R S : Type 0} (strategy : RecordQueue R S) where
  -- The next step of thread `t`, from the point where it is.
  unfoldable pub go_on : ℕ → ℕ → Bool → (ℕ → Phase R) → Phase R → Frontend R S → Next R S
  unfolding next enter resume_flush dequeued passed tried is_over
  go_on t now ok phases outside f = next outside f
  go_on t now ok phases starting f = enter strategy t run f
  go_on t now ok phases (looping c) f =
      if f.is_stop_requested then next (ending c) f else next (testing c) f
  go_on t now ok phases (testing c) f = next (dequeuing c f.is_flush_requested) f
  go_on t now ok phases (dequeuing c false) f =
      dequeued strategy c f (strategy.try_dequeue_ready now f.queue)
  go_on t now ok phases (dequeuing c true) f =
      dequeued strategy c f (strategy.try_dequeue now f.queue)
  go_on t now ok phases (feeding c r) f = record {
    frontend = f;
    phase = if ok then looping c else leaving;
    result = fed r;
  }
  go_on t now ok phases (ending c) f =
      if f.is_flush_requested then next (flushing c) f else next (back c) f
  go_on t now ok phases (flushing c) f = next (resetting c ok) f
  go_on t now ok phases (resetting c returned) f =
      next (if returned then back c else leaving) (record f { is_flush_requested = false })
  go_on t now ok phases (back run) f =
      if f.is_stop_requested then next leaving f else next waiting f
  go_on t now ok phases (back feed_records) f = next leaving f
  go_on t now ok phases (back flush) f = next leaving f
  go_on t now ok phases waiting f =
      let pass = passed strategy f (strategy.dequeue_ready now f.queue) in
      if ok then pass else next leaving f
  go_on t now ok phases leaving f =
      next outside (record f { is_stop_requested = false; feeding_thread_id = none })
  go_on t now ok phases (held_back r) f =
      if f.is_flush_requested then next (held_back r) f else next (enqueuing r) f
  go_on t now ok phases (enqueuing r) f = record {
    frontend = record f { queue = strategy.enqueue now r f.queue };
    phase = outside;
    result = enqueued r;
  }
  go_on t now ok phases (try_enqueuing r) f =
      tried strategy r f (strategy.try_enqueue now ok r f.queue)
  go_on t now ok phases stopping f = if f.is_stop_requested then next stopping f else next joining f
  go_on t now ok phases joining f =
      if is_over phases f.dedicated_thread
      then next outside (record f { dedicated_thread = none })
      else next joining f
  go_on t now ok phases flush_waiting f = resume_flush strategy t f

  -- A call of a thread that is in none.
  unfoldable pub begin : ℕ → Move R → Frontend R S → Next R S
  unfolding enter begin_flush begin_stop begin_consume begin_try_consume next
  begin t (calls_consume r) f = begin_consume strategy r f
  begin t (calls_try_consume r) f = begin_try_consume strategy r f
  begin t (calls run) f = enter strategy t run f
  begin t (calls feed_records) f = enter strategy t feed_records f
  begin t (calls flush) f = begin_flush strategy t f
  begin t calls_stop f = begin_stop strategy f
  begin t (goes_on ok) f = next outside f

  unfoldable pub advance : ℕ → ℕ → Move R → (ℕ → Phase R) → Phase R → Frontend R S → Next R S
  unfolding begin go_on next
  advance t now (goes_on ok) phases p f = go_on t now ok phases p f
  advance t now m phases outside f = begin t m f
  advance t now m phases p f = next p f

  -- A step of thread `t` at a time.
  unfoldable pub step : ℕ × ℕ × Move R → System R S → System R S × Result R
  unfolding advance
  step (t, now, m) s =
      let n = advance t now m s.phases (s.phases t) s.frontend in
      (
        record { frontend = n.frontend; phases = λ u. if u == t then n.phase else s.phases u },
        n.result,
      )

  -- A sequence of steps of any threads, and what became of records.
  unfoldable pub run_steps : List (ℕ × ℕ × Move R) → System R S → System R S × List (Result R)
  unfolding step
  run_steps [] s = (s, [])
  run_steps (m ∷ rest) s =
      let (s1, result) = step m s in let (s2, results) = run_steps rest s1 in (s2, result ∷ results)

  -- The constructor: with a thread of its own, which has not entered run() yet, or without one.
  unfoldable pub construct : S → Option ℕ → System R S
  construct queue dedicated_thread = record {
    frontend = record {
      queue = queue;
      feeding_thread_id = none;
      dedicated_thread = dedicated_thread;
      is_stop_requested = false;
      is_flush_requested = false;
    };
    phases = λ t. elim dedicated_thread [
      | none ↦ outside
      | some d ↦ if t == d then starting else outside
    ];
  }
