-- ===== src/AsyncFrontend/Asked.antt =====
-- What happens once asynchronous_sink (sinks/async_frontend.hpp) is asked to stop: the steps of the thread
-- that feeds records, and those of the others.
use boost_log.Base.{ℕ, ◌<◌, ◌≡◌, ◌⊎◌, Bool, true, false, inl, arith, refl}
use boost_log.AsyncFrontend.{
  RecordQueue, IsInterruptible, run, feed_records, flush, Phase, outside, starting, looping,
  testing, dequeuing, feeding, ending, flushing, resetting, back, waiting, leaving, held_back,
  enqueuing, try_enqueuing, stopping, joining, flush_waiting, Frontend, Move, calls_consume,
  calls_try_consume, calls, calls_stop, goes_on, Next, next, enter, enter_flush, begin_flush,
  resume_flush, begin_stop, begin_consume, begin_try_consume, dequeued, passed, tried,
}
use boost_log.AsyncFrontend.Steps.{go_on, begin, advance}
use boost_log.AsyncFrontend.Feeding.{is_inside}

-- The most steps that the thread takes until it has left, once it is asked to stop.
unfoldable pub remaining : {R : Type 0} → Phase R → ℕ
remaining leaving = 1
remaining (back _) = 2
remaining (resetting _ _) = 3
remaining (flushing _) = 4
remaining (ending _) = 5
remaining (looping _) = 6
remaining (feeding _ _) = 7
remaining (dequeuing _ _) = 8
remaining (testing _) = 9
remaining waiting = 7
remaining _ = 0

-- A thread that waits in dequeue_ready notices only an interruption of the queue.
unfoldable pub notices : {R : Type 0} → Phase R → Bool → Bool
notices waiting is_interrupted = is_interrupted
notices _ is_interrupted = true

abbrev pub HasLeft : {R S : Type 0} → Phase R → Frontend R S → Type 0
HasLeft p f = (p ≡ outside) × (f.is_stop_requested ≡ false)

module _ {R S : Type 0} (strategy : RecordQueue R S) where
  -- A thread that is asked to stop, and will notice.
  abbrev pub Asked : Phase R → Frontend R S → Type 0
  Asked p f =
      (is_inside p ≡ true)
      × (f.is_stop_requested ≡ true)
      × (notices p (strategy.is_interrupted f.queue) ≡ true)

  abbrev Nearer : Phase R → Next R S → Type 0
  Nearer p n =
      HasLeft n.phase n.frontend ⊎ (Asked n.phase n.frontend × (remaining n.phase < remaining p))

  -- A thread that does not feed records leaves the flag and the interruption to the one that does.
  abbrev pub Keeps : Frontend R S → Next R S → Type 0
  Keeps f n =
      (n.frontend.is_stop_requested ≡ true)
      × (strategy.is_interrupted f.queue ≡ true → strategy.is_interrupted n.frontend.queue ≡ true)

module _ {R S : Type 0} (strategy : RecordQueue R S) (is : IsInterruptible strategy) where
  pub go_on-Nearer :
      (t now : ℕ) (ok : Bool) (phases : ℕ → Phase R) (p : Phase R) (f : Frontend R S)
      → Asked strategy p f
      → Nearer strategy p (go_on strategy t now ok phases p f)
  unfolding go_on next dequeued passed is_inside remaining notices
  go_on-Nearer t now ok phases (looping c) f (inside, stop, pending) = ground (arith, stop)
  go_on-Nearer t now ok phases leaving f (inside, stop, pending) = inl (refl, refl)
  go_on-Nearer t now ok phases waiting f (inside, stop, pending) =
      ground (arith, stop, is.dequeue_ready now f.queue pending)
  go_on-Nearer t now ok phases (back run) f (inside, stop, pending) = ground (arith, stop)
  go_on-Nearer t now ok phases (back feed_records) f (inside, stop, pending) = ground (arith, stop)
  go_on-Nearer t now ok phases (back flush) f (inside, stop, pending) = ground (arith, stop)
  go_on-Nearer t now ok phases (dequeuing c true) f (inside, stop, pending) = ground (arith, stop)
  go_on-Nearer t now ok phases (dequeuing c false) f (inside, stop, pending) = ground (arith, stop)
  go_on-Nearer t now ok phases (testing c) f (inside, stop, pending) = ground (arith, stop)
  go_on-Nearer t now ok phases (ending c) f (inside, stop, pending) = ground (arith, stop)
  go_on-Nearer t now ok phases (feeding c r) f (inside, stop, pending) = ground (arith, stop)
  go_on-Nearer t now ok phases (flushing c) f (inside, stop, pending) = ground (arith, stop)
  go_on-Nearer t now ok phases (resetting c returned) f (inside, stop, pending) =
      ground (arith, stop)
  go_on-Nearer t now ok phases p f (inside, stop, pending) = absurd (ground (arith, inside))

  begin-Keeps :
      (t : ℕ) (m : Move R) (f : Frontend R S)
      → f.is_stop_requested ≡ true
      → Keeps strategy f (begin strategy t m f)
  unfolding begin begin_flush begin_stop begin_consume begin_try_consume enter_flush enter next
  begin-Keeps t (calls_consume r) f stop = ground (arith, stop)
  begin-Keeps t (calls_try_consume r) f stop = ground (arith, stop)
  begin-Keeps t (calls run) f stop = ground (arith, stop)
  begin-Keeps t (calls feed_records) f stop = ground (arith, stop)
  begin-Keeps t (calls flush) f stop = ground (arith, stop, is.interrupt f.queue)
  begin-Keeps t calls_stop f stop = ground (arith, stop, is.interrupt f.queue)
  begin-Keeps t (goes_on ok) f stop = (stop, λ e. e)

  go_on-Keeps :
      (t now : ℕ) (ok : Bool) (phases : ℕ → Phase R) (p : Phase R) (f : Frontend R S)
      → is_inside p ≡ false
      → f.is_stop_requested ≡ true
      → Keeps strategy f (go_on strategy t now ok phases p f)
  unfolding go_on resume_flush enter_flush enter next tried is_inside
  go_on-Keeps t now ok phases outside f far stop = (stop, λ e. e)
  go_on-Keeps t now ok phases starting f far stop = ground (arith, stop)
  go_on-Keeps t now ok phases (held_back r) f far stop = ground (arith, stop)
  go_on-Keeps t now ok phases (enqueuing r) f far stop = (stop, is.enqueue now r f.queue)
  go_on-Keeps t now ok phases (try_enqueuing r) f far stop =
      ground (arith, stop, is.try_enqueue now ok r f.queue)
  go_on-Keeps t now ok phases stopping f far stop = ground (arith, stop)
  go_on-Keeps t now ok phases joining f far stop = ground (arith, stop)
  go_on-Keeps t now ok phases flush_waiting f far stop = ground (arith, stop)
  go_on-Keeps t now ok phases p f far stop = absurd (ground (arith, far))

  pub advance-Keeps :
      (t now : ℕ) (m : Move R) (phases : ℕ → Phase R) (p : Phase R) (f : Frontend R S)
      → is_inside p ≡ false
      → f.is_stop_requested ≡ true
      → Keeps strategy f (advance strategy t now m phases p f)
  unfolding advance next
  advance-Keeps t now (goes_on ok) phases p f far stop = go_on-Keeps t now ok phases p f far stop
  advance-Keeps t now (calls_consume r) phases outside f far stop =
      begin-Keeps t (calls_consume r) f stop
  advance-Keeps t now (calls_try_consume r) phases outside f far stop =
      begin-Keeps t (calls_try_consume r) f stop
  advance-Keeps t now (calls c) phases outside f far stop = begin-Keeps t (calls c) f stop
  advance-Keeps t now calls_stop phases outside f far stop = begin-Keeps t calls_stop f stop
  advance-Keeps t now m phases p f far stop = (stop, λ e. e)
