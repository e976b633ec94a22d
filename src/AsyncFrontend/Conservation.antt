-- ===== src/AsyncFrontend/Conservation.antt =====
-- No record is lost or doubled in asynchronous_sink (sinks/async_frontend.hpp).
use mathlib.Core.List.{Perm, perm_append_singleton, append-nil}
use mathlib.Core.List.Perm
use boost_log.Base.{
  sequence-Perm, ℕ, ◌≡◌, Bool, true, false, Option, none, some, List, [], ◌∷◌, ◌++◌, if◌then◌else◌,
  arith, refl, ap, subst,
}
use boost_log.AsyncFrontend.{
  RecordQueue, Pass, received, interrupted, waits, Caller, run, feed_records, flush, Phase, outside,
  dequeuing, back, waiting, leaving, enqueuing, try_enqueuing, Frontend, System, Move,
  calls_consume, calls_try_consume, calls, calls_stop, goes_on, Next, next, enter, enter_flush,
  begin_flush, resume_flush, begin_stop, begin_consume, begin_try_consume, dequeued, passed, tried,
}
use boost_log.AsyncFrontend.Steps.{go_on, begin, advance, step, run_steps, construct}
use boost_log.AsyncFrontend.Records.{
  enqueued_by, taken_by, fed_by, all_by, held, run_steps-feeds_in_order,
}

abbrev pub got : {R : Type 0} → Option R → List R → List R
got none rs = rs
got (some r) rs = r ∷ rs

abbrev pub got_by_pass : {R : Type 0} → Pass R → List R → List R
got_by_pass (received r) rs = r ∷ rs
got_by_pass _ rs = rs

-- What the frontend relies on: a queue keeps the records that it took until it gives them back.
pub record IsConserving {R S : Type 0} (strategy : RecordQueue R S) : Type 0 where
  pub enqueue :
      (now : ℕ) (r : R) (s : S)
      → Perm (strategy.contents (strategy.enqueue now r s)) (r ∷ strategy.contents s)
  pub try_enqueue :
      (now : ℕ) (owns_lock : Bool) (r : R) (s : S)
      → let (s1, done) = strategy.try_enqueue now owns_lock r s in
        Perm (strategy.contents s1) (if done then r ∷ strategy.contents s else strategy.contents s)
  pub try_dequeue_ready :
      (now : ℕ) (s : S)
      → let (s1, o) = strategy.try_dequeue_ready now s in
        Perm (strategy.contents s) (got o (strategy.contents s1))
  pub try_dequeue :
      (now : ℕ) (s : S)
      → let (s1, o) = strategy.try_dequeue now s in
        Perm (strategy.contents s) (got o (strategy.contents s1))
  pub dequeue_ready :
      (now : ℕ) (s : S)
      → let (s1, pass) = strategy.dequeue_ready now s in
        Perm (strategy.contents s) (got_by_pass pass (strategy.contents s1))
  pub interrupt_dequeue :
      (s : S) → strategy.contents (strategy.interrupt_dequeue s) ≡ strategy.contents s

module _ {R S : Type 0} (strategy : RecordQueue R S) (is : IsConserving strategy) where
  abbrev Settles : Frontend R S → Next R S → Type 0
  Settles f n =
      Perm (strategy.contents f.queue ++ enqueued_by n.result)
        (taken_by n.result ++ strategy.contents n.frontend.queue)

  abbrev Rests : Frontend R S → Next R S → Type 0
  Rests f n =
      (strategy.contents n.frontend.queue ≡ strategy.contents f.queue)
      × (enqueued_by n.result ≡ [])
      × (taken_by n.result ≡ [])

  Rests-Settles : (f : Frontend R S) (n : Next R S) → Rests f n → Settles f n
  Rests-Settles f n (same, none_in, none_out) =
      rw (same, none_in, none_out, append-nil) (Perm.refl (strategy.contents f.queue))

  begin-Rests : (t : ℕ) (m : Move R) (f : Frontend R S) → Rests f (begin strategy t m f)
  unfolding begin begin_flush begin_stop begin_consume begin_try_consume enter_flush enter next
      enqueued_by taken_by
  begin-Rests t (calls_consume r) f = ground arith
  begin-Rests t (calls_try_consume r) f = ground arith
  begin-Rests t (calls run) f = ground arith
  begin-Rests t (calls feed_records) f = ground arith
  begin-Rests t (calls flush) f = ground (arith, is.interrupt_dequeue f.queue)
  begin-Rests t calls_stop f = ground (arith, is.interrupt_dequeue f.queue)
  begin-Rests t (goes_on ok) f = (refl, refl, refl)

  pushed-Settles : (r : R) (l k : List R) → Perm k (r ∷ l) → Perm (l ++ r ∷ []) k
  pushed-Settles r l k grown = Perm.trans (perm_append_singleton r l) (Perm.symm grown)

  tried-Settles :
      (r : R) (f : Frontend R S) (o : S × Bool)
      → Perm
          (strategy.contents o.0)
          (if o.1 then r ∷ strategy.contents f.queue else strategy.contents f.queue)
      → Settles f (tried strategy r f o)
  unfolding tried enqueued_by taken_by
  tried-Settles r f (s, true) grown =
      pushed-Settles r (strategy.contents f.queue) (strategy.contents s) grown
  tried-Settles r f (s, false) same = rw append-nil (Perm.symm same)

  dequeued-Settles :
      (c : Caller) (f : Frontend R S) (o : S × Option R)
      → Perm (strategy.contents f.queue) (got o.1 (strategy.contents o.0))
      → Settles f (dequeued strategy c f o)
  unfolding dequeued enqueued_by taken_by
  dequeued-Settles c f (s, none) same = rw append-nil same
  dequeued-Settles c f (s, some r) shrunk = rw append-nil shrunk

  passed-Settles :
      (f : Frontend R S) (o : S × Pass R)
      → Perm (strategy.contents f.queue) (got_by_pass o.1 (strategy.contents o.0))
      → Settles f (passed strategy f o)
  unfolding passed enqueued_by taken_by
  passed-Settles f (s, received r) shrunk = rw append-nil shrunk
  passed-Settles f (s, interrupted) same = rw append-nil same
  passed-Settles f (s, waits) same = rw append-nil same

  waiting-Settles :
      (f : Frontend R S) (ok : Bool) (n : Next R S)
      → Settles f n
      → Settles f (if ok then n else next leaving f)
  unfolding next enqueued_by taken_by
  waiting-Settles f true n settled = settled
  waiting-Settles f false n settled = rw append-nil (Perm.refl (strategy.contents f.queue))

  go_on-Settles :
      (t now : ℕ) (ok : Bool) (phases : ℕ → Phase R) (p : Phase R) (f : Frontend R S)
      → Settles f (go_on strategy t now ok phases p f)
  unfolding go_on resume_flush enter_flush enter next enqueued_by taken_by
  go_on-Settles t now ok phases (enqueuing r) f =
      pushed-Settles r (strategy.contents f.queue)
        (strategy.contents (strategy.enqueue now r f.queue)) (is.enqueue now r f.queue)
  go_on-Settles t now ok phases (try_enqueuing r) f =
      tried-Settles r f (strategy.try_enqueue now ok r f.queue) (is.try_enqueue now ok r f.queue)
  go_on-Settles t now ok phases (dequeuing c false) f =
      dequeued-Settles c f (strategy.try_dequeue_ready now f.queue)
        (is.try_dequeue_ready now f.queue)
  go_on-Settles t now ok phases (dequeuing c true) f =
      dequeued-Settles c f (strategy.try_dequeue now f.queue) (is.try_dequeue now f.queue)
  go_on-Settles t now ok phases waiting f =
      waiting-Settles f ok (passed strategy f (strategy.dequeue_ready now f.queue))
        (passed-Settles f (strategy.dequeue_ready now f.queue) (is.dequeue_ready now f.queue))
  go_on-Settles t now ok phases (back run) f =
      Rests-Settles f (go_on strategy t now ok phases (back run) f) (ground arith)
  go_on-Settles t now ok phases (back c) f =
      Rests-Settles f (go_on strategy t now ok phases (back c) f) (refl, refl, refl)
  go_on-Settles t now ok phases p f =
      Rests-Settles f (go_on strategy t now ok phases p f) (ground arith)

  advance-Settles :
      (t now : ℕ) (m : Move R) (phases : ℕ → Phase R) (p : Phase R) (f : Frontend R S)
      → Settles f (advance strategy t now m phases p f)
  unfolding advance next enqueued_by taken_by
  advance-Settles t now (goes_on ok) phases p f = go_on-Settles t now ok phases p f
  advance-Settles t now (calls_consume r) phases outside f =
      Rests-Settles f (begin strategy t (calls_consume r) f) (begin-Rests t (calls_consume r) f)
  advance-Settles t now (calls_try_consume r) phases outside f =
      Rests-Settles f (begin strategy t (calls_try_consume r) f)
        (begin-Rests t (calls_try_consume r) f)
  advance-Settles t now (calls c) phases outside f =
      Rests-Settles f (begin strategy t (calls c) f) (begin-Rests t (calls c) f)
  advance-Settles t now calls_stop phases outside f =
      Rests-Settles f (begin strategy t calls_stop f) (begin-Rests t calls_stop f)
  advance-Settles t now m phases p f = rw append-nil (Perm.refl (strategy.contents f.queue))

  run_steps-Settles :
      (moves : List (ℕ × ℕ × Move R)) (s : System R S)
      → let (s1, results) = run_steps strategy moves s in
        Perm
          (strategy.contents s.frontend.queue ++ all_by enqueued_by results)
          (all_by taken_by results ++ strategy.contents s1.frontend.queue)
  unfolding run_steps all_by step
  run_steps-Settles [] s = rw append-nil (Perm.refl (strategy.contents s.frontend.queue))
  run_steps-Settles ((t, now, m) ∷ moves) s =
      let (s1, r) = step strategy (t, now, m) s in
      let (s2, results) = run_steps strategy moves s1 in
      sequence-Perm (strategy.contents s.frontend.queue) (enqueued_by r) (taken_by r)
        (strategy.contents s1.frontend.queue) (all_by enqueued_by results) (all_by taken_by results)
        (strategy.contents s2.frontend.queue)
        (advance-Settles t now m s.phases (s.phases t) s.frontend) (run_steps-Settles moves s1)

  -- If the queue keeps the records that it took until it gives them back, and is empty at the construction, then whatever the threads do, the records that were
  -- enqueued are, in some order, those that the backend was given, the one that the feeding thread has in
  -- hand, and those in the queue; and the backend is given them in the order in which they are taken from
  -- the queue.
  pub run_steps-keeps_records :
      (queue : S) (dedicated_thread : Option ℕ) (moves : List (ℕ × ℕ × Move R))
      → strategy.contents queue ≡ []
      → let (s, results) = run_steps strategy moves (construct strategy queue dedicated_thread) in
        Perm
          (all_by enqueued_by results)
          (all_by fed_by results ++ held strategy s ++ strategy.contents s.frontend.queue)
        × (all_by taken_by results ≡ all_by fed_by results ++ held strategy s)
  unfolding construct
  run_steps-keeps_records queue dedicated_thread moves empty =
      let (s, results) = run_steps strategy moves (construct strategy queue dedicated_thread) in
      let left = strategy.contents s.frontend.queue in
      let settled : Perm (all_by enqueued_by results) (all_by taken_by results ++ left) =
        subst (λ l. Perm (l ++ all_by enqueued_by results) (all_by taken_by results ++ left)) empty
          (run_steps-Settles moves (construct strategy queue dedicated_thread)) in
      let in_order = run_steps-feeds_in_order strategy queue dedicated_thread moves in
      (subst (Perm (all_by enqueued_by results)) (ap (λ l. l ++ left) in_order) settled, in_order)
