-- ===== src/AsyncFrontend/Stuck.antt =====
-- Threads that wait in asynchronous_sink (sinks/async_frontend.hpp) while no thread feeds records.
use boost_log.Base.{
  ℕ, ◌≡◌, Bool, true, false, Bool-cases, inl, inr, List, [], ◌∷◌, All, ◌==◌, arith, refl, sym, ◌∙◌,
  subst,
}
use boost_log.AsyncFrontend.{
  RecordQueue, Phase, outside, starting, held_back, enqueuing, try_enqueuing, stopping, joining,
  flush_waiting, Frontend, System, Move, calls_consume, calls_try_consume, calls, calls_stop,
  goes_on, Next, next, begin_stop, begin_consume, begin_try_consume, tried,
}
use boost_log.AsyncFrontend.Steps.{go_on, begin, advance, step, run_steps}
use boost_log.AsyncFrontend.Feeding.{is_inside}

-- A thread that feeds records, or is about to.
unfoldable pub may_feed : {R : Type 0} → Phase R → Bool
unfolding is_inside
may_feed starting = true
may_feed flush_waiting = true
may_feed p = is_inside p

-- A move other than a call of run, feed_records or flush.
abbrev IsClient : {R : Type 0} → ℕ × ℕ × Move R → Type 0
IsClient (t, now, calls c) = ⊥
IsClient _ = Unit

-- A thread in stop() that waits for the end of the feeding, or in consume() for the end of a flush.
unfoldable pub is_blocked : {R S : Type 0} → Phase R → Frontend R S → Bool
is_blocked stopping f = f.is_stop_requested
is_blocked (held_back r) f = f.is_flush_requested
is_blocked _ f = false

module _ {R S : Type 0} (strategy : RecordQueue R S) where
  -- What a step leaves as it is, while no thread feeds.
  abbrev Leaves : Phase R → Frontend R S → Next R S → Type 0
  Leaves p f n =
      (n.frontend.is_flush_requested ≡ f.is_flush_requested)
      × (f.is_stop_requested ≡ true → n.frontend.is_stop_requested ≡ true)
      × (may_feed n.phase ≡ false)
      × (is_blocked p f ≡ true → n.phase ≡ p)

  go_on-Leaves :
      (t now : ℕ) (ok : Bool) (phases : ℕ → Phase R) (p : Phase R) (f : Frontend R S)
      → may_feed p ≡ false
      → Leaves p f (go_on strategy t now ok phases p f)
  unfolding go_on next tried is_inside may_feed is_blocked
  go_on-Leaves t now ok phases outside f calm = ground arith
  go_on-Leaves t now ok phases (held_back r) f calm = ground arith
  go_on-Leaves t now ok phases (enqueuing r) f calm = ground arith
  go_on-Leaves t now ok phases (try_enqueuing r) f calm = ground arith
  go_on-Leaves t now ok phases stopping f calm = ground arith
  go_on-Leaves t now ok phases joining f calm = ground arith
  go_on-Leaves t now ok phases p f calm = absurd (ground (arith, calm))

  advance-Leaves :
      (t now : ℕ) (m : Move R) (phases : ℕ → Phase R) (p : Phase R) (f : Frontend R S)
      → IsClient (t, now, m)
      → may_feed p ≡ false
      → Leaves p f (advance strategy t now m phases p f)
  unfolding advance begin begin_stop begin_consume begin_try_consume next is_inside may_feed
      is_blocked
  advance-Leaves t now (goes_on ok) phases p f client calm = go_on-Leaves t now ok phases p f calm
  advance-Leaves t now (calls c) phases p f client calm = absurd client
  advance-Leaves t now (calls_consume r) phases outside f client calm = ground arith
  advance-Leaves t now (calls_try_consume r) phases outside f client calm = ground arith
  advance-Leaves t now calls_stop phases outside f client calm = ground arith
  advance-Leaves t now m phases p f client calm = (refl, λ e. e, calm, λ _. refl)

  still-blocked :
      (p : Phase R) (f g : Frontend R S)
      → g.is_flush_requested ≡ f.is_flush_requested
      → (f.is_stop_requested ≡ true → g.is_stop_requested ≡ true)
      → is_blocked p f ≡ true
      → is_blocked p g ≡ true
  unfolding is_blocked
  still-blocked stopping f g flag stop blocked = stop blocked
  still-blocked (held_back r) f g flag stop blocked = flag ∙ blocked
  still-blocked p f g flag stop blocked = absurd (ground (arith, blocked))

  abbrev IsCalm : System R S → Type 0
  IsCalm s = (u : ℕ) → may_feed (s.phases u) ≡ false

  step-IsCalm :
      (m : ℕ × ℕ × Move R) (s : System R S) → IsClient m → IsCalm s → IsCalm (step strategy m s).0
  unfolding step
  step-IsCalm (t, now, m) s client calm u =
      let (_, _, settled, _) =
        advance-Leaves t now m s.phases (s.phases t) s.frontend client (calm t) in
      ground (arith, settled, calm u)

  step-blocked :
      (m : ℕ × ℕ × Move R) (s : System R S) (u : ℕ)
      → IsClient m
      → IsCalm s
      → is_blocked (s.phases u) s.frontend ≡ true
      → let s1 = (step strategy m s).0 in
        (s1.phases u ≡ s.phases u) × (is_blocked (s1.phases u) s1.frontend ≡ true)
  unfolding step is_blocked
  step-blocked (t, now, m) s u client calm blocked =
      let (flag, stop, settled, stays) =
        advance-Leaves t now m s.phases (s.phases t) s.frontend client (calm t) in
      let same : (step strategy (t, now, m) s).0.phases u ≡ s.phases u =
        elim (Bool-cases (u == t)) [
          | inl e ↦
              let it : u ≡ t = ground (arith, e) in
              ground (
                arith,
                e,
                it,
                stays (subst (λ v. is_blocked (s.phases v) s.frontend ≡ true) it blocked),
              )
          | inr e ↦ ground (arith, e)
        ] in
      (
        same,
        subst (λ p. is_blocked p (step strategy (t, now, m) s).0.frontend ≡ true) (sym same)
            (still-blocked (s.phases u) s.frontend (step strategy (t, now, m) s).0.frontend flag
              stop blocked),
      )

  -- If no thread feeds records or is about to, and none calls run, feed_records or flush, then a thread
  -- that waits in stop(), or in consume() for the end of a flush, stays there whatever the threads do.
  pub run_steps-stays_blocked :
      (moves : List (ℕ × ℕ × Move R)) (s : System R S) (u : ℕ)
      → All IsClient moves
      → ((t : ℕ) → may_feed (s.phases t) ≡ false)
      → is_blocked (s.phases u) s.frontend ≡ true
      → (run_steps strategy moves s).0.phases u ≡ s.phases u
  unfolding run_steps
  run_steps-stays_blocked [] s u clients calm blocked = refl
  run_steps-stays_blocked (m ∷ moves) s u clients calm blocked =
      let s1 = (step strategy m s).0 in
      let (same, still) = step-blocked m s u clients.0 calm blocked in
      run_steps-stays_blocked moves s1 u clients.1 (step-IsCalm m s clients.0 calm) still ∙ same
