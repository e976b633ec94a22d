-- ===== src/AsyncFrontend/Stopping.antt =====
-- The end of the feeding after a call of stop() in asynchronous_sink (sinks/async_frontend.hpp).
use boost_log.Base.{
  ℕ, suc, ◌≤◌, ◌≡◌, ◌≢◌, Bool, true, Bool-cases, Option, some, inl, inr, List, [], ◌∷◌, ◌++◌, ◌==◌,
  if◌then◌else◌, arith, refl, sym, ap, ◌∙◌, subst,
}
use boost_log.AsyncFrontend.{
  RecordQueue, IsInterruptible, Phase, outside, Frontend, System, Move, calls_consume,
  calls_try_consume, calls, calls_stop, goes_on, next, begin_stop,
}
use boost_log.AsyncFrontend.Steps.{begin, advance, step, run_steps, construct}
use boost_log.AsyncFrontend.Feeding.{
  is_inside, IsKnown, step-IsKnown, run-IsKnown, construct-IsKnown, reached,
}
use boost_log.AsyncFrontend.Asked.{remaining, notices, HasLeft}
use boost_log.AsyncFrontend.Watched.{AskedIn, own-Nearer, refused-AskedIn, other-AskedIn}

-- How often a thread goes on.
unfoldable pub own_steps : {R : Type 0} → ℕ → List (ℕ × ℕ × Move R) → ℕ
own_steps t [] = 0
own_steps t ((u, now, goes_on ok) ∷ moves) =
    if u == t then suc (own_steps t moves) else own_steps t moves
own_steps t (_ ∷ moves) = own_steps t moves

module _ {R S : Type 0} (strategy : RecordQueue R S) (is : IsInterruptible strategy) where
  -- The moment at which the thread has left.
  pub Departs : ℕ → System R S → List (ℕ × ℕ × Move R) → Type 0
  Departs t s moves =
      (before : List (ℕ × ℕ × Move R)) × (after : List (ℕ × ℕ × Move R)) × (moves ≡ before ++ after)
      × HasLeft ((run_steps strategy before s).0.phases t) (run_steps strategy before s).0.frontend

  later-Departs :
      (t : ℕ) (m : ℕ × ℕ × Move R) (s : System R S) (moves : List (ℕ × ℕ × Move R))
      → Departs t (step strategy m s).0 moves
      → Departs t s (m ∷ moves)
  unfolding Departs run_steps
  later-Departs t m s moves (before, after, e, left) = (m ∷ before, after, ap (λ l. m ∷ l) e, left)

  call-Departs :
      (t u now : ℕ) (m : Move R) (s : System R S) (moves : List (ℕ × ℕ × Move R))
      → ((ok : Bool) → m ≢ goes_on ok)
      → AskedIn strategy is t s
      → remaining (s.phases t) ≤ own_steps t moves
      → ((s1 : System R S)
          → AskedIn strategy is t s1
          → remaining (s1.phases t) ≤ own_steps t moves
          → Departs t s1 moves)
      → Departs t s ((u, now, m) ∷ moves)
  call-Departs t u now m s moves a_call asked enough go_on_with =
      let s1 = (step strategy (u, now, m) s).0 in
      let (still, same) : AskedIn strategy is t s1 × (s1.phases t ≡ s.phases t) =
        elim (Bool-cases (u == t)) [
          | inl e ↦
              let it : u ≡ t = ground (arith, e) in
              subst
                (λ v.
                  let s2 = (step strategy (v, now, m) s).0 in
                  AskedIn strategy is t s2 × (s2.phases t ≡ s.phases t))
                (sym it) (refused-AskedIn strategy is t now m s a_call asked)
          | inr e ↦ other-AskedIn strategy is t u now m s (ground (arith, e)) asked
        ] in
      later-Departs t (u, now, m) s moves
        (go_on_with s1 still (subst (λ p. remaining p ≤ own_steps t moves) (sym same) enough))

  remaining-inside : (p : Phase R) → is_inside p ≡ true → 1 ≤ remaining p
  unfolding remaining is_inside
  remaining-inside p inside = ground (arith, inside)

  run_steps-Departs :
      (t : ℕ) (moves : List (ℕ × ℕ × Move R)) (s : System R S)
      → AskedIn strategy is t s
      → remaining (s.phases t) ≤ own_steps t moves
      → Departs t s moves
  unfolding own_steps Departs run_steps
  run_steps-Departs t [] s asked enough =
      absurd (ground (arith, enough, remaining-inside (s.phases t) asked.1.0))
  run_steps-Departs t ((u, now, calls_consume r) ∷ moves) s asked enough =
      call-Departs t u now (calls_consume r) s moves (λ ok e. ground (arith, e)) asked enough
        (run_steps-Departs t moves)
  run_steps-Departs t ((u, now, calls_try_consume r) ∷ moves) s asked enough =
      call-Departs t u now (calls_try_consume r) s moves (λ ok e. ground (arith, e)) asked enough
        (run_steps-Departs t moves)
  run_steps-Departs t ((u, now, calls c) ∷ moves) s asked enough =
      call-Departs t u now (calls c) s moves (λ ok e. ground (arith, e)) asked enough
        (run_steps-Departs t moves)
  run_steps-Departs t ((u, now, calls_stop) ∷ moves) s asked enough =
      call-Departs t u now calls_stop s moves (λ ok e. ground (arith, e)) asked enough
        (run_steps-Departs t moves)
  run_steps-Departs t ((u, now, goes_on ok) ∷ moves) s asked enough = elim (Bool-cases (u == t)) [
    | inl e ↦
        let m : ℕ × ℕ × Move R = (t, now, goes_on ok) in
        let same : u ≡ t = ground (arith, e) in
        subst (λ v. Departs t s ((v, now, goes_on ok) ∷ moves)) (sym same)
          (elim (own-Nearer strategy is t now ok s asked) [
            | inl left ↦ (m ∷ [], moves, refl, left)
            | inr (still, less) ↦ later-Departs t m s moves (
                run_steps-Departs t moves (step strategy m s).0 still
                  (ground (arith, enough, e, less)))
          ])
    | inr e ↦
        let m : ℕ × ℕ × Move R = (u, now, goes_on ok) in
        let (still, same) =
          other-AskedIn strategy is t u now (goes_on ok) s (ground (arith, e)) asked in
        later-Departs t m s moves (
          run_steps-Departs t moves (step strategy m s).0 still
            (subst (λ p. remaining p ≤ own_steps t moves) (sym same) (ground (arith, enough, e))))
  ]

  calls_stop-asks :
      (t u now : ℕ) (phases : ℕ → Phase R) (p : Phase R) (f : Frontend R S)
      → f.feeding_thread_id ≡ some t
      → p ≡ outside
      → (advance strategy u now calls_stop phases p f).frontend
        ≡ record f { is_stop_requested = true; queue = strategy.interrupt_dequeue f.queue }
  unfolding advance begin begin_stop next
  calls_stop-asks t u now phases p f feeder at_u = rw (at_u, feeder) refl

  notices-interrupted : (p : Phase R) (b : Bool) → b ≡ true → notices p b ≡ true
  unfolding notices
  notices-interrupted p b e = ground (arith, e)

  calls_stop-AskedIn :
      (t u now : ℕ) (s : System R S)
      → IsKnown strategy s
      → is_inside (s.phases t) ≡ true
      → s.phases u ≡ outside
      → AskedIn strategy is t (step strategy (u, now, calls_stop) s).0
  unfolding step is_inside IsKnown
  calls_stop-AskedIn t u now s known inside at_u =
      let s1 = (step strategy (u, now, calls_stop) s).0 in
      let apart : u ≢ t = λ e. ground (arith, at_u, inside, e) in
      let same : s1.phases t ≡ s.phases t = ground (arith, apart) in
      let asked = calls_stop-asks t u now s.phases (s.phases u) s.frontend (known t inside) at_u in
      (
        step-IsKnown strategy (u, now, calls_stop) s known,
        (
          ap is_inside same ∙ inside,
          ap (λ f. f.is_stop_requested) asked,
          notices-interrupted (s1.phases t) (strategy.is_interrupted s1.frontend.queue)
              (ap (λ f. strategy.is_interrupted f.queue) asked ∙ is.interrupt s.frontend.queue),
        ),
      )

  remaining-le_nine : (p : Phase R) → remaining p ≤ 9
  unfolding remaining
  remaining-le_nine p = ground arith

  -- With a queue whose dequeue_ready gives way once it was interrupted: if a thread feeds records when another one
  -- calls stop(), it leaves the functions that feed records, and
  -- resets the flag for which stop() waits, before it has done nine further steps, whatever the other
  -- threads do and whatever the backend and the clock answer.
  pub run_steps-stop_ends :
      (queue : S) (dedicated_thread : Option ℕ) (earlier moves : List (ℕ × ℕ × Move R))
      (t u now : ℕ)
      → is_inside ((reached strategy queue dedicated_thread earlier).phases t) ≡ true
      → (reached strategy queue dedicated_thread earlier).phases u ≡ outside
      → 9 ≤ own_steps t moves
      → Departs t
          (step strategy (u, now, calls_stop) (reached strategy queue dedicated_thread earlier)).0
          moves
  run_steps-stop_ends queue dedicated_thread earlier moves t u now inside at_u enough =
      let s = reached strategy queue dedicated_thread earlier in
      let known =
        run-IsKnown strategy earlier (construct strategy queue dedicated_thread)
          (construct-IsKnown strategy queue dedicated_thread) in
      let s1 = (step strategy (u, now, calls_stop) s).0 in
      run_steps-Departs t moves s1 (calls_stop-AskedIn t u now s known inside at_u)
        (ground (arith, enough, remaining-le_nine (s1.phases t)))
