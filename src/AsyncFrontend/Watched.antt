-- ===== src/AsyncFrontend/Watched.antt =====
-- The steps of all threads while one is asked to stop in asynchronous_sink (sinks/async_frontend.hpp).
use boost_log.Base.{
  ℕ, ◌<◌, ◌≡◌, ◌≢◌, ◌⊎◌, Bool, true, false, inl, inr, arith, refl, sym, ap, ◌∙◌, subst,
}
use boost_log.AsyncFrontend.{
  RecordQueue, IsInterruptible, Phase, outside, waiting, Frontend, System, Move, calls_consume,
  calls_try_consume, calls, calls_stop, goes_on, next,
}
use boost_log.AsyncFrontend.Steps.{go_on, advance, step}
use boost_log.AsyncFrontend.Feeding.{is_inside, IsKnown, step-IsKnown}
use boost_log.AsyncFrontend.Asked.{remaining, notices, HasLeft, Asked, go_on-Nearer, advance-Keeps}

module _ {R S : Type 0} (strategy : RecordQueue R S) (is : IsInterruptible strategy) where
  -- A step while thread `t` is asked to stop: of its own, or of another thread or a call.
  abbrev pub AskedIn : ℕ → System R S → Type 0
  AskedIn t s = IsKnown strategy s × Asked strategy (s.phases t) s.frontend

  pub own-Nearer :
      (t now : ℕ) (ok : Bool) (s : System R S)
      → AskedIn t s
      → let s1 = (step strategy (t, now, goes_on ok) s).0 in
        HasLeft (s1.phases t) s1.frontend
        ⊎ (AskedIn t s1 × (remaining (s1.phases t) < remaining (s.phases t)))
  unfolding step advance
  own-Nearer t now ok s (known, asked) =
      let s1 = (step strategy (t, now, goes_on ok) s).0 in
      let n = go_on strategy t now ok s.phases (s.phases t) s.frontend in
      let here : s1.phases t ≡ n.phase = ground arith in
      subst
        (λ p.
          HasLeft p s1.frontend
          ⊎ ((IsKnown strategy s1 × Asked strategy p s1.frontend)
              × (remaining p < remaining (s.phases t))))
        (sym here)
        (elim (go_on-Nearer strategy is t now ok s.phases (s.phases t) s.frontend asked) [
          | inl left ↦ inl left
          | inr (still, less) ↦
              inr ((step-IsKnown strategy (t, now, goes_on ok) s known, still), less)
        ])

  refused-next :
      (t now : ℕ) (m : Move R) (phases : ℕ → Phase R) (p : Phase R) (f : Frontend R S)
      → ((ok : Bool) → m ≢ goes_on ok)
      → is_inside p ≡ true
      → advance strategy t now m phases p f ≡ next p f
  unfolding advance is_inside
  refused-next t now (goes_on ok) phases p f a_call inside = absurd (a_call ok refl)
  refused-next t now (calls_consume r) phases outside f a_call inside =
      absurd (ground (arith, inside))
  refused-next t now (calls_try_consume r) phases outside f a_call inside =
      absurd (ground (arith, inside))
  refused-next t now (calls c) phases outside f a_call inside = absurd (ground (arith, inside))
  refused-next t now calls_stop phases outside f a_call inside = absurd (ground (arith, inside))
  refused-next t now m phases p f a_call inside = refl

  -- A call that a thread cannot make where it is.
  pub refused-AskedIn :
      (t now : ℕ) (m : Move R) (s : System R S)
      → ((ok : Bool) → m ≢ goes_on ok)
      → AskedIn t s
      → let s1 = (step strategy (t, now, m) s).0 in AskedIn t s1 × (s1.phases t ≡ s.phases t)
  unfolding step advance next is_inside
  refused-AskedIn t now m s a_call (known, asked) =
      let e = refused-next t now m s.phases (s.phases t) s.frontend a_call asked.0 in
      let s1 = (step strategy (t, now, m) s).0 in
      let same : s1.phases t ≡ s.phases t = ground (arith, ap (λ n. n.phase) e) in
      let kept : s1.frontend ≡ s.frontend = ap (λ n. n.frontend) e in
      (
        (
          step-IsKnown strategy (t, now, m) s known,
          subst (λ f. Asked strategy (s1.phases t) f) (sym kept)
              (subst (λ p. Asked strategy p s.frontend) (sym same) asked),
        ),
        same,
      )

  still-notices :
      {a b : Bool} (p : Phase R) → (a ≡ true → b ≡ true) → notices p a ≡ true → notices p b ≡ true
  unfolding notices
  still-notices waiting kept pending = kept pending
  still-notices p kept pending = ground (arith, pending)

  pub other-AskedIn :
      (t u now : ℕ) (m : Move R) (s : System R S)
      → u ≢ t
      → AskedIn t s
      → let s1 = (step strategy (u, now, m) s).0 in AskedIn t s1 × (s1.phases t ≡ s.phases t)
  unfolding step notices IsKnown
  other-AskedIn t u now m s other (known, (inside, stop, pending)) =
      let s1 = (step strategy (u, now, m) s).0 in
      let same : s1.phases t ≡ s.phases t = ground (arith, other) in
      let far : is_inside (s.phases u) ≡ false = ground (arith, other, known u, known t inside) in
      let (stop1, kept) =
        advance-Keeps strategy is u now m s.phases (s.phases u) s.frontend far stop in
      (
        (
          step-IsKnown strategy (u, now, m) s known,
          (
            ap is_inside same ∙ inside,
            stop1,
            ap (λ p. notices p (strategy.is_interrupted s1.frontend.queue)) same
                ∙ still-notices (s.phases t) kept pending,
          ),
        ),
        same,
      )
