-- ===== src/AsyncFrontend/Records.antt =====
-- What becomes of the records in asynchronous_sink (sinks/async_frontend.hpp).
use mathlib.Core.List.{append-nil, append_assoc}
use boost_log.Base.{
  ℕ, ◌≡◌, Bool, true, false, Bool-cases, Option, none, some, Option-cases, inl, inr, List, [], ◌∷◌,
  ◌++◌, ◌==◌, arith, refl, sym, ap, ◌∙◌,
}
use boost_log.AsyncFrontend.{
  RecordQueue, run, feed_records, flush, Phase, outside, looping, dequeuing, feeding, resetting,
  back, enqueuing, Frontend, System, Move, calls_consume, calls_try_consume, calls, calls_stop,
  goes_on, Result, enqueued, taken, fed, next, enter, enter_flush, begin_flush, resume_flush,
  begin_stop, begin_consume, begin_try_consume, dequeued, passed, tried,
}
use boost_log.AsyncFrontend.Steps.{go_on, begin, advance, step, run_steps, construct}
use boost_log.AsyncFrontend.Feeding.{
  is_inside, advance-Transition, IsKnown, step-IsKnown, construct-IsKnown,
}

module _ {R : Type 0} where
  unfoldable pub enqueued_by : Result R → List R
  enqueued_by (enqueued r) = r ∷ []
  enqueued_by _ = []

  unfoldable pub taken_by : Result R → List R
  taken_by (taken r) = r ∷ []
  taken_by _ = []

  unfoldable pub fed_by : Result R → List R
  fed_by (fed r) = r ∷ []
  fed_by _ = []

  unfoldable pub all_by : (Result R → List R) → List (Result R) → List R
  all_by f [] = []
  all_by f (r ∷ results) = f r ++ all_by f results

  -- The record that a thread has dequeued and not fed yet.
  in_hand : Phase R → List R
  in_hand (feeding c r) = r ∷ []
  in_hand _ = []

module _ {R S : Type 0} (strategy : RecordQueue R S) where
  -- In one step: a thread has a record in hand from when it takes it until it feeds it.
  go_on-in_hand :
      (t now : ℕ) (ok : Bool) (phases : ℕ → Phase R) (p : Phase R) (f : Frontend R S)
      → let n = go_on strategy t now ok phases p f in
        in_hand p ++ taken_by n.result ≡ fed_by n.result ++ in_hand n.phase
  unfolding go_on resume_flush enter_flush enter next dequeued passed tried taken_by fed_by in_hand
  go_on-in_hand t now ok phases outside f = refl
  go_on-in_hand t now ok phases (looping c) f = ground arith
  go_on-in_hand t now ok phases (dequeuing c false) f = ground arith
  go_on-in_hand t now ok phases (dequeuing c true) f = ground arith
  go_on-in_hand t now ok phases (feeding c r) f = ground arith
  go_on-in_hand t now ok phases (resetting c returned) f = ground arith
  go_on-in_hand t now ok phases (back run) f = ground arith
  go_on-in_hand t now ok phases (back flush) f = ground arith
  go_on-in_hand t now ok phases (back feed_records) f = ground arith
  go_on-in_hand t now ok phases p f = ground arith

  begin-in_hand :
      (t : ℕ) (m : Move R) (f : Frontend R S)
      → let n = begin strategy t m f in
        (taken_by n.result ≡ []) × (fed_by n.result ≡ []) × (in_hand n.phase ≡ [])
  unfolding begin begin_flush begin_stop begin_consume begin_try_consume enter_flush enter next
      taken_by fed_by in_hand
  begin-in_hand t (calls_consume r) f = ground arith
  begin-in_hand t (calls_try_consume r) f = ground arith
  begin-in_hand t (calls run) f = ground arith
  begin-in_hand t (calls feed_records) f = ground arith
  begin-in_hand t (calls flush) f = ground arith
  begin-in_hand t calls_stop f = ground arith
  begin-in_hand t (goes_on ok) f = (refl, refl, refl)

  advance-in_hand :
      (t now : ℕ) (m : Move R) (phases : ℕ → Phase R) (p : Phase R) (f : Frontend R S)
      → let n = advance strategy t now m phases p f in
        in_hand p ++ taken_by n.result ≡ fed_by n.result ++ in_hand n.phase
  unfolding advance next taken_by fed_by in_hand
  advance-in_hand t now (goes_on ok) phases p f = go_on-in_hand t now ok phases p f
  advance-in_hand t now (calls_consume r) phases outside f =
      ground (arith, begin-in_hand t (calls_consume r) f)
  advance-in_hand t now (calls_try_consume r) phases outside f =
      ground (arith, begin-in_hand t (calls_try_consume r) f)
  advance-in_hand t now (calls c) phases outside f = ground (arith, begin-in_hand t (calls c) f)
  advance-in_hand t now calls_stop phases outside f = ground (arith, begin-in_hand t calls_stop f)
  advance-in_hand t now m phases p f = append-nil (in_hand p)

  go_on-far :
      (t now : ℕ) (ok : Bool) (phases : ℕ → Phase R) (p : Phase R) (f : Frontend R S)
      → is_inside p ≡ false
      → let n = go_on strategy t now ok phases p f in
        (taken_by n.result ≡ []) × (fed_by n.result ≡ [])
  unfolding go_on resume_flush enter_flush enter next tried taken_by fed_by is_inside
  go_on-far t now ok phases outside f far = (refl, refl)
  go_on-far t now ok phases (enqueuing r) f far = (refl, refl)
  go_on-far t now ok phases p f far = ground (arith, far)

  advance-far :
      (t now : ℕ) (m : Move R) (phases : ℕ → Phase R) (p : Phase R) (f : Frontend R S)
      → is_inside p ≡ false
      → let n = advance strategy t now m phases p f in
        (taken_by n.result ≡ []) × (fed_by n.result ≡ [])
  unfolding advance next taken_by fed_by
  advance-far t now (goes_on ok) phases p f far = go_on-far t now ok phases p f far
  advance-far t now (calls_consume r) phases outside f far =
      ground (arith, begin-in_hand t (calls_consume r) f)
  advance-far t now (calls_try_consume r) phases outside f far =
      ground (arith, begin-in_hand t (calls_try_consume r) f)
  advance-far t now (calls c) phases outside f far = ground (arith, begin-in_hand t (calls c) f)
  advance-far t now calls_stop phases outside f far = ground (arith, begin-in_hand t calls_stop f)
  advance-far t now m phases p f far = (refl, refl)

  in_hand-outside : (p : Phase R) → is_inside p ≡ false → in_hand p ≡ []
  unfolding in_hand is_inside
  in_hand-outside p far = ground (arith, far)

  -- The record that the feeding thread has in hand.
  unfoldable pub held : System R S → List R
  unfolding in_hand
  held s = elim s.frontend.feeding_thread_id [ none ↦ [] | some t ↦ in_hand (s.phases t) ]

  held-some :
      (s : System R S) (v : ℕ) (p : Phase R)
      → s.frontend.feeding_thread_id ≡ some v
      → s.phases v ≡ p
      → held s ≡ in_hand p
  unfolding held
  held-some s v p e at_v = ground (arith, e, at_v)

  held-none : (s : System R S) → s.frontend.feeding_thread_id ≡ none → held s ≡ []
  unfolding held
  held-none s e = ground (arith, e)

  join : {a b x y : List R} (c d : List R) → a ≡ x → b ≡ y → x ++ c ≡ d ++ y → a ++ c ≡ d ++ b
  join c d e f g = ap (λ l. l ++ c) e ∙ g ∙ ap (λ l. d ++ l) (sym f)

  unmoved : {c d : List R} (l : List R) → (c ≡ []) × (d ≡ []) → l ++ c ≡ d ++ l
  unmoved l (e, f) = ap (λ c. l ++ c) e ∙ append-nil l ∙ ap (λ d. d ++ l) (sym f)

  step-held :
      (m : ℕ × ℕ × Move R) (s : System R S)
      → IsKnown strategy s
      → let (s1, result) = step strategy m s in held s ++ taken_by result ≡ fed_by result ++ held s1
  unfolding step IsKnown
  step-held (t, now, m) s known =
      let p = s.phases t in
      let n = advance strategy t now m s.phases p s.frontend in
      let s1 = (step strategy (t, now, m) s).0 in
      let here : s1.phases t ≡ n.phase = ground arith in
      let took = taken_by n.result in
      let gave = fed_by n.result in
      let moved = advance-in_hand t now m s.phases p s.frontend in
      let far = advance-far t now m s.phases p s.frontend in
      elim (advance-Transition strategy t now m s.phases p s.frontend) [
        | inl (same, within) ↦ elim (Option-cases s.frontend.feeding_thread_id) [
          | inl e ↦
              let out : is_inside p ≡ false = ground (arith, e, known t) in
              join took gave (held-none s e) (held-none s1 (same ∙ e)) (unmoved [] (far out))
          | inr (v, e) ↦ elim (Bool-cases (v == t)) [
            | inl g ↦
                let it : v ≡ t = ground (arith, g) in
                join took gave (held-some s v p e (ap s.phases it))
                  (held-some s1 v n.phase (same ∙ e) (ap s1.phases it ∙ here)) moved
            | inr g ↦
                let out : is_inside p ≡ false = ground (arith, e, g, known t) in
                let there : s1.phases v ≡ s.phases v = ground (arith, g) in
                join took gave (held-some s v (s.phases v) e refl)
                  (held-some s1 v (s.phases v) (same ∙ e) there)
                  (unmoved (in_hand (s.phases v)) (far out))
          ]
        ]
        | inr (inl (free, entered)) ↦
            let out : is_inside p ≡ false = ground (arith, free, known t) in
            join took gave (held-none s free ∙ sym (in_hand-outside p out))
              (held-some s1 t n.phase entered here) moved
        | inr (inr (before, after, left)) ↦
            join took gave (held-some s t p (known t before) refl)
              (held-none s1 left ∙ sym (in_hand-outside n.phase after)) moved
      ]

  run_steps-held :
      (moves : List (ℕ × ℕ × Move R)) (s : System R S)
      → IsKnown strategy s
      → let (s1, results) = run_steps strategy moves s in
        held s ++ all_by taken_by results ≡ all_by fed_by results ++ held s1
  unfolding run_steps all_by
  run_steps-held [] s known = append-nil (held s)
  run_steps-held (m ∷ moves) s known =
      let (s1, r) = step strategy m s in
      let (s2, results) = run_steps strategy moves s1 in
      sym (append_assoc (held s) (taken_by r) (all_by taken_by results))
      ∙ ap (λ l. l ++ all_by taken_by results) (step-held m s known)
      ∙ append_assoc (fed_by r) (held s1) (all_by taken_by results)
      ∙ ap (λ l. fed_by r ++ l) (run_steps-held moves s1 (step-IsKnown strategy m s known))
      ∙ sym (append_assoc (fed_by r) (all_by fed_by results) (held s2))

  -- Whatever the threads do, the backend is given the records in the order in which they are taken from
  -- the queue, each of them once; the last one may still be in the hand of the thread that took it.
  pub run_steps-feeds_in_order :
      (queue : S) (dedicated_thread : Option ℕ) (moves : List (ℕ × ℕ × Move R))
      → let (s, results) = run_steps strategy moves (construct strategy queue dedicated_thread) in
        all_by taken_by results ≡ all_by fed_by results ++ held s
  unfolding construct held
  run_steps-feeds_in_order queue dedicated_thread moves =
      run_steps-held moves (construct strategy queue dedicated_thread)
        (construct-IsKnown strategy queue dedicated_thread)
