-- ===== src/AsyncFrontend/Feeding.antt =====
-- At most one thread feeds records in asynchronous_sink (sinks/async_frontend.hpp).
use boost_log.Base.{
  ℕ, ◌≡◌, ◌⊎◌, Bool, true, false, Option, none, some, inl, inr, List, [], ◌∷◌, arith, refl,
}
use boost_log.AsyncFrontend.{
  RecordQueue, Caller, run, feed_records, flush, Phase, outside, starting, looping, testing,
  dequeuing, feeding, ending, flushing, resetting, back, waiting, leaving, held_back, enqueuing,
  try_enqueuing, stopping, joining, flush_waiting, Frontend, System, Move, calls_consume,
  calls_try_consume, calls, calls_stop, goes_on, Next, next, enter, enter_flush, begin_flush,
  resume_flush, begin_stop, begin_consume, begin_try_consume, dequeued, passed, tried,
}
use boost_log.AsyncFrontend.Steps.{go_on, begin, advance, step, run_steps, construct}

-- The phases in which a thread feeds records.
unfoldable pub is_inside : {R : Type 0} → Phase R → Bool
is_inside (looping _) = true
is_inside (testing _) = true
is_inside (dequeuing _ _) = true
is_inside (feeding _ _) = true
is_inside (ending _) = true
is_inside (flushing _) = true
is_inside (resetting _ _) = true
is_inside (back _) = true
is_inside waiting = true
is_inside leaving = true
is_inside _ = false

module _ {R S : Type 0} (strategy : RecordQueue R S) where
  -- A step in the functions that feed records, one into them, and one out of them.
  abbrev Transition : ℕ → Phase R → Frontend R S → Next R S → Type 0
  Transition t p f n =
      ((n.frontend.feeding_thread_id ≡ f.feeding_thread_id)
        × (is_inside n.phase ≡ true → is_inside p ≡ true))
      ⊎ ((f.feeding_thread_id ≡ none) × (n.frontend.feeding_thread_id ≡ some t))
      ⊎ ((is_inside p ≡ true) × (is_inside n.phase ≡ false) × (n.frontend.feeding_thread_id ≡ none))

  enter-Transition :
      (t : ℕ) (c : Caller) (p : Phase R) (f : Frontend R S)
      → Transition t p f (enter strategy t c f)
  unfolding enter next is_inside
  enter-Transition t c p f = ground arith

  resume_flush-Transition :
      (t : ℕ) (f : Frontend R S) → Transition t flush_waiting f (resume_flush strategy t f)
  unfolding resume_flush enter_flush enter next is_inside
  resume_flush-Transition t f = ground arith

  begin-Transition :
      (t : ℕ) (m : Move R) (f : Frontend R S) → Transition t outside f (begin strategy t m f)
  unfolding begin begin_flush begin_stop begin_consume begin_try_consume enter_flush enter next
      is_inside
  begin-Transition t (calls_consume r) f = ground arith
  begin-Transition t (calls_try_consume r) f = ground arith
  begin-Transition t (calls run) f = ground arith
  begin-Transition t (calls feed_records) f = ground arith
  begin-Transition t (calls flush) f = ground arith
  begin-Transition t calls_stop f = ground arith
  begin-Transition t (goes_on ok) f = inl (refl, λ i. i)

  go_on-Transition :
      (t now : ℕ) (ok : Bool) (phases : ℕ → Phase R) (p : Phase R) (f : Frontend R S)
      → Transition t p f (go_on strategy t now ok phases p f)
  unfolding go_on enter next dequeued passed tried is_inside
  go_on-Transition t now ok phases outside f = ground arith
  go_on-Transition t now ok phases starting f = ground arith
  go_on-Transition t now ok phases (looping c) f = ground arith
  go_on-Transition t now ok phases (testing c) f = ground arith
  go_on-Transition t now ok phases (dequeuing c false) f = ground arith
  go_on-Transition t now ok phases (dequeuing c true) f = ground arith
  go_on-Transition t now ok phases (feeding c r) f = ground arith
  go_on-Transition t now ok phases (ending c) f = ground arith
  go_on-Transition t now ok phases (flushing c) f = ground arith
  go_on-Transition t now ok phases (resetting c returned) f = ground arith
  go_on-Transition t now ok phases (back run) f = ground arith
  go_on-Transition t now ok phases (back feed_records) f = ground arith
  go_on-Transition t now ok phases (back flush) f = ground arith
  go_on-Transition t now ok phases waiting f = ground arith
  go_on-Transition t now ok phases leaving f = ground arith
  go_on-Transition t now ok phases (held_back r) f = ground arith
  go_on-Transition t now ok phases (enqueuing r) f = ground arith
  go_on-Transition t now ok phases (try_enqueuing r) f = ground arith
  go_on-Transition t now ok phases stopping f = ground arith
  go_on-Transition t now ok phases joining f = ground arith
  go_on-Transition t now ok phases flush_waiting f = resume_flush-Transition t f

  -- The thread that feeds records is the one of m_FeedingThreadID.
  unfoldable pub IsKnown : System R S → Type 0
  IsKnown s = (t : ℕ) → is_inside (s.phases t) ≡ true → s.frontend.feeding_thread_id ≡ some t

  pub advance-Transition :
      (t now : ℕ) (m : Move R) (phases : ℕ → Phase R) (p : Phase R) (f : Frontend R S)
      → Transition t p f (advance strategy t now m phases p f)
  unfolding advance next
  advance-Transition t now (goes_on ok) phases p f = go_on-Transition t now ok phases p f
  advance-Transition t now (calls_consume r) phases outside f =
      begin-Transition t (calls_consume r) f
  advance-Transition t now (calls_try_consume r) phases outside f =
      begin-Transition t (calls_try_consume r) f
  advance-Transition t now (calls c) phases outside f = begin-Transition t (calls c) f
  advance-Transition t now calls_stop phases outside f = begin-Transition t calls_stop f
  advance-Transition t now m phases p f = inl (refl, λ i. i)

  pub step-IsKnown :
      (m : ℕ × ℕ × Move R) (s : System R S) → IsKnown s → IsKnown (step strategy m s).0
  unfolding step IsKnown
  step-IsKnown (t, now, m) s known u inside =
      elim (advance-Transition t now m s.phases (s.phases t) s.frontend) [
        | inl (same, within) ↦ ground (arith, same, within, known t, known u, inside)
        | inr (inl (free, entered)) ↦ ground (arith, free, entered, known u, inside)
        | inr (inr (before, after, left)) ↦
            ground (arith, before, after, left, known t, known u, inside)
      ]

  pub run-IsKnown :
      (moves : List (ℕ × ℕ × Move R)) (s : System R S)
      → IsKnown s
      → IsKnown (run_steps strategy moves s).0
  unfolding run_steps
  run-IsKnown [] s known = known
  run-IsKnown (m ∷ rest) s known = run-IsKnown rest (step strategy m s).0 (step-IsKnown m s known)

  pub construct-IsKnown :
      (queue : S) (dedicated_thread : Option ℕ)
      → IsKnown (construct strategy queue dedicated_thread)
  unfolding construct IsKnown is_inside
  construct-IsKnown queue none t inside = ground (arith, inside)
  construct-IsKnown queue (some d) t inside = ground (arith, inside)

  abbrev pub reached : S → Option ℕ → List (ℕ × ℕ × Move R) → System R S
  reached queue dedicated_thread moves =
      (run_steps strategy moves (construct strategy queue dedicated_thread)).0

  -- Whatever the threads do from the construction on, and in whatever order, two of them that are in the
  -- functions that feed records are the same, and it is the one of m_FeedingThreadID.
  pub run_steps-one_feeder :
      (queue : S) (dedicated_thread : Option ℕ) (moves : List (ℕ × ℕ × Move R)) (t u : ℕ)
      → is_inside ((reached queue dedicated_thread moves).phases t) ≡ true
      → is_inside ((reached queue dedicated_thread moves).phases u) ≡ true
      → (t ≡ u) × ((reached queue dedicated_thread moves).frontend.feeding_thread_id ≡ some t)
  unfolding IsKnown
  run_steps-one_feeder queue dedicated_thread moves t u at_t at_u =
      let known =
        run-IsKnown moves (construct strategy queue dedicated_thread)
          (construct-IsKnown queue dedicated_thread) in
      (ground (arith, known t at_t, known u at_u), known t at_t)
