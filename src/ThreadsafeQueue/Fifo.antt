-- ===== src/ThreadsafeQueue/Fifo.antt =====
-- Runs of the queue with two locks (threadsafe_queue.cpp), with the steps of all threads in any order.
use boost_log.Base.{
  ℕ, ◌≡◌, Option, none, some, List, [], ◌∷◌, ◌++◌, count, arith, refl, sym, ap, ◌∙◌, subst,
  Option-cases, inl, inr,
}
use mathlib.Core.List.{append_assoc, append-nil}
use boost_log.ThreadsafeQueue.{
  Queue, Action, Event, idle, read, threw, allocated, linked, tail_moved, found_empty, head_moved,
  returned, construct, step, run,
}
use boost_log.ThreadsafeQueue.Chain.{Chain, addresses, last_address, values}
use boost_log.ThreadsafeQueue.Steps.{step-Advances}
use boost_log.ThreadsafeQueue.Invariant.{Promise, Accepts, IsQueue, Advances, promise, uses}

module _ {V : Type 0} where
  -- The values that were linked, and those that try_pop returned.
  abbrev pub linked_by : Event V → List V
  linked_by (linked v) = v ∷ []
  linked_by _ = []

  abbrev returned_by : Event V → List V
  returned_by (returned v) = v ∷ []
  returned_by _ = []

  unfoldable pub all_linked : List (Event V) → List V
  all_linked [] = []
  all_linked (e ∷ es) = linked_by e ++ all_linked es

  pub all_returned : List (Event V) → List V
  all_returned [] = []
  all_returned (e ∷ es) = returned_by e ++ all_returned es

  abbrev pub to_list : Option V → List V
  to_list none = []
  to_list (some v) = v ∷ []

  -- The values inside, in their order.
  abbrev inside : Promise V → List V
  inside s = to_list s.hand ++ s.contents

  -- A run of the specification.
  pub AcceptsAll : List (Event V) → Promise V → Promise V → Type 0
  unfolding Accepts
  AcceptsAll [] s s' = s' ≡ s
  AcceptsAll (e ∷ es) s s' = (m : Promise V) × Accepts e s m × AcceptsAll es m s'

  nothing_linked : (s s' : Promise V) → s' ≡ s → inside s ++ [] ≡ inside s'
  nothing_linked s s' e = append-nil (inside s) ∙ ap inside (sym e)

  Accepts-inside :
      (e : Event V) (s s' : Promise V)
      → Accepts e s s'
      → inside s ++ linked_by e ≡ returned_by e ++ inside s'
  unfolding Accepts
  Accepts-inside (linked v) s s' (e, f) =
      rw (e, f) (append_assoc (to_list s.hand) s.contents (v ∷ []))
  Accepts-inside found_empty s s' (e, f, g) = nothing_linked s s' g
  Accepts-inside head_moved s s' (v, e, f, g) =
      rw (e, f, g) (ap (λ vs. v ∷ vs) (append-nil s'.contents))
  Accepts-inside (returned v) s s' (e, f, g) =
      rw (e, f, g) (ap (λ vs. v ∷ vs) (append-nil s.contents))
  Accepts-inside idle s s' e = nothing_linked s s' e
  Accepts-inside read s s' e = nothing_linked s s' e
  Accepts-inside threw s s' e = nothing_linked s s' e
  Accepts-inside allocated s s' e = nothing_linked s s' e
  Accepts-inside tail_moved s s' e = nothing_linked s s' e

  run-Advances :
      (actions : List (Action V)) (q : Queue V) (cells : List (ℕ × V)) (hand : Option V)
      → IsQueue q cells hand
      → (q' : Queue V) × (es : List (Event V)) × (run actions q ≡ some (q', es))
        × (cells' : List (ℕ × V)) × (hand' : Option V) × IsQueue q' cells' hand'
        × AcceptsAll es (promise cells hand) (promise cells' hand')
  unfolding run AcceptsAll Advances
  run-Advances [] q cells hand is = (q, [], refl, cells, hand, is, refl)
  run-Advances (a ∷ rest) q cells hand is = elim (Option-cases (step a q)) [
    | inl e ↦ absurd (subst (Advances (promise cells hand)) e (step-Advances a q cells hand is))
    | inr ((q1, e), f) ↦
        let (cells1, hand1, is1, first) =
          subst (Advances (promise cells hand)) f (step-Advances a q cells hand is) in
        let (q2, es, ran, cells2, hand2, is2, others) = run-Advances rest q1 cells1 hand1 is1 in
        (
          q2,
          e ∷ es,
          ground (arith, f, ran),
          cells2,
          hand2,
          is2,
          (promise cells1 hand1, first, others),
        )
  ]

  AcceptsAll-inside :
      (es : List (Event V)) (s s' : Promise V)
      → AcceptsAll es s s'
      → inside s ++ all_linked es ≡ all_returned es ++ inside s'
  unfolding AcceptsAll all_linked all_returned
  AcceptsAll-inside [] s s' e = nothing_linked s s' e
  AcceptsAll-inside (e ∷ es) s s' (m, first, others) =
      sym (append_assoc (inside s) (linked_by e) (all_linked es))
      ∙ ap (λ vs. vs ++ all_linked es) (Accepts-inside e s m first)
      ∙ append_assoc (returned_by e) (inside m) (all_linked es)
      ∙ ap (λ vs. returned_by e ++ vs) (AcceptsAll-inside es m s' others)
      ∙ sym (append_assoc (returned_by e) (all_returned es) (inside s'))

  construct-IsQueue : (a : ℕ) → IsQueue {V = V} (construct a) [] none
  unfolding construct Chain last_address uses addresses count
  construct-IsQueue a = record {
    chain = ground arith;
    popping = refl;
    last = refl;
    new = tt;
    once = λ c. ground arith;
    live = λ c. ((λ f. ground (arith, f)), (λ f. ground (arith, f)));
  }

  -- The steps of any threads in any order, from the constructor on, never access memory that is not
  -- allocated, and what they do is a run of the specification: a value joins the end of the queue when it
  -- is linked, try_pop takes the first value, and it finds the queue empty only if no value is in it.
  -- The allocator gives no address that is in use, and one thread at a time is in try_pop.
  pub run-refines :
      (actions : List (Action V)) (a : ℕ)
      → (q : Queue V) × (es : List (Event V)) × (run actions (construct a) ≡ some (q, es))
        × (cells : List (ℕ × V)) × (hand : Option V) × IsQueue q cells hand
        × AcceptsAll es (promise [] none) (promise cells hand)
  run-refines actions a = run-Advances actions (construct a) [] none (construct-IsQueue a)

  -- The values that were linked, in their order, are those that try_pop returned, then the one that it is
  -- about to return, then those of the nodes behind the head: no value is lost, doubled or overtaken,
  -- whatever the order of the steps of all threads.
  pub run-linked :
      (actions : List (Action V)) (a : ℕ)
      → (q : Queue V) × (es : List (Event V)) × (run actions (construct a) ≡ some (q, es))
        × (cells : List (ℕ × V)) × (hand : Option V) × IsQueue q cells hand
        × (all_linked es ≡ all_returned es ++ (to_list hand ++ values cells))
  unfolding AcceptsAll promise values
  run-linked actions a =
      let (q, es, ran, cells, hand, is, accepts) = run-refines actions a in
      (
        q,
        es,
        ran,
        cells,
        hand,
        is,
        AcceptsAll-inside es (promise [] none) (promise cells hand) accepts,
      )
