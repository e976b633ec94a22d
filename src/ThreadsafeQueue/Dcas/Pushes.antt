-- ===== src/ThreadsafeQueue/Dcas/Pushes.antt =====
-- Threads in push of the queue over a DCAS (threadsafe_queue.cpp), while no thread is in try_pop.
use boost_log.Base.{
  ℕ, ◌≡◌, some, Option-cases, inl, inr, List, [], ◌∷◌, ◌++◌, count, All, arith, refl, sym, ap, ◌∙◌,
  subst, take_at, take_at-All, take_at-sum,
}
use mathlib.Core.List.{append_assoc}
use boost_log.ThreadsafeQueue.{Event}
use boost_log.ThreadsafeQueue.Chain.{addresses, values}
use boost_log.ThreadsafeQueue.Fifo.{linked_by, all_linked}
use boost_log.ThreadsafeQueue.Dcas.{Pusher, Queue, Action, push, push_step, pop_step, step, run}
use boost_log.ThreadsafeQueue.Dcas.Chain.{Knows, new_nodes}
use boost_log.ThreadsafeQueue.Dcas.Invariant.{IsPushing, Pushes, new_nodes-cons, same_values}
use boost_log.ThreadsafeQueue.Dcas.Advance.{create_node-Pushes, advance-Pushes}

module _ {V : Type 0} where
  -- The thread that makes the step comes to the front.
  front-IsPushing :
      (q : Queue V) (h : ℕ) (cells : List (ℕ × V)) (i : ℕ) (t : Pusher V) (others : List (Pusher V))
      → take_at i q.pushers ≡ some (t, others)
      → IsPushing q h cells
      → IsPushing (record q { pushers = t ∷ others }) h cells
  front-IsPushing q h cells i t others e is =
      let same : (a : ℕ) → count a (new_nodes q.pushers) ≡ count a (new_nodes (t ∷ others)) = λ a.
        take_at-sum (λ ts. count a (new_nodes ts)) (new_nodes-cons a) i q.pushers t others e
        ∙ sym (new_nodes-cons a t others) in
      record {
        at_head = is.at_head;
        chain = is.chain;
        at_tail = is.at_tail;
        threads =
            take_at-All (Knows q.memory (h ∷ addresses cells)) i q.pushers t others is.threads e;
        once = λ a. omega (arith, is.once a, same a);
        live = λ a w. omega (arith, is.live a w, same a);
      }

  -- A step of a thread in push, or the start of one.
  abbrev IsPush : Action V → Type 0
  IsPush pop_step = ⊥
  IsPush _ = Unit

  step-Pushes :
      (a : Action V) (q : Queue V) (h : ℕ) (cells : List (ℕ × V))
      → IsPush a
      → IsPushing q h cells
      → Pushes h cells (step a q)
  unfolding step Pushes
  step-Pushes (push c v) q h cells is_push is = create_node-Pushes q h cells c v is
  step-Pushes pop_step q h cells is_push is = absurd is_push
  step-Pushes (push_step i) q h cells is_push is = elim (Option-cases (take_at i q.pushers)) [
    | inl e ↦ rw (Pushes, step, e) (cells, is, same_values cells)
    | inr ((t, others), e) ↦
        rw (step, e)
          (advance-Pushes (record q { pushers = others }) h cells t
            (front-IsPushing q h cells i t others e is))
  ]

  -- While no thread is in try_pop, the steps of any threads in push, in any order, never access memory
  -- that is not allocated, and the values in the list are those before, then those that were linked, in
  -- the order in which they were. The allocator gives no address that is in use.
  pub run-pushes :
      (actions : List (Action V)) (q : Queue V) (h : ℕ) (cells : List (ℕ × V))
      → All IsPush actions
      → IsPushing q h cells
      → (q' : Queue V) × (es : List (Event V)) × (run actions q ≡ some (q', es))
        × (cells' : List (ℕ × V)) × IsPushing q' h cells'
        × (values cells' ≡ values cells ++ all_linked es)
  unfolding run Pushes all_linked
  run-pushes [] q h cells are is = (q, [], refl, cells, is, same_values cells)
  run-pushes (a ∷ rest) q h cells (is_push, are) is = elim (Option-cases (step a q)) [
    | inl e ↦ absurd (subst (Pushes h cells) e (step-Pushes a q h cells is_push is))
    | inr ((q1, e), f) ↦
        let (cells1, is1, first) = subst (Pushes h cells) f (step-Pushes a q h cells is_push is) in
        let (q2, es, ran, cells2, is2, others) = run-pushes rest q1 h cells1 are is1 in
        (
          q2,
          e ∷ es,
          ground (arith, f, ran),
          cells2,
          is2,
          others
              ∙ ap (λ vs. vs ++ all_linked es) first
              ∙ append_assoc (values cells) (linked_by e) (all_linked es),
        )
  ]
