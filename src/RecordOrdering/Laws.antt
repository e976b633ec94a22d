-- ===== src/RecordOrdering/Laws.antt =====
-- Which of the orders of utility/record_ordering.hpp the ordering queues can work with.
use mathlib.Core.Bool.{Bool-set}
use mathlib.Core.List.{Mem, mem-cons_self, not-mem-nil, forall_mem-cons}
use mathlib.Core.List.Perm
use boost_log.Base.{◌≡◌, ◌↔◌, Bool, true, false, Option, none, Option-cases, inl, inr, arith, subst}
use boost_log.Queues.Ordering.{PriorityQueue, IsPriorityQueue, EnqueuedRecord, order}
use boost_log.RecordOrdering.{value_ordering}

module _ {R V : Type 0} (extract : R → Option V) (fun : V → V → Bool) where
  -- If the functor never puts a value before itself, then attribute_value_ordering puts exactly those
  -- records before themselves that do not have the value.
  pub value_ordering-reflexive :
      ((v : V) → fun v v ≡ false)
      → (r : R) → (value_ordering extract fun r r ≡ true) ↔ (extract r ≡ none)
  unfolding value_ordering
  value_ordering-reflexive irreflexive r = elim (Option-cases (extract r)) [
    | inl e ↦ ((λ _. e), (λ _. ground (arith, e)))
    | inr (v, e) ↦
        ((λ f. absurd (ground (arith, e, f, irreflexive v))), (λ f. absurd (ground (arith, e, f))))
  ]

  -- If a record does not have the value, then with attribute_value_ordering as the predicate no queue for
  -- records keeps the promise of std::priority_queue, since that record comes before itself.
  pub value_ordering-no_queue :
      {S : Type 0} (set : PriorityQueue (EnqueuedRecord R) S) (r : R)
      → extract r ≡ none
      → IsPriorityQueue (order (value_ordering extract fun)) set
      → ⊥
  unfolding value_ordering
  value_ordering-no_queue set r missing is =
      let e : EnqueuedRecord R = record { timestamp = 0; rec = r } in
      let s = set.push e set.empty in
      let all = is.contents-push e set.empty in
      let before : EnqueuedRecord R → EnqueuedRecord R → Bool =
        order (value_ordering extract fun) in
      let itself : before e e ≡ true = ground (arith, missing) in
      let alone : (x : EnqueuedRecord R) → Mem x (set.contents s) → before x x ≡ true = λ x m.
        (forall_mem-cons (λ y. Bool-set (before y y) true)).1
          (itself, λ y n. absurd (not-mem-nil (subst (Mem y) is.contents-empty n))) x
          ((Perm.mem_iff all).0 m) in
      elim (Option-cases (set.top s)) [
        | inl f ↦ not-mem-nil (subst (Mem e) (is.top-none s f) ((Perm.mem_iff all).1 mem-cons_self))
        | inr (x, f) ↦
            let inside = (Perm.mem_iff (is.contents-pop s x f)).1 mem-cons_self in
            absurd (ground (arith, alone x inside, is.top-first s x x f inside))
      ]
