-- ===== src/Queues/Ordering/Searched.antt =====
-- A priority queue for unbounded_ordering_queue (sinks/unbounded_ordering_queue.hpp): a list that is
-- searched for its least record.
use mathlib.Core.Bool.{Bool-set}
use mathlib.Core.List.{Mem, Perm, not-mem-nil, forall_mem-cons}
use mathlib.Core.List.Perm
use boost_log.Base.{
  ℕ, ◌≡◌, false, Option, none, some, Option-cases, Bool-cases, inl, inr, List, [], ◌∷◌, ltb,
  if◌then◌else◌, arith, refl, subst, ap, ◌∙◌,
}
use boost_log.Queues.Ordering.{PriorityQueue, IsPriorityQueue, EnqueuedRecord, order}

abbrev pub Records : Type 0
Records = List (EnqueuedRecord ℕ)

unfoldable pub least : Records → Option (EnqueuedRecord ℕ)
least [] = none
least (x ∷ xs) = elim (least xs) [
  | none ↦ some x
  | some m ↦ if ltb m.rec x.rec then some m else some x
]

unfoldable pub without_least : Records → Records
unfolding least
without_least [] = []
without_least (x ∷ xs) =
    let rest = without_least xs in
    elim (least xs) [ none ↦ [] | some m ↦ if ltb m.rec x.rec then x ∷ rest else xs ]

unfoldable pub searched : PriorityQueue (EnqueuedRecord ℕ) Records
unfolding least without_least
searched = record {
  empty = [];
  push = λ e s. e ∷ s;
  top = least;
  pop = without_least;
  contents = λ s. s;
}

least-none : (s : Records) → least s ≡ none → s ≡ []
unfolding least
least-none [] e = refl
least-none (x ∷ xs) e = absurd (ground (arith, e))

without_least-Perm :
    (s : Records) (e : EnqueuedRecord ℕ) → least s ≡ some e → Perm s (e ∷ without_least s)
unfolding least without_least
without_least-Perm [] e f = absurd (ground (arith, f))
without_least-Perm (x ∷ xs) e f = elim (Option-cases (least xs)) [
  | inl g ↦
      let same : x ≡ e = ground (arith, f, g) in
      rw (least-none xs g) (Perm.cons' same (Perm.refl []))
  | inr (m, g) ↦ elim (Bool-cases (ltb m.rec x.rec)) [
    | inl h ↦
        let same : m ≡ e = ground (arith, f, g, h) in
        rw (without_least, g, h)
          (Perm.trans (Perm.cons x (without_least-Perm xs e (g ∙ ap some same)))
            (Perm.swap e x (without_least xs)))
    | inr h ↦
        let same : x ≡ e = ground (arith, f, g, h) in
        rw (without_least, g, h) (Perm.cons' same (Perm.refl xs))
  ]
]

least-first :
    (s : Records) (e x : EnqueuedRecord ℕ) → least s ≡ some e → Mem x s → order ltb e x ≡ false
unfolding least
least-first [] e x f m = absurd (not-mem-nil m)
least-first (y ∷ ys) e x f m = elim (Option-cases (least ys)) [
  | inl g ↦
      (forall_mem-cons (λ z. Bool-set (order ltb e z) false)).1
        (ground (arith, f, g), λ z n. absurd (not-mem-nil (subst (Mem z) (least-none ys g) n))) x m
  | inr (k, g) ↦
      (forall_mem-cons (λ z. Bool-set (order ltb e z) false)).1
        (ground (arith, f, g), λ z n. ground (arith, f, g, least-first ys k z g n)) x m
]

pub searched-IsPriorityQueue : IsPriorityQueue (order ltb) searched
unfolding searched
searched-IsPriorityQueue = record {
  contents-empty = refl;
  contents-push = λ e s. Perm.refl (e ∷ s);
  top-none = least-none;
  contents-pop = without_least-Perm;
  top-first = least-first;
}
