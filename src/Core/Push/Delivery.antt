-- ===== src/Core/Push/Delivery.antt =====
-- The delivery of a record, push_record (core.cpp): the call ends, no sink gets the record twice, and
-- with a handler that returns every sink that still exists is served once or has failed once.
use mathlib.Core.List.{Perm}
use boost_log.Base.{
  count, count-append, ℕ, zero, suc, ◌+◌, ◌≤◌, ◌<◌, ◌≡◌, refl, Bool, true, false, Option, none,
  some, List, [], ◌∷◌, ◌++◌, leb, if◌then◌else◌, length, length-append, arith,
}
use boost_log.Core.State.{HandlerAnswer}
use boost_log.Core.Open.{Outcome}
use boost_log.Core.Push.{
  Trace, Environment, delivered, refused, lock_sinks, last_to_front, Round, over, thrown_at,
  interrupted_at, try_all, Caught, resumed, handle, Blocking, served, failed_at, cut,
  block_on_first, Push, finished, push_loop, push_record, resume, after_blocking, after_round,
}
use boost_log.Core.Push.Count.{
  deliveries, failures, settled, count-last_to_front, length-last_to_front, count-perm, length-perm,
}

-- One once a round has reached a sink that was free.
abbrev progress : Bool → ℕ
progress all_locked = if all_locked then 0 else 1

-- A round leaves at most `n` sinks, fewer unless all were busy, and each is waiting or settled.
abbrev RoundKeeps : ℕ → ℕ → ℕ → Option Round → Type 0
RoundKeeps a n w none = ⊥
RoundKeeps a n w (some (over left all_locked t)) =
    (length left + progress all_locked ≤ n) × (count a left + settled a t ≡ w)
RoundKeeps a n w (some (thrown_at before after t)) =
    (length before + length after < n) × (count a before + count a after + settled a t ≡ w)
RoundKeeps a n w (some (interrupted_at t)) = settled a t ≤ w

abbrev pub PushKeeps : ℕ → ℕ → Option Push → Type 0
PushKeeps a w none = ⊥
PushKeeps a w (some (finished t)) = settled a t ≡ w
PushKeeps a w (some (Push.escaped left t)) = settled a t ≤ w
PushKeeps a w (some (Push.stopped left t)) = settled a t ≤ w

module _ (e : Environment) (a : ℕ) where
  try_all-Keeps :
      (fuel : ℕ) (before after : List ℕ) (all_locked : Bool) (t : Trace) (n w : ℕ)
      → length after ≤ fuel
      → length before + length after + progress all_locked ≤ n
      → count a before + count a after + settled a t ≡ w
      → RoundKeeps a n w (try_all e fuel before after all_locked t)
  unfolding try_all count deliveries failures
  try_all-Keeps zero before [] all_locked t n w f m c = ground arith
  try_all-Keeps (suc fuel) before [] all_locked t n w f m c = ground arith
  try_all-Keeps zero before (s ∷ after) all_locked t n w f m c = absurd (omega arith)
  try_all-Keeps (suc fuel) before (s ∷ after) all_locked t n w f m c = ground (
    arith,
    length-last_to_front after,
    count-last_to_front a after,
    length-append before (s ∷ []),
    count-append a before (s ∷ []),
    try_all-Keeps fuel before (last_to_front after) false (delivered s ∷ t) n w,
    try_all-Keeps fuel (before ++ s ∷ []) after all_locked (refused s ∷ t) n w,
  )

  abbrev BlockingKeeps : ℕ → ℕ → Blocking → Type 0
  BlockingKeeps n w (served left t) = (length left < n) × (count a left + settled a t ≡ w)
  BlockingKeeps n w (failed_at left t) = (length left < n) × (count a left + settled a t ≡ w)
  BlockingKeeps n w (cut t) = settled a t ≤ w

  block_on_first-Keeps :
      (ss : List ℕ) (t : Trace) (n w : ℕ)
      → 0 < length ss
      → length ss ≤ n
      → count a ss + settled a t ≡ w
      → BlockingKeeps n w (block_on_first e ss t)
  unfolding block_on_first count deliveries failures
  block_on_first-Keeps [] t n w p m c = absurd (omega arith)
  block_on_first-Keeps (s ∷ ss) t n w p m c =
      ground (arith, length-last_to_front ss, count-last_to_front a ss)

  -- The handler settles nothing.
  abbrev CaughtKeeps : ℕ → ℕ → Caught → Type 0
  CaughtKeeps left w (resumed t) = left + settled a t ≡ w
  CaughtKeeps left w (Caught.escaped t) = left + settled a t ≡ w
  CaughtKeeps left w (Caught.stopped t) = left + settled a t ≡ w

  handle-Keeps :
      (h : Option (Trace → HandlerAnswer)) (t : Trace) (left w : ℕ)
      → left + settled a t ≡ w
      → CaughtKeeps left w (handle h t)
  unfolding handle deliveries failures
  handle-Keeps h t left w c = ground arith

  -- What the rest of the loop promises, with fewer than `n` sinks to go.
  abbrev AgainKeeps : ℕ → (List ℕ → List ℕ → Bool → Trace → Option Push) → ℕ → Type 0
  AgainKeeps w again n =
      (before after : List ℕ) (shuffled : Bool) (t : Trace)
      → length before + length after < n
      → count a before + count a after + settled a t ≡ w
      → PushKeeps a w (again before after shuffled t)

  module _ (w n : ℕ) (again : List ℕ → List ℕ → Bool → Trace → Option Push)
      (keeps : AgainKeeps w again n) where
    resume-Keeps :
        (before after : List ℕ) (shuffled : Bool) (c : Caught)
        → length before + length after < n
        → CaughtKeeps (count a before + count a after) w c
        → PushKeeps a w (resume again before after shuffled c)
    unfolding resume
    resume-Keeps before after shuffled (resumed t) m c =
        keeps before after shuffled t m (omega arith)
    resume-Keeps before after shuffled (Caught.escaped t) m c = omega arith
    resume-Keeps before after shuffled (Caught.stopped t) m c = omega arith

    after_blocking-Keeps :
        (h : Option (Trace → HandlerAnswer)) (ss : List ℕ) (b : Blocking)
        → BlockingKeeps n w b
        → PushKeeps a w (after_blocking again h ss b)
    unfolding after_blocking count
    after_blocking-Keeps h ss (served left t) k = keeps [] left true t (omega arith) (ground arith)
    after_blocking-Keeps h ss (failed_at left t) k =
        resume-Keeps [] left true (handle h t) (omega arith) (handle-Keeps h t _ w (ground arith))
    after_blocking-Keeps h ss (cut t) k = k

  module _ (shuffles : (t : Trace) (ss : List ℕ) → Perm (e.random_shuffle t ss) ss) where
    length-shuffle_unless :
        (shuffled : Bool) (ss : List ℕ) (t : Trace)
        → length (if shuffled then ss else e.random_shuffle t ss) ≡ length ss
    length-shuffle_unless true ss t = refl
    length-shuffle_unless false ss t = length-perm (shuffles t ss)

    count-shuffle_unless :
        (shuffled : Bool) (ss : List ℕ) (t : Trace)
        → count a (if shuffled then ss else e.random_shuffle t ss) ≡ count a ss
    count-shuffle_unless true ss t = refl
    count-shuffle_unless false ss t = count-perm a (shuffles t ss)

    after_round-Keeps :
        (w n : ℕ) (again : List ℕ → List ℕ → Bool → Trace → Option Push)
        → AgainKeeps w again n
        → (ss : List ℕ) (shuffled : Bool) (r : Option Round) → RoundKeeps a n w r
        → PushKeeps a w (after_round again e ss shuffled r)
    unfolding after_round count
    after_round-Keeps w n again keeps ss shuffled none k = k
    after_round-Keeps w n again keeps ss shuffled (some (interrupted_at t)) k = k
    after_round-Keeps w n again keeps ss shuffled (some (thrown_at before after t)) k =
        resume-Keeps w n again keeps before after shuffled (handle e.exception_handler t) k.0
          (handle-Keeps e.exception_handler t _ w k.1)
    after_round-Keeps w n again keeps ss shuffled (some (over [] all_locked t)) k = omega arith
    after_round-Keeps w n again keeps ss shuffled (some (over (x ∷ xs) false t)) k =
        keeps [] (x ∷ xs) shuffled t (omega arith) (omega arith)
    after_round-Keeps w n again keeps ss shuffled (some (over (x ∷ xs) true t)) k =
        after_blocking-Keeps w n again keeps e.exception_handler (x ∷ xs) _ (
          block_on_first-Keeps (if shuffled then x ∷ xs else e.random_shuffle t (x ∷ xs)) t n w
            (omega (arith, length-shuffle_unless shuffled (x ∷ xs) t))
            (omega (arith, length-shuffle_unless shuffled (x ∷ xs) t))
            (omega (arith, count-shuffle_unless shuffled (x ∷ xs) t)))

    pub push_loop-Keeps :
        (w fuel : ℕ) (before after : List ℕ) (shuffled : Bool) (t : Trace)
        → length before + length after < fuel
        → count a before + count a after + settled a t ≡ w
        → PushKeeps a w (push_loop e fuel before after shuffled t)
    unfolding push_loop
    push_loop-Keeps w zero before after shuffled t m c = absurd (omega arith)
    push_loop-Keeps w (suc fuel) before after shuffled t m c =
        after_round-Keeps w fuel (push_loop e fuel) (push_loop-Keeps w fuel) (before ++ after)
          shuffled _
          (try_all-Keeps (length after) before after true t fuel w (omega arith) (omega arith) c)

  -- Of the whole call: it ends, and what it settles are sinks that were locked.
  abbrev CallKeeps : ℕ → Option (Outcome (Unit {0}) × Trace) → Type 0
  CallKeeps w none = ⊥
  CallKeeps w (some (o, t)) = settled a t ≤ w

  push_record-Keeps :
      ((t : Trace) (ss : List ℕ) → Perm (e.random_shuffle t ss) ss)
      → (accepting : List ℕ)
      → CallKeeps (count a (lock_sinks e.lock accepting)) (push_record e accepting)
  unfolding push_record handle deliveries failures count
  push_record-Keeps shuffles accepting =
      let sinks = lock_sinks e.lock accepting in
      ground (
        arith,
        push_loop-Keeps shuffles (count a sinks) (suc (length sinks)) [] sinks
            (leb (length sinks) 1) [] (omega arith) (omega arith),
      )

module _ (e : Environment) (accepting : List ℕ)
    (shuffles : (t : Trace) (ss : List ℕ) → Perm (e.random_shuffle t ss) ss) where
  total-at :
      (r : Option (Outcome (Unit {0}) × Trace))
      → push_record e accepting ≡ r
      → ((a : ℕ) → CallKeeps e a (count a (lock_sinks e.lock accepting)) r)
      → (o : Outcome (Unit {0})) × (t : Trace) × (push_record e accepting ≡ some (o, t))
        × ((a : ℕ) → deliveries a t + failures a t ≤ count a (lock_sinks e.lock accepting))
  total-at none p k = absurd (k 0)
  total-at (some (o, t)) p k = (o, t, p, k)

  -- If std::random_shuffle permutes its range, push_record ends whatever the sinks and the exception
  -- handler do, also when it throws or is interrupted, and no sink is settled more often than it is
  -- among the accepting sinks that still exist: it never gets the record twice, nor after it failed.
  pub push_record-total :
      (o : Outcome (Unit {0})) × (t : Trace) × (push_record e accepting ≡ some (o, t))
      × ((a : ℕ) → deliveries a t + failures a t ≤ count a (lock_sinks e.lock accepting))
  push_record-total =
      total-at (push_record e accepting) refl λ a. push_record-Keeps e a shuffles accepting
