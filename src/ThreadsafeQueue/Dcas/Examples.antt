-- ===== src/ThreadsafeQueue/Dcas/Examples.antt =====
-- Runs of the queue over a DCAS (threadsafe_queue.cpp) on concrete schedules.
use boost_log.Base.{
  count, ◌≤◌, arith, ℕ, ◌≡◌, Option, none, some, List, [], ◌∷◌, ◌++◌, refl, take_at,
}
use boost_log.ThreadsafeQueue.{Event, created}
use boost_log.ThreadsafeQueue.Chain.{values, addresses}
use boost_log.ThreadsafeQueue.Fifo.{all_linked}
use boost_log.ThreadsafeQueue.Dcas.{
  Queue, Action, outside, set_node, push, push_step, pop_step, has_popped, construct, step, run,
}
use boost_log.ThreadsafeQueue.Dcas.Stale.{stale_pop, run-stale_pop}
use boost_log.ThreadsafeQueue.Dcas.Pops.{pops, Popped, try_pop-returns}
use boost_log.ThreadsafeQueue.Dcas.Chain.{Chain, new_nodes}
use boost_log.ThreadsafeQueue.Dcas.Invariant.{IsPushing, construct-IsPushing}
use boost_log.ThreadsafeQueue.Dcas.Pushes.{run-pushes}

-- Two threads push, and both have loaded the same tail when the first of them links its node.
abbrev two_pushes : List (Action ℕ)
two_pushes =
    push (created 1) 10
    ∷ push (created 2) 20
    ∷ push_step 0
    ∷ push_step 1
    ∷ push_step 0
    ∷ push_step 1
    ∷ push_step 0
    ∷ push_step 1
    ∷ push_step 0
    ∷ push_step 0
    ∷ push_step 0
    ∷ push_step 0
    ∷ push_step 0
    ∷ push_step 0
    ∷ push_step 0
    ∷ push_step 0
    ∷ push_step 0
    ∷ push_step 0
    ∷ []

abbrev events_of : Option (Queue ℕ × List (Event ℕ)) → List (Event ℕ)
events_of none = []
events_of (some (q, es)) = es

two_pushes-linked : all_linked (events_of (run two_pushes (construct 0))) ≡ 20 ∷ 10 ∷ []
unfolding all_linked run construct take_at
two_pushes-linked = refl

run-pushes_example :
    (q : Queue ℕ) × (es : List (Event ℕ)) × (run two_pushes (construct 0) ≡ some (q, es))
    × (cells : List (ℕ × ℕ)) × IsPushing q 0 cells
    × (values cells ≡ [] ++ all_linked es)
unfolding values
run-pushes_example =
    run-pushes two_pushes (construct 0) 0 []
      (
        tt,
        (
          tt,
          (
            tt,
            (
              tt,
              (
                tt,
                (tt, (tt, (tt, (tt, (tt, (tt, (tt, (tt, (tt, (tt, (tt, (tt, (tt, tt))))))))))))),
              ),
            ),
          ),
        ),
      )
      (construct-IsPushing 0)

run-stale_pop_example :
    (q' : Queue ℕ) × (es : List (Event ℕ)) × (run (stale_pop 1 10) (construct 0) ≡ some (q', es))
    × (q'.head.node ≡ none)
    × (q'.popper ≡ has_popped (some 0) none)
    × (q'.tail.node ≡ some 1)
    × (step pop_step q' ≡ none)
unfolding construct
run-stale_pop_example =
    run-stale_pop (construct 0) 0 1 10
      (record { next = record { counter = 0; node = none }; storage = none }) refl refl refl refl
      refl refl refl

-- One value is linked, and the tail lags behind.
abbrev lagging : Queue ℕ
lagging = record {
  memory =
      set_node 1 (some (record { next = record { counter = 0; node = none }; storage = some 10 })) (
        set_node 0 (some (record { next = record { counter = 1; node = some 1 }; storage = none }))
          (λ c. none));
  head = record { counter = 0; node = some 0 };
  tail = record { counter = 0; node = some 0 };
  pushers = [];
  popper = outside;
}

lagging-IsPushing : IsPushing lagging 0 ((1, 10) ∷ [])
unfolding Chain addresses new_nodes count
lagging-IsPushing = record {
  at_head = refl;
  chain = (
    record {
      found = record { next = record { counter = 1; node = some 1 }; storage = none };
      at_found = refl;
      next_node = refl;
      stored = refl;
    },
    record {
      found = record { next = record { counter = 0; node = none }; storage = some 10 };
      at_found = refl;
      next_node = refl;
      stored = refl;
    },
  );
  at_tail = ground arith;
  threads = tt;
  once = λ c. ground arith;
  live = λ c e. ground (arith, e);
}

try_pop-returns_example :
    (k : ℕ) × (q : Queue ℕ) × (es : List (Event ℕ)) × (k ≤ 9)
    × (run (pops k) lagging ≡ some (q, es))
    × (q.popper ≡ outside)
    × Popped ((1, 10) ∷ []) 0 q es
try_pop-returns_example = try_pop-returns lagging 0 ((1, 10) ∷ []) lagging-IsPushing refl refl
