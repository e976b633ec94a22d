-- ===== src/NamedScope/Examples.antt =====
-- Tests of the lists of scopes.
use boost_log.Base.{◌+◌, ℕ, ◌≡◌, true, false, none, some, [], ◌∷◌, arith, refl}
use boost_log.NamedScope.{
  Memory, construct, construct_entry, push_back, pop_back, iterate, scopes, assign,
}
use boost_log.NamedScope.Chain.{entries, Seg, IsList}
use boost_log.NamedScope.Copy.{copies}
use boost_log.NamedScope.Assign.{assign-copies}
use boost_log.NamedScope.Thread.{
  Thread, Value, Body, done, throw, log, block, get_scope_list, push_scope, pop_scope,
  construct_sentry, destroy_sentry, get_value, detach_from_thread, run_body,
}
use boost_log.NamedScope.Nested.{IsStack}
use boost_log.NamedScope.Blocks.{depth, throws, enclosing, run_body-enclosing}
use boost_log.NamedScope.Moves.{leave_all, enter_all, cells_of}
use boost_log.NamedScope.Detached.{detach_from_thread-keeps}

abbrev blank : Memory ℕ
blank = record {
  prev = λ _. 0;
  next = λ _. 0;
  entry = λ _. none;
  size = λ _. 0;
  need_to_deallocate = λ _. false;
}

abbrev new_thread : Thread ℕ
new_thread = record { memory = blank; p_scopes = none }

-- An exception leaves the block 8 and the block 7 around it, and skips a record in each.
abbrev body : Body ℕ
body = block 6 (log done) (block 7 (log (block 8 (log throw) (log done))) (log done))

run_body-seen :
    (run_body 1 10 body new_thread).seen ≡ some (6 ∷ []) ∷ some (7 ∷ []) ∷ some (7 ∷ 8 ∷ []) ∷ []
unfolding run_body get_value get_scope_list construct construct_sentry destroy_sentry push_scope
    pop_scope construct_entry push_back pop_back scopes iterate
run_body-seen = refl

run_body-enclosing_example :
    ((run_body 1 10 body new_thread).seen ≡ some (6 ∷ []) ∷ some (7 ∷ []) ∷ some (7 ∷ 8 ∷ []) ∷ [])
    × ((run_body 1 10 body new_thread).threw ≡ true)
    × IsStack (run_body 1 10 body new_thread).thread 1 10 []
unfolding enclosing throws entries depth
run_body-enclosing_example =
    run_body-enclosing 1 10 body new_thread []
      (record { rooted = (refl, omega arith); below = λ c i. ground (arith, i) }) (omega arith)

abbrev one_scope : Memory ℕ
unfolding construct construct_entry push_back
one_scope = push_back 1 3 (construct_entry 3 7 (construct 1 blank))

abbrev two_lists : Memory ℕ
unfolding construct construct_entry push_back
two_lists = push_back 2 4 (construct_entry 4 8 (construct 2 one_scope))

one_scope-IsList : IsList one_scope 1 ((3, 7) ∷ [])
unfolding Seg construct construct_entry push_back
one_scope-IsList = record {
  seg = (refl, refl, refl, refl);
  back = refl;
  apart = refl;
  distinct = (refl, tt);
  sized = refl;
  bounded = omega arith;
}

-- The thread leaves the block 7, whose scope is at 3, and runs the body in a block 5.
detach_from_thread-keeps_example :
    (value : Value) × (m' : Memory ℕ) × (detach_from_thread 30
        (get_value 1 20 (record { memory = one_scope; p_scopes = some 1 })).0
        one_scope
      ≡ some (value, m'))
    × IsStack (record { memory = m'; p_scopes = some 1 }) 1 100 ((3, 7) ∷ [])
    × let t : Thread ℕ = record { memory = m'; p_scopes = some 1 } in
      let inside = enter_all 1 100 (5 ∷ []) (leave_all 1 ((3, 7) ∷ []) t) in
      let after = (run_body 1 (100 + 1) body inside).thread in
      (scopes value.p_value after.memory ≡ some (entries ((3, 7) ∷ [])))
      × IsStack after 1 (100 + 1) ((100, 5) ∷ [])
unfolding depth cells_of
detach_from_thread-keeps_example =
    detach_from_thread-keeps one_scope 1 100 1 20 30 [] ((3, 7) ∷ []) (5 ∷ []) body
      (record { rooted = (one_scope-IsList, omega arith); below = λ c i. ground (arith, i) })
      (record {
        root = omega arith;
        other_root = refl;
        fits = omega arith;
        unused = λ c i. ground (arith, i);
      })
      (omega arith)

two_lists-first : IsList two_lists 1 ((3, 7) ∷ [])
unfolding Seg construct construct_entry push_back
two_lists-first = record {
  seg = (refl, refl, refl, refl);
  back = refl;
  apart = refl;
  distinct = (refl, tt);
  sized = refl;
  bounded = omega arith;
}

two_lists-second : IsList two_lists 2 ((4, 8) ∷ [])
unfolding Seg construct construct_entry push_back
two_lists-second = record {
  seg = (refl, refl, refl, refl);
  back = refl;
  apart = refl;
  distinct = (refl, tt);
  sized = refl;
  bounded = omega arith;
}

assign-copies_example :
    (m' : Memory ℕ) × (assign 30 20 1 2 two_lists ≡ some m')
    × IsList m' 1 (copies 30 ((4, 8) ∷ []))
    × IsList m' 2 ((4, 8) ∷ [])
    × (scopes 1 m' ≡ some (entries ((4, 8) ∷ [])))
    × (scopes 2 m' ≡ some (entries ((4, 8) ∷ [])))
assign-copies_example =
    assign-copies two_lists 1 ((3, 7) ∷ []) 2 ((4, 8) ∷ []) 20 30 two_lists-first two_lists-second
      (omega arith, refl, refl, λ c i. ground (arith, i))
      (record { this = refl; that = refl; array = λ c i. ground (arith, i) })
