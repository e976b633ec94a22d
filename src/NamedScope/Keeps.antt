-- ===== src/NamedScope/Keeps.antt =====
-- Lists of scopes that share no node with the stack of a thread (named_scope.cpp), while the thread enters
-- blocks and leaves them.
use boost_log.Base.{
  ℕ, suc, ◌+◌, ◌≡◌, ◌<◌, ◌^◌, true, false, ◌||◌, none, some, List, [], ◌∷◌, ◌++◌, ◌==◌, length,
  length-append, arith, refl, sym, ap, ◌∙◌, subst,
}
use boost_log.NamedScope.{Memory, set, construct_entry, push_back, pop_back}
use boost_log.NamedScope.Chain.{has, has-append, has-end, IsList}
use boost_log.NamedScope.Stack.{Same, Same-refl, shorten}
use boost_log.NamedScope.Thread.{
  Thread, Body, done, throw, log, block, get_scope_list, push_scope, pop_scope, construct_sentry,
  destroy_sentry, get_value, run_body,
}
use boost_log.NamedScope.Nested.{Rooted, IsStack, construct_sentry-IsStack, destroy_sentry-IsStack}
use boost_log.NamedScope.Blocks.{depth, either_end, run_body-enclosing}

module _ {E : Type 0} where
  pub Same-trans :
      (m m1 m2 : Memory E) (s : ℕ) (ds : List (ℕ × E))
      → Same m m1 s ds
      → Same m1 m2 s ds
      → Same m m2 s ds
  Same-trans m m1 m2 s ds f g = record {
    nexts = λ c i. g.nexts c i ∙ f.nexts c i;
    prevs = λ c i. g.prevs c i ∙ f.prevs c i;
    kept = λ c i. g.kept c i ∙ f.kept c i;
    size = g.size ∙ f.size;
  }

  -- The nodes of the list at `s` are below `sp`, and are none of the list at `r`.
  unfoldable pub Apart : ℕ → List (ℕ × E) → ℕ → ℕ → List (ℕ × E) → Type 0
  Apart r cs sp s ds =
      (c : ℕ) → (s == c || has c ds) ≡ true → (c < sp) × ((r == c || has c cs) ≡ false)

  push_back-Same :
      (m : Memory E) (r sp : ℕ) (e : E) (cs : List (ℕ × E)) (s : ℕ) (ds : List (ℕ × E))
      → IsList m r cs
      → Apart r cs sp s ds
      → Same m (push_back r sp (construct_entry sp e m)) s ds
  unfolding push_back construct_entry Apart
  push_back-Same m r sp e cs s ds is apart =
      let top = has-end m r cs (m.prev r) is.seg in
      record {
        nexts = λ c i. ground (arith, apart c i, top);
        prevs = λ c i. ground (arith, apart c i, top);
        kept = λ c i. ground (arith, i, apart c);
        size = ground (arith, apart s);
      }

  pop_back-Same :
      (m : Memory E) (r sp a : ℕ) (e : E) (cs : List (ℕ × E)) (s : ℕ) (ds : List (ℕ × E))
      → IsList m r (cs ++ (a, e) ∷ [])
      → Apart r (cs ++ (a, e) ∷ []) sp s ds
      → Same m (record (pop_back r m) { entry = set a none (pop_back r m).entry }) s ds
  unfolding pop_back Apart
  pop_back-Same m r sp a e cs s ds is apart =
      let (top, shorter, to_a) = shorten m r cs a e (m.prev r) is.seg in
      let before = has-end m r cs (m.prev a) shorter in
      let behind : m.next a ≡ r = ap m.next top ∙ is.back in
      let out = λ (c : ℕ). has-append c cs ((a, e) ∷ []) in
      record {
        nexts = λ c i. ground (arith, apart c i, out c, top, before);
        prevs = λ c i. ground (arith, apart c i, out c, top, behind, before);
        kept = λ c i. ground (arith, i, apart c, out c);
        size = ground (arith, apart s);
      }

  -- The thread has the list at `r`.
  abbrev at : Memory E → ℕ → Thread E
  at m r = record { memory = m; p_scopes = some r }

  IsStack-IsList :
      (t : Thread E) (new sp r : ℕ) (cs : List (ℕ × E))
      → IsStack t new sp cs
      → t.p_scopes ≡ some r
      → IsList t.memory r cs
  IsStack-IsList t new sp r cs is listed =
      (subst (λ p. Rooted t.memory p new sp cs) listed is.rooted).0

  pub construct_sentry-Same :
      (t : Thread E) (new sp r : ℕ) (e : E) (cs : List (ℕ × E)) (s : ℕ) (ds : List (ℕ × E))
      → IsStack t new sp cs
      → t.p_scopes ≡ some r
      → Apart r cs sp s ds
      → Same t.memory (construct_sentry new sp e t).memory s ds
        × ((construct_sentry new sp e t).p_scopes ≡ some r)
  unfolding construct_sentry push_scope get_scope_list
  construct_sentry-Same t new sp r e cs s ds is listed apart =
      let run : at t.memory r ≡ t =
        ap (λ p. record { memory = t.memory; p_scopes = p }) (sym listed) in
      subst
        (λ t1.
          Same t.memory (construct_sentry new sp e t1).memory s ds
          × ((construct_sentry new sp e t1).p_scopes ≡ some r))
        run
        (
          push_back-Same t.memory r sp e cs s ds (IsStack-IsList t new sp r cs is listed) apart,
          refl,
        )

  pub destroy_sentry-Same :
      (t : Thread E) (new sp r a : ℕ) (e : E) (cs : List (ℕ × E)) (s : ℕ) (ds : List (ℕ × E))
      → IsStack t new sp (cs ++ (a, e) ∷ [])
      → t.p_scopes ≡ some r
      → Apart r (cs ++ (a, e) ∷ []) sp s ds
      → Same t.memory (destroy_sentry new a t).memory s ds
        × ((destroy_sentry new a t).p_scopes ≡ some r)
  unfolding destroy_sentry pop_scope get_scope_list
  destroy_sentry-Same t new sp r a e cs s ds is listed apart =
      let run : at t.memory r ≡ t =
        ap (λ p. record { memory = t.memory; p_scopes = p }) (sym listed) in
      subst
        (λ t1.
          Same t.memory (destroy_sentry new a t1).memory s ds
          × ((destroy_sentry new a t1).p_scopes ≡ some r))
        run
        (
          pop_back-Same t.memory r sp a e cs s ds
              (IsStack-IsList t new sp r (cs ++ (a, e) ∷ []) is listed) apart,
          refl,
        )

  pub Apart-inside :
      (r : ℕ) (cs : List (ℕ × E)) (sp : ℕ) (e : E) (s : ℕ) (ds : List (ℕ × E))
      → Apart r cs sp s ds
      → Apart r (cs ++ (sp, e) ∷ []) (suc sp) s ds
  unfolding Apart
  Apart-inside r cs sp e s ds apart c i =
      (ground (arith, apart c i), ground (arith, apart c i, has-append c cs ((sp, e) ∷ [])))

  -- A body leaves a list alone that shares no node with the stack and is not where its sentries are.
  pub run_body-Same :
      (new sp : ℕ) (body : Body E) (t : Thread E) (r : ℕ) (cs : List (ℕ × E)) (s : ℕ)
      (ds : List (ℕ × E))
      → IsStack t new sp cs
      → t.p_scopes ≡ some r
      → length cs + depth body < 2 ^ 64
      → Apart r cs sp s ds
      → Same t.memory (run_body new sp body t).thread.memory s ds
        × ((run_body new sp body t).thread.p_scopes ≡ some r)
  unfolding run_body depth get_value get_scope_list
  run_body-Same new sp done t r cs s ds is listed room apart = (Same-refl t.memory s ds, listed)
  run_body-Same new sp throw t r cs s ds is listed room apart = (Same-refl t.memory s ds, listed)
  run_body-Same new sp (log rest) t r cs s ds is listed room apart =
      let run : t ≡ (get_scope_list new t).1 = ground (arith, listed) in
      subst
        (λ t1.
          Same t.memory (run_body new sp rest t1).thread.memory s ds
          × ((run_body new sp rest t1).thread.p_scopes ≡ some r))
        run (run_body-Same new sp rest t r cs s ds is listed room apart)
  run_body-Same new sp (block e inside rest) t r cs s ds is listed room apart =
      let entered = construct_sentry-IsStack t new sp e cs is (ground (arith, room)) in
      let len = length-append cs ((sp, e) ∷ []) in
      let t0 = construct_sentry new sp e t in
      let o = run_body new (suc sp) inside t0 in
      let t1 = destroy_sentry new sp o.thread in
      let o1 = run_body new sp rest t1 in
      let (same0, listed0) = construct_sentry-Same t new sp r e cs s ds is listed apart in
      let (same1, listed1) =
        run_body-Same new (suc sp) inside t0 r (cs ++ (sp, e) ∷ []) s ds entered listed0
          (ground (arith, room, len)) (Apart-inside r cs sp e s ds apart) in
      let (_, _, is1) =
        run_body-enclosing new (suc sp) inside t0 (cs ++ (sp, e) ∷ []) entered
          (ground (arith, room, len)) in
      let (same2, listed2) =
        destroy_sentry-Same o.thread new (suc sp) r sp e cs s ds is1 listed1
          (Apart-inside r cs sp e s ds apart) in
      let is2 =
        destroy_sentry-IsStack o.thread new (suc sp) sp sp e cs is1
          (λ c lt ne. ground (arith, lt, ne)) in
      let (same3, listed3) =
        run_body-Same new sp rest t1 r cs s ds is2 listed2 (ground (arith, room)) apart in
      let all : Same t.memory t1.memory s ds =
        Same-trans t.memory o.thread.memory t1.memory s ds
          (Same-trans t.memory t0.memory o.thread.memory s ds same0 same1) same2 in
      either_end (λ x. Same t.memory x.thread.memory s ds × (x.thread.p_scopes ≡ some r)) o.threw
        (record o { thread = t1 }) (record o1 { seen = o.seen ++ o1.seen }) (all, listed2)
        (Same-trans t.memory t1.memory o1.thread.memory s ds all same3, listed3)
