-- ===== src/NamedScope/Nested.antt =====
-- The scopes of nested blocks (the sentries of attributes/named_scope.hpp), and the stack of the thread
-- (named_scope.cpp) before and after them.
use boost_log.Base.{
  ◌≢◌, ℕ, suc, ◌≡◌, ◌<◌, ◌^◌, true, Option, none, some, List, [], ◌∷◌, ◌++◌, length, arith, refl,
  sym, ap, ◌∙◌, subst,
}
use boost_log.NamedScope.{Memory, set, construct, construct_entry, push_back, pop_back}
use boost_log.NamedScope.Chain.{has, has-append, IsList}
use boost_log.NamedScope.Stack.{
  Distinct-init, Same-IsList, construct-IsList, push_back-IsList, pop_back-IsList,
}
use boost_log.NamedScope.Thread.{
  Thread, get_scope_list, push_scope, pop_scope, construct_sentry, destroy_sentry,
}

module _ {E : Type 0} where
  -- The list of the thread, if there is one yet, holds the scopes; its nodes are below `sp`.
  abbrev pub Rooted : Memory E → Option ℕ → ℕ → ℕ → List (ℕ × E) → Type 0
  Rooted m none new sp cs = (cs ≡ []) × (new < sp)
  Rooted m (some r) new sp cs = IsList m r cs × (r < sp)

  pub record IsStack (t : Thread E) (new sp : ℕ) (cs : List (ℕ × E)) : Type 0 where
    pub rooted : Rooted t.memory t.p_scopes new sp cs
    pub below : (c : ℕ) → has c cs ≡ true → c < sp

  got :
      (m : Memory E) (p : Option ℕ) (new sp : ℕ) (cs : List (ℕ × E))
      → Rooted m p new sp cs
      → (r : ℕ) × (m1 : Memory E) × (get_scope_list new (record { memory = m; p_scopes = p })
          ≡ (r, record { memory = m1; p_scopes = some r }))
        × IsList m1 r cs
        × (r < sp)
        × (m1.entry ≡ m.entry)
  unfolding get_scope_list construct
  got m none new sp cs (empty, lt) = (
    new,
    construct new m,
    refl,
    subst (IsList (construct new m) new) (sym empty) (construct-IsList new m),
    lt,
    refl,
  )
  got m (some r) new sp cs (is, lt) = (r, m, refl, is, lt, refl)

  pub get_scope_list-IsStack :
      (t : Thread E) (new sp : ℕ) (cs : List (ℕ × E))
      → IsStack t new sp cs
      → (r : ℕ) × (m1 : Memory E) × (get_scope_list new t
          ≡ (r, record { memory = m1; p_scopes = some r }))
        × IsList m1 r cs
        × (r < sp)
        × (m1.entry ≡ t.memory.entry)
  get_scope_list-IsStack t new sp cs is = got t.memory t.p_scopes new sp cs is.rooted

  Rooted-construct_entry :
      (m : Memory E) (p : Option ℕ) (new sp : ℕ) (e : E) (cs : List (ℕ × E))
      → Rooted m p new sp cs
      → ((c : ℕ) → has c cs ≡ true → c < sp)
      → Rooted (construct_entry sp e m) p new sp cs
  unfolding construct_entry
  Rooted-construct_entry m none new sp e cs rooted below = rooted
  Rooted-construct_entry m (some r) new sp e cs (is, lt) below = (
    Same-IsList m (construct_entry sp e m) r cs is (record {
      nexts = λ c i. ground (arith, i, below c, lt);
      prevs = λ c i. ground (arith, i, below c, lt);
      kept = λ c i. ground (arith, i, below c);
      size = refl;
    }),
    lt,
  )

  pub construct_sentry-IsStack :
      (t : Thread E) (new sp : ℕ) (e : E) (cs : List (ℕ × E))
      → IsStack t new sp cs
      → suc (length cs) < 2 ^ 64
      → IsStack (construct_sentry new sp e t) new (suc sp) (cs ++ (sp, e) ∷ [])
  unfolding construct_sentry construct_entry push_scope
  construct_sentry-IsStack t new sp e cs is room =
      let m0 = construct_entry sp e t.memory in
      let (r, m1, run, list, lt, kept) =
        got m0 t.p_scopes new sp cs
          (Rooted-construct_entry t.memory t.p_scopes new sp e cs is.rooted is.below) in
      let run' : record { memory = push_back r sp m1; p_scopes = some r }
          ≡ construct_sentry new sp e t =
        sym (ap (λ g. record g.1 { memory = push_back g.0 sp g.1.memory }) run) in
      let pushed =
        push_back-IsList m1 r sp e cs list (ground (arith, lt)) (ground (arith, is.below sp))
          (ap (λ g. g sp) kept ∙ ground arith) room in
      subst (λ t1. IsStack t1 new (suc sp) (cs ++ (sp, e) ∷ [])) run'
        (record {
          rooted = (pushed, ground (arith, lt));
          below = λ c i. ground (arith, i, is.below c, has-append c cs ((sp, e) ∷ []));
        })

  -- The scope at `a` is the last one; `sp'` is a bound of the other nodes.
  pub destroy_sentry-IsStack :
      (t : Thread E) (new sp sp' a : ℕ) (e : E) (cs : List (ℕ × E))
      → IsStack t new sp (cs ++ (a, e) ∷ [])
      → ((c : ℕ) → c < sp → c ≢ a → c < sp')
      → IsStack (destroy_sentry new a t) new sp' cs
  unfolding destroy_sentry pop_scope
  destroy_sentry-IsStack t new sp sp' a e cs is bound =
      let (r, m1, run, list, lt, _) =
        got t.memory t.p_scopes new sp (cs ++ (a, e) ∷ []) is.rooted in
      let m2 = pop_back r m1 in
      let m3 : Memory E = record m2 { entry = set a none m2.entry } in
      let run' : record { memory = m3; p_scopes = some r } ≡ destroy_sentry new a t = sym (
        ap
          (λ g. record g.1 {
            memory = record (pop_back g.0 g.1.memory) {
              entry = set a none (pop_back g.0 g.1.memory).entry;
            };
          })
          run) in
      let (_, once) = Distinct-init cs a e list.distinct in
      let popped = Same-IsList m2 m3 r cs (pop_back-IsList m1 r a e cs list) (record {
        nexts = λ c i. refl;
        prevs = λ c i. refl;
        kept = λ c i. ground (arith, i, once);
        size = refl;
      }) in
      subst (λ t1. IsStack t1 new sp' cs) run'
        (record {
          rooted = (popped, bound r lt (ground (arith, list.apart, has-append r cs ((a, e) ∷ []))));
          below = λ c i.
              bound c (is.below c (ground (arith, i, has-append c cs ((a, e) ∷ []))))
                (ground (arith, i, once));
        })
