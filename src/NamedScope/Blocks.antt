-- ===== src/NamedScope/Blocks.antt =====
-- What the records that are made in nested blocks see of the scopes (named_scope.cpp,
-- attributes/named_scope.hpp), with exceptions that leave blocks.
use boost_log.Base.{
  ℕ, suc, ◌+◌, ◌≡◌, ◌<◌, ◌^◌, Bool, true, false, ◌||◌, some, List, [], ◌∷◌, ◌++◌, if◌then◌else◌,
  ltb, length, length-append, map, arith, refl, sym, ap, ◌∙◌, subst,
}
use mathlib.Core.List.{append-nil, map-append}
use boost_log.NamedScope.{scopes}
use boost_log.NamedScope.Chain.{entries, entries-append}
use boost_log.NamedScope.Stack.{scopes-entries}
use boost_log.NamedScope.Thread.{
  Thread, Body, done, throw, log, block, BodyResult, construct_sentry, destroy_sentry, get_value,
  run_body,
}
use boost_log.NamedScope.Nested.{
  IsStack, get_scope_list-IsStack, construct_sentry-IsStack, destroy_sentry-IsStack,
}

module _ {ℓ κ} {A : Type ℓ} (P : A → Type κ) where
  pub either_end : (b : Bool) (x y : A) → P x → P y → P (if b then x else y)
  either_end true x y px py = px
  either_end false x y px py = py

module _ {E : Type 0} where
  -- Whether an exception leaves the body.
  unfoldable pub throws : Body E → Bool
  throws done = false
  throws throw = true
  throws (log rest) = throws rest
  throws (block e inside rest) = throws inside || throws rest

  -- What the records see: the blocks around them, the outermost one first.
  unfoldable pub enclosing : List E → Body E → List (List E)
  unfolding throws
  enclosing path done = []
  enclosing path throw = []
  enclosing path (log rest) = path ∷ enclosing path rest
  enclosing path (block e inside rest) =
      let after = enclosing path rest in
      enclosing (path ++ e ∷ []) inside ++ (if throws inside then [] else after)

  unfoldable pub depth : Body E → ℕ
  depth done = 0
  depth throw = 0
  depth (log rest) = depth rest
  depth (block e inside rest) =
      if ltb (suc (depth inside)) (depth rest) then depth rest else suc (depth inside)

  -- The end of a block, by whether an exception has left it.
  abbrev end_block : BodyResult E → Thread E → BodyResult E → BodyResult E
  end_block o t1 o1 =
      if o.threw then record o { thread = t1 } else record o1 { seen = o.seen ++ o1.seen }

  end_block-cases :
      (threw threw1 : Bool) (o o1 : BodyResult E) (t1 : Thread E) (new sp : ℕ) (cs : List (ℕ × E))
      (seen seen1 : List (List E))
      → o.threw ≡ threw
      → o.seen ≡ map some seen
      → IsStack t1 new sp cs
      → (o1.seen ≡ map some seen1) × (o1.threw ≡ threw1) × IsStack o1.thread new sp cs
      → ((end_block o t1 o1).seen ≡ map some (seen ++ (if threw then [] else seen1)))
        × ((end_block o t1 o1).threw ≡ (threw || threw1))
        × IsStack (end_block o t1 o1).thread new sp cs
  end_block-cases true threw1 o o1 t1 new sp cs seen seen1 t s is (s1, t1', is1) =
      let run : record o { thread = t1 } ≡ end_block o t1 o1 = ground (arith, t) in
      (
        sym (ap (λ g. g.seen) run) ∙ s ∙ sym (ap (map some) (append-nil seen)),
        sym (ap (λ g. g.threw) run) ∙ t,
        subst (λ g. IsStack g.thread new sp cs) run is,
      )
  end_block-cases false threw1 o o1 t1 new sp cs seen seen1 t s is (s1, t1', is1) =
      let run : record o1 { seen = o.seen ++ o1.seen } ≡ end_block o t1 o1 = ground (arith, t) in
      (
        sym (ap (λ g. g.seen) run) ∙ ground (arith, s, s1, map-append some seen seen1),
        sym (ap (λ g. g.threw) run) ∙ t1',
        subst (λ g. IsStack g.thread new sp cs) run is1,
      )

  -- When the stack of the thread holds the scopes of `cs`, its nodes lie below the entries of the sentries, and
  -- there is room for the size of the deepest block, each record of a body sees the scopes of `cs` and then
  -- those of the blocks around it, exceptions that leave blocks before it included; an exception leaves the body
  -- as `throws` says; and in the end the stack holds the scopes of `cs` again.
  pub run_body-enclosing :
      (new sp : ℕ) (body : Body E) (t : Thread E) (cs : List (ℕ × E))
      → IsStack t new sp cs
      → length cs + depth body < 2 ^ 64
      → ((run_body new sp body t).seen ≡ map some (enclosing (entries cs) body))
        × ((run_body new sp body t).threw ≡ throws body)
        × IsStack (run_body new sp body t).thread new sp cs
  unfolding run_body throws enclosing depth get_value entries
  run_body-enclosing new sp done t cs is room = (refl, refl, is)
  run_body-enclosing new sp throw t cs is room = (refl, refl, is)
  run_body-enclosing new sp (log rest) t cs is room =
      let (r, m1, run, list, lt, _) = get_scope_list-IsStack t new sp cs is in
      let t1 : Thread E = record { memory = m1; p_scopes = some r } in
      let (seen, threw, is1) =
        run_body-enclosing new sp rest t1 cs (record { rooted = (list, lt); below = is.below })
          room in
      (
        ap (λ g. scopes g.0 g.1.memory ∷ (run_body new sp rest g.1).seen) run
            ∙ ap (λ x. x ∷ (run_body new sp rest t1).seen) (scopes-entries m1 r cs list)
            ∙ ap (λ xs. some (entries cs) ∷ xs) seen,
        ap (λ g. (run_body new sp rest g.1).threw) run ∙ threw,
        subst (λ g. IsStack (run_body new sp rest g.1).thread new sp cs) (sym run) is1,
      )
  run_body-enclosing new sp (block e inside rest) t cs is room =
      let entered = construct_sentry-IsStack t new sp e cs is (ground (arith, room)) in
      let len = length-append cs ((sp, e) ∷ []) in
      let o = run_body new (suc sp) inside (construct_sentry new sp e t) in
      let (seen, threw, is1) =
        run_body-enclosing new (suc sp) inside (construct_sentry new sp e t) (cs ++ (sp, e) ∷ [])
          entered (ground (arith, room, len)) in
      let is2 =
        destroy_sentry-IsStack o.thread new (suc sp) sp sp e cs is1
          (λ c lt ne. ground (arith, lt, ne)) in
      let path : entries (cs ++ (sp, e) ∷ []) ≡ entries cs ++ e ∷ [] =
        entries-append cs ((sp, e) ∷ []) in
      let t1 = destroy_sentry new sp o.thread in
      let (seen', threw', is3) =
        run_body-enclosing new sp rest (destroy_sentry new sp o.thread) cs is2
          (ground (arith, room)) in
      end_block-cases (throws inside) (throws rest) o (run_body new sp rest t1) t1 new sp cs
        (enclosing (entries cs ++ e ∷ []) inside) (enclosing (entries cs) rest) threw
        (seen ∙ ap (λ p. map some (enclosing p inside)) path) is2 (seen', threw', is3)
