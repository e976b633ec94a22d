-- ===== src/NamedScope/Thread.antt =====
-- The stack of scopes of a thread (basic_named_scope::impl in named_scope.cpp), the sentries that push to it
-- and pop from it, and the values of the attribute. The thread-specific pointer is a field, and the address
-- `new` is the one that an allocation of the list returns.
use boost_log.Base.{
  ℕ, suc, Bool, true, false, Option, none, some, List, [], ◌∷◌, ◌++◌, if◌then◌else◌,
}
use boost_log.NamedScope.{
  Memory, set, construct, construct_entry, push_back, pop_back, scopes, copy,
}

pub record Thread (E : Type 0) : Type 0 where
  pub memory : Memory E
  pub p_scopes : Option ℕ

-- The detached list of a value has an address of its own; `is_detached` says whether it is there.
pub record Value : Type 0 where
  pub p_value : ℕ
  pub detached_value : ℕ
  pub is_detached : Bool

-- What a thread runs: records with the attribute, blocks with a sentry, and exceptions.
pub data Body (E : Type 0) : Type 0 where
  done : Body E
  throw : Body E
  log : Body E → Body E
  block : E → Body E → Body E → Body E

-- The scopes that the records have seen, and whether an exception has left the body. The sentry of a
-- block is at the address `sp`, which those of the blocks in it are above.
pub record BodyResult (E : Type 0) : Type 0 where
  pub thread : Thread E
  pub seen : List (Option (List E))
  pub threw : Bool

module _ {E : Type 0} where
  unfoldable pub get_scope_list : ℕ → Thread E → ℕ × Thread E
  unfolding construct
  get_scope_list new t = elim t.p_scopes [
    | none ↦ (new, record { memory = construct new t.memory; p_scopes = some new })
    | some p ↦ (p, t)
  ]

  unfoldable pub push_scope : ℕ → ℕ → Thread E → Thread E
  unfolding get_scope_list push_back
  push_scope new a t =
      let (s, t1) = get_scope_list new t in record t1 { memory = push_back s a t1.memory }

  unfoldable pub pop_scope : ℕ → Thread E → Thread E
  unfolding get_scope_list pop_back
  pop_scope new t =
      let (s, t1) = get_scope_list new t in record t1 { memory = pop_back s t1.memory }

  -- The constructor of a sentry, whose entry is at `a`.
  unfoldable pub construct_sentry : ℕ → ℕ → E → Thread E → Thread E
  unfolding construct_entry push_scope
  construct_sentry new a e t = push_scope new a (record t { memory = construct_entry a e t.memory })

  -- The destructor, which ends the life of the entry too.
  unfoldable pub destroy_sentry : ℕ → ℕ → Thread E → Thread E
  unfolding pop_scope
  destroy_sentry new a t =
      let t1 = pop_scope new t in
      record t1 { memory = record t1.memory { entry = set a none t1.memory.entry } }

  unfoldable pub get_value : ℕ → ℕ → Thread E → Value × Thread E
  unfolding get_scope_list
  get_value new v t =
      let (s, t1) = get_scope_list new t in
      (record { p_value = s; detached_value = v; is_detached = false }, t1)

  -- `array` is the address that the copy of the list allocates.
  unfoldable pub detach_from_thread : ℕ → Value → Memory E → Option (Value × Memory E)
  unfolding copy
  detach_from_thread array v m =
      if v.is_detached then some (v, m) else elim (copy array v.detached_value v.p_value m) [
        | none ↦ none
        | some m1 ↦ some (record v { p_value = v.detached_value; is_detached = true }, m1)
      ]

  unfoldable pub run_body : ℕ → ℕ → Body E → Thread E → BodyResult E
  unfolding get_value construct_sentry destroy_sentry scopes
  run_body new sp done t = record { thread = t; seen = []; threw = false }
  run_body new sp throw t = record { thread = t; seen = []; threw = true }
  run_body new sp (log rest) t =
      let (v, t1) = get_value new 0 t in
      let o = run_body new sp rest t1 in record o { seen = scopes v.p_value t1.memory ∷ o.seen }
  run_body new sp (block e inside rest) t =
      let o = run_body new (suc sp) inside (construct_sentry new sp e t) in
      let t1 = destroy_sentry new sp o.thread in
      let o1 = run_body new sp rest t1 in
      if o.threw then record o { thread = t1 } else record o1 { seen = o.seen ++ o1.seen }
