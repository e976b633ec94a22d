-- ===== src/Core/Open/Willing.antt =====
-- What open_record (core.cpp) returns, told by the answers of the sinks alone.
use boost_log.Base.{
  ℕ, suc, ◌+◌, ◌≡◌, ◌≢◌, refl, Bool, true, false, Option, none, some, List, [], ◌∷◌, ◌++◌, ◌&&◌,
  ◌||◌, arith, if◌then◌else◌, All,
}
use mathlib.Core.List.{append-nil, append_assoc}
use boost_log.Core.State.{FilterAnswer, HandlerAnswer, View, Handler, Core}
use boost_log.Core.Open.{
  Record, Outcome, accept, drop_empty, returned, threw, apply_filters, active_sinks, apply_all,
  compose_view, open_record,
}

abbrev is_pass : FilterAnswer → Bool
is_pass FilterAnswer.passes = true
is_pass _ = false

abbrev is_throw : FilterAnswer → Bool
is_throw FilterAnswer.throws = true
is_throw _ = false

module _ {A : Type 0} (will_consume : ℕ → View A → FilterAnswer) (v : View A) where
  -- The sinks whose filter lets the record pass, in their order.
  unfoldable pub willing : List ℕ → List ℕ
  willing [] = []
  willing (s ∷ ss) = if is_pass (will_consume s v) then s ∷ willing ss else willing ss

  any_throws : List ℕ → Bool
  any_throws [] = false
  any_throws (s ∷ ss) = is_throw (will_consume s v) || any_throws ss

  throw_count : List ℕ → ℕ
  throw_count [] = 0
  throw_count (s ∷ ss) =
      if is_throw (will_consume s v) then suc (throw_count ss) else throw_count ss

-- A record exists if some sink accepted it.
abbrev record_for : {A : Type 0} → View A → List ℕ → Option (Record A)
record_for v [] = none
record_for v (s ∷ ss) = some (record { values = v; accepting_sinks = s ∷ ss })

-- The global filter, where none is set as one that passes.
unfoldable pub admits : {A : Type 0} → Core A → View A → FilterAnswer
admits c v = elim c.filter [ none ↦ FilterAnswer.passes | some f ↦ f v ]

accept-record_for :
    {A : Type 0} (v : View A) (s : ℕ) (done : List ℕ)
    → some (accept v s (record_for v done)) ≡ record_for v (done ++ s ∷ [])
accept-record_for v s [] = refl
accept-record_for v s (x ∷ xs) = refl

drop_empty-record_for :
    {A : Type 0} (v : View A) (done : List ℕ) → drop_empty (record_for v done) ≡ record_for v done
drop_empty-record_for v [] = refl
drop_empty-record_for v (x ∷ xs) = refl

module _ {A : Type 0} (will_consume : ℕ → View A → FilterAnswer) (v : View A) where
  -- With a handler that returns, the loop collects the willing sinks and handles each exception once.
  apply_filters-handled :
      (h : Handler) (done ss : List ℕ) (n : ℕ)
      → ((n : ℕ) → h n ≡ HandlerAnswer.returns)
      → All (λ s. will_consume s v ≢ FilterAnswer.interrupts) ss
      → apply_filters will_consume (some h) v ss (record_for v done) n ≡ record {
        rec = record_for v (done ++ willing will_consume v ss);
        handled = n + throw_count will_consume v ss;
        end = returned tt;
      }
  unfolding apply_filters willing throw_count
  apply_filters-handled h done [] n hr calm = ground (arith, append-nil done)
  apply_filters-handled h done (s ∷ ss) n hr calm = ground (
    arith,
    hr n,
    accept-record_for v s done,
    drop_empty-record_for v done,
    append_assoc done (s ∷ []) (willing will_consume v ss),
    apply_filters-handled h (done ++ s ∷ []) ss n hr calm.1,
    apply_filters-handled h done ss n hr calm.1,
    apply_filters-handled h done ss (n + 1) hr calm.1,
  )

  -- Without a handler the first exception ends the loop.
  apply_filters-unhandled :
      (done ss : List ℕ) (n : ℕ)
      → All (λ s. will_consume s v ≢ FilterAnswer.interrupts) ss
      → any_throws will_consume v ss ≡ true
      → (apply_filters will_consume none v ss (record_for v done) n).end ≡ threw
  unfolding apply_filters any_throws
  apply_filters-unhandled done [] n calm some_throws = cc
  apply_filters-unhandled done (s ∷ ss) n calm some_throws = ground (
    arith,
    accept-record_for v s done,
    apply_filters-unhandled (done ++ s ∷ []) ss n calm.1,
    apply_filters-unhandled done ss n calm.1,
  )

  apply_filters-no_throws :
      (done ss : List ℕ) (n : ℕ)
      → All (λ s. will_consume s v ≢ FilterAnswer.interrupts) ss
      → any_throws will_consume v ss ≡ false
      → apply_filters will_consume none v ss (record_for v done) n ≡ record {
        rec = record_for v (done ++ willing will_consume v ss);
        handled = n;
        end = returned tt;
      }
  unfolding apply_filters any_throws willing
  apply_filters-no_throws done [] n calm quiet = ground (arith, append-nil done)
  apply_filters-no_throws done (s ∷ ss) n calm quiet = ground (
    arith,
    accept-record_for v s done,
    append_assoc done (s ∷ []) (willing will_consume v ss),
    apply_filters-no_throws (done ++ s ∷ []) ss n calm.1,
    apply_filters-no_throws done ss n calm.1,
  )

module _ {A : Type 0} (will_consume : ℕ → View A → FilterAnswer) (no_attributes : A) (thread : ℕ)
    (source : A) (c : Core A) where
  abbrev v : View A
  v = compose_view no_attributes thread source c

  abbrev opened : Outcome (Option (Record A))
  opened = (open_record will_consume no_attributes thread source c).0

  module _ (calm : All (λ s. will_consume s v ≢ FilterAnswer.interrupts) (active_sinks c))
      (calm_filter : admits c v ≢ FilterAnswer.interrupts) where
    -- Where an exception handler is set that returns, and no call is interrupted, open_record returns a
    -- record exactly if logging is enabled, the global filter passes and at least one active sink
    -- accepts; its accepting sinks are then those that answered that they will consume it, in the order
    -- of registration (the default sink alone if none is registered). A sink whose filter throws is
    -- passed over, and a global filter that throws gives no record.
    pub open_record-handled :
        (h : Handler)
        → ((n : ℕ) → h n ≡ HandlerAnswer.returns)
        → c.exception_handler ≡ some h
        → opened
          ≡ returned (
              if c.enabled && is_pass (admits c v)
              then record_for v (willing will_consume v (active_sinks c))
              else none)
    unfolding open_record apply_all admits
    open_record-handled h hr set =
        ground (arith, hr 0, apply_filters-handled will_consume v h [] (active_sinks c) 0 hr calm)

    -- Where no exception handler is set, and no call is interrupted, open_record lets an exception of
    -- the global filter, or of a filter of an active sink, out to the caller if logging is enabled and
    -- the global filter lets the record get as far; otherwise it returns as with a handler.
    open_record-unhandled :
        c.exception_handler ≡ none
        → opened ≡ (
            if c.enabled
            then (if is_throw (admits c v)
                  || is_pass (admits c v) && any_throws will_consume v (active_sinks c)
                then threw
                else returned (
                    if is_pass (admits c v)
                    then record_for v (willing will_consume v (active_sinks c))
                    else none))
            else returned none)
    unfolding open_record apply_all admits
    open_record-unhandled unset = ground (
      arith,
      apply_filters-no_throws will_consume v [] (active_sinks c) 0 calm,
      apply_filters-unhandled will_consume v [] (active_sinks c) 0 calm,
    )
