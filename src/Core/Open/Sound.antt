-- ===== src/Core/Open/Sound.antt =====
-- What holds of every record that open_record (core.cpp) returns, also when filters and the exception
-- handler throw or are interrupted.
use boost_log.Base.{ℕ, ◌≡◌, ◌≢◌, refl, true, Option, none, some, List, [], ◌∷◌, ◌++◌, arith, All}
use boost_log.Core.State.{FilterAnswer, HandlerAnswer, View, Handler, Core}
use boost_log.Core.Open.{
  Record, accept, caught, returned, apply_sink_filter, apply_filters, active_sinks, apply_all,
  compose_view, open_record,
}

module _ {A : Type 0} (will_consume : ℕ → View A → FilterAnswer) (v : View A) where
  abbrev Willing : ℕ → Type 0
  Willing s = will_consume s v ≡ FilterAnswer.passes

  -- No record, or one over the view with at least one accepting sink, each of them willing.
  abbrev IsAccepted : Option (Record A) → Type 0
  IsAccepted none = Unit {0}
  IsAccepted (some r) = (r.values ≡ v) × (r.accepting_sinks ≢ []) × All Willing r.accepting_sinks

  append-All : (ss : List ℕ) (s : ℕ) → All Willing ss → Willing s → All Willing (ss ++ s ∷ [])
  append-All [] s h w = (w, tt)
  append-All (x ∷ xs) s h w = (h.0, append-All xs s h.1 w)

  append-ne-nil : (ss : List ℕ) (s : ℕ) → ss ++ s ∷ [] ≢ []
  append-ne-nil [] s e = cc
  append-ne-nil (x ∷ xs) s e = cc

  accept-IsAccepted :
      (rec : Option (Record A)) (s : ℕ)
      → IsAccepted rec
      → Willing s
      → IsAccepted (some (accept v s rec))
  accept-IsAccepted none s a w = (refl, (λ e. cc), (w, tt))
  accept-IsAccepted (some r) s a w =
      (a.0, append-ne-nil r.accepting_sinks s, append-All r.accepting_sinks s a.2 w)

  caught-IsAccepted :
      (handler : Option Handler) (rec : Option (Record A)) (n : ℕ)
      → IsAccepted rec
      → IsAccepted (caught handler rec n).rec
  caught-IsAccepted none rec n a = a
  caught-IsAccepted (some h) rec n a = go (h n) rec a
    where
      go :
          (answer : HandlerAnswer) (rec : Option (Record A))
          → IsAccepted rec
          → IsAccepted (caught (some (λ _. answer)) rec n).rec
      go HandlerAnswer.returns none a = tt
      go HandlerAnswer.returns (some r) a = ground arith
      go HandlerAnswer.rethrows rec a = a
      go HandlerAnswer.interrupts rec a = a

  apply_sink_filter-IsAccepted :
      (handler : Option Handler) (s : ℕ) (rec : Option (Record A)) (n : ℕ)
      → IsAccepted rec
      → IsAccepted (apply_sink_filter will_consume handler v s rec n).rec
  unfolding apply_sink_filter
  apply_sink_filter-IsAccepted handler s rec n a = go (will_consume s v) refl
    where
      go :
          (answer : FilterAnswer)
          → will_consume s v ≡ answer
          → IsAccepted (apply_sink_filter will_consume handler v s rec n).rec
      go FilterAnswer.passes e = rw (e, apply_sink_filter) (accept-IsAccepted rec s a e)
      go FilterAnswer.stops e = rw (e, apply_sink_filter) a
      go FilterAnswer.throws e = rw (e, apply_sink_filter) (caught-IsAccepted handler rec n a)
      go FilterAnswer.interrupts e = rw (e, apply_sink_filter) a

  apply_filters-IsAccepted :
      (handler : Option Handler) (ss : List ℕ) (rec : Option (Record A)) (n : ℕ)
      → IsAccepted rec
      → IsAccepted (apply_filters will_consume handler v ss rec n).rec
  unfolding apply_filters
  apply_filters-IsAccepted handler [] rec n a = a
  apply_filters-IsAccepted handler (s ∷ ss) rec n a =
      let step = apply_sink_filter will_consume handler v s rec n in
      let sound : IsAccepted step.rec = apply_sink_filter-IsAccepted handler s rec n a in
      ground (arith, sound, apply_filters-IsAccepted handler ss step.rec step.handled sound)

module _ {A : Type 0} (will_consume : ℕ → View A → FilterAnswer) (no_attributes : A) (thread : ℕ)
    (source : A) (c : Core A) where
  -- Whatever the filters and the exception handler do, a record that open_record returns means that
  -- logging is enabled, and it holds the view of the three attribute sets and a list of accepting
  -- sinks that is not empty and in which every sink answered that it will consume it.
  open_record_sound :
      (r : Record A)
      → (open_record will_consume no_attributes thread source c).0 ≡ returned (some r)
      → (c.enabled ≡ true)
        × IsAccepted will_consume (compose_view no_attributes thread source c) (some r)
  unfolding open_record apply_all
  open_record_sound r e = ground (
    arith,
    apply_filters-IsAccepted will_consume (compose_view no_attributes thread source c)
        c.exception_handler (active_sinks c) none 0 tt,
  )
