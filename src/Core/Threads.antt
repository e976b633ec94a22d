-- ===== src/Core/Threads.antt =====
-- The attributes that a thread sees, after set_thread_attributes, set_global_attributes and the
-- opening of a record (core.cpp).
use boost_log.Base.{ℕ, ◌≡◌, refl, false, none, ◌==◌, if◌then◌else◌, arith}
use boost_log.Core.State.{
  FilterAnswer, View, Core, set_logging_enabled, get_thread_data, set_thread_attributes,
  set_global_attributes, set_filter, reset_filter,
}
use boost_log.Core.Open.{returned, compose_view, open_record}

module _ {A : Type 0} (no_attributes : A) (c : Core A) where
  -- A record's view after a thread has replaced its attributes, and after the global attributes were
  -- replaced: the thread's own view has its new attributes, those of the other threads are as they
  -- were, and every thread has the new global attributes; the source attributes are handed through.
  compose_view-set :
      (thread other : ℕ) (attributes source : A)
      → (compose_view no_attributes other source
            (set_thread_attributes no_attributes thread attributes c)
          ≡ (if other == thread
              then record {
                source_attributes = source;
                thread_attributes = attributes;
                global_attributes = c.global_attributes;
              }
              else compose_view no_attributes other source c))
        × (compose_view no_attributes other source (set_global_attributes attributes c)
            ≡ record (compose_view no_attributes other source c) { global_attributes = attributes })
  unfolding compose_view set_thread_attributes set_global_attributes get_thread_data
  compose_view-set thread other attributes source = (ground arith, ground arith)

  -- To open a record changes nothing of what any thread sees: only the data of the thread is created,
  -- with no attributes, where it is missing.
  compose_view-open_record :
      (will_consume : ℕ → View A → FilterAnswer) (thread other : ℕ) (source : A)
      → let c' = (open_record will_consume no_attributes thread source c).1 in
        (compose_view no_attributes other source c' ≡ compose_view no_attributes other source c)
        × (c'.sinks ≡ c.sinks)
        × (c'.enabled ≡ c.enabled)
  unfolding open_record compose_view get_thread_data
  compose_view-open_record will_consume thread other source =
      (ground arith, ground arith, ground arith)

  -- While logging is disabled, open_record returns no record and calls no filter: the answers of the
  -- filters do not matter. set_logging_enabled returns the state from before, so that a second call can
  -- restore it.
  open_record_disabled :
      (f g : ℕ → View A → FilterAnswer) (filter : View A → FilterAnswer) (thread : ℕ) (source : A)
      → let off = set_logging_enabled (set_filter filter c) false in
        ((open_record f no_attributes thread source off.0).0 ≡ returned none)
        × (open_record f no_attributes thread source off.0
            ≡ open_record g no_attributes thread source (set_filter filter off.0))
        × ((set_logging_enabled off.0 off.1).0 ≡ set_filter filter c)
        × ((reset_filter off.0).filter ≡ none)
  unfolding open_record set_logging_enabled set_filter reset_filter
  open_record_disabled f g filter thread source = (refl, refl, refl, refl)
