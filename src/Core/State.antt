-- ===== src/Core/State.antt =====
-- The data of basic_core::implementation (core.cpp), and its plain setters and getters.
-- A sink is named by the address that its shared_ptr holds; a thread by its number. What a sink, a
-- filter or an exception handler answers comes from code that is called through a virtual function
-- or a function object, and so is an argument. Each call holds the core's lock, so that it is one step.
use boost_log.Base.{ℕ, Bool, true, Option, none, some, List, [], ◌==◌, if◌then◌else◌}

-- How a call of a function object ends.
pub data FilterAnswer : Type 0 where
  passes stops throws interrupts : FilterAnswer

-- How the exception handler ends.
pub data HandlerAnswer : Type 0 where
  returns rethrows interrupts : HandlerAnswer

-- The attribute values view that a record starts from: three attribute sets, not frozen yet.
pub record View (A : Type 0) : Type 0 where
  pub source_attributes : A
  pub thread_attributes : A
  pub global_attributes : A

-- The handler's answer may change from call to call: it is given the number of calls before.
abbrev pub Handler : Type 0
Handler = ℕ → HandlerAnswer

pub record Core (A : Type 0) : Type 0 where
  pub sinks : List ℕ
  pub default_sink : ℕ
  pub global_attributes : A
  pub thread_data : ℕ → Option A
  pub enabled : Bool
  pub filter : Option (View A → FilterAnswer)
  pub exception_handler : Option Handler

-- A default constructed attribute set is an argument.
module _ {A : Type 0} where
  unfoldable pub construct : A → ℕ → Core A
  construct no_attributes sink = record {
    sinks = [];
    default_sink = sink;
    global_attributes = no_attributes;
    thread_data = λ _. none;
    enabled = true;
    filter = none;
    exception_handler = none;
  }

  unfoldable pub set_logging_enabled : Core A → Bool → Core A × Bool
  set_logging_enabled c enabled = (record c { enabled = enabled }, c.enabled)

  init_thread_data : A → ℕ → Core A → Core A
  init_thread_data no_attributes thread c = elim (c.thread_data thread) [
    | none ↦ record c {
      thread_data = λ t. if t == thread then some no_attributes else c.thread_data t;
    }
    | some _ ↦ c
  ]

  -- The thread's attributes, and the core in which they are there.
  unfoldable pub get_thread_data : A → ℕ → Core A → A × Core A
  unfolding init_thread_data
  get_thread_data no_attributes thread c = elim (c.thread_data thread) [
    | none ↦ (no_attributes, init_thread_data no_attributes thread c)
    | some attributes ↦ (attributes, c)
  ]

  unfoldable pub set_thread_attributes : A → ℕ → A → Core A → Core A
  set_thread_attributes no_attributes thread attributes c =
      let (_, c') = get_thread_data no_attributes thread c in
      record c' { thread_data = λ t. if t == thread then some attributes else c'.thread_data t }

  unfoldable pub set_global_attributes : A → Core A → Core A
  set_global_attributes attributes c = record c { global_attributes = attributes }

  unfoldable pub set_filter : (View A → FilterAnswer) → Core A → Core A
  set_filter f c = record c { filter = some f }

  unfoldable pub reset_filter : Core A → Core A
  reset_filter c = record c { filter = none }

  unfoldable pub set_exception_handler : Handler → Core A → Core A
  set_exception_handler h c = record c { exception_handler = some h }
