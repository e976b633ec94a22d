-- ===== src/TextFile/Backend.antt =====
-- basic_text_file_backend and basic_text_multifile_backend (text_file_backend.cpp): writing a record,
-- rotating the file, and the plain setters. What the file stream, the file system, the handlers, the
-- time based predicate and the collector do is a list of effects, in the order of their calls, and what
-- they answer is an argument.
pub mod Files
pub mod Modes
mod Examples
use boost_log.Base.{
  ℕ, suc, ◌+◌, ◌%◌, Bool, true, false, List, [], ◌∷◌, ◌++◌, leb, ltb, ◌&&◌, ◌||◌, not,
  if◌then◌else◌, length,
}
use boost_log.TextFile.Collector.{add_size}

-- `stored` hands a file to the collector, which may throw. `written` is a whole message with its newline, and
-- `write_failed` a message of which the stream took no more than a part.
pub data Effect : Type 0 where
  opened closed stored : List ℕ → Effect
  written write_failed : List ℕ → Effect
  flushed called_open_handler called_close_handler : Effect

-- std::ios_base::openmode, the flags that set_open_mode looks at.
pub record OpenMode : Type 0 where
  pub reads : Bool
  pub writes : Bool
  pub truncates : Bool
  pub appends : Bool

-- basic_text_file_backend::implementation. `is_good` is the state of the stream.
pub record Backend : Type 0 where
  pub file_open_mode : OpenMode
  pub storage_dir : List ℕ
  pub file_name_generator : ℕ → List ℕ
  pub file_counter : ℕ
  pub file_name : List ℕ
  pub is_open : Bool
  pub is_good : Bool
  pub characters_written : ℕ
  pub has_file_collector : Bool
  pub has_open_handler : Bool
  pub has_close_handler : Bool
  pub file_rotation_size : ℕ
  pub has_time_based_rotation : Bool
  pub auto_flush : Bool

-- What happens in a call: whether the time based predicate is due, whether the file opens, the position
-- of the stream then, whether the stream is good after the message was written, and whether the collector
-- throws.
pub record World : Type 0 where
  pub join : List ℕ → List ℕ → List ℕ
  pub time_is_due : Bool
  pub opens : Bool
  pub position : ℕ
  pub stays_good : Bool
  pub collector_throws : Bool

-- The call returns or throws; the effects are those up to then.
pub data Call : Type 0 where
  returned : Backend → List Effect → Call
  threw : Backend → List Effect → Call

abbrev when_set : Bool → Effect → List Effect
when_set true e = e ∷ []
when_set false e = []

-- rotate_file, up to the call of the collector.
abbrev pub closed_backend : Backend → Backend
closed_backend b = record b { is_open = false; is_good = true; characters_written = 0 }

pub rotation_effects : Backend → List Effect
rotation_effects b =
    when_set b.has_close_handler called_close_handler
    ++ (closed b.file_name ∷ when_set b.has_file_collector (stored b.file_name))

pub rotate_file : World → Backend → Call
unfolding rotation_effects
rotate_file w b =
    if b.has_file_collector && w.collector_throws
    then threw (closed_backend b) (rotation_effects b)
    else returned (closed_backend b) (rotation_effects b)

-- The test of consume. The predicate is asked only if the size does not decide.
pub must_rotate : World → Backend → List ℕ → Bool
unfolding add_size
must_rotate w b message =
    b.is_open
      && (leb b.file_rotation_size (add_size b.characters_written (length message))
          || b.has_time_based_rotation && w.time_is_due)
    || not b.is_good

-- An unsigned int after ++.
abbrev next_counter : ℕ → ℕ
next_counter n = (n + 1) % 4294967296

-- Opening the next file, where none is open.
pub open_file : World → Backend → Call
open_file w b =
    let name = w.join b.storage_dir (b.file_name_generator b.file_counter) in
    let named : Backend = record b {
      file_counter = next_counter b.file_counter;
      file_name = name;
    } in
    if b.is_open
    then returned b []
    else (if w.opens
        then returned (record named { is_open = true; characters_written = w.position })
            (opened name ∷ when_set b.has_open_handler called_open_handler)
        else threw (record named { is_good = false }) [])

-- The calls of write and put: a stream that fails reports nothing, and the code does not look.
abbrev write_effect : Bool → List ℕ → Effect
write_effect true message = written message
write_effect false message = write_failed message

-- The rest of consume.
pub write_record : World → Backend → List ℕ → Call
unfolding add_size
write_record w b message =
    returned
      (record b {
        is_good = w.stays_good;
        characters_written = add_size b.characters_written (suc (length message));
      })
      (write_effect w.stays_good message ∷ when_set b.auto_flush flushed)

-- One call after another: an exception ends the sequence.
infixl 5 ◌then_do◌
abbrev ◌then_do◌ : Call → (Backend → Call) → Call
threw b es then_do k = threw b es
returned b es then_do k = elim (k b) [
  | returned b' es' ↦ returned b' (es ++ es')
  | threw b' es' ↦ threw b' (es ++ es')
]

pub consume : World → Backend → List ℕ → Call
unfolding must_rotate rotate_file open_file write_record
consume w b message =
    (if must_rotate w b message then rotate_file w b else returned b [])
    then_do open_file w
    then_do λ b'. write_record w b' message

pub flush : Backend → List Effect
flush b = when_set b.is_open flushed

-- ~basic_text_file_backend: an exception of the collector is caught.
pub destroy : World → Backend → List Effect
unfolding rotation_effects
destroy w b = if b.is_open && ltb 0 b.characters_written then rotation_effects b else []

pub set_open_mode : OpenMode → Backend → Backend
set_open_mode mode b =
    let plain : OpenMode = record mode { reads = false; writes = true } in
    record b {
      file_open_mode =
          if mode.truncates || mode.appends then plain else record plain { truncates = true };
    }

pub set_rotation_size : ℕ → Backend → Backend
set_rotation_size size b = record b { file_rotation_size = size }

pub set_auto_flush : Bool → Backend → Backend
set_auto_flush f b = record b { auto_flush = f }

-- basic_text_multifile_backend::consume, with the name that the composer gives, if one is set.
pub consume_multifile : Bool → List ℕ → Bool → Bool → List ℕ → List Effect
consume_multifile has_composer name opens stays_good message =
    if has_composer && opens
    then opened name ∷ write_effect stays_good message ∷ closed name ∷ []
    else []
