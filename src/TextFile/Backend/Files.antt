-- ===== src/TextFile/Backend/Files.antt =====
-- Which files consume (text_file_backend.cpp) opens and stores, and how large they get.
use boost_log.Base.{
  ℕ, suc, ◌≤◌, ◌≡◌, true, false, List, [], ◌∷◌, ◌++◌, ◌||◌, if◌then◌else◌, length, arith, ◌⊎◌,
}
use boost_log.TextFile.Collector.{add_size}
use boost_log.TextFile.Backend.{
  Effect, opened, stored, written, write_failed, Backend, World, Call, returned, threw,
  closed_backend, rotation_effects, rotate_file, must_rotate, open_file, write_record, consume,
}

-- The files that a list of effects opens, and those that it hands to the collector.
abbrev pub opened_names : List Effect → List (List ℕ)
opened_names [] = []
opened_names (opened n ∷ es) = n ∷ opened_names es
opened_names (_ ∷ es) = opened_names es

abbrev pub stored_names : List Effect → List (List ℕ)
stored_names [] = []
stored_names (stored n ∷ es) = n ∷ stored_names es
stored_names (_ ∷ es) = stored_names es

abbrev pub messages : List Effect → List (List ℕ)
messages [] = []
messages (written m ∷ es) = m ∷ messages es
messages (_ ∷ es) = messages es

-- The file that is open now.
abbrev pub current_file : Backend → List (List ℕ)
current_file b = if b.is_open then b.file_name ∷ [] else []

-- The backend after a call, and the effects of the call, also where it throws.
abbrev backend_after : Call → Backend
backend_after (returned b es) = b
backend_after (threw b es) = b

abbrev pub effects_of : Call → List Effect
effects_of (returned b es) = es
effects_of (threw b es) = es

abbrev pub failed_messages : List Effect → List (List ℕ)
failed_messages [] = []
failed_messages (write_failed m ∷ es) = m ∷ failed_messages es
failed_messages (_ ∷ es) = failed_messages es

-- When consume returns, the file is open; if the stream is good after the write, the message has been written
-- once and whole, and otherwise its only write has failed, which the call does not tell; and the number of
-- characters as the backend counts them is within the rotation size, or the message is the first one in a file
-- that this call has opened.
pub consume-bounded :
    (w : World) (b b' : Backend) (message : List ℕ) (es : List Effect)
    → consume w b message ≡ returned b' es
    → (b'.is_open ≡ true)
      × (b'.is_good ≡ w.stays_good)
      × (messages es ≡ (if w.stays_good then message ∷ [] else []))
      × (failed_messages es ≡ (if w.stays_good then [] else message ∷ []))
      × ((b'.characters_written ≤ b.file_rotation_size)
          ⊎ ((b'.characters_written ≡ add_size w.position (suc (length message)))
              × (opened_names es ≡ b'.file_name ∷ [])))
unfolding consume rotate_file open_file write_record must_rotate rotation_effects add_size
consume-bounded w b b' message es e = ground arith

-- With a file collector, if the stream is good or a file is open: whether the call returns or throws, the files
-- that it hands to the collector, and then the file that is open afterwards, are the file that was open before
-- and then the files that the call opens. So every file that a call leaves is handed to the collector, once, in
-- the order in which the files were opened; the collector may still throw.
pub consume-stores :
    (w : World) (b : Backend) (message : List ℕ)
    → b.has_file_collector ≡ true
    → (b.is_good || b.is_open) ≡ true
    → stored_names (effects_of (consume w b message))
        ++ current_file (backend_after (consume w b message))
      ≡ current_file b ++ opened_names (effects_of (consume w b message))
unfolding consume rotate_file open_file write_record must_rotate rotation_effects
consume-stores w b message set calm = ground arith

-- With a file collector, if no file is open and the stream is good, and the next file cannot be opened, then the
-- call throws without opening a file or writing the message, and the one after it begins with a rotation that
-- hands the collector the name of that file, which has never been opened: before anything else that the second
-- call does, and whatever the collector answers.
pub consume_after_failure :
    (w w' : World) (b : Backend) (first second : List ℕ)
    → b.is_open ≡ false
    → b.is_good ≡ true
    → b.has_file_collector ≡ true
    → w.opens ≡ false
    → (b' : Backend) × (es : List Effect) × (rest : List Effect) × (consume w b first ≡ threw b' es)
      × (opened_names es ≡ [])
      × (messages es ≡ [])
      × (b'.file_name ≡ w.join b.storage_dir (b.file_name_generator b.file_counter))
      × (effects_of (consume w' b' second) ≡ rotation_effects b' ++ rest)
      × (stored_names (rotation_effects b') ≡ b'.file_name ∷ [])
      × (opened_names (rotation_effects b') ≡ [])
unfolding consume rotate_file open_file write_record must_rotate rotation_effects
consume_after_failure w w' b first second shut good set fails = (
  backend_after (consume w b first),
  effects_of (consume w b first),
  if w'.collector_throws
      then []
      else effects_of (consume w' (closed_backend (backend_after (consume w b first))) second),
  ground arith,
  ground arith,
  ground arith,
  ground arith,
  ground arith,
  ground arith,
  ground arith,
)
