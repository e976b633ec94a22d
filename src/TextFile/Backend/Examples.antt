-- ===== src/TextFile/Backend/Examples.antt =====
-- Runs of the file backend (text_file_backend.cpp): a rotation, and a file that does not open.
use boost_log.Base.{◌≤◌, ◌≡◌, refl, true, false, List, [], ◌∷◌, ◌++◌, ◌⊎◌}
use boost_log.TextFile.Collector.{add_size}
use boost_log.TextFile.Backend.{
  Effect, opened, closed, stored, written, flushed, Backend, World, returned, threw,
  rotation_effects, must_rotate, rotate_file, open_file, write_record, consume,
}
use boost_log.TextFile.Backend.Files.{
  opened_names, stored_names, messages, failed_messages, current_file, effects_of, consume-bounded,
  consume-stores, consume_after_failure,
}

-- The file 5 is open with 9 of 10 characters; the next file is 0.
abbrev backend : Backend
backend = record {
  file_open_mode = record { reads = false; writes = true; truncates = true; appends = false };
  storage_dir = [];
  file_name_generator = λ n. n ∷ [];
  file_counter = 0;
  file_name = 5 ∷ [];
  is_open = true;
  is_good = true;
  characters_written = 9;
  has_file_collector = true;
  has_open_handler = false;
  has_close_handler = false;
  file_rotation_size = 10;
  has_time_based_rotation = false;
  auto_flush = true;
}

abbrev world : World
world = record {
  join = λ dir name. dir ++ name;
  time_is_due = false;
  opens = true;
  position = 0;
  stays_good = true;
  collector_throws = false;
}

abbrev rotated : Backend
rotated = record backend { file_counter = 1; file_name = 0 ∷ []; characters_written = 3 }

abbrev effects : List Effect
effects = closed (5 ∷ []) ∷ stored (5 ∷ []) ∷ opened (0 ∷ []) ∷ written (1 ∷ 2 ∷ []) ∷ flushed ∷ []

rotates : consume world backend (1 ∷ 2 ∷ []) ≡ returned rotated effects
unfolding consume must_rotate rotate_file open_file write_record rotation_effects add_size
rotates = refl

consume-bounded_example :
    (rotated.is_open ≡ true)
    × (rotated.is_good ≡ true)
    × (messages effects ≡ (1 ∷ 2 ∷ []) ∷ [])
    × (failed_messages effects ≡ [])
    × ((rotated.characters_written ≤ 10)
        ⊎ ((rotated.characters_written ≡ add_size 0 3)
            × (opened_names effects ≡ rotated.file_name ∷ [])))
consume-bounded_example = consume-bounded world backend rotated (1 ∷ 2 ∷ []) effects rotates

consume-stores_example :
    stored_names effects ++ current_file rotated ≡ current_file backend ++ opened_names effects
unfolding consume must_rotate rotate_file open_file write_record rotation_effects add_size
consume-stores_example = consume-stores world backend (1 ∷ 2 ∷ []) refl refl

abbrev shut : Backend
shut = record backend { is_open = false }

abbrev unopened : Backend
unopened = record shut { file_counter = 1; file_name = 0 ∷ []; is_good = false }

fails_to_open : consume (record world { opens = false }) shut (1 ∷ []) ≡ threw unopened []
unfolding consume must_rotate rotate_file open_file write_record rotation_effects add_size
fails_to_open = refl

consume_after_failure_example :
    (b' : Backend) × (es : List Effect) × (rest : List Effect) × (consume
        (record world { opens = false })
        shut
        (1 ∷ [])
      ≡ threw b' es)
    × (opened_names es ≡ [])
    × (messages es ≡ [])
    × (b'.file_name ≡ 0 ∷ [])
    × (effects_of (consume world b' (2 ∷ [])) ≡ rotation_effects b' ++ rest)
    × (stored_names (rotation_effects b') ≡ b'.file_name ∷ [])
    × (opened_names (rotation_effects b') ≡ [])
consume_after_failure_example =
    consume_after_failure (record world { opens = false }) world shut (1 ∷ []) (2 ∷ []) refl refl
      refl refl
