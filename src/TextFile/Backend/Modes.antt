-- ===== src/TextFile/Backend/Modes.antt =====
-- The setters, the destructor and the multifile backend (text_file_backend.cpp).
use boost_log.Base.{
  Bool, ℕ, ◌<◌, ◌≡◌, refl, true, false, List, [], ◌++◌, ◌||◌, if◌then◌else◌, arith,
}
use boost_log.TextFile.Backend.{
  Effect, OpenMode, Backend, World, returned, rotation_effects, consume, rotate_file, open_file,
  write_record, must_rotate, flush, destroy, set_open_mode, set_rotation_size, set_auto_flush,
  consume_multifile,
}
use boost_log.TextFile.Backend.Files.{opened_names, stored_names, current_file}

-- Whatever mode is asked for, the file is opened for writing and not for reading, and is truncated or
-- appended to; these flags are kept where one of them is set. To set the mode that was set changes
-- nothing.
set_open_mode-writes :
    (mode : OpenMode) (b : Backend)
    → let m = (set_open_mode mode b).file_open_mode in
      (m.reads ≡ false)
      × (m.writes ≡ true)
      × ((m.truncates || m.appends) ≡ true)
      × (m.appends ≡ mode.appends)
      × (m.truncates ≡ (mode.truncates || (if mode.appends then false else true)))
      × (set_open_mode m (set_open_mode mode b) ≡ set_open_mode mode b)
unfolding set_open_mode
set_open_mode-writes mode b =
    (ground arith, ground arith, ground arith, ground arith, ground arith, ground arith)

-- After a call of consume that returned, with a collector and a stream that was good or a file that was
-- open before, if characters have been written: the destructor hands the current file to the collector,
-- so that then every file that was open before or opened by the call has been handed over, once and in
-- order.
destroy-stores :
    (w w' : World) (b b' : Backend) (message : List ℕ) (es : List Effect)
    → b.has_file_collector ≡ true
    → (b.is_good || b.is_open) ≡ true
    → consume w b message ≡ returned b' es
    → 0 < b'.characters_written
    → stored_names (es ++ destroy w' b') ≡ current_file b ++ opened_names es
unfolding consume rotate_file open_file write_record must_rotate rotation_effects destroy
destroy-stores w w' b b' message es set calm e some_written = ground arith

-- The two setters of the rotation size and of the automatic flush change just their member, and flush
-- touches the open file only.
setters :
    (b : Backend)
    → ((set_rotation_size 5 b).file_rotation_size ≡ 5)
      × ((set_auto_flush true b).auto_flush ≡ true)
      × (flush (record b { is_open = false }) ≡ [])
unfolding set_rotation_size set_auto_flush flush
setters b = (refl, refl, refl)

multifile :
    (name message : List ℕ) (stays_good : Bool)
    → consume_multifile true name false stays_good message ≡ []
unfolding consume_multifile
multifile name message stays_good = refl
