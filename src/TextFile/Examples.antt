-- ===== src/TextFile/Examples.antt =====
-- Runs of the text file backend (text_file_backend.cpp) on concrete names, files and times.
use boost_log.Base.{
  ℕ, ◌+◌, ◌%◌, ◌≤◌, ◌≡◌, ◌≢◌, refl, Bool, true, false, none, some, List, [], ◌∷◌, ◌++◌, leb, ◌==◌,
  length, if◌then◌else◌, All, arith, ◌⊎◌,
}
use boost_log.TextFile.Names.{format_counter}
use boost_log.TextFile.Names.Match.{Grammar, matched, mismatch, fault, match_pattern}
use boost_log.TextFile.Names.Safe.{Advances, match_pattern-ne-fault}
use boost_log.TextFile.Names.Clash.{match_pattern-clash}
use boost_log.TextFile.Collector.{FileInfo, Collector, add_size, sub_size}
use boost_log.TextFile.Collector.Evict.{Erasure, removed, locked, evict}
use boost_log.TextFile.Collector.Evict.Bounds.{
  sum_sizes, IsSize, IsOldestFirst, evict-IsOldestFirst,
}
use boost_log.TextFile.Collector.Store.{
  Storage, stored, collector_of, target_path, store_file, candidate, mangle,
}
use boost_log.TextFile.Collector.Store.Total.{IsCounted, store_file-IsCounted, store_file-bounded}
use boost_log.TextFile.Collector.Search.{scan_all, Directory, scan_for_files}
use boost_log.TextFile.Collector.Search.Files.{
  new_files, must_throw, SearchKeeps, scan_for_files-Keeps,
}
use boost_log.TextFile.Collector.Repository.{Registered}
use boost_log.TextFile.Rotation.{DayKind, TimePoint, Calendar}

-- A parser that finds the plain placeholder `N` alone.
abbrev plain_grammar : Grammar
plain_grammar = record {
  parse_placeholder =
      λ p. elim p [ [] ↦ none | c ∷ rest ↦ (if c == b'N' then some (rest, 0) else none) ];
  parse_number = λ s. some 7;
  fractional_digits = 6;
}

plain_grammar-Advances : Advances plain_grammar
plain_grammar-Advances [] rest width e = cc
plain_grammar-Advances (c ∷ p) rest width e = ground arith

-- The pattern f%N.log and the name f12.log.
abbrev file_pattern : List ℕ
file_pattern = b'f' ∷ b'%' ∷ b'N' ∷ b'.' ∷ b'l' ∷ []

match_pattern-ne-fault_example :
    match_pattern plain_grammar (b'f' ∷ b'1' ∷ b'2' ∷ []) file_pattern 0 ≢ fault
match_pattern-ne-fault_example =
    match_pattern-ne-fault plain_grammar plain_grammar-Advances (b'f' ∷ b'1' ∷ b'2' ∷ [])
      file_pattern 0

finds_counter :
    match_pattern plain_grammar (b'f' ∷ b'1' ∷ b'2' ∷ b'.' ∷ b'l' ∷ []) file_pattern 0 ≡ matched 7
unfolding match_pattern
finds_counter = refl

match_pattern-clash_example :
    (match_pattern plain_grammar (b'a' ∷ b'b' ∷ b'1' ∷ b'2' ∷ []) (b'a' ∷ b'b' ∷ []) 0 ≡ mismatch)
    × (match_pattern plain_grammar (b'a' ∷ b'b' ∷ []) (b'a' ∷ b'b' ∷ []) 0 ≡ matched 0)
match_pattern-clash_example =
    match_pattern-clash plain_grammar (b'a' ∷ b'b' ∷ []) b'1' (b'2' ∷ []) 0
      ((λ e. omega arith), ((λ e. omega arith), tt))

abbrev file : ℕ → ℕ → FileInfo
file size time_stamp = record { size = size; time_stamp = time_stamp; path = size ∷ [] }

-- The limit is 100; the middle one of three files is locked.
abbrev full : Collector
full = record {
  max_size = 100;
  min_free_space = 0;
  files = file 40 1 ∷ file 30 2 ∷ file 20 3 ∷ [];
  total_size = 90;
}

abbrev erase : FileInfo → Erasure
erase f = if f.size == 30 then locked else removed 0

calm_eviction : (evict erase 100 0 60 full.files 90 0).threw ≡ false
unfolding evict add_size sub_size
calm_eviction = refl

evict-IsOldestFirst_example :
    IsOldestFirst erase 100 0 60 full.files 90 0 (evict erase 100 0 60 full.files 90 0)
evict-IsOldestFirst_example = evict-IsOldestFirst erase 100 0 60 full.files 90 0 calm_eviction

-- The storage has a file with the plain name.
abbrev storage : Storage
storage = record {
  join = λ dir name. dir ++ name;
  storage_dir = b'd' ∷ b'/' ∷ [];
  is_in_target_dir = false;
  exists = λ path. leb (length path) 3;
  available = 0;
  erase = λ f. removed 0;
  move_succeeds = true;
  counter_limit = 4294967295;
}

full-IsSize : All IsSize full.files
full-IsSize = (omega arith, (omega arith, (omega arith, tt)))

full-IsCounted : IsCounted full
unfolding sum_sizes
full-IsCounted = refl

store_file-IsCounted_example : IsCounted (collector_of (store_file storage 60 4 (b'a' ∷ []) full))
store_file-IsCounted_example =
    store_file-IsCounted storage 60 4 (b'a' ∷ []) full full-IsSize full-IsCounted

-- What store_file leaves of the collector when all files can be erased: 40 and 30 go.
abbrev after_store : Collector
after_store = record full {
  files =
      file 20 3
      ∷ record {
        size = 60;
        time_stamp = 4;
        path = b'd' ∷ b'/' ∷ b'a' ∷ b'0' ∷ b'0' ∷ b'0' ∷ b'0' ∷ b'0' ∷ [];
      }
      ∷ [];
  total_size = 80;
}

stores : store_file storage 60 4 (b'a' ∷ []) full ≡ stored after_store
unfolding store_file evict add_size sub_size target_path mangle candidate format_counter
stores = refl

store_file-bounded_example :
    (after_store.total_size ≤ 100)
    ⊎ (after_store.files
        ≡ record { size = 60; time_stamp = 4; path = target_path storage (b'a' ∷ []) } ∷ [])
store_file-bounded_example =
    store_file-bounded storage 60 4 (b'a' ∷ []) full after_store (refl, (refl, (refl, tt))) stores

abbrev directory : Directory
directory = record {
  exists = true;
  entries =
      record { path = 1 ∷ []; filename = b'a' ∷ []; is_regular = true; size = 5; time_stamp = 2 }
      ∷ record { path = 2 ∷ []; filename = b'b' ∷ []; is_regular = false; size = 6; time_stamp = 0 }
      ∷ [];
  equivalent = λ p q. false;
  grammar = plain_grammar;
  mask = [];
}

scan_for_files-Keeps_example :
    SearchKeeps full
      (new_files scan_all directory full)
      (must_throw scan_all directory full)
      (scan_for_files scan_all directory none full)
scan_for_files-Keeps_example =
    scan_for_files-Keeps scan_all directory none full full-IsCounted
      (omega arith, (omega arith, tt))

abbrev one_registered : List Registered
one_registered = record { storage_dir = 1 ∷ []; alive = true; collector = full } ∷ []

abbrev same_length : List ℕ → List ℕ → Bool
same_length p q = length p == length q

-- Days of the week in turn; the months do not matter here.
abbrev calendar : Calendar
calendar = record {
  day_of_week = λ d. (d + 4) % 7;
  day_of_month = λ d. 1;
  replace_day = λ d n. some d;
  add_month = λ d. d;
}

abbrev every_monday : DayKind → TimePoint
every_monday kind = record { day_kind = kind; day = 1; hour = 12; minute = 30; second = 0 }
