-- ===== src/TextFile/Collector/Search.antt =====
-- file_collector::scan_for_files (text_file_backend.cpp): the files that are already in the storage
-- are added to the list, which is then sorted by time. The entries of the directory, what
-- filesystem::equivalent answers and the parsers of match_pattern are arguments.
pub mod Loop
pub mod Files
use boost_log.Base.{
  ℕ, suc, ◌%◌, ◌^◌, ◌+◌, Bool, true, false, Option, none, some, List, [], ◌∷◌, ◌++◌, ltb, leb,
  if◌then◌else◌,
}
use boost_log.TextFile.Names.Match.{
  Grammar, Match, matched, mismatch, invalid, fault, match_pattern,
}
use boost_log.TextFile.Collector.{FileInfo, Collector, add_size}

-- file::scan_method
pub data ScanMethod : Type 0 where
  no_scan scan_matching scan_all : ScanMethod

-- A directory entry: its path, its file name, and the rest.
pub record Entry : Type 0 where
  pub path : List ℕ
  pub filename : List ℕ
  pub is_regular : Bool
  pub size : ℕ
  pub time_stamp : ℕ

-- `exists` is whether the directory is there.
pub record Directory : Type 0 where
  pub exists : Bool
  pub entries : List Entry
  pub equivalent : List ℕ → List ℕ → Bool
  pub grammar : Grammar
  pub mask : List ℕ

-- std::find_if over the files that are known.
pub is_known : (List ℕ → List ℕ → Bool) → List ℕ → List FileInfo → Bool
is_known equivalent path [] = false
is_known equivalent path (f ∷ fs) =
    if equivalent path f.path then true else is_known equivalent path fs

-- What the loop has found so far: the files, their total size and number, and the file counter.
pub record Found : Type 0 where
  pub files : List FileInfo
  pub total_size : ℕ
  pub file_count : ℕ
  pub counter : Option ℕ

-- An unsigned int after ++.
abbrev pub next_counter : ℕ → ℕ
next_counter n = (n + 1) % 4294967296

-- The counter goes past the number of every file that is found.
abbrev raise_counter : Option ℕ → ℕ → Option ℕ
raise_counter none number = none
raise_counter (some c) number = if leb c number then some (next_counter number) else some c

pub take_entry : Entry → ℕ → Found → Found
unfolding add_size
take_entry e number found = record {
  files = found.files ++ record { size = e.size; time_stamp = e.time_stamp; path = e.path } ∷ [];
  total_size = add_size found.total_size e.size;
  file_count = suc found.file_count;
  counter = raise_counter found.counter number;
}

-- Whether the name of an entry matches: the number of the file, or an exception.
pub matches : ScanMethod → Directory → List ℕ → Match
unfolding match_pattern
matches scan_matching d name = match_pattern d.grammar name d.mask 0
matches _ d name = matched 0

-- The loop over the directory ends, or match_pattern throws.
pub data Scanning : Type 0 where
  complete aborted : Found → Scanning

pub scan_entries : ScanMethod → Directory → List FileInfo → List Entry → Found → Scanning
unfolding is_known take_entry matches
scan_entries method d known [] found = complete found
scan_entries method d known (e ∷ es) found =
    let skip = scan_entries method d known es found in
    if e.is_regular
    then (if is_known d.equivalent e.path known then skip else elim (matches method d e.filename) [
      | matched number ↦ scan_entries method d known es (take_entry e number found)
      | mismatch ↦ skip
      | invalid ↦ aborted found
      | fault ↦ aborted found
    ])
    else skip

-- std::list::sort keeps the order of files with one time stamp.
pub insert_by_time : FileInfo → List FileInfo → List FileInfo
insert_by_time f [] = f ∷ []
insert_by_time f (g ∷ gs) =
    if ltb g.time_stamp f.time_stamp then g ∷ insert_by_time f gs else f ∷ g ∷ gs

pub sort_by_time : List FileInfo → List FileInfo
unfolding insert_by_time
sort_by_time [] = []
sort_by_time (f ∷ fs) = insert_by_time f (sort_by_time fs)

-- The call returns the number of files found, the collector and the counter; after an exception the
-- collector is as it was.
pub data Search : Type 0 where
  searched : ℕ → Collector → Option ℕ → Search
  threw : Collector → Option ℕ → Search

-- Where the directory is there the counter starts at 0.
abbrev pub start_counter : Option ℕ → Option ℕ
start_counter none = none
start_counter (some c) = some 0

-- The counter is looked at only in a scan for matching files.
abbrev pub counter_for : ScanMethod → Option ℕ → Option ℕ
counter_for scan_matching counter = counter
counter_for _ counter = none

pub merge_found : Collector → Found → Collector
unfolding sort_by_time add_size
merge_found c found = record c {
  files = sort_by_time (c.files ++ found.files);
  total_size = add_size c.total_size found.total_size;
}

-- Where `counter` is not looked at it stays as it was.
abbrev pub written : Option ℕ → Option ℕ → Option ℕ
written counter none = counter
written counter (some n) = some n

pub scan_for_files : ScanMethod → Directory → Option ℕ → Collector → Search
unfolding scan_entries merge_found
scan_for_files no_scan d counter c = searched 0 c counter
scan_for_files method d counter c =
    let start = start_counter (counter_for method counter) in
    if d.exists
    then (elim (scan_entries method d c.files d.entries
        (record { files = []; total_size = 0; file_count = 0; counter = start })) [
          | aborted found ↦ threw c (written counter found.counter)
          | complete found ↦
              searched found.file_count (merge_found c found) (written counter found.counter)
        ])
    else searched 0 c counter
