-- ===== src/TextFile/Names.antt =====
-- File names and their patterns (text_file_backend.cpp): file_counter_formatter, the scan of digits,
-- match_pattern and the search for placeholders in set_file_name_pattern_internal. Characters are
-- codes of narrow characters. Boost.Spirit's parsers of placeholders and numbers are arguments.
pub mod Match
pub mod Safe
pub mod Clash
pub mod Pattern
pub mod Digits
pub mod RoundTrip
pub mod Escaped
mod Examples
use boost_log.Base.{
  ℕ, zero, suc, ◌+◌, ◌-◌, ◌/◌, ◌%◌, Bool, true, false, Option, none, some, List, [], ◌∷◌, ◌++◌,
  ◌==◌, leb, ltb, ◌&&◌, ◌||◌, if◌then◌else◌, length,
}

-- isdigit in the "C" locale.
abbrev pub is_digit : ℕ → Bool
is_digit c = leb b'0' c && leb c b'9'

-- The decimal digits of a number, as operator<< writes them: the fuel bounds their number.
decimal : ℕ → ℕ → List ℕ → List ℕ
decimal zero n rest = rest
decimal (suc fuel) n rest =
    let more = decimal fuel (n / 10) ((b'0' + n % 10) ∷ rest) in
    if ltb n 10 then (b'0' + n) ∷ rest else more

zeros : ℕ → List ℕ
zeros zero = []
zeros (suc n) = b'0' ∷ zeros n

-- The counter in the stream of width `width` with the fill character '0'. A 32-bit number has at most
-- ten digits.
pub padded : ℕ → ℕ → List ℕ
unfolding decimal zeros
padded width n = let digits = decimal 10 n [] in zeros (width - length digits) ++ digits

-- std::string::insert at a position within the string.
pub insert_at : ℕ → List ℕ → List ℕ → List ℕ
insert_at zero text s = text ++ s
insert_at (suc n) text [] = text
insert_at (suc n) text (c ∷ s) = c ∷ insert_at n text s

-- file_counter_formatter::operator()
unfoldable pub format_counter : ℕ → ℕ → List ℕ → ℕ → List ℕ
unfolding padded insert_at
format_counter position width pattern counter = insert_at position (padded width counter) pattern

-- How a scan of `n` digits from `it` on ends: with the new position, with `false`, or with a read at
-- the end of the name, which the code does not exclude by itself.
pub data Scan : Type 0 where
  scanned : List ℕ → Scan
  no_match : Scan
  past_end : Scan

-- local::scan_digits: the scan fails also if the name ends behind the digit.
pub scan_digits : ℕ → List ℕ → Scan
scan_digits zero it = scanned it
scan_digits (suc n) [] = past_end
scan_digits (suc n) (c ∷ []) = no_match
scan_digits (suc n) (c ∷ d ∷ it) =
    let rest = scan_digits n (d ∷ it) in if is_digit c then rest else no_match

-- The end of the digits from `it` on.
pub skip_digits : List ℕ → List ℕ
skip_digits [] = []
skip_digits (c ∷ it) = let rest = skip_digits it in if is_digit c then rest else c ∷ it
