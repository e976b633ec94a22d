-- ===== src/TextFile/Names/Examples.antt =====
-- Patterns of file names (text_file_backend.cpp) on concrete characters.
use boost_log.Base.{◌≡◌, none, some, [], ◌∷◌, ◌==◌, if◌then◌else◌, arith, refl}
use boost_log.TextFile.Names.{format_counter}
use boost_log.TextFile.Names.Match.{fixed_digits, Grammar, matched, mismatch, match_pattern}
use boost_log.TextFile.Names.Digits.{value}
use boost_log.TextFile.Names.Pattern.{file_name}
use boost_log.TextFile.Names.RoundTrip.{HasCounter, ReadsNumbers, match_pattern-file_name}
use boost_log.TextFile.Names.Escaped.{match_pattern-escaped}

-- A parser that finds the placeholder `5N` alone, and reads digits.
abbrev five_digits : Grammar
unfolding value
five_digits = record {
  parse_placeholder = λ p. elim p [
    | [] ↦ none
    | c ∷ rest ↦ elim rest [
      | [] ↦ none
      | d ∷ more ↦ if c == b'5' then (if d == b'N' then some (more, 5) else none) else none
    ]
  ];
  parse_number = λ ds. some (value 0 ds);
  fractional_digits = 6;
}

five_digits-ReadsNumbers : ReadsNumbers five_digits
unfolding five_digits
five_digits-ReadsNumbers ds digits some_digit fits = refl

five_digits-HasCounter :
    HasCounter five_digits (b'a' ∷ []) b'5' (b'N' ∷ b'.' ∷ b'l' ∷ []) 5 b'.' (b'l' ∷ [])
unfolding five_digits fixed_digits
five_digits-HasCounter = record {
  plain_prefix = ((λ e. ground (arith, e)), tt);
  plain_suffix = ((λ e. ground (arith, e)), ((λ e. ground (arith, e)), tt));
  not_escaped = λ e. ground (arith, e);
  not_fixed = refl;
  parsed = refl;
  shorter = omega arith;
  stops = refl;
}

match_pattern-file_name_example :
    match_pattern five_digits
      (file_name five_digits (λ f. f) (b'a' ∷ b'%' ∷ b'5' ∷ b'N' ∷ b'.' ∷ b'l' ∷ []) 42)
      (b'a' ∷ b'%' ∷ b'5' ∷ b'N' ∷ b'.' ∷ b'l' ∷ [])
      0
    ≡ matched 42
match_pattern-file_name_example =
    match_pattern-file_name five_digits (b'a' ∷ []) b'5' (b'N' ∷ b'.' ∷ b'l' ∷ []) 5 b'.'
      (b'l' ∷ []) five_digits-HasCounter (λ f. f) 42 0 five_digits-ReadsNumbers (omega arith)

-- The name that is generated there.
name_42 :
    file_name five_digits (λ f. f) (b'a' ∷ b'%' ∷ b'5' ∷ b'N' ∷ b'.' ∷ b'l' ∷ []) 42
    ≡ b'a' ∷ b'0' ∷ b'0' ∷ b'0' ∷ b'4' ∷ b'2' ∷ b'.' ∷ b'l' ∷ []
unfolding file_name five_digits format_counter
name_42 = refl

match_pattern-escaped_example :
    (file_name five_digits (λ f. f) (b'a' ∷ b'%' ∷ b'%' ∷ b'b' ∷ []) 1
      ≡ b'a' ∷ b'%' ∷ b'%' ∷ b'b' ∷ [])
    × (match_pattern five_digits (b'a' ∷ b'%' ∷ b'%' ∷ b'b' ∷ []) (b'a' ∷ b'%' ∷ b'%' ∷ b'b' ∷ []) 0
        ≡ mismatch)
match_pattern-escaped_example =
    match_pattern-escaped five_digits (b'a' ∷ []) (b'b' ∷ []) ((λ e. ground (arith, e)), tt)
      ((λ e. ground (arith, e)), tt) (λ f. f) 1 0
