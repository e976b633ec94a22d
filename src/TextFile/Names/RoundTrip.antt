-- ===== src/TextFile/Names/RoundTrip.antt =====
-- File names with a counter (text_file_backend.cpp) are found again by a scan for their pattern.
use boost_log.Base.{
  ℕ, zero, suc, ◌+◌, ◌^◌, ◌≡◌, ◌≢◌, ◌≤◌, ◌<◌, false, none, some, List, [], ◌∷◌, ◌++◌, All, length,
  length-append, arith, refl, ap, ◌∙◌,
}
use boost_log.TextFile.Names.{
  is_digit, padded, insert_at, format_counter, scanned, scan_digits, skip_digits,
}
use boost_log.TextFile.Names.Match.{
  Grammar, matched, take, between, fixed_digits, match_counter, match_loop, match_pattern,
}
use boost_log.TextFile.Names.Pattern.{find_percent, find_placeholders, generate, file_name}
use boost_log.TextFile.Names.Digits.{
  IsDigit, value, padded-IsDigit, padded-ne-nil, length-padded, value-padded,
}

-- What Boost.Spirit documents of uint_p: it reads decimal digits of a number of 32 bits.
abbrev pub ReadsNumbers : Grammar → Type 0
ReadsNumbers g =
    (ds : List ℕ)
    → All IsDigit ds
    → ds ≢ []
    → value 0 ds < 2 ^ 32
    → g.parse_number ds ≡ some (value 0 ds)

abbrev pub IsPlain : List ℕ → Type 0
IsPlain = All (λ c. c ≢ b'%')

match_loop-literal :
    (g : Grammar) (fuel : ℕ) (p : List ℕ) (counter : ℕ)
    → length p ≤ fuel
    → IsPlain p
    → match_loop g fuel p p false counter ≡ matched counter
unfolding match_loop
match_loop-literal g fuel [] counter enough plain = refl
match_loop-literal g zero (c ∷ p) counter enough plain = absurd (omega (arith, enough))
match_loop-literal g (suc fuel) (c ∷ p) counter enough plain =
    ground (arith, plain.0, match_loop-literal g fuel p counter (omega (arith, enough)) plain.1)

literal_step :
    (g : Grammar) (fuel c : ℕ) (f p : List ℕ) (counter : ℕ)
    → c ≢ b'%'
    → match_loop g (suc fuel) (c ∷ f) (c ∷ p) false counter ≡ match_loop g fuel f p false counter
unfolding match_loop
literal_step g fuel c f p counter plain = ground (arith, plain)

pub match_loop-prefix :
    (g : Grammar) (fuel : ℕ) (pre f p : List ℕ) (counter : ℕ)
    → IsPlain pre
    → match_loop g (length pre + fuel) (pre ++ f) (pre ++ p) false counter
      ≡ match_loop g fuel f p false counter
unfolding match_loop
match_loop-prefix g fuel [] f p counter plain =
    ap (λ k. match_loop g k f p false counter) (omega arith)
match_loop-prefix g fuel (c ∷ pre) f p counter plain =
    ap (λ k. match_loop g k (c ∷ (pre ++ f)) (c ∷ (pre ++ p)) false counter) (sum (length pre))
    ∙ literal_step g (length pre + fuel) c (pre ++ f) (pre ++ p) counter plain.0
    ∙ match_loop-prefix g fuel pre f p counter plain.1
  where
    sum : (n : ℕ) → suc n + fuel ≡ suc (n + fuel)
    sum n = omega arith

-- The digits of the counter, before a character.
Scanned : ℕ → List ℕ → ℕ → List ℕ → Type 0
Scanned width ds s suf =
    (rest : List ℕ) × (scan_digits width (ds ++ s ∷ suf) ≡ scanned (rest ++ s ∷ suf))
    × All IsDigit rest

scan_digits-Scanned :
    (width : ℕ) (ds : List ℕ) (s : ℕ) (suf : List ℕ)
    → width ≤ length ds
    → All IsDigit ds
    → Scanned width ds s suf
unfolding scan_digits Scanned
scan_digits-Scanned zero ds s suf enough all = (ds, refl, all)
scan_digits-Scanned (suc width) [] s suf enough all = absurd (omega (arith, enough))
scan_digits-Scanned (suc width) (d ∷ []) s suf enough all =
    let (rest, e, digits) = scan_digits-Scanned width [] s suf (omega (arith, enough)) tt in
    (rest, ground (arith, all.0, e), digits)
scan_digits-Scanned (suc width) (d ∷ e ∷ ds) s suf enough all =
    let (rest, f, digits) =
      scan_digits-Scanned width (e ∷ ds) s suf (omega (arith, enough)) all.1 in
    (rest, ground (arith, all.0, f), digits)

skip_digits-digits :
    (ds : List ℕ) (s : ℕ) (suf : List ℕ)
    → All IsDigit ds
    → is_digit s ≡ false
    → skip_digits (ds ++ s ∷ suf) ≡ s ∷ suf
unfolding skip_digits
skip_digits-digits [] s suf all stops = ground (arith, stops)
skip_digits-digits (d ∷ ds) s suf all stops =
    ground (arith, all.0, skip_digits-digits ds s suf all.1 stops)

take-append : (ds f : List ℕ) → take (length ds) (ds ++ f) ≡ ds
unfolding take
take-append [] f = refl
take-append (d ∷ ds) f = ap (λ l. d ∷ l) (take-append ds f)

between-append : (ds f : List ℕ) → between (ds ++ f) f ≡ ds
unfolding between
between-append ds f =
    ap (λ n. take n (ds ++ f)) (omega (arith, length-append ds f)) ∙ take-append ds f

pub find_percent-found :
    (pre behind : List ℕ) → IsPlain pre → find_percent (pre ++ b'%' ∷ behind) ≡ (pre, some behind)
unfolding find_percent
find_percent-found [] behind plain = refl
find_percent-found (c ∷ pre) behind plain =
    ground (arith, plain.0, find_percent-found pre behind plain.1)

pub find_percent-plain : (p : List ℕ) → IsPlain p → find_percent p ≡ (p, none)
unfolding find_percent
find_percent-plain [] plain = refl
find_percent-plain (c ∷ p) plain = ground (arith, plain.0, find_percent-plain p plain.1)

insert_at-append :
    (pre text f : List ℕ) → insert_at (length pre) text (pre ++ f) ≡ pre ++ (text ++ f)
unfolding insert_at
insert_at-append [] text f = refl
insert_at-append (c ∷ pre) text f = ap (λ l. c ∷ l) (insert_at-append pre text f)

-- A pattern with one placeholder, that of the counter, behind a plain text and before another one that
-- does not start with a digit.
pub record HasCounter (g : Grammar) (pre : List ℕ) (c : ℕ) (body : List ℕ) (width s : ℕ)
    (suf : List ℕ) : Type 0 where
  pub plain_prefix : IsPlain pre
  pub plain_suffix : IsPlain (s ∷ suf)
  pub not_escaped : c ≢ b'%'
  pub not_fixed : fixed_digits g c ≡ none
  pub parsed : g.parse_placeholder (c ∷ body) ≡ some (s ∷ suf, width)
  pub shorter : length (s ∷ suf) ≤ length body
  pub stops : is_digit s ≡ false

module _ (g : Grammar) (pre : List ℕ) (c : ℕ) (body : List ℕ) (width s : ℕ) (suf : List ℕ)
    (has : HasCounter g pre c body width s suf) where
  abbrev pattern : List ℕ
  pattern = pre ++ b'%' ∷ c ∷ body

  counter-step :
      (f0 : ℕ) (f : List ℕ) (fuel counter : ℕ)
      → match_loop g (suc (suc fuel)) (f0 ∷ f) (b'%' ∷ c ∷ body) false counter
        ≡ match_counter g
            (λ f p n. match_loop g fuel f p false n)
            (f0 ∷ f)
            counter
            (some (s ∷ suf, width))
  unfolding match_loop
  counter-step f0 f fuel counter = ground (arith, has.not_escaped, has.not_fixed, has.parsed)

  match_counter-digits :
      (ds : List ℕ) (counter : ℕ)
      → ReadsNumbers g
      → All IsDigit ds
      → ds ≢ []
      → width ≤ length ds
      → value 0 ds < 2 ^ 32
      → match_counter g
          (λ f p n. match_loop g (length body) f p false n)
          (ds ++ s ∷ suf)
          counter
          (some (s ∷ suf, width))
        ≡ matched (value 0 ds)
  unfolding match_counter Scanned
  match_counter-digits ds counter reads digits some_digit enough fits =
      let (rest, e, all) = scan_digits-Scanned width ds s suf enough digits in
      rw
        (
          match_counter,
          e,
          skip_digits-digits rest s suf all has.stops,
          between-append ds (s ∷ suf),
          reads ds digits some_digit fits,
        )
        (match_loop-literal g (length body) (s ∷ suf) (value 0 ds) has.shorter has.plain_suffix)

  found_placeholders :
      (k : ℕ)
      → find_placeholders g (suc (suc k)) [] pattern none 0 ≡ record {
        name_pattern = pre ++ s ∷ suf;
        counter = some (length pre, width);
        placeholder_count = 0;
      }
  unfolding find_placeholders
  found_placeholders k = ground (
    arith,
    find_percent-found pre (c ∷ body) has.plain_prefix,
    find_percent-plain (s ∷ suf) has.plain_suffix,
    has.not_escaped,
    has.parsed,
  )

  -- The generated name.
  name-parts :
      (format_date : List ℕ → List ℕ) (n : ℕ)
      → file_name g format_date pattern n ≡ pre ++ (padded width n ++ s ∷ suf)
  unfolding file_name generate format_counter
  name-parts format_date n =
      let fuel : length pattern ≡ suc (suc (length pre + length body)) =
        omega (arith, length-append pre (b'%' ∷ c ∷ body)) in
      ap (λ p. generate format_date p n)
        (ap (λ k. find_placeholders g k [] pattern none 0) fuel
          ∙ found_placeholders (length pre + length body))
      ∙ insert_at-append pre (padded width n) (s ∷ suf)

  match_digits :
      (ds : List ℕ) (counter : ℕ)
      → ReadsNumbers g
      → All IsDigit ds
      → ds ≢ []
      → width ≤ length ds
      → value 0 ds < 2 ^ 32
      → match_loop g (suc (suc (length body))) (ds ++ s ∷ suf) (b'%' ∷ c ∷ body) false counter
        ≡ matched (value 0 ds)
  match_digits [] counter reads digits some_digit enough fits = absurd (some_digit refl)
  match_digits (d ∷ ds) counter reads digits some_digit enough fits =
      counter-step d (ds ++ s ∷ suf) (length body) counter
      ∙ match_counter-digits (d ∷ ds) counter reads digits some_digit enough fits

  -- For a pattern of a prefix without percent signs, one placeholder of the counter, which is no escaped percent
  -- sign and no placeholder of a fixed width, and a suffix without percent signs that is not empty and does
  -- not start with a digit: the name that is generated for a counter of 32 bits is found again by a scan for the
  -- pattern, which reads the counter off it, if the number parser reads the digits of such a number.
  pub match_pattern-file_name :
      (format_date : List ℕ → List ℕ) (n counter : ℕ)
      → ReadsNumbers g
      → n < 2 ^ 32
      → match_pattern g (file_name g format_date pattern n) pattern counter ≡ matched n
  unfolding match_pattern
  match_pattern-file_name format_date n counter reads fits =
      let fuel : length pattern ≡ length pre + suc (suc (length body)) =
        omega (arith, length-append pre (b'%' ∷ c ∷ body)) in
      let same : value 0 (padded width n) ≡ n = value-padded width n fits in
      rw (name-parts format_date n, fuel)
        (match_loop-prefix g (suc (suc (length body))) pre (padded width n ++ s ∷ suf)
            (b'%' ∷ c ∷ body) counter has.plain_prefix
          ∙ match_digits (padded width n) counter reads (padded-IsDigit width n)
              (padded-ne-nil width n) (length-padded width n) (omega (arith, same, fits))
          ∙ ap matched same)
