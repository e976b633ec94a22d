-- ===== src/TextFile/Names/Safe.antt =====
-- match_pattern (text_file_backend.cpp) reads no character past the end of the file name.
use boost_log.Base.{
  ℕ, zero, suc, ◌≤◌, ◌<◌, ◌≡◌, ◌≢◌, refl, ◌==◌, Bool, true, false, Option, none, some, List, [],
  ◌∷◌, length, arith,
}
use boost_log.TextFile.Names.{Scan, scanned, no_match, past_end, scan_digits, skip_digits}
use boost_log.TextFile.Names.Match.{
  Grammar, Match, matched, mismatch, fault, and_then, fixed_digits, match_counter, match_loop,
  match_pattern,
}

-- Boost.Spirit's answer for a placeholder: it is a hit only at a character at least.
abbrev pub Advances : Grammar → Type 0
Advances g =
    (p rest : List ℕ) (width : ℕ)
    → g.parse_placeholder p ≡ some (rest, width)
    → length rest < length p

scan_digits-ne-past_end : (n : ℕ) (c : ℕ) (it : List ℕ) → scan_digits n (c ∷ it) ≢ past_end
unfolding scan_digits
scan_digits-ne-past_end zero c it e = cc
scan_digits-ne-past_end (suc n) c [] e = cc
scan_digits-ne-past_end (suc n) c (d ∷ it) e = ground (arith, scan_digits-ne-past_end n d it)

and_then-ne-fault :
    (n c : ℕ) (it : List ℕ) (k : List ℕ → Match)
    → ((f : List ℕ) → k f ≢ fault)
    → and_then (scan_digits n (c ∷ it)) k ≢ fault
and_then-ne-fault n c it k safe = go (scan_digits n (c ∷ it)) (scan_digits-ne-past_end n c it)
  where
    go : (s : Scan) → s ≢ past_end → and_then s k ≢ fault
    go (scanned f) h = safe f
    go no_match h = λ e. cc
    go past_end h = absurd (h refl)

match_counter-ne-fault :
    (g : Grammar) (c : ℕ) (f_it : List ℕ) (counter : ℕ) (again : List ℕ → List ℕ → ℕ → Match)
    (p : List ℕ) (answer : Option (List ℕ × ℕ))
    → g.parse_placeholder p ≡ answer
    → Advances g
    → ((f rest : List ℕ) (n : ℕ) → length rest < length p → again f rest n ≢ fault)
    → match_counter g again (c ∷ f_it) counter answer ≢ fault
unfolding match_counter
match_counter-ne-fault g c f_it counter again p none e adv safe = λ h. cc
match_counter-ne-fault g c f_it counter again p (some (rest, width)) e adv safe =
    and_then-ne-fault width c f_it _ (λ f. safe (skip_digits f) rest _ (adv p rest width e))

match_loop-ne-fault :
    (g : Grammar)
    → Advances g
    → (fuel : ℕ) (f p : List ℕ) (placeholder : Bool) (counter : ℕ) → length p ≤ fuel
    → match_loop g fuel f p placeholder counter ≢ fault
unfolding match_loop
match_loop-ne-fault g adv fuel [] [] placeholder counter h = λ e. cc
match_loop-ne-fault g adv fuel [] (p_c ∷ p_it) placeholder counter h = λ e. cc
match_loop-ne-fault g adv fuel (f_c ∷ f_it) [] placeholder counter h =
    and_then-ne-fault (suc (length f_it)) f_c f_it (λ _. matched counter) (λ f e. cc)
match_loop-ne-fault g adv zero (f_c ∷ f_it) (p_c ∷ p_it) placeholder counter h =
    absurd (omega arith)
match_loop-ne-fault g adv (suc fuel) (f_c ∷ f_it) (p_c ∷ p_it) false counter h = ground (
  arith,
  match_loop-ne-fault g adv fuel (f_c ∷ f_it) p_it true counter (omega arith),
  match_loop-ne-fault g adv fuel f_it p_it false counter (omega arith),
)
match_loop-ne-fault g adv (suc fuel) (f_c ∷ f_it) (p_c ∷ p_it) true counter h =
    go (fixed_digits g p_c) (match_loop-ne-fault g adv fuel f_it p_it false counter (omega arith))
      (λ n.
        and_then-ne-fault n f_c f_it _
          (λ f. match_loop-ne-fault g adv fuel f p_it false counter (omega arith)))
      (match_counter-ne-fault g f_c f_it counter (λ f p n. match_loop g fuel f p false n)
        (p_c ∷ p_it) (g.parse_placeholder (p_c ∷ p_it)) refl adv
        (λ f p n m. match_loop-ne-fault g adv fuel f p false n (omega arith)))
  where
    again : List ℕ → List ℕ → ℕ → Match
    again f p n = match_loop g fuel f p false n

    go :
        (digits : Option ℕ)
        → match_loop g fuel f_it p_it false counter ≢ fault
        → ((n : ℕ) → and_then (scan_digits n (f_c ∷ f_it)) (λ f. again f p_it counter) ≢ fault)
        → match_counter g again (f_c ∷ f_it) counter (g.parse_placeholder (p_c ∷ p_it)) ≢ fault
        → (elim (p_c == b'%') [
          | true ↦ elim (p_c == f_c) [ true ↦ again f_it p_it counter | false ↦ mismatch ]
          | false ↦ elim digits [
            | some n ↦ and_then (scan_digits n (f_c ∷ f_it)) (λ f. again f p_it counter)
            | none ↦ match_counter g again (f_c ∷ f_it) counter (g.parse_placeholder (p_c ∷ p_it))
          ]
        ])
          ≢ fault
    go (some n) escaped fixed counted = ground (arith, fixed n)
    go none escaped fixed counted = ground arith

-- If the parser of placeholders moves on whenever it finds one, match_pattern reads no character of
-- the file name past its end and needs no more rounds than the pattern has characters, for all names
-- and patterns.
pub match_pattern-ne-fault :
    (g : Grammar)
    → Advances g
    → (file_name pattern : List ℕ) (counter : ℕ) → match_pattern g file_name pattern counter ≢ fault
unfolding match_pattern
match_pattern-ne-fault g adv file_name pattern counter =
    match_loop-ne-fault g adv (length pattern) file_name pattern false counter (omega arith)
