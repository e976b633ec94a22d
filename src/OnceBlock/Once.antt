-- ===== src/OnceBlock/Once.antt =====
-- A once block (utility/once_block.hpp, once_block.cpp) is run to its end once, by one thread at a time.
use boost_log.Base.{ℕ, suc, ◌+◌, ◌≡◌, Bool, true, false, List, [], ◌∷◌, if◌then◌else◌, arith}
use boost_log.OnceBlock.{
  Status, being_initialized, initialized, Phase, in_block, committing, leaving, unwinding,
  rolling_back, OnceBlock, Result, committed, Next, advance, step, run, once_block_init,
}

-- From the start of the block to the end of commit() or rollback().
pub holds : Phase → Bool
holds in_block = true
holds committing = true
holds unwinding = true
holds rolling_back = true
holds _ = false

pub is_being : Status → Bool
is_being being_initialized = true
is_being _ = false

pub is_done : Status → Bool
is_done initialized = true
is_done _ = false

pub has_passed : Phase → Bool
has_passed leaving = true
has_passed _ = false

-- Only one thread is there, and only while the flag says so; a thread that goes on behind the block has
-- seen that it is done.
pub record IsSound (b : OnceBlock) : Type 0 where
  pub alone : (t u : ℕ) → holds (b.phases t) ≡ true → holds (b.phases u) ≡ true → t ≡ u
  pub busy : (t : ℕ) → holds (b.phases t) ≡ true → is_being b.status ≡ true
  pub behind : (t : ℕ) → has_passed (b.phases t) ≡ true → is_done b.status ≡ true

not_both : (s : Status) → is_being s ≡ true → is_done s ≡ true → ⊥
unfolding is_being is_done
not_both s e f = ground (arith, e, f)

-- The step of one thread, by what it does to the flag.
abbrev Fair : Phase → Status → Next → Type 0
Fair p s n =
    (holds n.phase ≡ true → is_being n.status ≡ true)
    × (has_passed n.phase ≡ true → is_done n.status ≡ true)
    × (holds p ≡ false → is_being s ≡ true → (is_being n.status ≡ true) × (holds n.phase ≡ false))
    × (holds p ≡ false → is_done s ≡ true → (is_done n.status ≡ true) × (holds n.phase ≡ false))

advance-Fair :
    (ok : Bool) (p : Phase) (s : Status)
    → (holds p ≡ true → is_being s ≡ true)
    → (has_passed p ≡ true → is_done s ≡ true)
    → Fair p s (advance ok p s)
unfolding advance holds is_being is_done has_passed
advance-Fair ok p s busy behind = ground (arith, busy, behind)

step-IsSound : (m : ℕ × Bool) (b : OnceBlock) → IsSound b → IsSound (step m b).0
unfolding step
step-IsSound (t, ok) b is =
    let n = advance ok (b.phases t) b.status in
    let fair : Fair (b.phases t) b.status n =
      advance-Fair ok (b.phases t) b.status (is.busy t) (is.behind t) in
    record {
      alone = λ u v at_u at_v.
          ground (
            arith,
            fair,
            at_u,
            at_v,
            is.alone u v,
            is.alone t u,
            is.alone t v,
            is.busy u,
            is.busy v,
          );
      busy = λ u at_u. ground (arith, fair, at_u, is.alone t u, is.busy u);
      behind = λ u at_u. ground (arith, fair, at_u, is.busy t, is.behind u, not_both b.status);
    }

init-IsSound : IsSound once_block_init
unfolding once_block_init holds has_passed
init-IsSound = record {
  alone = λ t u at_t at_u. ground (arith, at_t);
  busy = λ t at_t. ground (arith, at_t);
  behind = λ t at_t. ground (arith, at_t);
}

run-IsSound : (moves : List (ℕ × Bool)) (b : OnceBlock) → IsSound b → IsSound (run moves b).0
unfolding run
run-IsSound [] b is = is
run-IsSound (m ∷ moves) b is = run-IsSound moves (step m b).0 (step-IsSound m b is)

-- How often a result is there.
abbrev is_commit : Result → Bool
is_commit committed = true
is_commit _ = false

unfoldable pub commits : List Result → ℕ
commits [] = 0
commits (r ∷ results) = if is_commit r then suc (commits results) else commits results

pub once_if : Bool → ℕ
once_if is_there = if is_there then 1 else 0

-- A commit sets the flag, which is reset only by the thread that holds it.
advance-commit :
    (ok : Bool) (p : Phase) (s : Status)
    → (holds p ≡ true → is_being s ≡ true)
    → let n = advance ok p s in
      once_if (is_done s) + once_if (is_commit n.result) ≡ once_if (is_done n.status)
unfolding advance holds is_being is_done once_if
advance-commit ok p s busy = ground (arith, busy)

run-commits :
    (moves : List (ℕ × Bool)) (b : OnceBlock)
    → IsSound b
    → let (b1, results) = run moves b in
      once_if (is_done b.status) + commits results ≡ once_if (is_done b1.status)
unfolding run commits once_if step
run-commits [] b is = omega arith
run-commits ((t, ok) ∷ moves) b is =
    let b1 = (step (t, ok) b).0 in
    let here = advance-commit ok (b.phases t) b.status (is.busy t) in
    let later = run-commits moves b1 (step-IsSound (t, ok) b is) in ground (arith, here, later)

-- Whatever the threads do, and whether or not the block throws: it was committed once if the flag says
-- that it is done, and never otherwise. At most one thread is between the start of the block and the end of
-- commit() or rollback(), and only while the flag says that it is being initialized; a thread that has gone
-- on behind the block has found that it is done.
pub run-once :
    (moves : List (ℕ × Bool))
    → let (b, results) = run moves once_block_init in
      (commits results ≡ once_if (is_done b.status)) × IsSound b
unfolding once_if is_done once_block_init
run-once moves = (
  ground (arith, run-commits moves once_block_init init-IsSound),
  run-IsSound moves once_block_init init-IsSound,
)
