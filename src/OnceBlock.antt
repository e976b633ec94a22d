-- ===== src/OnceBlock.antt =====
-- BOOST_LOG_ONCE_BLOCK (utility/once_block.hpp) with once_block_sentry over pthreads (once_block.cpp): a
-- block of code that is to run once. A step of a thread is a read of the flag outside the mutex, what it
-- does under the mutex, or the block. pthread_cond_wait may end at any time, and the thread looks at the
-- flag again, as it does when it enters.
pub mod Once
mod Examples
use boost_log.Base.{ℕ, Bool, List, [], ◌∷◌, ◌==◌, if◌then◌else◌}

-- once_block_flag
pub data Status : Type 0 where
  uninitialized being_initialized initialized : Status

-- Where a thread is: in executed(), in enter_once_block(), in the block, in commit(), in the destructor of
-- the sentry behind the loop or because of an exception, and in rollback().
pub data Phase : Type 0 where
  outside checking entering in_block committing leaving unwinding rolling_back : Phase

pub record OnceBlock : Type 0 where
  pub status : Status
  pub phases : ℕ → Phase

pub data Result : Type 0 where
  committed rolled_back passed nothing : Result

pub record Next : Type 0 where
  pub status : Status
  pub phase : Phase
  pub result : Result

-- The next step of a thread that reaches the block, where `ok` says that the block throws no exception.
unfoldable pub advance : Bool → Phase → Status → Next
advance ok outside s = record { status = s; phase = checking; result = nothing }
advance ok checking initialized = record { status = initialized; phase = leaving; result = nothing }
advance ok checking s = record { status = s; phase = entering; result = nothing }
advance ok entering initialized = record { status = initialized; phase = leaving; result = nothing }
advance ok entering uninitialized = record {
  status = being_initialized;
  phase = in_block;
  result = nothing;
}
advance ok entering being_initialized = record {
  status = being_initialized;
  phase = entering;
  result = nothing;
}
advance ok in_block s = record {
  status = s;
  phase = if ok then committing else unwinding;
  result = nothing;
}
advance ok committing s = record { status = initialized; phase = checking; result = committed }
advance ok leaving initialized = record { status = initialized; phase = outside; result = passed }
advance ok leaving s = record { status = s; phase = rolling_back; result = nothing }
advance ok unwinding initialized = record {
  status = initialized;
  phase = outside;
  result = nothing;
}
advance ok unwinding s = record { status = s; phase = rolling_back; result = nothing }
advance ok rolling_back s = record { status = uninitialized; phase = outside; result = rolled_back }

unfoldable pub step : ℕ × Bool → OnceBlock → OnceBlock × Result
unfolding advance
step (t, ok) b =
    let n = advance ok (b.phases t) b.status in
    (record { status = n.status; phases = λ u. if u == t then n.phase else b.phases u }, n.result)

-- Steps of any threads, and what came of them.
unfoldable pub run : List (ℕ × Bool) → OnceBlock → OnceBlock × List Result
unfolding step
run [] b = (b, [])
run (m ∷ moves) b =
    let (b1, result) = step m b in let (b2, results) = run moves b1 in (b2, result ∷ results)

-- BOOST_LOG_ONCE_BLOCK_INIT
pub once_block_init : OnceBlock
once_block_init = record { status = uninitialized; phases = λ _. outside }
