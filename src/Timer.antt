-- ===== src/Timer.antt =====
-- class ClientTimer of ClientTimer.h and ClientTimer.cpp. Times and durations are whole nanoseconds,
-- so that sums and comparisons are exact, and the clock does not go back. `op_count` does not wrap.
pub mod Merged
pub mod Bounds
use pa.Prelude.{ℕ, ◌+◌, ◌-◌, ◌*◌, ◌^◌, ltb, if◌then◌else◌}

pub record ClientTimer : Type 0 where
  pub sum : ℕ
  pub max : ℕ
  pub min : ℕ
  pub op_count : ℕ
  pub start_time : ℕ
  pub elapsed_time : ℕ

-- The first `min`: 9999999999.9f is the float 10 ^ 10, in microseconds.
abbrev pub longest : ℕ
longest = 10 ^ 10 * 1000

-- ClientTimer::ClientTimer. The two times hold what the memory held.
abbrev pub new : (junk : ℕ) → ClientTimer
new junk = record {
  sum = 0;
  max = 0;
  min = longest;
  op_count = 0;
  start_time = junk;
  elapsed_time = junk;
}

-- ClientTimer::Start, at time `now`
unfoldable pub start : ClientTimer → ℕ → ClientTimer
start t now = record t { start_time = now }

-- ClientTimer::End, at time `now`
unfoldable pub stop : ClientTimer → ℕ → ClientTimer
stop t now = record t { elapsed_time = now - t.start_time }

-- ClientTimer::EndAndMerge, at time `now`
unfoldable pub end_and_merge : ClientTimer → ℕ → ClientTimer
unfolding stop
end_and_merge t0 now =
    let t = stop t0 now in
    record t {
      op_count = t.op_count + 1;
      sum = t.sum + t.elapsed_time;
      min = if ltb t.elapsed_time t.min then t.elapsed_time else t.min;
      max = if ltb t.max t.elapsed_time then t.elapsed_time else t.max;
    }

-- ClientTimer::Merge
unfoldable pub merge : ClientTimer → ClientTimer → ClientTimer
merge t other = record t {
  sum = t.sum + other.sum;
  op_count = t.op_count + other.op_count;
  min = if ltb other.min t.min then other.min else t.min;
  max = if ltb t.max other.max then other.max else t.max;
}

-- A quotient.
pub record Ratio : Type 0 where
  pub over : ℕ
  pub under : ℕ

-- A line of statistics: three durations in nanoseconds, which the program shows in microseconds with
-- three decimals, and the operations in a second.
pub record Stats : Type 0 where
  pub average : Ratio
  pub least : ℕ
  pub greatest : ℕ
  pub rate : Ratio

-- ClientTimer::PrintStats
unfoldable pub print_stats : ClientTimer → Stats
print_stats t = record {
  average = record { over = t.sum; under = t.op_count };
  least = t.min;
  greatest = t.max;
  rate = record { over = t.op_count * 10 ^ 9; under = t.elapsed_time };
}
