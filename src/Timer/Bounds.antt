-- ===== src/Timer/Bounds.antt =====
-- The sum of a timer against its least and its greatest duration.
use native.Mathlib.Nat.{mul-zero, mul-one, mul-add, mul-le-mul_right}
use pa.Prelude.{ℕ, ◌+◌, ◌-◌, ◌*◌, ◌≤◌, ltb, if◌then◌else◌, arith}
use pa.Timer.{ClientTimer, longest, new, start, stop, end_and_merge, merge}

-- The sum lies between as many times the least and as many times the greatest duration.
pub record Bounded (t : ClientTimer) : Type 0 where
  pub low : t.min * t.op_count ≤ t.sum
  pub high : t.sum ≤ t.max * t.op_count

pub new-Bounded : (junk : ℕ) → Bounded (new junk)
new-Bounded junk = record {
  low = omega (arith, mul-zero longest);
  high = omega (arith, mul-zero 0);
}

-- The least of two, as often as both together.
added_low : (a b m n s t : ℕ) → a * m ≤ s → b * n ≤ t → (if ltb b a then b else a) * (m + n) ≤ s + t
added_low a b m n s t ha hb =
    omega (arith, mul-add least m n, mul-le-mul_right m below_a, mul-le-mul_right n below_b, ha, hb)
  where
    least : ℕ
    least = if ltb b a then b else a

    below_a : least ≤ a
    below_a = ground arith

    below_b : least ≤ b
    below_b = ground arith

-- The greatest of two, as often as both together.
added_high :
    (a b m n s t : ℕ) → s ≤ a * m → t ≤ b * n → s + t ≤ (if ltb a b then b else a) * (m + n)
added_high a b m n s t ha hb =
    omega
      (arith, mul-add greatest m n, mul-le-mul_right m above_a, mul-le-mul_right n above_b, ha, hb)
  where
    greatest : ℕ
    greatest = if ltb a b then b else a

    above_a : a ≤ greatest
    above_a = ground arith

    above_b : b ≤ greatest
    above_b = ground arith

pub start-Bounded : (t : ClientTimer) (now : ℕ) → Bounded t → Bounded (start t now)
unfolding start
start-Bounded t now h = record { low = h.low; high = h.high }

pub stop-Bounded : (t : ClientTimer) (now : ℕ) → Bounded t → Bounded (stop t now)
unfolding stop
stop-Bounded t now h = record { low = h.low; high = h.high }

pub end_and_merge-Bounded : (t : ClientTimer) (now : ℕ) → Bounded t → Bounded (end_and_merge t now)
unfolding end_and_merge stop
end_and_merge-Bounded t now h = record {
  low = added_low t.min took t.op_count 1 t.sum took h.low (omega (arith, mul-one took));
  high = added_high t.max took t.op_count 1 t.sum took h.high (omega (arith, mul-one took));
}
  where
    took : ℕ
    took = now - t.start_time

pub merge-Bounded : (t u : ClientTimer) → Bounded t → Bounded u → Bounded (merge t u)
unfolding merge
merge-Bounded t u h k = record {
  low = added_low t.min u.min t.op_count u.op_count t.sum u.sum h.low k.low;
  high = added_high t.max u.max t.op_count u.op_count t.sum u.sum h.high k.high;
}
