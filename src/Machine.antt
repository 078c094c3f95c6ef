-- ===== src/Machine.antt =====
-- The machine a process runs on: its byte order, and what its memory holds where the program reads
-- or copies from a variable before it has been set.
use pa.Prelude.{ℕ, ◌≤◌, List, length, take, length-take_of_le, ◌≡◌, arith, ℤ}
use pa.Host.{Host}

pub record Machine : Type 0 where
  pub host : Host
  pub stack : List ℕ
  pub junk : ℤ
  pub deep : 256 ≤ length stack

-- `char buffer[size];`
abbrev pub buffer : Machine → ℕ → List ℕ
buffer m size = take size m.stack

pub length-buffer : (m : Machine) (size : ℕ) → size ≤ 256 → length (buffer m size) ≡ size
length-buffer m size h = length-take_of_le size m.stack (omega (arith, m.deep))
