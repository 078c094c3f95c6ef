-- ===== src/RwLock/Exclusion.antt =====
-- What the lock guarantees in every reachable state.
use pa.Prelude.{ℕ, zero, suc, ◌+◌, ◌≤◌, ◌<◌, ◌≡◌, ◌≢◌, refl, ap, ◌∙◌, Option, none, some, arith}
use pa.Threads.{moved, tally, tally-moved, weight-le-tally, weights-le-tally, tally-zero}
use pa.RwLock.{
  ReadWriteLock, Place, outside, entering, first, entered, reading, leaving, last, left, writing,
  Move, read_lock, count_first, count_other, shut_out, read_start, read_unlock, discount_last,
  discount_other, let_in, read_end, write_lock, write_unlock, System, init, step, Reach, start,
  later,
}

abbrev pub held : Option ℕ → ℕ
held none = 0
held (some i) = 1

held_le : (o : Option ℕ) → held o ≤ 1
held_le none = omega arith
held_le (some i) = omega arith

abbrev pub any_of : ℕ → ℕ
any_of zero = 0
any_of (suc k) = 1

-- Counted, and about to take `writeMtx` for all readers.
abbrev pub at_first : Place → ℕ
at_first first = 1
at_first _ = 0

-- Counted, with `writeMtx` held for the readers.
abbrev pub inside : Place → ℕ
inside entered = 1
inside reading = 1
inside leaving = 1
inside _ = 0

-- No longer counted, and about to free `writeMtx`.
abbrev pub at_last : Place → ℕ
at_last last = 1
at_last _ = 0

abbrev pub is_writing : Place → ℕ
is_writing writing = 1
is_writing _ = 0

-- The other places at which a thread holds `readMtx`.
abbrev pub guarded : Place → ℕ
guarded entering = 1
guarded entered = 1
guarded leaving = 1
guarded left = 1
guarded _ = 0

pub record Inv (n : ℕ) (l : ReadWriteLock) (at : ℕ → Place) : Type 0 where
  pub counted : l.read_cnt ≡ tally at_first n at + tally inside n at
  pub read_held : held l.read_mtx ≡ tally at_first n at + tally at_last n at + tally guarded n at
  pub write_held :
      held l.write_mtx ≡ tally is_writing n at + tally at_last n at + any_of (tally inside n at)
  pub alone : 1 ≤ tally at_first n at → tally inside n at ≡ 0
  pub emptied : 1 ≤ tally at_last n at → tally inside n at ≡ 0

-- The tallies before and after a thread goes from `p` to `p'`.
record Moved (n : ℕ) (at at' : ℕ → Place) (p p' : Place) : Type 0 where
  firsts : at_first p + tally at_first n at' ≡ at_first p' + tally at_first n at
  insides : inside p + tally inside n at' ≡ inside p' + tally inside n at
  lasts : at_last p + tally at_last n at' ≡ at_last p' + tally at_last n at
  writings : is_writing p + tally is_writing n at' ≡ is_writing p' + tally is_writing n at
  guardeds : guarded p + tally guarded n at' ≡ guarded p' + tally guarded n at
  guarded_here : guarded p ≤ tally guarded n at
  inside_here : inside p ≤ tally inside n at

moved-Moved : (n i : ℕ) (at : ℕ → Place) (p' : Place) → i < n → Moved n at (moved at i p') (at i) p'
moved-Moved n i at p' lt = record {
  firsts = tally-moved at_first n at i p' lt;
  insides = tally-moved inside n at i p' lt;
  lasts = tally-moved at_last n at i p' lt;
  writings = tally-moved is_writing n at i p' lt;
  guardeds = tally-moved guarded n at i p' lt;
  guarded_here = weight-le-tally guarded n at i lt;
  inside_here = weight-le-tally inside n at i lt;
}

Move-Inv :
    {n i : ℕ} {l l' : ReadWriteLock} {at at' : ℕ → Place} {p p' : Place}
    → Move i l p l' p'
    → Moved n at at' p p'
    → Inv n l at
    → Inv n l' at'
Move-Inv (read_lock e) d v = ground arith
Move-Inv (count_first e) d v = ground arith
Move-Inv (count_other e) d v = ground arith
Move-Inv (shut_out e) d v = ground arith
Move-Inv read_start d v = ground arith
Move-Inv (read_unlock e) d v = ground arith
Move-Inv (discount_last e) d v = ground arith
Move-Inv (discount_other e) d v = ground arith
Move-Inv let_in d v = ground arith
Move-Inv read_end d v = ground arith
Move-Inv (write_lock e) d v = ground arith
Move-Inv write_unlock d v = ground arith

init-Inv : (n : ℕ) → Inv n init.lock init.at
init-Inv n = record {
  counted = omega (arith, none_at at_first refl, none_at inside refl);
  read_held = omega (arith, none_at at_first refl, none_at at_last refl, none_at guarded refl);
  write_held = rw (none_at is_writing refl, none_at at_last refl, none_at inside refl);
  alone = λ h. none_at inside refl;
  emptied = λ h. none_at inside refl;
}
  where
    none_at : (weight : Place → ℕ) → weight outside ≡ 0 → tally weight n init.at ≡ 0
    none_at weight e = tally-zero weight n init.at (λ i. e)

pub Reach-Inv : {n : ℕ} {s : System} → Reach n s → Inv n s.lock s.at
Reach-Inv {n} start = init-Inv n
Reach-Inv {n} (later {s} r (step i {p = p} lt m)) =
    Move-Inv m (moved-Moved n i s.at p lt) (Reach-Inv r)

-- While a thread writes, no other thread reads or writes.
pub write_exclusion :
    {n : ℕ} {s : System}
    → Reach n s
    → (i j : ℕ) → i < n
    → j < n
    → i ≢ j
    → s.at i ≡ writing
    → (s.at j ≢ reading) × (s.at j ≢ writing)
write_exclusion {n} {s} r i j hi hj ne w = (
  λ e. ground (arith, writes, inside_of e, (Reach-Inv r).write_held, held_le s.lock.write_mtx),
  λ e. ground (arith, two e, (Reach-Inv r).write_held, held_le s.lock.write_mtx),
)
  where
    writes : 1 ≤ tally is_writing n s.at
    writes = ground (arith, weight-le-tally is_writing n s.at i)

    inside_of : s.at j ≡ reading → 1 ≤ tally inside n s.at
    inside_of e = ground (arith, weight-le-tally inside n s.at j)

    two : s.at j ≡ writing → 2 ≤ tally is_writing n s.at
    two e = ground (arith, weights-le-tally is_writing n s.at i j)

-- When every thread is outside again, the lock is as it was at the start.
pub all_outside :
    {n : ℕ} {s : System} → Reach n s → ((i : ℕ) → s.at i ≡ outside) → s.lock ≡ init.lock
all_outside {n} {s} r quiet = ground (
  arith,
  Reach-Inv r,
  none_at at_first refl,
  none_at inside refl,
  none_at at_last refl,
  none_at guarded refl,
  none_at is_writing refl,
)
  where
    none_at : (weight : Place → ℕ) → weight outside ≡ 0 → tally weight n s.at ≡ 0
    none_at weight e = tally-zero weight n s.at (λ i. ap weight (quiet i) ∙ e)
