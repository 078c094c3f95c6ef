-- ===== src/RwLock/Ownership.antt =====
-- Which thread unlocks `writeMtx` for the readers.
use pa.Prelude.{ℕ, ◌<◌, ◌≡◌, ◌≢◌, refl, sym, subst, some, arith}
use pa.Threads.{moved}
use pa.RwLock.{
  ReadWriteLock, Place, last, Move, read_lock, count_first, count_other, shut_out, read_start,
  read_unlock, discount_last, discount_other, read_end, System, step, Reach, start, later,
}

-- A thread that stands at `p` moves on.
goes :
    {n i : ℕ} {s : System} {p p' : Place} {l : ReadWriteLock}
    → Reach n s
    → i < n
    → Move i s.lock p l p'
    → s.at i ≡ p
    → Reach n (record { lock = l; at = moved s.at i p' })
goes {i = i} {s = s} {p' = p'} {l = l} r lt m e =
    later r (step i lt (subst (λ p. Move i s.lock p l p') (sym e) m))

-- When two threads read and the first to come is the first to go, the other frees `writeMtx` though
-- the first holds it.
pub foreign_unlock :
    (n i j : ℕ)
    → i < n
    → j < n
    → i ≢ j
    → (s : System) × Reach n s × (s.at j ≡ last) × (s.lock.write_mtx ≡ some i)
foreign_unlock n i j hi hj ne =
    let r1 = goes {i = i} start hi (read_lock refl) refl in
    let r2 = goes {i = i} r1 hi (count_first refl) (ground arith) in
    let r3 = goes {i = i} r2 hi (shut_out refl) (ground arith) in
    let r4 = goes {i = i} r3 hi read_start (ground arith) in
    let r5 = goes {i = j} r4 hj (read_lock refl) (ground arith) in
    let r6 = goes {i = j} r5 hj (count_other (omega arith)) (ground arith) in
    let r7 = goes {i = j} r6 hj read_start (ground arith) in
    let r8 = goes {i = i} r7 hi (read_unlock refl) (ground arith) in
    let r9 = goes {i = i} r8 hi (discount_other (omega arith)) (ground arith) in
    let r10 = goes {i = i} r9 hi read_end (ground arith) in
    let r11 = goes {i = j} r10 hj (read_unlock refl) (ground arith) in
    let r12 = goes {i = j} r11 hj (discount_last refl) (ground arith) in
    (_, r12, ground arith, refl)
