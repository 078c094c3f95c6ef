-- ===== src/RwLock.antt =====
-- class ReadWriteLock of RWLock.h, used by any number of threads. Each access to a mutex or to the
-- counter is one step, and the scheduler picks who moves.
pub mod Exclusion
pub mod Ownership
pub mod Progress
use pa.Prelude.{ℕ, ◌+◌, ◌-◌, ◌<◌, ◌≡◌, ◌≢◌, Option, none, some}
use pa.Threads.{moved}

-- A `std::mutex` is held by a thread or free. `readCnt` never leaves the numbers from 0 to the number
-- of threads.
pub record ReadWriteLock : Type 0 where
  pub read_mtx : Option ℕ
  pub write_mtx : Option ℕ
  pub read_cnt : ℕ

-- Where a thread stands in its use of the lock.
pub data Place : Type 0 where
  outside : Place  -- holds nothing
  entering : Place  -- readLock, before `++readCnt`
  first : Place  -- readLock, before `writeMtx.lock()`
  entered : Place  -- readLock, before `readMtx.unlock()`
  reading : Place  -- between readLock and readUnlock
  leaving : Place  -- readUnlock, before `--readCnt`
  last : Place  -- readUnlock, before `writeMtx.unlock()`
  left : Place  -- readUnlock, before `readMtx.unlock()`
  writing : Place  -- between writeLock and writeUnlock

-- One step of thread `i` from one place to the next. `lock` waits until the mutex is free; `unlock`
-- frees it, whoever holds it.
pub data Move (i : ℕ) (l : ReadWriteLock) : Place → ReadWriteLock → Place → Type 0 where
  read_lock : l.read_mtx ≡ none → Move i l outside (record l { read_mtx = some i }) entering
  count_first :
      l.read_cnt + 1 ≡ 1 → Move i l entering (record l { read_cnt = l.read_cnt + 1 }) first
  count_other :
      l.read_cnt + 1 ≢ 1 → Move i l entering (record l { read_cnt = l.read_cnt + 1 }) entered
  shut_out : l.write_mtx ≡ none → Move i l first (record l { write_mtx = some i }) entered
  read_start : Move i l entered (record l { read_mtx = none }) reading
  read_unlock : l.read_mtx ≡ none → Move i l reading (record l { read_mtx = some i }) leaving
  discount_last :
      l.read_cnt - 1 ≡ 0 → Move i l leaving (record l { read_cnt = l.read_cnt - 1 }) last
  discount_other :
      l.read_cnt - 1 ≢ 0 → Move i l leaving (record l { read_cnt = l.read_cnt - 1 }) left
  let_in : Move i l last (record l { write_mtx = none }) left
  read_end : Move i l left (record l { read_mtx = none }) outside
  write_lock : l.write_mtx ≡ none → Move i l outside (record l { write_mtx = some i }) writing
  write_unlock : Move i l writing (record l { write_mtx = none }) outside

pub record System : Type 0 where
  pub lock : ReadWriteLock
  pub at : ℕ → Place

-- ReadWriteLock::ReadWriteLock, with every thread outside
abbrev pub init : System
init = record {
  lock = record { read_mtx = none; write_mtx = none; read_cnt = 0 };
  at = λ _. outside;
}

-- One of the first `n` threads moves.
pub data Step (n : ℕ) (s : System) : System → Type 0 where
  step :
      (i : ℕ) {l : ReadWriteLock} {p : Place}
      → i < n
      → Move i s.lock (s.at i) l p
      → Step n s (record { lock = l; at = moved s.at i p })

pub data Reach (n : ℕ) : System → Type 0 where
  start : Reach n init
  later : {s t : System} → Reach n s → Step n s t → Reach n t
