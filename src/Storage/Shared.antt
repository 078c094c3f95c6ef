-- ===== src/Storage/Shared.antt =====
-- ServerStorage::place_order and ServerStorage::read_record of ServerStorage.cpp as several threads run
-- them: each access to the log or the map is a step, and so is each step of the ReadWriteLock round it.
use pa.Prelude.{
  ℕ, ◌<◌, ◌≡◌, Bool, true, false, Option, none, some, [], ◌∷◌, ◌++◌, ℤ, pos, minus_one,
}
use pa.Threads.{moved}
use pa.RwLock
use pa.RwLock.{
  ReadWriteLock, Place, outside, entering, first, entered, reading, leaving, last, left, writing,
  Move,
}
use pa.Storage.{ServerStorage, order_op, lookup, insert}
use pa.Storage.Latest.{IsReplay}

-- Where a thread stands in its call: in no call; in place_order before `push_back`, before the
-- assignment, and behind it; in read_record before `count`, before `[]`, and with its result.
pub data Work : Type 0 where
  free stored : Work
  order pushed : ℤ → ℤ → Work
  ask counted : ℤ → Work
  answered : ℤ → ℤ → Work

-- `state_machine_log.push_back(op)`
abbrev pub push : ServerStorage → ℤ → ℤ → ServerStorage
push s customer_id number = record s {
  state_machine_log = s.state_machine_log ++ (order_op customer_id number ∷ []);
}

-- `customer_record[customer_id] = latest_number_of_customer`
abbrev pub assign : ServerStorage → ℤ → ℤ → ServerStorage
assign s customer_id number = record s {
  customer_record = insert customer_id number s.customer_record;
}

-- The test of `customer_record.count(customer_id)`
abbrev pub count : ℤ → Option ℤ → Work
count customer_id none = answered customer_id minus_one
count customer_id (some number) = counted customer_id

-- `customer_record[customer_id]`, which adds a 0 where there is nothing.
abbrev pub get : ServerStorage → ℤ → Option ℤ → ServerStorage × ℤ
get s customer_id none = (assign s customer_id (pos 0), pos 0)
get s customer_id (some number) = (s, number)

-- What a thread does at a place of the lock.
pub data Do (s : ServerStorage) : Place → Work → ServerStorage → Work → Type 0 where
  calls_order : (c n : ℤ) → Do s outside free s (order c n)
  calls_read : (c : ℤ) → Do s outside free s (ask c)
  pushes : (c n : ℤ) → Do s writing (order c n) (push s c n) (pushed c n)
  assigns : (c n : ℤ) → Do s writing (pushed c n) (assign s c n) stored
  counts : (c : ℤ) → Do s reading (ask c) s (count c (lookup c s.customer_record))
  gets :
      (c : ℤ)
      → Do s reading
          (counted c)
          (get s c (lookup c s.customer_record)).0
          (answered c (get s c (lookup c s.customer_record)).1)

-- The places that readLock and readUnlock go to.
abbrev pub locking : Place → Bool
locking entering = true
locking first = true
locking entered = true
locking reading = true
locking _ = false

abbrev pub unlocking : Place → Bool
unlocking leaving = true
unlocking last = true
unlocking left = true
unlocking _ = false

-- The steps of the lock that a call takes.
pub data Takes (p : Place) : Work → Place → Work → Type 0 where
  write_locks : (c n : ℤ) → Takes p (order c n) writing (order c n)
  write_unlocks : Takes p stored outside free
  read_locks : (c : ℤ) (p' : Place) → locking p' ≡ true → Takes p (ask c) p' (ask c)
  read_unlocks :
      (c n : ℤ) (p' : Place) → unlocking p' ≡ true → Takes p (answered c n) p' (answered c n)
  returns : (c n : ℤ) → p ≡ left → Takes p (answered c n) outside free

pub record Shared : Type 0 where
  pub lock : RwLock.System
  pub storage : ServerStorage
  pub works : ℕ → Work

-- One of the first `n` threads does something, or takes a step of the lock.
pub data Step (n : ℕ) (s : Shared) : Shared → Type 0 where
  does :
      (i : ℕ) {storage : ServerStorage} {w : Work}
      → i < n
      → Do s.storage (s.lock.at i) (s.works i) storage w
      → Step n s (record s { storage = storage; works = moved s.works i w })
  locks :
      (i : ℕ) {l : ReadWriteLock} {p : Place} {w : Work}
      → i < n
      → Move i s.lock.lock (s.lock.at i) l p
      → Takes (s.lock.at i) (s.works i) p w
      → Step n s (record s {
        lock = record { lock = l; at = moved s.lock.at i p };
        works = moved s.works i w;
      })

-- At the start no thread is in a call, and the map agrees with the log.
pub record Starts (s : Shared) : Type 0 where
  pub lock : s.lock ≡ RwLock.init
  pub storage : IsReplay s.storage
  pub works : (i : ℕ) → s.works i ≡ free

pub data Reach (n : ℕ) (s0 : Shared) : Shared → Type 0 where
  start : Starts s0 → Reach n s0 s0
  later : {s t : Shared} → Reach n s0 s → Step n s t → Reach n s0 t
