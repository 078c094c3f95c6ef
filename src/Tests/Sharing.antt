-- ===== src/Tests/Sharing.antt =====
-- Two threads on one storage: the first places an order, the second then reads it.
use pa.Prelude.{ℕ, ◌<◌, ◌≢◌, refl, zero, suc, some, none, arith, ℤ, pos}
use pa.Threads.{moved}
use pa.RwLock
use pa.RwLock.{ReadWriteLock, Place}
use pa.Storage.{ServerStorage, new, lookup, insert, read_record}
use pa.Storage.Latest.{new-IsReplay}
use pa.Storage.Shared.{Work, push, assign, Do, Takes, Shared, Step, Starts, Reach}
use pa.Storage.Atomic.{OneAtATime, read_record-Atomic, place_order-Atomic}

abbrev fresh : Shared
fresh = record { lock = RwLock.init; storage = new; works = λ i. Work.free }

fresh-Starts : Starts fresh
fresh-Starts = record { lock = refl; storage = new-IsReplay; works = λ i. refl }

-- A thread after an access, and after a step of the lock.
abbrev acted : Shared → ℕ → ServerStorage → Work → Shared
acted s i t w = record s { storage = t; works = moved s.works i w }

abbrev locked : Shared → ℕ → ReadWriteLock → Place → Work → Shared
locked s i l p w = record s {
  lock = record { lock = l; at = moved s.lock.at i p };
  works = moved s.works i w;
}

abbrev customer : ℤ
customer = pos 3

abbrev number : ℤ
number = pos 70000

abbrev writes : Shared
writes =
    locked (acted fresh 0 new (Work.order customer number)) 0
      (record RwLock.init.lock { write_mtx = some 0 }) Place.writing (Work.order customer number)

-- Half of the order.
abbrev pushed : Shared
pushed = acted writes 0 (push new customer number) (Work.pushed customer number)

pushed-Reach : Reach 2 fresh pushed
pushed-Reach =
    Reach.later
      (Reach.later
        (Reach.later (Reach.start fresh-Starts)
          (Step.does 0 (omega arith) (Do.calls_order customer number)))
        (Step.locks 0 (omega arith) (RwLock.write_lock refl) (Takes.write_locks customer number)))
      (Step.does 0 (omega arith) (Do.pushes customer number))

abbrev whole : ServerStorage
whole = assign (push new customer number) customer number

abbrev unlocked : Shared
unlocked = locked (acted pushed 0 whole Work.stored) 0 RwLock.init.lock Place.outside Work.free

unlocked-Reach : Reach 2 fresh unlocked
unlocked-Reach =
    Reach.later (Reach.later pushed-Reach (Step.does 0 (omega arith) (Do.assigns customer number)))
      (Step.locks 0 (omega arith) RwLock.write_unlock Takes.write_unlocks)

place_order-Atomic_example : OneAtATime new whole customer (read_record whole customer)
place_order-Atomic_example = place_order-Atomic customer unlocked-Reach quiet
  where
    quiet : (i : ℕ) → i < 2 → unlocked.lock.at i ≢ Place.writing
    quiet zero lt = λ e. cc
    quiet (suc zero) lt = λ e. cc
    quiet (suc (suc i)) lt = absurd (omega arith)

-- The second thread asks, enters and has its result.
abbrev asks : Work
asks = Work.ask customer

abbrev counted : ReadWriteLock
counted = record { read_mtx = some 1; write_mtx = none; read_cnt = 1 }

abbrev entered : ReadWriteLock
entered = record { read_mtx = some 1; write_mtx = some 1; read_cnt = 1 }

abbrev inside : Shared
inside =
    locked
      (locked
        (locked
          (locked (acted unlocked 1 whole asks) 1 (record RwLock.init.lock { read_mtx = some 1 })
            Place.entering asks)
          1 counted Place.first asks)
        1 entered Place.entered asks)
      1 (record entered { read_mtx = none }) Place.reading asks

inside-Reach : Reach 2 fresh inside
inside-Reach =
    Reach.later
      (Reach.later
        (Reach.later
          (Reach.later
            (Reach.later unlocked-Reach (Step.does 1 (omega arith) (Do.calls_read customer)))
            (Step.locks 1 (omega arith) (RwLock.read_lock refl)
              (Takes.read_locks customer Place.entering refl)))
          (Step.locks 1 (omega arith) (RwLock.count_first refl)
            (Takes.read_locks customer Place.first refl)))
        (Step.locks 1 (omega arith) (RwLock.shut_out refl)
          (Takes.read_locks customer Place.entered refl)))
      (Step.locks 1 (omega arith) RwLock.read_start (Takes.read_locks customer Place.reading refl))

abbrev answers : Shared
answers =
    acted (acted inside 1 whole (Work.counted customer)) 1 whole (Work.answered customer number)

answers-Reach : Reach 2 fresh answers
unfolding lookup insert
answers-Reach =
    Reach.later (Reach.later inside-Reach (Step.does 1 (omega arith) (Do.counts customer)))
      (Step.does 1 (omega arith) (Do.gets customer))

read_record-Atomic_example : OneAtATime new whole customer number
read_record-Atomic_example =
    read_record-Atomic 1 customer number answers-Reach (omega arith) refl refl
