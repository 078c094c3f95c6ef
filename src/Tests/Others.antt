-- ===== src/Tests/Others.antt =====
-- The lock and the timer, on concrete runs.
use pa.Prelude.{ℕ, ◌≡◌, ◌≢◌, refl, some, [], ◌∷◌, arith, pos}
use pa.Messages.Order.{LaptopOrder}
use pa.Messages.Info
use pa.Messages.Info.{LaptopInfo}
use pa.RwLock.{writing, reading, last, System, init, step, Reach, start, later, write_lock}
use pa.RwLock.Exclusion.{write_exclusion}
use pa.RwLock.Progress.{SomeoneMoves, no_deadlock}
use pa.RwLock.Ownership.{foreign_unlock}
use pa.Timer.{new, merge}
use pa.Timer.Merged.{measure, SameStats, merge-measure}
use pa.Customer.{Run}
use pa.Threads.{moved}

-- The second of two threads has the lock for writing.
abbrev one_writes : System
one_writes = record { lock = record init.lock { write_mtx = some 1 }; at = moved init.at 1 writing }

one_writes_Reach : Reach 2 one_writes
one_writes_Reach = later start (step 1 (omega arith) (write_lock refl))

write_exclusion_example : (one_writes.at 0 ≢ reading) × (one_writes.at 0 ≢ writing)
write_exclusion_example =
    write_exclusion one_writes_Reach 1 0 (omega arith) (omega arith) (omega arith) refl

foreign_unlock_example : (s : System) × Reach 2 s × (s.at 1 ≡ last) × (s.lock.write_mtx ≡ some 0)
foreign_unlock_example = foreign_unlock 2 0 1 (omega arith) (omega arith) (omega arith)

merge-measure_example :
    SameStats
      (merge (measure (new 1) ((5, 9) ∷ (10, 30) ∷ [])) (measure (new 2) ((7, 8) ∷ [])))
      (measure (new 3) ((5, 9) ∷ (10, 30) ∷ (7, 8) ∷ []))
merge-measure_example = merge-measure 1 2 3 ((5, 9) ∷ (10, 30) ∷ []) ((7, 8) ∷ [])

-- A server that makes every laptop at once, and counts them.
abbrev made : LaptopOrder → LaptopInfo
made o = Info.set_info o.customer_id o.order_number o.laptop_type (pos 0) (pos 1)

abbrev run : Run ℕ
run = record { service_state = 0; timer = new 0; lines = [] }

no_deadlock_example : SomeoneMoves 2 one_writes
no_deadlock_example = no_deadlock one_writes_Reach 1 (omega arith) (ground arith)
