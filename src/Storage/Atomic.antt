-- ===== src/Storage/Atomic.antt =====
-- The calls of ServerStorage under their lock do what they would do one at a time.
use pa.Prelude.{
  ℕ, ◌<◌, ◌≡◌, ◌≢◌, refl, sym, ap, ◌∙◌, subst, Bool-cases, Option, none, some, inl, inr, List, [],
  ◌∷◌, ◌++◌, append-nil, append_assoc, ℤ,
}
use pa.RwLock.{Place, reading, writing}
use pa.Storage.{ServerStorage, order_op, lookup, read_record}
use pa.Storage.Latest.{
  latest, or_minus_one, place_orders, place_orders-IsReplay, log_of, log-place_orders,
  read_record_of_IsReplay,
}
use pa.Storage.Shared.{
  Work, answered, get, Do, calls_order, calls_read, pushes, assigns, counts, gets, Shared, does,
  locks, Reach, start, later,
}
use pa.Storage.Accesses.{half, Good, writing_of_half}
use pa.Storage.Guarded.{Reach-Sound, Reach-replay}

-- The orders behind the log at the start.
abbrev Behind : ServerStorage → List (ℤ × ℤ) → ServerStorage → Type 0
Behind s orders t = t.state_machine_log ≡ s.state_machine_log ++ log_of orders

got-log :
    (s : ServerStorage) (c : ℤ) (o : Option ℤ)
    → (get s c o).0.state_machine_log ≡ s.state_machine_log
got-log s c none = refl
got-log s c (some k) = refl

log_of-snoc :
    (orders : List (ℤ × ℤ)) (c n : ℤ)
    → log_of (orders ++ ((c, n) ∷ [])) ≡ log_of orders ++ (order_op c n ∷ [])
unfolding log_of
log_of-snoc [] c n = refl
log_of-snoc ((d, k) ∷ orders) c n = ap (◌∷◌ (order_op d k)) (log_of-snoc orders c n)

Do-Behind :
    (s0 : ServerStorage) {s t : ServerStorage} {p : Place} {w w' : Work} (orders : List (ℤ × ℤ))
    → Do s p w t w'
    → Behind s0 orders s
    → (more : List (ℤ × ℤ)) × Behind s0 more t
Do-Behind s0 orders (calls_order c k) e = (orders, e)
Do-Behind s0 orders (calls_read c) e = (orders, e)
Do-Behind s0 orders (pushes c k) e = (
  orders ++ ((c, k) ∷ []),
  ap (λ log. log ++ (order_op c k ∷ [])) e
      ∙ append_assoc s0.state_machine_log (log_of orders) (order_op c k ∷ [])
      ∙ ap (◌++◌ s0.state_machine_log) (sym (log_of-snoc orders c k)),
)
Do-Behind s0 orders (assigns c k) e = (orders, e)
Do-Behind s0 orders (counts c) e = (orders, e)
Do-Behind s0 {s} orders (gets c) e = (orders, got-log s c (lookup c s.customer_record) ∙ e)

Reach-Behind :
    {n : ℕ} {s0 s : Shared}
    → Reach n s0 s
    → (orders : List (ℤ × ℤ)) × Behind s0.storage orders s.storage
unfolding log_of
Reach-Behind {n} {s0} (start b) = ([], sym (append-nil s0.storage.state_machine_log))
Reach-Behind {n} {s0} (later r (does i lt d)) =
    let (orders, e) = Reach-Behind r in Do-Behind s0.storage orders d e
Reach-Behind {n} {s0} (later r (locks i lt m takes)) = Reach-Behind r

-- The log is that of orders placed one at a time, and a read of the customer would give the number.
pub record OneAtATime (s0 s : ServerStorage) (customer_id number : ℤ) : Type 0 where
  pub orders : List (ℤ × ℤ)
  pub log : s.state_machine_log ≡ (place_orders s0 orders).state_machine_log
  pub read : number ≡ read_record (place_orders s0 orders) customer_id

latest-OneAtATime :
    {n : ℕ} {s0 s : Shared} (customer_id number : ℤ)
    → Reach n s0 s
    → number ≡ or_minus_one (latest customer_id s.storage.state_machine_log)
    → OneAtATime s0.storage s.storage customer_id number
latest-OneAtATime {n} {s0} {s} customer_id number r e =
    let (orders, behind) = Reach-Behind r in
    let log = behind ∙ sym (log-place_orders s0.storage orders) in
    record {
      orders = orders;
      log = log;
      read =
          e
          ∙ ap (λ l. or_minus_one (latest customer_id l)) log
          ∙ sym (
              read_record_of_IsReplay (place_orders s0.storage orders) customer_id
                (place_orders-IsReplay s0.storage orders (Reach-replay r)));
    }

-- Any number of threads call `place_order` and `read_record`, with their steps and those of the lock in
-- any order. While a thread that has its result still holds the lock, the result is what the read of
-- the customer gives after the orders in the log placed one at a time: no half of an order is seen.
pub read_record-Atomic :
    {n : ℕ} {s0 s : Shared} (i : ℕ) (customer_id number : ℤ)
    → Reach n s0 s
    → i < n
    → s.lock.at i ≡ reading
    → s.works i ≡ answered customer_id number
    → OneAtATime s0.storage s.storage customer_id number
read_record-Atomic {n} {s0} {s} i customer_id number r lt reads result =
    latest-OneAtATime customer_id number r
      (subst (Good s.storage (s.lock.at i)) result ((Reach-Sound r).good i lt) reads)

-- Whenever no thread holds the lock for writing, the storage answers every read as after the orders in
-- its log placed one at a time.
pub place_order-Atomic :
    {n : ℕ} {s0 s : Shared} (customer_id : ℤ)
    → Reach n s0 s
    → ((i : ℕ) → i < n → s.lock.at i ≢ writing)
    → OneAtATime s0.storage s.storage customer_id (read_record s.storage customer_id)
place_order-Atomic {n} {s0} {s} customer_id r quiet =
    let h = Reach-Sound r in
    latest-OneAtATime customer_id _ r (
      read_record_of_IsReplay s.storage customer_id (
        h.whole (λ i lt. elim (Bool-cases (half (s.works i))) [
          | inr f ↦ f
          | inl t ↦
              absurd
                (quiet i lt (writing_of_half s.storage (s.lock.at i) (s.works i) (h.good i lt) t))
        ])))
