-- ===== src/Storage/Latest.antt =====
-- The map of the storage against its log: it holds the latest order of each customer.
use pa.Prelude.{
  ◌^◌, ◌≤◌, ◌≡◌, refl, ap, sym, ◌∙◌, Option, none, some, List, [], ◌∷◌, ◌++◌, append_assoc,
  append-nil, length, length-append, ◌+◌, if◌then◌else◌, arith, ℤ, minus_one, eq_int, eq_int_iff,
  from_word-size, last_of,
}
use pa.Messages.Request.{MapOp}
use pa.Storage.{ServerStorage, new, order_op, lookup, insert, place_order, read_record, get_idx}

-- The order number of the last entry of the log for a customer.
unfoldable pub latest : ℤ → List MapOp → Option ℤ
latest c [] = none
latest c (op ∷ log) = elim (latest c log) [
  | some number ↦ some number
  | none ↦ if eq_int op.arg1 c then some op.arg2 else none
]

abbrev pub or_minus_one : Option ℤ → ℤ
or_minus_one none = minus_one
or_minus_one (some number) = number

-- The map agrees with the log.
abbrev pub IsReplay : ServerStorage → Type 0
IsReplay s = (c : ℤ) → lookup c s.customer_record ≡ latest c s.state_machine_log

lookup-insert :
    (k j v : ℤ) (m : List (ℤ × ℤ))
    → lookup j (insert k v m) ≡ (if eq_int k j then some v else lookup j m)
unfolding lookup insert
lookup-insert k j v [] = refl
lookup-insert k j v ((i, w) ∷ m) =
    ground (arith, eq_int_iff k j, eq_int_iff i k, eq_int_iff i j, lookup-insert k j v m)

latest-append :
    (c k n : ℤ) (log : List MapOp)
    → latest c (log ++ (order_op k n ∷ [])) ≡ (if eq_int k c then some n else latest c log)
unfolding latest
latest-append c k n [] = refl
latest-append c k n (op ∷ log) = ground (arith, latest-append c k n log)

-- Placing an order keeps the map in agreement with the log.
pub place_order-IsReplay : (s : ServerStorage) (c n : ℤ) → IsReplay s → IsReplay (place_order s c n)
unfolding place_order
place_order-IsReplay s c n r d =
    rw (lookup-insert c d n s.customer_record, latest-append d c n s.state_machine_log, r d)

-- A read after a write: the written customer has the new number, all others keep theirs.
pub read_record-place_order :
    (s : ServerStorage) (c d n : ℤ)
    → read_record (place_order s c n) d ≡ (if eq_int c d then n else read_record s d)
unfolding read_record place_order
read_record-place_order s c d n = ground (arith, lookup-insert c d n s.customer_record)

-- The orders applied one after the other.
unfoldable pub place_orders : ServerStorage → List (ℤ × ℤ) → ServerStorage
place_orders s [] = s
place_orders s ((c, n) ∷ orders) = place_orders (place_order s c n) orders

-- The log that orders leave behind.
unfoldable pub log_of : List (ℤ × ℤ) → List MapOp
log_of [] = []
log_of ((c, n) ∷ orders) = order_op c n ∷ log_of orders

pub place_orders-IsReplay :
    (s : ServerStorage) (orders : List (ℤ × ℤ)) → IsReplay s → IsReplay (place_orders s orders)
unfolding place_orders
place_orders-IsReplay s [] r = r
place_orders-IsReplay s ((c, n) ∷ orders) r =
    place_orders-IsReplay (place_order s c n) orders (place_order-IsReplay s c n r)

pub log-place_orders :
    (s : ServerStorage) (orders : List (ℤ × ℤ))
    → (place_orders s orders).state_machine_log ≡ s.state_machine_log ++ log_of orders
unfolding place_orders log_of place_order
log-place_orders s [] = sym (append-nil s.state_machine_log)
log-place_orders s ((c, n) ∷ orders) =
    log-place_orders (place_order s c n) orders
    ∙ append_assoc s.state_machine_log (order_op c n ∷ []) (log_of orders)

pub read_record_of_IsReplay :
    (s : ServerStorage) (c : ℤ)
    → IsReplay s
    → read_record s c ≡ or_minus_one (latest c s.state_machine_log)
unfolding read_record
read_record_of_IsReplay s c r = ground (arith, r c)

pub new-IsReplay : IsReplay new
unfolding lookup latest
new-IsReplay c = refl

-- From an empty storage, after any orders, the log is those orders and every read is the latest
-- one of its customer, or -1 without one.
pub place_orders_lem :
    (orders : List (ℤ × ℤ)) (c : ℤ)
    → ((place_orders new orders).state_machine_log ≡ log_of orders)
      × (read_record (place_orders new orders) c ≡ or_minus_one (latest c (log_of orders)))
place_orders_lem orders c = (
  log,
  read_record_of_IsReplay _ c (place_orders-IsReplay new orders new-IsReplay)
      ∙ ap (λ l. or_minus_one (latest c l)) log,
)
  where
    log : (place_orders new orders).state_machine_log ≡ log_of orders
    log = log-place_orders new orders

-- Storages with the same log answer every read alike.
pub read_record-same_log :
    (s t : ServerStorage) (c : ℤ)
    → IsReplay s
    → IsReplay t
    → s.state_machine_log ≡ t.state_machine_log
    → read_record s c ≡ read_record t c
read_record-same_log s t c rs rt e =
    read_record_of_IsReplay s c rs
    ∙ ap (λ l. or_minus_one (latest c l)) e
    ∙ sym (read_record_of_IsReplay t c rt)

-- With at most 2 ^ 31 entries in the log, `getIdx` is the index of its last entry, and -1 for an
-- empty log.
pub get_idx_lem :
    (s : ServerStorage)
    → length s.state_machine_log ≤ 2 ^ 31
    → get_idx s ≡ last_of (length s.state_machine_log)
unfolding get_idx
get_idx_lem s h = from_word-size (length s.state_machine_log) h

-- An order adds one entry.
pub length-place_order :
    (s : ServerStorage) (c n : ℤ)
    → length (place_order s c n).state_machine_log ≡ length s.state_machine_log + 1
unfolding place_order
length-place_order s c n = length-append s.state_machine_log (order_op c n ∷ [])
