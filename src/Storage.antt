-- ===== src/Storage.antt =====
-- class ServerStorage of ServerStorage.h and ServerStorage.cpp: the order log of a factory and the
-- map of each customer's latest order. The lock round each method is in `RwLock`.
pub mod Latest
pub mod Shared
pub mod Accesses
pub mod Guarded
pub mod Atomic
use pa.Prelude.{
  ℕ, ◌+◌, ◌-◌, ◌%◌, ◌^◌, Option, none, some, List, [], ◌∷◌, ◌++◌, length, if◌then◌else◌, ℤ, pos,
  minus_one, eq_int, from_word,
}
use pa.Messages.Request.{MapOp}

-- `std::map<int, int>` by its operations: `lookup` is `count` and the read by `[]`, `insert` the
-- assignment through `[]`.
unfoldable pub lookup : ℤ → List (ℤ × ℤ) → Option ℤ
lookup k [] = none
lookup k ((j, v) ∷ m) = if eq_int j k then some v else lookup k m

unfoldable pub insert : ℤ → ℤ → List (ℤ × ℤ) → List (ℤ × ℤ)
insert k v [] = (k, v) ∷ []
insert k v ((j, w) ∷ m) = if eq_int j k then (k, v) ∷ m else (j, w) ∷ insert k v m

pub record ServerStorage : Type 0 where
  pub customer_record : List (ℤ × ℤ)
  pub state_machine_log : List MapOp

-- The default constructor.
abbrev pub new : ServerStorage
new = record { customer_record = []; state_machine_log = [] }

-- `MapOp{1, customer_id, latest_number_of_customer}`
abbrev pub order_op : ℤ → ℤ → MapOp
order_op customer_id number = record { opcode = pos 1; arg1 = customer_id; arg2 = number }

-- ServerStorage::place_order
unfoldable pub place_order : ServerStorage → ℤ → ℤ → ServerStorage
unfolding insert
place_order s customer_id number = record {
  customer_record = insert customer_id number s.customer_record;
  state_machine_log = s.state_machine_log ++ (order_op customer_id number ∷ []);
}

-- ServerStorage::read_record
unfoldable pub read_record : ServerStorage → ℤ → ℤ
unfolding lookup
read_record s customer_id = elim (lookup customer_id s.customer_record) [
  | none ↦ minus_one
  | some number ↦ number
]

-- ServerStorage::get_log, a copy
abbrev pub get_log : ServerStorage → List MapOp
get_log s = s.state_machine_log

-- ServerStorage::getIdx: `size() - 1` wraps in `size_t`, and the result is narrowed to `int`.
unfoldable pub get_idx : ServerStorage → ℤ
get_idx s = from_word ((length s.state_machine_log + 2 ^ 64 - 1) % 2 ^ 64)
