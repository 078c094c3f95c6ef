-- ===== src/Messages/Record.antt =====
-- class CustomerRecord of Messages.h and Messages.cpp. The getters are the fields.
use pa.Prelude.{ℕ, ◌+◌, List, Bool, not, ℤ, minus_one, eq_int}
use pa.Host.{Host}
use pa.Messages.Fields.{int_size, put_field, get_field}

pub record CustomerRecord : Type 0 where
  pub customer_id : ℤ
  pub last_order : ℤ

-- The default constructor, with the initialisers of the fields.
abbrev pub new : CustomerRecord
new = record { customer_id = minus_one; last_order = minus_one }

-- CustomerRecord::CustomerRecord(int, int)
abbrev pub make : ℤ → ℤ → CustomerRecord
make customer_id last_order = record { customer_id = customer_id; last_order = last_order }

-- CustomerRecord::setCustomerId
abbrev pub set_customer_id : CustomerRecord → ℤ → CustomerRecord
set_customer_id r id = record r { customer_id = id }

-- CustomerRecord::setLastOrder
abbrev pub set_last_order : CustomerRecord → ℤ → CustomerRecord
set_last_order r last = record r { last_order = last }

-- CustomerRecord::Size
abbrev pub size : ℕ
size = int_size + int_size

-- CustomerRecord::Marshal
unfoldable pub marshal : Host → CustomerRecord → List ℕ → List ℕ
marshal host r buffer0 =
    let buffer1 = put_field host buffer0 0 r.customer_id in put_field host buffer1 4 r.last_order

-- CustomerRecord::Unmarshal
unfoldable pub unmarshal : Host → List ℕ → CustomerRecord
unmarshal host buffer = record {
  customer_id = get_field host buffer 0;
  last_order = get_field host buffer 4;
}

-- CustomerRecord::IsValid
unfoldable pub is_valid : CustomerRecord → Bool
is_valid r = not (eq_int r.customer_id minus_one)
