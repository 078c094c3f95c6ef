-- ===== src/Messages/Order.antt =====
-- class LaptopOrder of Messages.h and Messages.cpp. The getters are the fields.
use pa.Prelude.{ℕ, ◌+◌, List, Bool, not, ℤ, minus_one, eq_int}
use pa.Host.{Host}
use pa.Messages.Fields.{int_size, put_field, get_field}

pub record LaptopOrder : Type 0 where
  pub customer_id : ℤ
  pub order_number : ℤ
  pub laptop_type : ℤ

-- LaptopOrder::LaptopOrder
abbrev pub new : LaptopOrder
new = record { customer_id = minus_one; order_number = minus_one; laptop_type = minus_one }

-- LaptopOrder::SetOrder
abbrev pub set_order : ℤ → ℤ → ℤ → LaptopOrder
set_order id number type = record { customer_id = id; order_number = number; laptop_type = type }

-- LaptopOrder::Size
abbrev pub size : ℕ
size = int_size + int_size + int_size

-- LaptopOrder::Marshal
unfoldable pub marshal : Host → LaptopOrder → List ℕ → List ℕ
marshal host order buffer0 =
    let buffer1 = put_field host buffer0 0 order.customer_id in
    let buffer2 = put_field host buffer1 4 order.order_number in
    put_field host buffer2 8 order.laptop_type

-- LaptopOrder::Unmarshal
unfoldable pub unmarshal : Host → List ℕ → LaptopOrder
unmarshal host buffer = record {
  customer_id = get_field host buffer 0;
  order_number = get_field host buffer 4;
  laptop_type = get_field host buffer 8;
}

-- LaptopOrder::IsValid
unfoldable pub is_valid : LaptopOrder → Bool
is_valid order = not (eq_int order.customer_id minus_one)
