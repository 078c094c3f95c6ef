-- ===== src/Messages/Info.antt =====
-- class LaptopInfo of Messages.h and Messages.cpp. The getters are the fields.
use pa.Prelude.{ℕ, ◌+◌, List, Bool, not, ℤ, minus_one, eq_int}
use pa.Host.{Host}
use pa.Messages.Fields.{int_size, put_field, get_field}
use pa.Messages.Order.{LaptopOrder}

pub record LaptopInfo : Type 0 where
  pub customer_id : ℤ
  pub order_number : ℤ
  pub laptop_type : ℤ
  pub engineer_id : ℤ
  pub admin_id : ℤ

-- LaptopInfo::LaptopInfo
abbrev pub new : LaptopInfo
new = record {
  customer_id = minus_one;
  order_number = minus_one;
  laptop_type = minus_one;
  engineer_id = minus_one;
  admin_id = minus_one;
}

-- LaptopInfo::SetInfo
abbrev pub set_info : ℤ → ℤ → ℤ → ℤ → ℤ → LaptopInfo
set_info id number type engid expid = record {
  customer_id = id;
  order_number = number;
  laptop_type = type;
  engineer_id = engid;
  admin_id = expid;
}

-- LaptopInfo::CopyOrder
unfoldable pub copy_order : LaptopInfo → LaptopOrder → LaptopInfo
copy_order info order = record info {
  customer_id = order.customer_id;
  order_number = order.order_number;
  laptop_type = order.laptop_type;
}

-- LaptopInfo::SetEngineerId
unfoldable pub set_engineer_id : LaptopInfo → ℤ → LaptopInfo
set_engineer_id info id = record info { engineer_id = id }

-- LaptopInfo::SetAdminId
unfoldable pub set_admin_id : LaptopInfo → ℤ → LaptopInfo
set_admin_id info id = record info { admin_id = id }

-- LaptopInfo::Size
abbrev pub size : ℕ
size = int_size + int_size + int_size + int_size + int_size

-- LaptopInfo::Marshal
unfoldable pub marshal : Host → LaptopInfo → List ℕ → List ℕ
marshal host info buffer0 =
    let buffer1 = put_field host buffer0 0 info.customer_id in
    let buffer2 = put_field host buffer1 4 info.order_number in
    let buffer3 = put_field host buffer2 8 info.laptop_type in
    let buffer4 = put_field host buffer3 12 info.engineer_id in
    put_field host buffer4 16 info.admin_id

-- LaptopInfo::Unmarshal
unfoldable pub unmarshal : Host → List ℕ → LaptopInfo
unmarshal host buffer = record {
  customer_id = get_field host buffer 0;
  order_number = get_field host buffer 4;
  laptop_type = get_field host buffer 8;
  engineer_id = get_field host buffer 12;
  admin_id = get_field host buffer 16;
}

-- LaptopInfo::IsValid
unfoldable pub is_valid : LaptopInfo → Bool
is_valid info = not (eq_int info.customer_id minus_one)
