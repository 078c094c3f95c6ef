-- ===== src/Messages/RoundTrip.antt =====
-- What `Marshal` writes and `Unmarshal` reads, on any two machines.
use pa.Prelude.{
  ℕ, ◌≤◌, ◌≡◌, ◌∙◌, ap, List, [], ◌∷◌, ◌++◌, length, length-append, length-drop, take, drop,
  take-append, All, arith, ℤ, pos, IsInt,
}
use pa.Host.{Host}
use pa.Messages.Fields.{
  put_fields, put_fields-encode, length-encode, network, encode, get_field-encode,
  get_field-encode_htonl,
}
use pa.Messages.Order
use pa.Messages.Order.{LaptopOrder}
use pa.Messages.Info
use pa.Messages.Info.{LaptopInfo}
use pa.Messages.Record
use pa.Messages.Record.{CustomerRecord}
use pa.Messages.Request
use pa.Messages.Request.{MapOp, ReplicationRequest}

-- The fields of each message in the order of the wire.
abbrev pub order_fields : LaptopOrder → List ℤ
order_fields o = o.customer_id ∷ o.order_number ∷ o.laptop_type ∷ []

abbrev pub info_fields : LaptopInfo → List ℤ
info_fields i = i.customer_id ∷ i.order_number ∷ i.laptop_type ∷ i.engineer_id ∷ i.admin_id ∷ []

abbrev pub record_fields : CustomerRecord → List ℤ
record_fields r = r.customer_id ∷ r.last_order ∷ []

abbrev pub request_fields : ReplicationRequest → List ℤ
request_fields r =
    pos 1
    ∷ r.factory_id
    ∷ r.committed_index
    ∷ r.last_index
    ∷ r.operation.opcode
    ∷ r.operation.arg1
    ∷ r.operation.arg2
    ∷ []

-- Every field lies in the range of an `int`.
abbrev pub Fits : List ℤ → Type 0
Fits xs = All IsInt xs

-- The constructor leaves `vid` as it was, and `Marshal` sets it to 1.
abbrev pub sent : ReplicationRequest → ReplicationRequest
sent r = record r { vid = pos 1 }

order-encode :
    (host : Host) (o : LaptopOrder) (buffer : List ℕ)
    → Order.size ≤ length buffer
    → Order.marshal host o buffer ≡ encode (order_fields o) ++ drop Order.size buffer
unfolding Order.marshal put_fields encode network
order-encode host o buffer room = put_fields-encode host (order_fields o) buffer room

-- The bytes that `Send` takes from the buffer are the fields in network byte order.
pub order-wire :
    (host : Host) (o : LaptopOrder) (buffer : List ℕ)
    → Order.size ≤ length buffer
    → take Order.size (Order.marshal host o buffer) ≡ encode (order_fields o)
unfolding encode network
order-wire host o buffer room =
    ap (take Order.size) (order-encode host o buffer room)
    ∙ take-append (encode (order_fields o)) (drop Order.size buffer)

-- `Marshal` keeps the buffer's length.
pub order-length :
    (host : Host) (o : LaptopOrder) (buffer : List ℕ)
    → Order.size ≤ length buffer
    → length (Order.marshal host o buffer) ≡ length buffer
order-length host o buffer room = omega (
  arith,
  ap length (order-encode host o buffer room),
  length-append (encode (order_fields o)) (drop Order.size buffer),
  length-encode (order_fields o),
  length-drop Order.size buffer,
)

pub order-decode :
    (host : Host) (o : LaptopOrder) (rest : List ℕ)
    → Fits (order_fields o)
    → Order.unmarshal host (encode (order_fields o) ++ rest) ≡ o
unfolding Order.unmarshal
order-decode host o rest f = λ i. record {
  customer_id = get_field-encode host (order_fields o) rest 0 (omega arith) f.0 i;
  order_number = get_field-encode host (order_fields o) rest 1 (omega arith) f.1.0 i;
  laptop_type = get_field-encode host (order_fields o) rest 2 (omega arith) f.1.1.0 i;
}

info-encode :
    (host : Host) (o : LaptopInfo) (buffer : List ℕ)
    → Info.size ≤ length buffer
    → Info.marshal host o buffer ≡ encode (info_fields o) ++ drop Info.size buffer
unfolding Info.marshal put_fields encode network
info-encode host o buffer room = put_fields-encode host (info_fields o) buffer room

-- The bytes that `Send` takes from the buffer are the fields in network byte order.
pub info-wire :
    (host : Host) (o : LaptopInfo) (buffer : List ℕ)
    → Info.size ≤ length buffer
    → take Info.size (Info.marshal host o buffer) ≡ encode (info_fields o)
unfolding encode network
info-wire host o buffer room =
    ap (take Info.size) (info-encode host o buffer room)
    ∙ take-append (encode (info_fields o)) (drop Info.size buffer)

-- `Marshal` keeps the buffer's length.
pub info-length :
    (host : Host) (o : LaptopInfo) (buffer : List ℕ)
    → Info.size ≤ length buffer
    → length (Info.marshal host o buffer) ≡ length buffer
info-length host o buffer room = omega (
  arith,
  ap length (info-encode host o buffer room),
  length-append (encode (info_fields o)) (drop Info.size buffer),
  length-encode (info_fields o),
  length-drop Info.size buffer,
)

pub info-decode :
    (host : Host) (o : LaptopInfo) (rest : List ℕ)
    → Fits (info_fields o)
    → Info.unmarshal host (encode (info_fields o) ++ rest) ≡ o
unfolding Info.unmarshal
info-decode host o rest f = λ i. record {
  customer_id = get_field-encode host (info_fields o) rest 0 (omega arith) f.0 i;
  order_number = get_field-encode host (info_fields o) rest 1 (omega arith) f.1.0 i;
  laptop_type = get_field-encode host (info_fields o) rest 2 (omega arith) f.1.1.0 i;
  engineer_id = get_field-encode host (info_fields o) rest 3 (omega arith) f.1.1.1.0 i;
  admin_id = get_field-encode host (info_fields o) rest 4 (omega arith) f.1.1.1.1.0 i;
}

record-encode :
    (host : Host) (r : CustomerRecord) (buffer : List ℕ)
    → Record.size ≤ length buffer
    → Record.marshal host r buffer ≡ encode (record_fields r) ++ drop Record.size buffer
unfolding Record.marshal put_fields encode network
record-encode host r buffer room = put_fields-encode host (record_fields r) buffer room

-- The bytes that `Send` takes from the buffer are the fields in network byte order.
pub record-wire :
    (host : Host) (r : CustomerRecord) (buffer : List ℕ)
    → Record.size ≤ length buffer
    → take Record.size (Record.marshal host r buffer) ≡ encode (record_fields r)
unfolding encode network
record-wire host r buffer room =
    ap (take Record.size) (record-encode host r buffer room)
    ∙ take-append (encode (record_fields r)) (drop Record.size buffer)

-- `Marshal` keeps the buffer's length.
pub record-length :
    (host : Host) (r : CustomerRecord) (buffer : List ℕ)
    → Record.size ≤ length buffer
    → length (Record.marshal host r buffer) ≡ length buffer
record-length host r buffer room = omega (
  arith,
  ap length (record-encode host r buffer room),
  length-append (encode (record_fields r)) (drop Record.size buffer),
  length-encode (record_fields r),
  length-drop Record.size buffer,
)

pub record-decode :
    (host : Host) (r : CustomerRecord) (rest : List ℕ)
    → Fits (record_fields r)
    → Record.unmarshal host (encode (record_fields r) ++ rest) ≡ r
unfolding Record.unmarshal
record-decode host r rest f = λ i. record {
  customer_id = get_field-encode host (record_fields r) rest 0 (omega arith) f.0 i;
  last_order = get_field-encode host (record_fields r) rest 1 (omega arith) f.1.0 i;
}

request-encode :
    (host : Host) (r : ReplicationRequest) (buffer : List ℕ)
    → Request.size ≤ length buffer
    → (Request.marshal host r buffer).1 ≡ encode (request_fields r) ++ drop Request.size buffer
unfolding Request.marshal put_fields encode network
request-encode host r buffer room = put_fields-encode host (request_fields r) buffer room

-- The bytes that `Send` takes from the buffer are the fields in network byte order.
pub request-wire :
    (host : Host) (r : ReplicationRequest) (buffer : List ℕ)
    → Request.size ≤ length buffer
    → take Request.size ((Request.marshal host r buffer).1) ≡ encode (request_fields r)
unfolding encode network
request-wire host r buffer room =
    ap (take Request.size) (request-encode host r buffer room)
    ∙ take-append (encode (request_fields r)) (drop Request.size buffer)

-- `Marshal` keeps the buffer's length.
pub request-length :
    (host : Host) (r : ReplicationRequest) (buffer : List ℕ)
    → Request.size ≤ length buffer
    → length (Request.marshal host r buffer).1 ≡ length buffer
request-length host r buffer room = omega (
  arith,
  ap length (request-encode host r buffer room),
  length-append (encode (request_fields r)) (drop Request.size buffer),
  length-encode (request_fields r),
  length-drop Request.size buffer,
)

pub request-decode :
    (host : Host) (r : ReplicationRequest) (rest : List ℕ)
    → Fits (request_fields r)
    → (Request.unmarshal host (encode (request_fields r) ++ rest)).0 ≡ sent r
unfolding Request.unmarshal
request-decode host r rest f = λ i. record {
  vid = get_field-encode_htonl host (request_fields r) rest 0 (omega arith) f.0 i;
  factory_id = get_field-encode host (request_fields r) rest 1 (omega arith) f.1.0 i;
  committed_index = get_field-encode host (request_fields r) rest 2 (omega arith) f.1.1.0 i;
  last_index = get_field-encode host (request_fields r) rest 3 (omega arith) f.1.1.1.0 i;
  operation = record {
    opcode = get_field-encode host (request_fields r) rest 4 (omega arith) f.1.1.1.1.0 i;
    arg1 = get_field-encode host (request_fields r) rest 5 (omega arith) f.1.1.1.1.1.0 i;
    arg2 = get_field-encode host (request_fields r) rest 6 (omega arith) f.1.1.1.1.1.1.0 i;
  };
}
