-- ===== src/Messages/Transport.antt =====
-- A message from one machine to another: `Marshal` into a buffer, its `Size()` bytes over the wire
-- to the front of another buffer, `Unmarshal` there.
use pa.Prelude.{ℕ, ◌≤◌, ◌≡◌, ap, ◌∙◌, List, ◌++◌, length, take}
use pa.Host.{Host}
use pa.Messages.Order
use pa.Messages.Order.{LaptopOrder}
use pa.Messages.Info
use pa.Messages.Info.{LaptopInfo}
use pa.Messages.Record
use pa.Messages.Record.{CustomerRecord}
use pa.Messages.Request
use pa.Messages.Request.{ReplicationRequest}
use pa.Messages.RoundTrip.{
  Fits, sent, order_fields, order-wire, order-decode, info_fields, info-wire, info-decode,
  record_fields, record-wire, record-decode, request_fields, request-wire, request-decode,
}

-- An order arrives as it was sent, whatever the byte orders of the two machines and whatever the
-- buffers held, if its fields are `int`s and the sender's buffer has room.
pub order_transport :
    (sender receiver : Host) (o : LaptopOrder) (buffer behind : List ℕ)
    → Order.size ≤ length buffer
    → Fits (order_fields o)
    → Order.unmarshal receiver (take Order.size (Order.marshal sender o buffer) ++ behind) ≡ o
order_transport sender receiver o buffer behind room fits =
    ap (λ b. Order.unmarshal receiver (b ++ behind)) (order-wire sender o buffer room)
    ∙ order-decode receiver o behind fits

-- A laptop's description arrives as it was sent, whatever the byte orders of the two machines and
-- whatever the buffers held, if its fields are `int`s and the sender's buffer has room.
pub info_transport :
    (sender receiver : Host) (o : LaptopInfo) (buffer behind : List ℕ)
    → Info.size ≤ length buffer
    → Fits (info_fields o)
    → Info.unmarshal receiver (take Info.size (Info.marshal sender o buffer) ++ behind) ≡ o
info_transport sender receiver o buffer behind room fits =
    ap (λ b. Info.unmarshal receiver (b ++ behind)) (info-wire sender o buffer room)
    ∙ info-decode receiver o behind fits

-- A customer's record arrives as it was sent, whatever the byte orders of the two machines and
-- whatever the buffers held, if its fields are `int`s and the sender's buffer has room.
pub record_transport :
    (sender receiver : Host) (r : CustomerRecord) (buffer behind : List ℕ)
    → Record.size ≤ length buffer
    → Fits (record_fields r)
    → Record.unmarshal receiver (take Record.size (Record.marshal sender r buffer) ++ behind) ≡ r
record_transport sender receiver r buffer behind room fits =
    ap (λ b. Record.unmarshal receiver (b ++ behind)) (record-wire sender r buffer room)
    ∙ record-decode receiver r behind fits

-- A request of a primary arrives with all that it was made of and with `vid` 1, whatever `vid` held
-- and whatever the byte orders of the two machines, if its fields are `int`s and the sender's buffer
-- has room.
pub request_transport :
    (sender receiver : Host) (r : ReplicationRequest) (buffer behind : List ℕ)
    → Request.size ≤ length buffer
    → Fits (request_fields r)
    → (Request.unmarshal receiver
        (take Request.size (Request.marshal sender r buffer).1 ++ behind)).0
      ≡ sent r
request_transport sender receiver r buffer behind room fits =
    ap (λ b. (Request.unmarshal receiver (b ++ behind)).0) (request-wire sender r buffer room)
    ∙ request-decode receiver r behind fits
