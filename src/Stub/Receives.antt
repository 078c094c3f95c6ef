-- ===== src/Stub/Receives.antt =====
-- What a stub makes of the messages that arrive on its link.
use pa.Prelude.{ℕ, ◌≤◌, ◌<◌, ◌≡◌, ap, ◌∙◌, false, List, ◌++◌, length, arith}
use pa.Machine.{Machine, buffer, length-buffer}
use pa.Buffer.{write, write_front}
use pa.Messages.Fields.{encode, length-encode}
use pa.Messages.Order
use pa.Messages.Order.{LaptopOrder}
use pa.Messages.Request
use pa.Messages.Request.{ReplicationRequest}
use pa.Messages.RoundTrip.{order_fields, order-decode, request_fields, request-decode, Fits, sent}
use pa.Socket.{Link, recv, Returns, Returns-bind}
use pa.Socket.Receiving.{stream, RecvsDocumented, Ends, recv-Took, recv-Lost}
use pa.Stub.Server.{receive_order_request, receive_replication_request}

-- The link after a message has been taken from its stream.
pub record After (l : Link) (rest : List ℕ) (l' : Link) : Type 0 where
  pub arriving : stream l'.recvs ≡ rest
  pub same_socket : l'.socket ≡ l.socket
  pub same_sent : l'.sent ≡ l.sent
  pub same_sends : l'.sends ≡ l.sends

-- Decoding what `recv` left at the front of a buffer.
decode_front {ℓ} :
    {A : Type ℓ} (decode : List ℕ → A) (m : Machine) (bytes : List ℕ) (a : A)
    → length bytes ≤ 32
    → ((rest : List ℕ) → decode (bytes ++ rest) ≡ a)
    → decode (write (buffer m 32) 0 bytes) ≡ a
decode_front decode m bytes a fit h =
    ap decode (write_front (buffer m 32) bytes (omega (arith, length-buffer m 32))) ∙ h _

-- A request that arrives whole is returned, marked as received.
pub receive_replication_request_lem :
    (m : Machine) (unset q : ReplicationRequest) (l : Link) (rest : List ℕ)
    → Fits (request_fields q)
    → stream l.recvs ≡ encode (request_fields q) ++ rest
    → RecvsDocumented l.recvs Request.size
    → Returns (receive_replication_request m unset l) (λ r. (r.0 ≡ sent q) × After l rest r.1)
unfolding receive_replication_request
receive_replication_request_lem m unset q l rest fits e h =
    Returns-bind _ (recv l Request.size) _
      (recv-Took l Request.size bytes rest (length-encode (request_fields q)) e h)
      (λ (ok, got, l1) t. (
        rw (t.0, t.1)
            (decode_front (λ b. (Request.unmarshal m.host b).0) m bytes (sent q)
              (omega (arith, length-encode (request_fields q)))
              (λ behind. request-decode m.host q behind fits)),
        record { arriving = t.2; same_socket = t.3; same_sent = t.4; same_sends = t.5 },
      ))
  where
    bytes : List ℕ
    bytes = encode (request_fields q)

-- A stream that ends before a whole request leaves the stub invalid, with nothing sent.
pub receive_replication_request-Lost :
    (m : Machine) (unset : ReplicationRequest) (l : Link)
    → RecvsDocumented l.recvs Request.size
    → Ends l.recvs
    → length (stream l.recvs) < Request.size
    → Returns
        (receive_replication_request m unset l)
        (λ r. (r.0 ≡ unset) × (r.1.socket.valid ≡ false) × (r.1.sent ≡ l.sent))
unfolding receive_replication_request
receive_replication_request-Lost m unset l h e short =
    Returns-bind _ (recv l Request.size) _ (recv-Lost l Request.size h e short)
      (λ (ok, got, l1) t. (rw t.0, t.1, t.3))

-- An order that arrives whole is returned.
pub receive_order_request_lem :
    (m : Machine) (o : LaptopOrder) (l : Link) (rest : List ℕ)
    → Fits (order_fields o)
    → stream l.recvs ≡ encode (order_fields o) ++ rest
    → RecvsDocumented l.recvs Order.size
    → Returns (receive_order_request m l) (λ r. (r.0 ≡ o) × After l rest r.1)
unfolding receive_order_request
receive_order_request_lem m o l rest fits e h =
    Returns-bind _ (recv l Order.size) _
      (recv-Took l Order.size bytes rest (length-encode (order_fields o)) e h)
      (λ (ok, got, l1) t. (
        rw (t.0, t.1)
            (decode_front (Order.unmarshal m.host) m bytes o
              (omega (arith, length-encode (order_fields o)))
              (λ behind. order-decode m.host o behind fits)),
        record { arriving = t.2; same_socket = t.3; same_sent = t.4; same_sends = t.5 },
      ))
  where
    bytes : List ℕ
    bytes = encode (order_fields o)

-- A stream that ends before a whole order gives an unset order and an invalid stub.
pub receive_order_request-Lost :
    (m : Machine) (l : Link)
    → RecvsDocumented l.recvs Order.size
    → Ends l.recvs
    → length (stream l.recvs) < Order.size
    → Returns
        (receive_order_request m l)
        (λ r. (r.0 ≡ Order.new) × (r.1.socket.valid ≡ false) × (r.1.sent ≡ l.sent))
unfolding receive_order_request
receive_order_request-Lost m l h e short =
    Returns-bind _ (recv l Order.size) _ (recv-Lost l Order.size h e short)
      (λ (ok, got, l1) t. (rw t.0 (λ i. Order.new), t.1, t.3))
