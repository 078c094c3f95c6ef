-- ===== src/Stub/Reading.antt =====
-- ClientStub::ReadRecord: what a customer learns of the latest order.
use pa.Prelude.{
  ℕ, ◌≤◌, ◌≡◌, refl, sym, ap, ◌∙◌, subst, ◌⊎◌, inl, inr, true, List, ◌++◌, length, false, arith,
  if◌then◌else◌,
}
use pa.Machine.{Machine, buffer, length-buffer}
use pa.Buffer.{write, write_front}
use pa.Messages.Fields.{encode, length-encode}
use pa.Messages.Order
use pa.Messages.Order.{LaptopOrder}
use pa.Messages.Record
use pa.Messages.Record.{CustomerRecord}
use pa.Messages.RoundTrip.{
  order_fields, order-wire, order-length, record_fields, record-decode, Fits,
}
use pa.Socket.{Link, done, ◌>>=◌, send, recv, Returns, Returns-bind, Returns-if}
use pa.Socket.Sending.{SendResult}
use pa.Socket.Receiving.{stream, RecvsDocumented, recv-Took}
use pa.Stub.Exchanges.{CanSend, send_message}
use pa.Stub.Client.{read_record}

-- The record that answers a request, with the link after both; or an unset record, and the socket
-- lost while the request went out.
abbrev pub Recorded : LaptopOrder → CustomerRecord → Link → List ℕ → CustomerRecord × Link → Type 0
Recorded o answer l rest (found, l') =
    ((found ≡ answer)
      × (l'.sent ≡ l.sent ++ encode (order_fields o))
      × (l'.socket ≡ l.socket)
      × (stream l'.recvs ≡ rest))
    ⊎ ((found ≡ Record.new) × (l'.socket.valid ≡ false))

-- `ReadRecord` of a stub to which a customer's record arrives returns that record once the whole
-- request has gone out; if the socket is lost while the request goes out, it returns an unset record.
pub read_record-Recorded :
    (m : Machine) (o : LaptopOrder) (answer : CustomerRecord) (l : Link) (rest : List ℕ)
    → Fits (record_fields answer)
    → CanSend l Order.size
    → RecvsDocumented l.recvs Record.size
    → stream l.recvs ≡ encode (record_fields answer) ++ rest
    → Returns (read_record m o l) (Recorded o answer l rest)
unfolding read_record
read_record-Recorded m o answer l rest fit cs rd arrives =
    Returns-bind _ (send l buf Order.size) _
      (send_message l buf bytes Order.size (omega (arith, full))
        (order-wire m.host o (buffer m 32) fits) cs)
      (λ (ok, l1) h.
        Returns-if _ ok _ _ (λ t. all_sent l1 (subst (λ b. SendResult l bytes (b, l1)) t h))
          (λ t. inr (refl, (subst (λ b. SendResult l bytes (b, l1)) t h).0)))
  where
    buf : List ℕ
    buf = Order.marshal m.host o (buffer m 32)

    bytes : List ℕ
    bytes = encode (order_fields o)

    fits : Order.size ≤ length (buffer m 32)
    fits = omega (arith, length-buffer m 32)

    full : length buf ≡ 32
    full = order-length m.host o (buffer m 32) fits ∙ length-buffer m 32 (omega arith)

    decoded : Record.unmarshal m.host (write buf 0 (encode (record_fields answer))) ≡ answer
    decoded =
        ap (Record.unmarshal m.host) (
          write_front buf (encode (record_fields answer))
            (omega (arith, full, length-encode (record_fields answer))))
        ∙ record-decode m.host answer _ fit

    all_sent :
        (l1 : Link)
        → SendResult l bytes (true, l1)
        → Returns
            (recv l1 Record.size >>= λ (ok, got, l2).
              done (if ok then Record.unmarshal m.host (write buf 0 got) else Record.new, l2))
            (Recorded o answer l rest)
    all_sent l1 s =
        Returns-bind _ (recv l1 Record.size) _
          (recv-Took l1 Record.size (encode (record_fields answer)) rest
            (length-encode (record_fields answer)) (ap stream s.2 ∙ arrives)
            (subst (λ r. RecvsDocumented r Record.size) (sym s.2) rd))
          (λ (ok, got, l2) t. inl (rw (t.0, t.1) decoded, t.4 ∙ s.0, t.3 ∙ s.1, t.2))
