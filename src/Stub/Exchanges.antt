-- ===== src/Stub/Exchanges.antt =====
-- What the client's side of a connection sends and what it makes of the answer.
use pa.Prelude.{
  ℕ, ◌≤◌, ◌≡◌, refl, sym, ap, ◌∙◌, subst, ◌⊎◌, inl, inr, Bool, true, false, List, [], ◌++◌, length,
  take, arith, if◌then◌else◌, take-append,
}
use pa.Machine.{Machine, buffer, length-buffer}
use pa.Buffer.{write, write_front}
use pa.Messages.Fields.{encode, length-encode, network}
use pa.Messages.Order
use pa.Messages.Order.{LaptopOrder}
use pa.Messages.Info
use pa.Messages.Info.{LaptopInfo}
use pa.Messages.Request
use pa.Messages.Request.{ReplicationRequest}
use pa.Messages.RoundTrip.{
  order_fields, order-wire, order-length, info_fields, info-decode, request_fields, request-wire,
  request-length, Fits,
}
use pa.Socket.{Link, done, ◌>>=◌, send, recv, Returns, Returns-bind, Returns-if}
use pa.Socket.Sending.{SendsDocumented, SendResult, send-SendResult}
use pa.Socket.Receiving.{stream, RecvsDocumented, Ends, RecvResult, recv-RecvResult, recv-Took}
use pa.Stub.Receives.{After}
use pa.Stub.Client.{order, start_replication}

-- The kernel will answer the calls that sending `n` bytes may take, as documented.
pub record CanSend (l : Link) (n : ℕ) : Type 0 where
  pub documented : SendsDocumented l.sends n
  pub answered : n ≤ length l.sends

-- The kernel will bring `n` bytes, or tell of an end of the stream.
pub record CanRecv (l : Link) (n : ℕ) : Type 0 where
  pub documented : RecvsDocumented l.recvs n
  pub answered : (n ≤ length (stream l.recvs)) ⊎ Ends l.recvs

-- Receiving takes nothing from what the kernel will answer to sends.
pub CanSend-After :
    (l l1 : Link) (rest : List ℕ) (n : ℕ) → After l rest l1 → CanSend l n → CanSend l1 n
CanSend-After l l1 rest n a c = record {
  documented = subst (λ s. SendsDocumented s n) (sym a.same_sends) c.documented;
  answered = subst (λ s. n ≤ length s) (sym a.same_sends) c.answered;
}

pub send_message :
    (l : Link) (buf bytes : List ℕ) (size : ℕ)
    → size ≤ length buf
    → take size buf ≡ bytes
    → CanSend l size
    → Returns (send l buf size) (SendResult l bytes)
send_message l buf bytes size room e c =
    subst (λ b. Returns (send l buf size) (SendResult l b)) e
      (send-SendResult l buf size room c.documented c.answered)

-- The link after a request has gone out and its answer has come, or with its socket lost after a
-- part of the request.
abbrev pub Replicated : ReplicationRequest → Link → Link → Type 0
Replicated q l l' =
    ((l'.sent ≡ l.sent ++ encode (request_fields q)) × (l'.socket ≡ l.socket))
    ⊎ ((l'.socket.valid ≡ false)
        × ((k : ℕ) × (k ≤ Request.size) × (l'.sent ≡ l.sent ++ take k (encode (request_fields q)))))

whole :
    (q : ReplicationRequest)
    → take Request.size (encode (request_fields q)) ≡ encode (request_fields q)
unfolding encode network
whole q = take-append (encode (request_fields q)) []

-- What waiting for an answer of `n` bytes leaves of a link on which all has been sent.
heard :
    (q : ReplicationRequest) (l l1 : Link) (n : ℕ)
    → SendResult l (encode (request_fields q)) (true, l1)
    → (r : Bool × List ℕ × Link) → RecvResult l1 n r
    → Replicated q l r.2
heard q l l1 n s (true, bytes, l2) h = inl (h.4 ∙ s.0, h.3 ∙ s.1)
heard q l l1 n s (false, bytes, l2) h =
    inr (h.2, (Request.size, omega arith, h.5 ∙ s.0 ∙ ap (◌++◌ l.sent) (sym (whole q))))

CanRecv-same : (l l1 : Link) (n : ℕ) → l1.recvs ≡ l.recvs → CanRecv l n → CanRecv l1 n
CanRecv-same l l1 n e c = record {
  documented = subst (λ r. RecvsDocumented r n) (sym e) c.documented;
  answered = subst (λ r. (n ≤ length (stream r)) ⊎ Ends r) (sym e) c.answered;
}

-- `startReplication` of a stub returns, if the kernel answers as documented: it has sent the whole
-- request and kept its socket, or its socket is invalid and a front part of the request went out.
pub start_replication-Replicated :
    (m : Machine) (q : ReplicationRequest) (l : Link)
    → CanSend l Request.size
    → CanRecv l Order.size
    → Returns (start_replication m q l) (Replicated q l)
unfolding start_replication
start_replication-Replicated m q l cs cr =
    Returns-bind _ (send l buf Request.size) _
      (send_message l buf bytes Request.size room (request-wire m.host q (buffer m 128) fits) cs)
      (λ (ok, l1) h.
        Returns-if _ ok _ _ (λ t. all_sent l1 (subst (λ b. SendResult l bytes (b, l1)) t h))
          (λ t. cut_short l1 (subst (λ b. SendResult l bytes (b, l1)) t h)))
  where
    buf : List ℕ
    buf = (Request.marshal m.host q (buffer m 128)).1

    bytes : List ℕ
    bytes = encode (request_fields q)

    fits : Request.size ≤ length (buffer m 128)
    fits = omega (arith, length-buffer m 128)

    room : Request.size ≤ length buf
    room = omega (arith, request-length m.host q (buffer m 128) fits, fits)

    all_sent :
        (l1 : Link)
        → SendResult l bytes (true, l1)
        → Returns (recv l1 Order.size >>= λ (ok, got, l2). done l2) (Replicated q l)
    all_sent l1 s =
        let c = CanRecv-same l l1 Order.size s.2 cr in
        Returns-bind _ (recv l1 Order.size) _
          (recv-RecvResult l1 Order.size c.documented c.answered)
          (λ (ok, got, l2) h. heard q l l1 Order.size s (ok, got, l2) h)

    cut_short : (l1 : Link) → SendResult l bytes (false, l1) → Replicated q l l1
    cut_short l1 (invalid, _, _, (k, proper, out)) =
        inr (invalid, (k, omega (arith, length-encode (request_fields q)), out))

-- The laptop that answers an order, with the link after both; or an invalid laptop, and the socket
-- lost on the way.
abbrev pub Ordered : LaptopOrder → LaptopInfo → Link → List ℕ → LaptopInfo × Link → Type 0
Ordered o i l rest (info, l') =
    ((info ≡ i)
      × (l'.sent ≡ l.sent ++ encode (order_fields o))
      × (l'.socket ≡ l.socket)
      × (stream l'.recvs ≡ rest))
    ⊎ ((info ≡ Info.new) × (l'.socket.valid ≡ false))

-- `Order` of a stub to which a laptop's description arrives returns that laptop once the whole order
-- has gone out; if the socket is lost while the order goes out, it returns an unset laptop.
pub order-Ordered :
    (m : Machine) (o : LaptopOrder) (i : LaptopInfo) (l : Link) (rest : List ℕ)
    → Fits (info_fields i)
    → CanSend l Order.size
    → RecvsDocumented l.recvs Info.size
    → stream l.recvs ≡ encode (info_fields i) ++ rest
    → Returns (order m o l) (Ordered o i l rest)
unfolding order
order-Ordered m o i l rest fit cs rd arrives =
    Returns-bind _ (send l buf Order.size) _
      (send_message l buf bytes Order.size (omega (arith, full))
        (order-wire m.host o (buffer m 32) fits) cs)
      (λ (ok, l1) h.
        Returns-if _ ok _ _ (λ t. all_sent l1 (subst (λ b. SendResult l bytes (b, l1)) t h))
          (λ t. inr (refl, (subst (λ b. SendResult l bytes (b, l1)) t h).0)))
  where
    buf : List ℕ
    buf = Order.marshal m.host o (buffer m 32)

    bytes : List ℕ
    bytes = encode (order_fields o)

    fits : Order.size ≤ length (buffer m 32)
    fits = omega (arith, length-buffer m 32)

    full : length buf ≡ 32
    full = order-length m.host o (buffer m 32) fits ∙ length-buffer m 32 (omega arith)

    decoded : Info.unmarshal m.host (write buf 0 (encode (info_fields i))) ≡ i
    decoded =
        ap (Info.unmarshal m.host) (
          write_front buf (encode (info_fields i))
            (omega (arith, full, length-encode (info_fields i))))
        ∙ info-decode m.host i _ fit

    all_sent :
        (l1 : Link)
        → SendResult l bytes (true, l1)
        → Returns
            (recv l1 Info.size >>= λ (ok, got, l2).
              done (if ok then Info.unmarshal m.host (write buf 0 got) else Info.new, l2))
            (Ordered o i l rest)
    all_sent l1 s =
        Returns-bind _ (recv l1 Info.size) _
          (recv-Took l1 Info.size (encode (info_fields i)) rest (length-encode (info_fields i))
            (ap stream s.2 ∙ arrives) (subst (λ r. RecvsDocumented r Info.size) (sym s.2) rd))
          (λ (ok, got, l2) t. inl (rw (t.0, t.1) decoded, t.4 ∙ s.0, t.3 ∙ s.1, t.2))
