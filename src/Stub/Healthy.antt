-- ===== src/Stub/Healthy.antt =====
-- The stubs over a kernel that carries whole messages: each call as an equation.
use Prim.Native.String.{String}
use pa.Prelude.{
  ℕ, ◌≤◌, ◌≡◌, refl, sym, ap, ap₂, ◌∙◌, true, false, List, ◌++◌, length, take, drop, take-append,
  length-append, some, arith, [], ◌∷◌, is_nonneg, ℤ, to_word,
}
use pa.Machine.{Machine, buffer, length-buffer}
use pa.Buffer.{write, write_front}
use pa.Messages.Fields.{encode, length-encode, int_size}
use pa.Messages.Order
use pa.Messages.Order.{LaptopOrder}
use pa.Messages.Info
use pa.Messages.Info.{LaptopInfo}
use pa.Messages.Record
use pa.Messages.Record.{CustomerRecord}
use pa.Messages.Request
use pa.Messages.Request.{ReplicationRequest}
use pa.Messages.RoundTrip.{
  order_fields, order-wire, order-length, info_fields, info-decode, request_fields, request-wire,
  request-length, request-decode, record_fields, record-decode, sent, Fits,
}
use pa.Socket.{Socket, connect, Link, Chunk, done}
use pa.Socket.Healthy.{take_sends, take_chunks, after_send, send-taken, recv-taken}
use pa.Stub.Client.{
  order, read_record, ClientStub, Dial, init, dial_socket, start_replication, send_identification,
}
use pa.Stub.Server.{receive_replication_request, send_replication_result}

-- The link after a message has gone out and its answer has come.
abbrev pub exchanged : Link → List ℤ → List Chunk → List ℕ → Link
exchanged l sends recvs bytes = record l { sends = sends; recvs = recvs; sent = l.sent ++ bytes }

module _ (m : Machine) where
  pub order-taken :
      (o : LaptopOrder) (i : LaptopInfo) (l : Link) (sends : List ℤ) (recvs : List Chunk)
      → Fits (info_fields i)
      → take_sends l.sends Order.size ≡ some sends
      → take_chunks l.recvs Info.size ≡ some (encode (info_fields i), recvs)
      → order m o l ≡ done (i, exchanged l sends recvs (encode (order_fields o)))
  unfolding order
  order-taken o i l sends recvs fit out into =
      rw
        (send-taken l buf bytes Order.size sends (omega (arith, full))
          (order-wire m.host o (buffer m 32) fits) out)
        (rw (recv-taken (after_send l sends bytes) Info.size (encode (info_fields i)) recvs into)
          (ap (λ x. done (x, exchanged l sends recvs bytes)) decoded))
    where
      buf : List ℕ
      buf = Order.marshal m.host o (buffer m 32)

      bytes : List ℕ
      bytes = encode (order_fields o)

      fits : Order.size ≤ length (buffer m 32)
      fits = omega (arith, length-buffer m 32)

      full : length buf ≡ 32
      full = order-length m.host o (buffer m 32) fits ∙ length-buffer m 32 (omega arith)

      decoded : Info.unmarshal m.host (write buf 0 (encode (info_fields i))) ≡ i
      decoded =
          ap (Info.unmarshal m.host) (
            write_front buf (encode (info_fields i))
              (omega (arith, full, length-encode (info_fields i))))
          ∙ info-decode m.host i _ fit

  pub start_replication-taken :
      (q : ReplicationRequest) (l : Link) (sends : List ℤ) (recvs : List Chunk) (answer : List ℕ)
      → take_sends l.sends Request.size ≡ some sends
      → take_chunks l.recvs Order.size ≡ some (answer, recvs)
      → start_replication m q l ≡ done (exchanged l sends recvs (encode (request_fields q)))
  unfolding start_replication
  start_replication-taken q l sends recvs answer out into =
      rw
        (send-taken l _ bytes Request.size sends
          (omega (arith, request-length m.host q (buffer m 128) fits, fits))
          (request-wire m.host q (buffer m 128) fits) out)
        (rw (recv-taken (after_send l sends bytes) Order.size answer recvs into) refl)
    where
      bytes : List ℕ
      bytes = encode (request_fields q)

      fits : Request.size ≤ length (buffer m 128)
      fits = omega (arith, length-buffer m 128)

  pub read_record-taken :
      (o : LaptopOrder) (r : CustomerRecord) (l : Link) (sends : List ℤ) (recvs : List Chunk)
      → Fits (record_fields r)
      → take_sends l.sends Order.size ≡ some sends
      → take_chunks l.recvs Record.size ≡ some (encode (record_fields r), recvs)
      → read_record m o l ≡ done (r, exchanged l sends recvs (encode (order_fields o)))
  unfolding read_record
  read_record-taken o r l sends recvs fit out into =
      rw
        (send-taken l buf bytes Order.size sends (omega (arith, full))
          (order-wire m.host o (buffer m 32) fits) out)
        (rw
          (recv-taken (after_send l sends bytes) Record.size (encode (record_fields r)) recvs into)
          (ap (λ x. done (x, exchanged l sends recvs bytes)) decoded))
    where
      buf : List ℕ
      buf = Order.marshal m.host o (buffer m 32)

      bytes : List ℕ
      bytes = encode (order_fields o)

      fits : Order.size ≤ length (buffer m 32)
      fits = omega (arith, length-buffer m 32)

      full : length buf ≡ 32
      full = order-length m.host o (buffer m 32) fits ∙ length-buffer m 32 (omega arith)

      decoded : Record.unmarshal m.host (write buf 0 (encode (record_fields r))) ≡ r
      decoded =
          ap (Record.unmarshal m.host) (
            write_front buf (encode (record_fields r))
              (omega (arith, full, length-encode (record_fields r))))
          ∙ record-decode m.host r _ fit

  pub send_identification-taken :
      (stat : ℤ) (l : Link) (sends : List ℤ)
      → take_sends l.sends int_size ≡ some sends
      → send_identification m stat l ≡ done (after_send l sends (m.host.store (to_word stat)))
  unfolding send_identification
  send_identification-taken stat l sends out =
      rw (send-taken l buf bytes int_size sends room front out) refl
    where
      bytes : List ℕ
      bytes = m.host.store (to_word stat)

      four : length bytes ≡ 4
      four = m.host.length-store (to_word stat)

      buf : List ℕ
      buf = write (buffer m 256) 0 bytes

      written : buf ≡ bytes ++ drop (length bytes) (buffer m 256)
      written = write_front (buffer m 256) bytes (omega (arith, four, length-buffer m 256))

      room : int_size ≤ length buf
      room =
          omega (
            arith,
            ap length written,
            length-append bytes (drop (length bytes) (buffer m 256)),
            four,
          )

      front : take int_size buf ≡ bytes
      front = ap₂ take (sym four) written ∙ take-append bytes (drop (length bytes) (buffer m 256))

  pub receive_replication_request-taken :
      (unset q : ReplicationRequest) (l : Link) (recvs : List Chunk)
      → Fits (request_fields q)
      → take_chunks l.recvs Request.size ≡ some (encode (request_fields q), recvs)
      → receive_replication_request m unset l ≡ done (sent q, record l { recvs = recvs })
  unfolding receive_replication_request
  receive_replication_request-taken unset q l recvs fit into =
      rw (recv-taken l Request.size (encode (request_fields q)) recvs into) (
        ap (λ x. done (x, record l { recvs = recvs }))
          (ap (λ b. (Request.unmarshal m.host b).0)
              (write_front (buffer m 32) (encode (request_fields q))
                (omega (arith, length-buffer m 32, length-encode (request_fields q))))
            ∙ request-decode m.host q _ fit))

  pub send_replication_result-taken :
      (o : LaptopOrder) (l : Link) (sends : List ℤ)
      → take_sends l.sends Order.size ≡ some sends
      → send_replication_result m o l ≡ done (true, after_send l sends (encode (order_fields o)))
  unfolding send_replication_result
  send_replication_result-taken o l sends out =
      send-taken l _ _ Order.size sends
        (omega (arith, order-length m.host o (buffer m 32) fits, fits))
        (order-wire m.host o (buffer m 32) fits) out
    where
      fits : Order.size ≤ length (buffer m 32)
      fits = omega (arith, length-buffer m 32)

-- A stub that has not been connected, and an attempt that succeeds.
pub record Connects (l : Link) (d : Dial) : Type 0 where
  pub fresh : l.socket.is_initialized ≡ false
  pub opened : is_nonneg d.fd ≡ true
  pub reached : is_nonneg d.result ≡ true

-- The link of a stub that the attempt has connected.
abbrev pub dialled : Link → Dial → Link
dialled l d = record {
  socket = record l.socket { fd = d.fd; is_initialized = true };
  sends = d.sends;
  recvs = d.recvs;
  sent = [];
}

connect-opened :
    (s : Socket) (fd result : ℤ)
    → s.is_initialized ≡ false
    → is_nonneg fd ≡ true
    → is_nonneg result ≡ true
    → connect s fd result ≡ (true, record s { fd = fd; is_initialized = true })
unfolding connect
connect-opened s fd result fresh opened reached = ground arith

dial_socket-Connects :
    (l : Link) (d : Dial) (rest : List Dial)
    → Connects l d
    → dial_socket l (d ∷ rest) ≡ done (true, dialled l d, rest)
unfolding dial_socket
dial_socket-Connects l d rest c =
    rw (c.fresh, dial_socket)
      (rw (connect-opened l.socket d.fd d.result c.fresh c.opened c.reached) refl)

pub init-Connects :
    (stub : ClientStub) (ip : String) (port : ℤ) (d : Dial) (rest : List Dial)
    → Connects stub.link d
    → init stub ip port (d ∷ rest)
      ≡ done (true, record { ip = ip; port = port; link = dialled stub.link d }, rest)
unfolding init
init-Connects stub ip port d rest c = rw (dial_socket-Connects stub.link d rest c) refl
