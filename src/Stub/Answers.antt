-- ===== src/Stub/Answers.antt =====
-- ServerStub for a customer, over a kernel that carries whole messages.
use pa.Prelude.{◌≤◌, ◌≡◌, ap, ◌∙◌, true, List, length, some, arith, ℤ}
use pa.Machine.{Machine, buffer, length-buffer}
use pa.Buffer.{write_front}
use pa.Messages.Fields.{encode, length-encode}
use pa.Messages.Order
use pa.Messages.Order.{LaptopOrder}
use pa.Messages.Info
use pa.Messages.Info.{LaptopInfo}
use pa.Messages.RoundTrip.{order_fields, order-decode, info_fields, info-wire, info-length, Fits}
use pa.Socket.{Link, Chunk, done}
use pa.Socket.Healthy.{take_sends, take_chunks, after_send, send-taken, recv-taken}
use pa.Stub.Server.{receive_order_request, send_laptop}

module _ (m : Machine) where
  pub receive_order_request-taken :
      (o : LaptopOrder) (l : Link) (recvs : List Chunk)
      → Fits (order_fields o)
      → take_chunks l.recvs Order.size ≡ some (encode (order_fields o), recvs)
      → receive_order_request m l ≡ done (o, record l { recvs = recvs })
  unfolding receive_order_request
  receive_order_request-taken o l recvs fit into =
      rw (recv-taken l Order.size (encode (order_fields o)) recvs into) (
        ap (λ x. done (x, record l { recvs = recvs }))
          (ap (λ b. Order.unmarshal m.host b)
              (write_front (buffer m 32) (encode (order_fields o))
                (omega (arith, length-buffer m 32, length-encode (order_fields o))))
            ∙ order-decode m.host o _ fit))

  pub send_laptop-taken :
      (i : LaptopInfo) (l : Link) (sends : List ℤ)
      → take_sends l.sends Info.size ≡ some sends
      → send_laptop m i l ≡ done (true, after_send l sends (encode (info_fields i)))
  unfolding send_laptop
  send_laptop-taken i l sends out =
      send-taken l _ _ Info.size sends
        (omega (arith, info-length m.host i (buffer m 32) fits, fits))
        (info-wire m.host i (buffer m 32) fits) out
    where
      fits : Info.size ≤ length (buffer m 32)
      fits = omega (arith, length-buffer m 32)
