-- ===== src/Tests/Sockets.antt =====
-- Sockets and stubs at work.
use pa.Prelude.{◌≡◌, refl, inr, false, [], ◌∷◌, take, arith, pos, negsuc}
use pa.Socket.{Link, got, failed, Returns, close, send, recv, connect}
use pa.Socket.Sending.{SendResult, send-SendResult}
use pa.Socket.Receiving.{RecvResult, recv-RecvResult}
use pa.Socket.Lifetime.{here, next, connects, closes, invalid_forever}
use pa.Tests.Data.{link_with, open_socket, closed_socket, slow_sends}

-- A kernel that takes three bytes and then two.
abbrev in_parts : Link
in_parts = record {
  socket = open_socket;
  sends = pos 3 ∷ pos 2 ∷ negsuc 0 ∷ negsuc 0 ∷ negsuc 0 ∷ [];
  recvs = [];
  sent = [];
}

send-SendResult_example :
    Returns
      (send in_parts (1 ∷ 2 ∷ 3 ∷ 4 ∷ 5 ∷ 6 ∷ []) 5)
      (SendResult in_parts (take 5 (1 ∷ 2 ∷ 3 ∷ 4 ∷ 5 ∷ 6 ∷ [])))
send-SendResult_example =
    send-SendResult in_parts (1 ∷ 2 ∷ 3 ∷ 4 ∷ 5 ∷ 6 ∷ []) 5 (omega arith) (omega arith)
      (omega arith)

-- A stream that breaks off after three bytes.
abbrev broken : Link
broken = link_with (got (1 ∷ 2 ∷ []) ∷ got (3 ∷ []) ∷ failed ∷ [])

recv-RecvResult_example : Returns (recv broken 4) (RecvResult broken 4)
recv-RecvResult_example = recv-RecvResult broken 4 (omega arith) (inr tt)

abbrev lost : Link
lost = record { socket = closed_socket; sends = []; recvs = []; sent = 1 ∷ [] }

-- The same socket after a new attempt to connect and another close.
abbrev reopened : Link
reopened = record {
  socket = close (connect closed_socket (pos 5) (pos 0)).1;
  sends = slow_sends;
  recvs = [];
  sent = [];
}

invalid_forever_example : reopened.socket.valid ≡ false
invalid_forever_example =
    invalid_forever {l = lost} (next (next here (connects (pos 5) (pos 0) slow_sends [])) closes)
      refl
