-- ===== src/Tests/Shopping.antt =====
-- A customer who places two orders on a primary with one peer.
use pa.Prelude.{refl, [], ◌∷◌, ℕ, ◌*◌, ◌+◌, arith, pos, to_word}
use pa.Messages.Fields.{encode, network}
use pa.Socket.{Link, got, Returns}
use pa.Socket.Healthy.{take_sends, take_chunks, silent, exchange}
use pa.Stub.Client.{ClientStub, Dial, make}
use pa.Timer.{ClientTimer, new}
use pa.Factory.{LaptopFactory}
use pa.Customer.{thread_body}
use pa.Customer.Session.{Served}
use pa.Customer.Shopping.{turns, laptops, Ordered, ordered, Sold, Dealt, shopping-Dealt}
use pa.Factory.Turn.{serves}
use pa.Tests.Data.{little, big, a_request, open_socket}
use pa.Tests.Cluster.{busy, carrying-Carrying}

abbrev idle : LaptopFactory
idle = record busy { erq = [] }

abbrev engineer_link : Link
engineer_link = record {
  socket = open_socket;
  sends = pos 20 ∷ pos 1 ∷ pos 19 ∷ [];
  recvs =
      got (0 ∷ 0 ∷ 0 ∷ 3 ∷ 0 ∷ 0 ∷ 0 ∷ 0 ∷ 0 ∷ 0 ∷ 0 ∷ 1 ∷ [])
      ∷ got (0 ∷ 0 ∷ 0 ∷ 3 ∷ [])
      ∷ got (0 ∷ 0 ∷ 0 ∷ 1 ∷ 0 ∷ 0 ∷ 0 ∷ 1 ∷ [])
      ∷ [];
  sent = [];
}

abbrev customer_dial : Dial
customer_dial = record {
  fd = pos 6;
  result = pos 0;
  sends = pos 4 ∷ pos 12 ∷ pos 6 ∷ pos 6 ∷ [];
  recvs =
      got (0 ∷ 0 ∷ 0 ∷ 3 ∷ 0 ∷ 0 ∷ 0 ∷ 0 ∷ 0 ∷ 0 ∷ 0 ∷ 1 ∷ 0 ∷ 0 ∷ 0 ∷ 4 ∷ 0 ∷ 0 ∷ 0 ∷ 1 ∷ [])
      ∷ got (0 ∷ 0 ∷ 0 ∷ 3 ∷ 0 ∷ 0 ∷ 0 ∷ 1 ∷ [])
      ∷ got (0 ∷ 0 ∷ 0 ∷ 1 ∷ 0 ∷ 0 ∷ 0 ∷ 4 ∷ 0 ∷ 0 ∷ 0 ∷ 1 ∷ [])
      ∷ [];
}

abbrev a_stub : ClientStub
a_stub = make (pos 7)

abbrev timer : ClientTimer
timer = new 1000

abbrev times : ℕ → ℕ × ℕ
times i = (10 * i, 10 * i + 5)

shopping-Dealt_example :
    Dealt (pos 3) (pos 4) 2 engineer_link customer_dial
    × Returns
        (turns big a_request 2 idle (serves (pos 4) engineer_link) [])
        (λ r. Sold (pos 3) (pos 4) 2 0 idle engineer_link r.0 r.1)
    × Returns
        (thread_body little times timer a_stub "10.0.0.1"
          (pos 8000)
          (pos 3)
          (pos 2)
          (pos 1)
          (customer_dial ∷ []))
        (Served little (pos 3) (laptops (pos 3) (pos 4) 2 0) timer customer_dial)
unfolding take_sends take_chunks encode network to_word laptops
shopping-Dealt_example =
    shopping-Dealt big little a_request idle (pos 4) engineer_link [] times timer a_stub "10.0.0.1"
      (pos 8000) (pos 3) 2 customer_dial [] _ (λ e. cc) (omega arith) refl
      (record { named = refl; known = λ e. cc }) (carrying-Carrying, tt)
      (ordered (omega arith) refl refl (ordered (omega arith) refl refl Ordered.quiet))
      (record { fresh = refl; opened = refl; reached = refl }) refl
      (exchange refl refl (exchange refl refl silent))
