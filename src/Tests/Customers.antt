-- ===== src/Tests/Customers.antt =====
-- Customers whose connection carries their messages.
use pa.Prelude.{ℕ, ◌+◌, ◌*◌, ◌≡◌, refl, List, [], ◌∷◌, ◌++◌, arith, pos, to_word}
use pa.Messages.Fields.{encode, network}
use pa.Messages.Record
use pa.Messages.Record.{CustomerRecord}
use pa.Socket.{Chunk, got, Returns}
use pa.Socket.Healthy.{take_sends, take_chunks, silent, exchange}
use pa.Stub.Client.{ClientStub, Dial, make}
use pa.Stub.Healthy.{Connects}
use pa.Timer.{ClientTimer, new}
use pa.Customer.{thread_body, invalid_record}
use pa.Customer.Session.{Served, thread_body-Served}
use pa.Customer.Listing.{known, complaint, record_line, thread_body-Listed}
use pa.Tests.Data.{little, a_laptop}

abbrev a_stub : ClientStub
a_stub = make (pos 7)

abbrev pub times : ℕ → ℕ × ℕ
times i = (10 * i, 10 * i + 5)

abbrev timer : ClientTimer
timer = new 1000

-- An attempt that succeeds. The kernel takes the name in two pieces and then whole orders.
abbrev dial_with : List Chunk → Dial
dial_with chunks = record {
  fd = pos 6;
  result = pos 0;
  sends = pos 1 ∷ pos 3 ∷ pos 12 ∷ pos 5 ∷ pos 7 ∷ pos 12 ∷ [];
  recvs = chunks;
}

dial_Connects : (chunks : List Chunk) → Connects a_stub.link (dial_with chunks)
dial_Connects chunks = record { fresh = refl; opened = refl; reached = refl }

-- Two laptops, the first in two pieces.
abbrev laptop_bytes : List ℕ
laptop_bytes = 0 ∷ 1 ∷ 17 ∷ 112 ∷ 0 ∷ 0 ∷ 0 ∷ 1 ∷ 0 ∷ 0 ∷ 0 ∷ 4 ∷ 0 ∷ 0 ∷ 0 ∷ 1 ∷ []

abbrev pub shop : Dial
shop =
    dial_with (
      got (0 ∷ 0 ∷ 0 ∷ 3 ∷ []) ∷ got laptop_bytes ∷ got ((0 ∷ 0 ∷ 0 ∷ 3 ∷ []) ++ laptop_bytes) ∷ [])

thread_body-Served_example :
    Returns
      (thread_body little times timer a_stub "10.0.0.1"
        (pos 8000)
        (pos 3)
        (pos 2)
        (pos 1)
        (shop ∷ []))
      (Served little (pos 3) (a_laptop ∷ a_laptop ∷ []) timer shop)
unfolding take_sends take_chunks encode network to_word
thread_body-Served_example =
    thread_body-Served little times timer a_stub "10.0.0.1" (pos 8000) (pos 3)
      (a_laptop ∷ a_laptop ∷ []) shop [] _ (dial_Connects shop.recvs) refl
      (exchange refl refl (exchange refl refl silent)) (omega arith, (omega arith, tt))

-- The records of customers 0 and 1: the first is set, the second is not.
abbrev listing : Dial
listing = dial_with (
    got (0 ∷ 0 ∷ 0 ∷ 0 ∷ 0 ∷ 0 ∷ 0 ∷ 9 ∷ [])
    ∷ got (255 ∷ 255 ∷ 255 ∷ 255 ∷ [])
    ∷ got (255 ∷ 255 ∷ 255 ∷ 255 ∷ [])
    ∷ [])

abbrev set_record : CustomerRecord
set_record = Record.make (pos 0) (pos 9)

thread_body-Listed_example :
    Returns
      (thread_body little times timer a_stub "10.0.0.1"
        (pos 8000)
        (pos 3)
        (pos 2)
        (pos 3)
        (listing ∷ []))
      (λ r.
        (r.lines ≡ record_line set_record ∷ invalid_record (pos 3) ∷ [])
        × (r.timer.op_count ≡ timer.op_count + 1))
unfolding take_sends take_chunks encode network to_word known complaint
thread_body-Listed_example =
    thread_body-Listed little times timer a_stub "10.0.0.1" (pos 8000) (pos 3)
      (set_record ∷ Record.new ∷ []) listing [] _ (dial_Connects listing.recvs) refl
      (exchange refl refl (exchange refl refl silent)) (omega arith, (omega arith, tt))
