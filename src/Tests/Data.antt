-- ===== src/Tests/Data.antt =====
-- Two machines, a few messages, and connections on which they travel.
use pa.Prelude.{ℕ, ◌≤◌, List, [], length, replicate, true, false, arith, ℤ, pos, minus_one}
use pa.Host.Orders.{little_host, big_host}
use pa.Machine.{Machine}
use pa.Messages.Order
use pa.Messages.Order.{LaptopOrder}
use pa.Messages.Info
use pa.Messages.Info.{LaptopInfo}
use pa.Messages.Request
use pa.Messages.Request.{ReplicationRequest}
use pa.Socket.{Socket, Chunk, Link}

abbrev pub zeros : List ℕ
zeros = replicate 256 0

pub zeros_deep : 256 ≤ length zeros
zeros_deep = omega arith

abbrev pub little : Machine
little = record { host = little_host; stack = zeros; junk = pos 7; deep = zeros_deep }

abbrev pub big : Machine
big = record { host = big_host; stack = zeros; junk = pos 9; deep = zeros_deep }

abbrev pub an_order : LaptopOrder
an_order = Order.set_order (pos 3) (pos 70000) (pos 1)

abbrev pub a_laptop : LaptopInfo
a_laptop = Info.set_info (pos 3) (pos 70000) (pos 1) (pos 4) (pos 1)

abbrev pub a_request : ReplicationRequest
a_request =
    Request.make (pos 5) (pos 1) minus_one minus_one
      (record { opcode = pos 1; arg1 = pos 3; arg2 = pos 70000 })

abbrev pub open_socket : Socket
open_socket = record { fd = pos 4; is_initialized = true; valid = true; nagle = 0 }

abbrev pub closed_socket : Socket
closed_socket = record { fd = minus_one; is_initialized = false; valid = false; nagle = 0 }

-- The kernel takes one byte at a time.
abbrev pub slow_sends : List ℤ
slow_sends = replicate 40 (pos 1)

abbrev pub link_with : List Chunk → Link
link_with chunks = record { socket = open_socket; sends = slow_sends; recvs = chunks; sent = [] }
