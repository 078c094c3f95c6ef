-- ===== src/Customer.antt =====
-- class ClientThreadClass of ClientThread.h and ClientThread.cpp: one customer, who talks to a server
-- through a service. What it prints is the list of its lines.
pub mod Orders
pub mod Listing
pub mod Shopping
pub mod Session
pub mod Timing
use Prim.Native.String.{String}
use pa.Prelude.{
  ℕ, zero, suc, ◌+◌, Bool, List, [], ◌∷◌, ◌++◌, if◌then◌else◌, not, ℤ, pos, minus_one, eq_int,
  pos_part,
}
use pa.Machine.{Machine}
use pa.Messages.Order
use pa.Messages.Order.{LaptopOrder}
use pa.Messages.Info
use pa.Messages.Info.{LaptopInfo}
use pa.Messages.Record
use pa.Messages.Record.{CustomerRecord}
use pa.Socket.{Link, Outcome, done, ◌>>=◌}
use pa.Stub.Client
use pa.Stub.Client.{ClientStub, Dial}
use pa.Timer.{ClientTimer, start, end_and_merge}

-- The calls that a customer makes of its stub, over the state of the connection.
pub record Service (S : Type 0) : Type 0 where
  pub order : LaptopOrder → S → Outcome (LaptopInfo × S)
  pub read_record : LaptopOrder → S → Outcome (CustomerRecord × S)

-- The stub's two calls.
abbrev pub stub_service : Machine → Service Link
stub_service m = record { order = Client.order m; read_record = Client.read_record m }

-- What a customer prints: a laptop with its engineer, customer and number; a record; or a complaint.
pub data Line : Type 0 where
  laptop_produced : ℤ → ℤ → ℤ → Line
  invalid_laptop : ℤ → Line
  last_order : ℤ → Line
  record_read : ℤ → ℤ → Line
  invalid_record : ℤ → Line
  request_invalid : Line

-- The line for the answer to an order.
unfoldable pub report : ℤ → LaptopInfo → Line
unfolding Info.is_valid
report customer_id laptop =
    if not (Info.is_valid laptop)
    then invalid_laptop customer_id
    else laptop_produced laptop.engineer_id laptop.customer_id laptop.order_number

-- The state of the loop of ThreadBody.
pub record Run (S : Type 0) : Type 0 where
  pub service_state : S
  pub timer : ClientTimer
  pub lines : List Line

abbrev pub print : {S : Type 0} → Line → Run S → Run S
print line r = record r { lines = r.lines ++ (line ∷ []) }

-- `timer.Start()` and `timer.EndAndMerge()` round a round, whose times are `clock i`.
abbrev pub begin : {S : Type 0} → ℕ × ℕ → Run S → Run S
begin times r = record r { timer = start r.timer times.0 }

abbrev pub finish : {S : Type 0} → ℕ × ℕ → Run S → Run S
finish times r = record r { timer = end_and_merge r.timer times.1 }

module _ {S : Type 0} (service : Service S) (customer_id laptop_type : ℤ) (clock : ℕ → ℕ × ℕ) where
  -- `case 1`
  unfoldable pub order_laptop : ℕ → Run S → Outcome (Run S)
  unfolding report
  order_laptop i r = do
    (laptop, s) ← service.order (Order.set_order customer_id (pos i) laptop_type) r.service_state
    done (print (report customer_id laptop) (record r { service_state = s }))

  -- The loop of ThreadBody: `left` rounds from `i` on. A round of type 3 that reads an invalid record
  -- returns at once.
  unfoldable pub rounds : (left i : ℕ) → Run S → Outcome (Run S)
  unfolding order_laptop Record.is_valid
  rounds zero i r0 = done r0
  rounds (suc left) i r0 =
      let r = begin (clock i) r0 in
      let ordered = do r1 ← order_laptop i r; rounds left (i + 1) (finish (clock i) r1)
      in let listed = do
        (answer, s) ←
            service.read_record (Order.set_order (pos i) minus_one laptop_type) r.service_state
        let r1 = record r { service_state = s }
        let line = record_read answer.customer_id answer.last_order
        let shown = if not (eq_int answer.customer_id minus_one) then print line r1 else r1
        let more = rounds left (i + 1) (finish (clock i) shown)
        if not (Record.is_valid answer) then done (print (invalid_record customer_id) r1) else more
        in let refused = rounds left (i + 1) (finish (clock i) (print request_invalid r)) in
          if eq_int laptop_type (pos 1)
          then ordered
          else if eq_int laptop_type (pos 3)
          then listed
          else refused

  -- The single read of type 2.
  unfoldable pub read_one : Run S → Outcome (Run S)
  unfolding Record.is_valid
  read_one r = do
    (answer, s) ←
        service.read_record (Order.set_order customer_id minus_one laptop_type) r.service_state
    let r1 = record r { service_state = s }
    done (
        print
          (if not (Record.is_valid answer)
            then invalid_record customer_id
            else last_order answer.last_order)
          r1)

-- ClientThreadClass::ThreadBody. `clock i` gives the times at which round `i` starts and ends.
unfoldable pub thread_body :
    Machine
    → (clock : ℕ → ℕ × ℕ) → ClientTimer
    → ClientStub
    → String
    → (port id orders type : ℤ) → List Dial
    → Outcome (Run Link)
unfolding rounds read_one
thread_body m clock timer stub0 ip port id orders type dials = do
  (ok, stub, rest) ← Client.init stub0 ip port dials
  let r0 : Run Link = record { service_state = stub.link; timer = timer; lines = [] }
  let connected = do
    l ← Client.send_identification m (pos 1) stub.link
    let r = record r0 { service_state = l }
    if eq_int type (pos 2)
        then read_one (stub_service m) id type clock r
        else rounds (stub_service m) id type clock (pos_part orders) 0 r
  if not ok then done r0 else connected
