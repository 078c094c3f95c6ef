-- ===== src/Customer/Timing.antt =====
-- The timer of ClientThreadClass::ThreadBody, whatever the server and the kernel answer.
use Prim.Native.String.{String}
use pa.Prelude.{
  ℕ, zero, suc, ◌+◌, Bool, true, false, List, [], if◌then◌else◌, not, ℤ, pos, minus_one, eq_int,
  pos_part,
}
use pa.Machine.{Machine}
use pa.Messages.Order
use pa.Messages.Record
use pa.Socket.{Link}
use pa.Socket.Whenever.{Whenever, Whenever-bind, Whenever-then, Whenever-if}
use pa.Stub.Client
use pa.Stub.Client.{ClientStub, Dial}
use pa.Timer.{ClientTimer, start}
use pa.Timer.Bounds.{Bounded, start-Bounded, end_and_merge-Bounded}
use pa.Customer.{
  Service, Line, request_invalid, Run, stub_service, begin, finish, print, order_laptop, rounds,
  read_one, thread_body,
}

abbrev Kept : {S : Type 0} → Run S → Type 0
Kept r = Bounded r.timer

shown-Bounded :
    {S : Type 0} (shows : Bool) (line : Line) (r : Run S)
    → Bounded r.timer
    → Bounded (if shows then print line r else r).timer
shown-Bounded true line r h = h
shown-Bounded false line r h = h

module _ {S : Type 0} (service : Service S) (customer_id laptop_type : ℤ) (clock : ℕ → ℕ × ℕ) where
  order_laptop-Bounded :
      (i : ℕ) (r : Run S)
      → Bounded r.timer
      → Whenever (order_laptop service customer_id laptop_type clock i r) Kept
  unfolding order_laptop
  order_laptop-Bounded i r h =
      Whenever-then Kept
        (service.order (Order.set_order customer_id (pos i) laptop_type) r.service_state) _
        (λ (laptop, s). h)

  rounds-Bounded :
      (left i : ℕ) (r : Run S)
      → Bounded r.timer
      → Whenever (rounds service customer_id laptop_type clock left i r) Kept
  unfolding rounds
  rounds-Bounded zero i r h = h
  rounds-Bounded (suc left) i r h =
      let further : (r1 : Run S)
          → Bounded r1.timer
          → Whenever
              (rounds service customer_id laptop_type clock left (i + 1) (finish (clock i) r1))
              Kept =
        λ r1 k.
          rounds-Bounded left (i + 1) (finish (clock i) r1)
            (end_and_merge-Bounded r1.timer (clock i).1 k) in
      Whenever-if Kept (eq_int laptop_type (pos 1)) _ _
        (λ t.
          Whenever-bind Kept
            (order_laptop service customer_id laptop_type clock i (begin (clock i) r)) _
            (order_laptop-Bounded i (begin (clock i) r) begun) (λ r1 k. further r1 k))
        (λ t.
          Whenever-if Kept (eq_int laptop_type (pos 3)) _ _
            (λ u.
              Whenever-then Kept
                (service.read_record (Order.set_order (pos i) minus_one laptop_type)
                  r.service_state)
                _
                (λ (answer, s).
                  Whenever-if Kept (not (Record.is_valid answer)) _ _ (λ v. begun)
                    (λ v. further _ (
                      shown-Bounded (not (eq_int answer.customer_id minus_one)) _
                        (record (begin (clock i) r) { service_state = s }) begun))))
            (λ u. further (print request_invalid (begin (clock i) r)) begun))
    where
      begun : Bounded (start r.timer (clock i).0)
      begun = start-Bounded r.timer (clock i).0 h

  read_one-Bounded :
      (r : Run S)
      → Bounded r.timer
      → Whenever (read_one service customer_id laptop_type clock r) Kept
  unfolding read_one
  read_one-Bounded r h =
      Whenever-then Kept
        (service.read_record (Order.set_order customer_id minus_one laptop_type) r.service_state) _
        (λ (answer, s). h)

-- Whatever happens on the connection, a thread that ends leaves a timer in bounds.
pub thread_body-Bounded :
    (m : Machine) (clock : ℕ → ℕ × ℕ) (timer : ClientTimer) (stub : ClientStub) (ip : String)
    (port id orders type : ℤ) (dials : List Dial)
    → Bounded timer
    → Whenever (thread_body m clock timer stub ip port id orders type dials) Kept
unfolding thread_body
thread_body-Bounded m clock timer stub0 ip port id orders type dials h =
    Whenever-then Kept (Client.init stub0 ip port dials) _ (λ (ok, stub, rest).
      Whenever-if Kept (not ok) _ _ (λ t. h)
        (λ t. Whenever-then Kept (Client.send_identification m (pos 1) stub.link) _ (λ l.
          let r : Run Link = record { service_state = l; timer = timer; lines = [] } in
          Whenever-if Kept (eq_int type (pos 2)) _ _
            (λ u. read_one-Bounded (stub_service m) id type clock r h)
            (λ u. rounds-Bounded (stub_service m) id type clock (pos_part orders) 0 r h))))
