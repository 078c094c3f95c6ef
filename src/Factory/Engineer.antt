-- ===== src/Factory/Engineer.antt =====
-- LaptopFactory::EngineerThread of ServerThread.cpp: a thread for each connection, which serves
-- customers or applies what the primary replicates. The thread is a state machine whose steps end
-- where it waits: for bytes, or for the admin to fulfil a promise.
use pa.Prelude.{
  true, false, Option, none, some, List, [], ◌∷◌, ◌++◌, if◌then◌else◌, ℤ, pos, minus_one, eq_int,
}
use pa.Machine.{Machine}
use pa.Messages.Order
use pa.Messages.Order.{LaptopOrder}
use pa.Messages.Info
use pa.Messages.Info.{LaptopInfo, copy_order, set_engineer_id, set_admin_id}
use pa.Messages.Record
use pa.Messages.Record.{CustomerRecord}
use pa.Messages.Request.{ReplicationRequest}
use pa.Storage.{order_op, place_order, read_record}
use pa.Socket.{Link, Outcome, done, blocked, ◌>>=◌}
use pa.Stub.Server.{
  receive_status_info, receive_order_request, receive_replication_request, send_laptop,
  return_record, send_replication_result, is_valid, destroy,
}
use pa.Factory.{LaptopFactory, AdminRequest}

-- Where a thread stands: before the status, in one of the two branches of the loop, in
-- `CreateRegularLaptop` before `fut.get()`, in the loop with any other status, or returned.
pub data Phase : Type 0 where
  starting replica serving : Phase
  waiting : LaptopInfo → Phase
  idling ended : Phase

pub record Engineer : Type 0 where
  pub id : ℤ
  pub link : Link
  pub phase : Phase

-- LaptopFactory::CreateRegularLaptop up to the `future`: the laptop, and the request in the queue.
unfoldable pub create_regular_laptop : LaptopFactory → LaptopOrder → ℤ → LaptopFactory × LaptopInfo
unfolding copy_order set_engineer_id set_admin_id
create_regular_laptop f order engineer_id =
    let laptop = set_admin_id (set_engineer_id (copy_order Info.new order) engineer_id) (pos 1) in
    let req : AdminRequest = record {
      type = pos 1;
      ops = order_op order.customer_id order.order_number;
      customer = Record.new;
      promise = engineer_id;
    } in
    (record f { erq = f.erq ++ (req ∷ []) }, laptop)

-- LaptopFactory::GetCustomerRecord
unfoldable pub get_customer_record : LaptopFactory → LaptopOrder → CustomerRecord
get_customer_record f order =
    Record.make order.customer_id (read_record f.server_storage order.customer_id)

-- The promise of an engineer, taken out once it has a value.
unfoldable pub take_promise :
    ℤ → List (ℤ × CustomerRecord) → Option (CustomerRecord × List (ℤ × CustomerRecord))
take_promise id [] = none
take_promise id ((owner, value) ∷ rest) = elim (eq_int owner id) [
  | true ↦ some (value, rest)
  | false ↦ elim (take_promise id rest) [
    | none ↦ none
    | some (found, others) ↦ some (found, (owner, value) ∷ others)
  ]
]

-- `return`: the stub goes out of scope and closes its socket.
abbrev finish : Engineer → Engineer
finish e = record e { link = destroy e.link; phase = ended }

-- The status that the other side sends first decides the branch for good.
abbrev pub phase_of : ℤ → Phase
phase_of status =
    if eq_int status (pos 2) then replica else if eq_int status (pos 1) then serving else idling

unfoldable pub identify : Machine → Engineer → Outcome Engineer
identify m e = do
  (status, l) ← receive_status_info m e.link
  done (record e { link = l; phase = phase_of status })

-- The factory after a request of the primary.
unfoldable pub apply_request : LaptopFactory → ReplicationRequest → LaptopFactory
apply_request f req = record f {
  primary_id = req.factory_id;
  committed_index = req.committed_index;
  last_index = req.last_index;
  server_storage = place_order f.server_storage req.operation.arg1 req.operation.arg2;
}

-- The order that acknowledges a request.
abbrev pub acknowledgement : ReplicationRequest → LaptopOrder
acknowledgement req = Order.set_order req.operation.arg1 req.operation.arg2 (pos 4)

-- One round of the branch for status 2. `unset` is what the fields of a fresh request hold.
unfoldable pub replica_round :
    Machine → ReplicationRequest → LaptopFactory → Engineer → Outcome (LaptopFactory × Engineer)
unfolding apply_request
replica_round m unset f e = do
  (req, l) ← receive_replication_request m unset e.link
  let apply = do
    (ok, l1) ← send_replication_result m (acknowledgement req) l
    done (apply_request f req, record e { link = l1 })
  if is_valid l
      then apply
      else done (record f { primary_id = minus_one }, finish (record e { link = l }))

-- One round of the branch for status 1, up to the wait for a promise where there is one.
unfoldable pub serving_round :
    Machine → LaptopFactory → Engineer → Outcome (LaptopFactory × Engineer)
unfolding create_regular_laptop get_customer_record Order.is_valid
serving_round m f e0 = do
  (order, l) ← receive_order_request m e0.link
  let e = record e0 { link = l }
  let made = create_regular_laptop f order e.id
  let answer = do
    (ok, l1) ← return_record m (get_customer_record f order) l
    done (f, record e { link = l1 })
  let type = order.laptop_type
  if Order.is_valid order
      then (if eq_int type (pos 1)
          then done (made.0, record e { phase = waiting made.1 })
          else if eq_int type (pos 2)
          then answer
          else if eq_int type (pos 3)
          then answer
          else done (f, e))
      else done (f, finish e)

-- `fut.get()` and the answer to the customer.
unfoldable pub deliver_laptop :
    Machine → LaptopFactory → Engineer → LaptopInfo → Outcome (LaptopFactory × Engineer)
unfolding take_promise
deliver_laptop m f e laptop = elim (take_promise e.id f.fulfilled) [
  | none ↦ blocked
  | some (value, rest) ↦ do
    (ok, l) ← send_laptop m laptop e.link
    done (record f { fulfilled = rest }, record e { link = l; phase = serving })
]

-- The next step of a thread. A thread with another status goes round its loop without effect.
unfoldable pub engineer_step :
    Machine → ReplicationRequest → LaptopFactory → Engineer → Outcome (LaptopFactory × Engineer)
unfolding identify replica_round serving_round deliver_laptop
engineer_step m unset f e = elim e.phase [
  | starting ↦ do e1 ← identify m e; done (f, e1)
  | replica ↦ replica_round m unset f e
  | serving ↦ serving_round m f e
  | waiting laptop ↦ deliver_laptop m f e laptop
  | idling ↦ done (f, e)
  | ended ↦ done (f, e)
]
