-- ===== src/Factory.antt =====
-- struct AdminRequest and class LaptopFactory of ServerThread.h and ServerThread.cpp: the state that
-- the threads of a server share, and the work of the production admin thread.
pub mod Engineer
pub mod Identification
pub mod Rounds
pub mod Admin
pub mod Chores
pub mod Deeds
pub mod System
pub mod Counts
pub mod Backing
pub mod Upkeep
pub mod Sound
pub mod Durable
pub mod Election
pub mod Relay
pub mod Turn
pub mod Hearing
pub mod Serving
pub mod Delivery
pub mod Departure
pub mod Replica
pub mod Replication
pub mod Takeover
pub mod Consistency
pub mod History
use Prim.Native.String.{String}
use pa.Prelude.{
  not, ◌||◌, List, [], ◌∷◌, ◌++◌, if◌then◌else◌, ℤ, pos, minus_one, eq_int, is_nonneg, inc,
}
use pa.Machine.{Machine}
use pa.Messages.Record
use pa.Messages.Record.{CustomerRecord}
use pa.Messages.Request
use pa.Messages.Request.{MapOp, ReplicationRequest}
use pa.Storage
use pa.Storage.{ServerStorage, place_order, read_record, get_idx, get_log}
use pa.Socket.{Link, Outcome, done, blocked, ◌>>=◌}
use pa.Stub.Client.{
  ClientStub, Dial, make, init, reconnect, send_identification, start_replication, is_valid,
}

pub record Peer : Type 0 where
  pub server_id : ℤ
  pub ip_addr : String
  pub port : ℤ

-- The promise is named by the engineer who waits for it.
pub record AdminRequest : Type 0 where
  pub type : ℤ
  pub ops : MapOp
  pub customer : CustomerRecord
  pub promise : ℤ

-- `fulfilled` holds the promises that have a value which no engineer has fetched yet.
pub record LaptopFactory : Type 0 where
  pub last_index : ℤ
  pub committed_index : ℤ
  pub primary_id : ℤ
  pub factory_id : ℤ
  pub peer_list : List Peer
  pub stubs : List ClientStub
  pub server_storage : ServerStorage
  pub erq : List AdminRequest
  pub fulfilled : List (ℤ × CustomerRecord)

-- LaptopFactory::Init on an object that holds no stub, no order and no request.
abbrev pub start : ℤ → List Peer → LaptopFactory
start factory_id peers = record {
  last_index = minus_one;
  committed_index = minus_one;
  primary_id = minus_one;
  factory_id = factory_id;
  peer_list = peers;
  stubs = [];
  server_storage = Storage.new;
  erq = [];
  fulfilled = [];
}

-- The code that a server sends to name itself.
abbrev pub server_code : ℤ
server_code = pos 2

-- The loop of LaptopFactory::startConnection.
unfoldable pub connect_peers :
    Machine → List Peer → List ClientStub → List Dial → Outcome (List ClientStub × List Dial)
connect_peers m [] stubs dials = done (stubs, dials)
connect_peers m (p ∷ peers) stubs dials = do
  (ok, s, rest) ← init (make m.junk) p.ip_addr p.port dials
  l ← if is_valid s then send_identification m server_code s.link else done s.link
  connect_peers m peers (stubs ++ (record s { link = l } ∷ [])) rest

-- LaptopFactory::startConnection
unfoldable pub start_connection :
    Machine → LaptopFactory → List Dial → Outcome (LaptopFactory × List Dial)
unfolding connect_peers
start_connection m f dials = do
  let committed = if is_nonneg f.committed_index then inc f.committed_index else f.committed_index
  (stubs, rest) ← connect_peers m f.peer_list f.stubs dials
  done (record f { committed_index = committed; primary_id = f.factory_id; stubs = stubs }, rest)

-- The request that the factory sends for an operation, with the indices that it has now.
abbrev pub request_for : Machine → LaptopFactory → MapOp → ReplicationRequest
request_for m f op =
    Request.make m.junk f.factory_id f.committed_index f.last_index
      (record { opcode = pos 1; arg1 = op.arg1; arg2 = op.arg2 })

-- The inner loop of LaptopFactory::startReplication, over a copy of the log.
unfoldable pub replay_log : Machine → LaptopFactory → List MapOp → Link → Outcome Link
replay_log m f [] l = done l
replay_log m f (op ∷ log) l = do
  l1 ← start_replication m (request_for m f op) l
  replay_log m f log l1

-- The body of the loop of LaptopFactory::startReplication, for one stub.
unfoldable pub replicate_to :
    Machine
    → LaptopFactory
    → ReplicationRequest
    → ClientStub
    → List Dial
    → Outcome (ClientStub × List Dial)
unfolding replay_log
replicate_to m f request s dials =
    let connected = do l ← start_replication m request s.link; done (record s { link = l }, dials)
    in let lost = do
      (ok, s1, rest) ← reconnect s dials
      let caught_up = do
        l1 ← send_identification m server_code s1.link
        l2 ← replay_log m f (get_log f.server_storage) l1
        l3 ← start_replication m request l2
        done (record s1 { link = l3 }, rest)
      if is_valid s1 then caught_up else done (s1, rest)
      in if is_valid s then connected else lost

-- LaptopFactory::startReplication
unfoldable pub replicate_all :
    Machine
    → LaptopFactory
    → ReplicationRequest
    → List ClientStub
    → List Dial
    → Outcome (List ClientStub × List Dial)
replicate_all m f request [] dials = done ([], dials)
replicate_all m f request (s ∷ stubs) dials = do
  (s1, rest) ← replicate_to m f request s dials
  (stubs1, rest1) ← replicate_all m f request stubs rest
  done (s1 ∷ stubs1, rest1)

-- `req->promise.set_value(...)`
abbrev pub fulfil : ℤ → CustomerRecord → LaptopFactory → LaptopFactory
fulfil promise value f = record f { fulfilled = (promise, value) ∷ f.fulfilled }

-- The branch of LaptopFactory::ProductionAdminThread that places an order.
unfoldable pub admin_order :
    Machine → LaptopFactory → AdminRequest → List Dial → Outcome (LaptopFactory × List Dial)
unfolding start_connection
admin_order m f req dials = do
  let ops = req.ops
  let follows = not (eq_int f.factory_id f.primary_id) || eq_int f.primary_id minus_one
  (f1, dials1) ← if follows then start_connection m f dials else done (f, dials)
  let f2 = record f1 { last_index = get_idx f1.server_storage }
  (stubs, dials2) ← replicate_all m f2 (request_for m f2 ops) f2.stubs dials1
  let storage = place_order f2.server_storage ops.arg1 ops.arg2
  let f3 = record f2 { stubs = stubs; server_storage = storage; committed_index = f2.last_index }
  done (fulfil req.promise req.customer f3, dials2)

-- The branch that reads a record.
unfoldable pub admin_read : LaptopFactory → AdminRequest → LaptopFactory
admin_read f req =
    let last_order = read_record f.server_storage req.customer.customer_id in
    fulfil req.promise (Record.set_last_order req.customer last_order) f

-- One round of LaptopFactory::ProductionAdminThread; it waits while the queue is empty.
unfoldable pub admin_round :
    Machine → LaptopFactory → List Dial → Outcome (LaptopFactory × List Dial)
unfolding admin_order admin_read
admin_round m f dials = elim f.erq [
  | [] ↦ blocked
  | req ∷ rest ↦
      let f1 = record f { erq = rest } in
      if eq_int req.type (pos 1)
      then admin_order m f1 req dials
      else done (admin_read f1 req, dials)
]
