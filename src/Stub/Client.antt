-- ===== src/Stub/Client.antt =====
-- class ClientStub of ClientStub.h and ClientStub.cpp.
use Prim.Native.String.{String}
use pa.Prelude.{Bool, true, false, List, [], ◌∷◌, if◌then◌else◌, ℤ, to_word}
use pa.Machine.{Machine, buffer}
use pa.Buffer.{write}
use pa.Messages.Fields.{int_size}
use pa.Messages.Order
use pa.Messages.Order.{LaptopOrder}
use pa.Messages.Info
use pa.Messages.Info.{LaptopInfo}
use pa.Messages.Record
use pa.Messages.Record.{CustomerRecord}
use pa.Messages.Request
use pa.Messages.Request.{ReplicationRequest}
use pa.Socket.{Link, Chunk, Outcome, done, blocked, ◌>>=◌, new, close, connect, send, recv}

pub record ClientStub : Type 0 where
  pub ip : String
  pub port : ℤ
  pub link : Link

-- One attempt to connect: the results of `socket` and `connect`, and what the kernel will answer on
-- the new descriptor.
pub record Dial : Type 0 where
  pub fd : ℤ
  pub result : ℤ
  pub sends : List ℤ
  pub recvs : List Chunk

-- ClientStub::ClientStub. `junk` is what the descriptor's memory held.
abbrev pub make : (junk : ℤ) → ClientStub
make junk = record {
  ip = "";
  port = junk;
  link = record { socket = new junk; sends = []; recvs = []; sent = [] };
}

-- ClientStub::~ClientStub
abbrev pub destroy : ClientStub → ClientStub
destroy s = record s { link = record s.link { socket = close s.link.socket } }

-- ClientStub::isValid
abbrev pub is_valid : ClientStub → Bool
is_valid s = s.link.socket.valid

-- `socket.Init(ip, port)`: an initialised socket makes no call, any other takes the next attempt.
unfoldable pub dial_socket : Link → List Dial → Outcome (Bool × Link × List Dial)
unfolding connect
dial_socket l dials = elim l.socket.is_initialized [
  | true ↦ done (false, l, dials)
  | false ↦ elim dials [
    | [] ↦ blocked
    | d ∷ rest ↦
        let (ok, socket) = connect l.socket d.fd d.result in
        done (ok, record { socket = socket; sends = d.sends; recvs = d.recvs; sent = [] }, rest)
  ]
]

-- ClientStub::Init
unfoldable pub init : ClientStub → String → ℤ → List Dial → Outcome (Bool × ClientStub × List Dial)
unfolding dial_socket
init s ip port dials = do
  (ok, l, rest) ← dial_socket s.link dials
  done (ok, record { ip = ip; port = port; link = l }, rest)

-- ClientStub::Reconnect
unfoldable pub reconnect : ClientStub → List Dial → Outcome (Bool × ClientStub × List Dial)
unfolding dial_socket
reconnect s dials = do
  (ok, l, rest) ← dial_socket s.link dials
  done (ok, record s { link = l }, rest)

-- ClientStub::SendIdentification. The number goes out as memory holds it.
unfoldable pub send_identification : Machine → ℤ → Link → Outcome Link
send_identification m stat l = do
  (ok, l1) ← send l (write (buffer m 256) 0 (m.host.store (to_word stat))) int_size
  done l1

-- ClientStub::Order
unfoldable pub order : Machine → LaptopOrder → Link → Outcome (LaptopInfo × Link)
order m o l = do
  let buf = Order.marshal m.host o (buffer m 32)
  (ok, l1) ← send l buf Order.size
  let answer = do
    (ok2, bytes, l2) ← recv l1 Info.size
    done (if ok2 then Info.unmarshal m.host (write buf 0 bytes) else Info.new, l2)
  if ok then answer else done (Info.new, l1)

-- ClientStub::ReadRecord
unfoldable pub read_record : Machine → LaptopOrder → Link → Outcome (CustomerRecord × Link)
read_record m o l = do
  let buf = Order.marshal m.host o (buffer m 32)
  (ok, l1) ← send l buf Order.size
  let answer = do
    (ok2, bytes, l2) ← recv l1 Record.size
    done (if ok2 then Record.unmarshal m.host (write buf 0 bytes) else Record.new, l2)
  if ok then answer else done (Record.new, l1)

-- ClientStub::startReplication. The answer is read and dropped.
unfoldable pub start_replication : Machine → ReplicationRequest → Link → Outcome Link
start_replication m request l = do
  (ok, l1) ← send l (Request.marshal m.host request (buffer m 128)).1 Request.size
  let answer = do (ok2, bytes, l2) ← recv l1 Order.size; done l2
  if ok then answer else done l1
