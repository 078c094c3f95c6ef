-- ===== src/Tests/Servers.antt =====
-- A primary with two stubs, of which one has lost its socket, and a backup.
use pa.Prelude.{refl, inl, inr, List, [], ◌∷◌, replicate, arith, pos}
use pa.Socket.{Link, Chunk, got, failed}
use pa.Socket.Receiving.{stream}
use pa.Stub.Client.{ClientStub, Dial}
use pa.Stub.Exchanges.{CanRecv}
use pa.Factory.{Peer, AdminRequest, LaptopFactory, start}
use pa.Factory.Serving.{request_of}
use pa.Factory.Replication.{Ready, AllReady, IsPrimary}
use pa.Tests.Data.{link_with, an_order, closed_socket, slow_sends}

abbrev pub stub_with : Link → ClientStub
stub_with l = record { ip = "10.0.0.2"; port = pos 9000; link = l }

-- A backup that answers twelve bytes.
abbrev pub backup_stub : ClientStub
backup_stub = stub_with (link_with (got (replicate 12 1) ∷ []))

-- A stub whose socket is lost.
abbrev pub lost_stub : ClientStub
lost_stub =
    stub_with
      (record { socket = closed_socket; sends = slow_sends; recvs = failed ∷ []; sent = [] })

-- An attempt to connect that succeeds.
abbrev pub a_dial : Dial
a_dial = record { fd = pos 6; result = pos 0; sends = slow_sends; recvs = [] }

abbrev pub peers : List Peer
peers = record { server_id = pos 2; ip_addr = "10.0.0.2"; port = pos 9000 } ∷ []

abbrev pub primary : LaptopFactory
primary = record (start (pos 1) peers) { primary_id = pos 1; stubs = backup_stub ∷ lost_stub ∷ [] }

abbrev pub backup : LaptopFactory
backup = start (pos 2) []

pub primary_IsPrimary : IsPrimary primary
primary_IsPrimary = record { named = refl; known = λ e. cc }

pub stub-Ready :
    (chunks : List Chunk) → CanRecv (link_with chunks) 12 → Ready (stub_with (link_with chunks))
stub-Ready chunks r = record {
  sending = record { documented = omega arith; answered = omega arith };
  receiving = r;
}

pub stubs_ready : AllReady (backup_stub ∷ lost_stub ∷ [])
unfolding stream
stubs_ready = (
  stub-Ready (got (replicate 12 1) ∷ [])
      (record { documented = omega arith; answered = inl (omega arith) }),
  (
    record {
      sending = record { documented = omega arith; answered = omega arith };
      receiving = record { documented = tt; answered = inr tt };
    },
    tt,
  ),
)

abbrev pub req : AdminRequest
req = request_of an_order (pos 0)

abbrev pub dials : List Dial
dials = a_dial ∷ a_dial ∷ []
