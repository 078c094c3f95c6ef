-- ===== src/Stub/Halves.antt =====
-- ClientStub::startReplication of ClientStub.cpp in its two calls, between which the peer works.
use pa.Prelude.{◌≡◌, refl, Bool, if◌then◌else◌}
use pa.Machine.{Machine, buffer}
use pa.Messages.Order
use pa.Messages.Request
use pa.Messages.Request.{ReplicationRequest}
use pa.Socket.{Link, Outcome, done, ◌>>=◌, send, recv}
use pa.Stub.Client.{start_replication}

-- `socket.Send`
unfoldable pub ask_replication : Machine → ReplicationRequest → Link → Outcome (Bool × Link)
ask_replication m request l = send l (Request.marshal m.host request (buffer m 128)).1 Request.size

-- `socket.Recv`
unfoldable pub hear_answer : Link → Outcome Link
hear_answer l = do (ok, bytes, l1) ← recv l Order.size; done l1

-- The two calls one after the other.
pub start_replication-halves :
    (m : Machine) (request : ReplicationRequest) (l : Link)
    → start_replication m request l
      ≡ (ask_replication m request l >>= λ (ok, l1). if ok then hear_answer l1 else done l1)
unfolding start_replication ask_replication hear_answer
start_replication-halves m request l = refl
