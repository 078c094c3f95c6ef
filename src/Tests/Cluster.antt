-- ===== src/Tests/Cluster.antt =====
-- Factories whose connections carry their requests.
use pa.Prelude.{◌≡◌, refl, List, [], ◌∷◌, replicate, arith, pos, to_word, from_word}
use pa.Messages.Fields.{encode, network}
use pa.Messages.Order
use pa.Storage.{place_order, get_idx}
use pa.Messages.Request.{ReplicationRequest}
use pa.Messages.RoundTrip.{request_fields}
use pa.Socket.{Chunk, got, Returns}
use pa.Socket.Healthy.{take_sends, take_chunks, silent, exchange}
use pa.Stub.Client.{ClientStub, Dial}
use pa.Factory.{AdminRequest, LaptopFactory, start}
use pa.Factory.Serving.{request_of}
use pa.Factory.Engineer.{Engineer, Phase, identify}
use pa.Factory.Replication.{IsPrimary}
use pa.Factory.Rounds.{Carrying, admin_rounds, requests_of, Worked, admin_rounds-Worked}
use pa.Factory.Relay.{Hears, hears, replica_rounds, InStep, queue-InStep}
use pa.Factory.Election.{Reached, all, peer, elected, named}
use pa.Factory.Hearing.{election-InStep}
use pa.Tests.Data.{little, big, an_order, a_request, open_socket}
use pa.Tests.Servers.{stub_with, peers}

-- Two orders that wait.
abbrev pub waiting_orders : List AdminRequest
waiting_orders =
    request_of an_order (pos 0) ∷ request_of (Order.set_order (pos 4) (pos 5) (pos 1)) (pos 1) ∷ []

-- The kernel takes whole requests and brings whole answers.
abbrev pub carrying : ClientStub
carrying = stub_with (record {
  socket = open_socket;
  sends = pos 28 ∷ pos 20 ∷ pos 8 ∷ [];
  recvs = got (replicate 12 1) ∷ got (replicate 12 2) ∷ [];
  sent = [];
})

abbrev pub busy : LaptopFactory
busy = record (start (pos 1) peers) {
  primary_id = pos 1;
  stubs = carrying ∷ [];
  erq = waiting_orders;
}

busy_IsPrimary : IsPrimary busy
busy_IsPrimary = record { named = refl; known = λ e. cc }

pub carrying-Carrying : Carrying 2 carrying
unfolding take_sends take_chunks
carrying-Carrying = record {
  valid = refl;
  answers = replicate 12 1 ∷ replicate 12 2 ∷ [];
  carried = exchange refl refl (exchange refl refl silent);
  enough = refl;
}

admin_rounds-Worked_example :
    Returns (admin_rounds little 2 busy []) (λ r. Worked little busy waiting_orders r.0)
admin_rounds-Worked_example =
    admin_rounds-Worked little busy waiting_orders [] refl (refl, (refl, tt)) busy_IsPrimary
      (carrying-Carrying, tt)

-- A thread of a backup that hears the two requests, the first in one piece.
abbrev pub requests_chunks : List ReplicationRequest → List Chunk
requests_chunks [] = []
requests_chunks (q ∷ qs) = got (encode (request_fields q)) ∷ requests_chunks qs

abbrev pub hearing : Engineer
hearing = record {
  id = pos 0;
  link = record {
    socket = open_socket;
    sends = pos 12 ∷ pos 5 ∷ pos 7 ∷ [];
    recvs = requests_chunks (requests_of little busy waiting_orders);
    sent = [];
  };
  phase = Phase.replica;
}

abbrev pub backup : LaptopFactory
backup = start (pos 2) []

queue-InStep_example : Returns (admin_rounds little 2 busy []) (λ p.
    Worked little busy waiting_orders p.0
    × Returns (replica_rounds big a_request 2 backup hearing) (λ b. InStep p.0 b.0))
unfolding take_sends take_chunks encode network to_word requests_of place_order get_idx from_word
queue-InStep_example =
    queue-InStep little big busy backup (request_of an_order (pos 0)) _ [] a_request hearing refl
      (refl, (refl, tt)) busy_IsPrimary (carrying-Carrying, tt) refl refl
      (hears (omega arith) refl refl (hears (omega arith) refl refl Hears.silent))

-- A follower with the same orders, and an attempt to reach its peer that succeeds.
abbrev pub follower : LaptopFactory
follower = record (start (pos 1) peers) { primary_id = pos 2; erq = waiting_orders }

abbrev pub reached_dial : Dial
reached_dial = record {
  fd = pos 6;
  result = pos 0;
  sends = pos 4 ∷ pos 28 ∷ pos 20 ∷ pos 8 ∷ [];
  recvs = got (replicate 12 1) ∷ got (replicate 12 2) ∷ [];
}

abbrev pub fresh_stub : ClientStub
fresh_stub =
    named little (record { server_id = pos 2; ip_addr = "10.0.0.2"; port = pos 9000 }) reached_dial
      (pos 28 ∷ pos 20 ∷ pos 8 ∷ [])

pub follower_Reached : Reached little peers (reached_dial ∷ []) (fresh_stub ∷ []) []
unfolding take_sends
follower_Reached = peer (record { fresh = refl; opened = refl; reached = refl }) refl all

pub fresh_Carrying : Carrying 2 fresh_stub
unfolding take_sends take_chunks
fresh_Carrying = record {
  valid = refl;
  answers = replicate 12 1 ∷ replicate 12 2 ∷ [];
  carried = exchange refl refl (exchange refl refl silent);
  enough = refl;
}

-- A thread of the backup from its start: the name comes first, in two pieces.
abbrev new_thread : Engineer
new_thread = record {
  id = pos 0;
  link = record hearing.link {
    recvs =
        got (2 ∷ 0 ∷ [])
        ∷ got (0 ∷ 0 ∷ [])
        ∷ requests_chunks (requests_of little (elected follower (fresh_stub ∷ [])) waiting_orders);
  };
  phase = Phase.starting;
}

election-InStep_example : Returns (admin_rounds little 2 follower (reached_dial ∷ [])) (λ p.
    Worked little (elected follower (fresh_stub ∷ [])) waiting_orders p.0
    × Returns (identify little new_thread) (λ e1.
      (e1.phase ≡ Phase.replica)
      × Returns (replica_rounds little a_request 2 backup e1) (λ b. InStep p.0 b.0)))
unfolding take_sends take_chunks encode network to_word requests_of place_order get_idx from_word
election-InStep_example =
    election-InStep little little follower backup (request_of an_order (pos 0)) _ a_request
      new_thread _ refl (refl, (refl, tt)) refl (λ e. cc) follower_Reached (fresh_Carrying, tt) refl
      refl refl refl (hears (omega arith) refl refl (hears (omega arith) refl refl Hears.silent))
