-- ===== src/Tests/Replicas.antt =====
-- Followers of a primary that replicates one order: as they start, as one stores the order and answers,
-- and as the connection to one fails within the request.
use pa.Prelude.{
  ℕ, refl, subst, List, [], ◌∷◌, take, drop, arith, pos, minus_one, from_word, to_word,
}
use pa.Buffer.{write}
use pa.Messages.Fields.{get_field, put_field}
use pa.Messages.Order
use pa.Messages.Request
use pa.Messages.Request.{ReplicationRequest}
use pa.Messages.RoundTrip.{request_fields, Fits}
use pa.Socket.{Link, got, send, recv}
use pa.Socket.Healthy.{take_chunks}
use pa.Stub.Server.{receive_replication_request, send_replication_result}
use pa.Stub.Halves.{ask_replication, hear_answer}
use pa.Storage.{get_idx, place_order}
use pa.Factory.{AdminRequest, LaptopFactory, start}
use pa.Factory.Admin.{Admin, Place, admin_step}
use pa.Factory.Engineer.{Phase, replica_round}
use pa.Factory.Serving.{request_of}
use pa.Replicas.{Turn, Follower, Replicas, Step, Talk, Follow}
use pa.Replicas.Succession.{Reach}
use pa.Replicas.Stages.{sending_inj}
use pa.Replicas.Inheritance.{Founded, Founded-Starts}
use pa.Factory.{start_connection, connect_peers}
use pa.Factory.Admin.{choose}
use pa.Tests.Data.{little, big, an_order, a_request, open_socket, closed_socket}
use pa.Tests.Servers.{stub_with}

abbrev pub req : AdminRequest
req = request_of an_order (pos 0)

abbrev open_link : Link
open_link = record { socket = open_socket; sends = []; recvs = []; sent = [] }

abbrev pub fresh : Follower
fresh = record {
  stub = stub_with open_link;
  turn = Turn.told;
  factory = start (pos 2) [];
  engineer = record { id = pos 0; link = open_link; phase = Phase.replica };
  to = [];
  back = [];
}

abbrev pub leading : LaptopFactory
leading = record (start (pos 1) []) { primary_id = pos 1 }

abbrev pub at_place : Place → Admin
at_place p = record { place = p; dials = [] }

abbrev connected : Replicas
connected = record {
  factory = leading;
  admin = at_place (Place.connected req);
  count = 3;
  followers = λ i. fresh;
}

connected-Founded : Founded (pos 1) [] connected
unfolding choose start_connection connect_peers
connected-Founded = record {
  known = λ e. cc;
  queue = [];
  machine = little;
  req = req;
  dials = [];
  orders = refl;
  chosen = refl;
  stores = λ i lt. refl;
  none_to = λ i lt. refl;
  none_back = λ i lt. refl;
}

-- The request that goes out.
abbrev pub q : ReplicationRequest
q = record {
  vid = pos 7;
  factory_id = pos 1;
  committed_index = minus_one;
  last_index = minus_one;
  operation = record { opcode = pos 1; arg1 = pos 3; arg2 = pos 70000 };
}

q-Fits : Fits (request_fields q)
q-Fits = (
  omega arith,
  (omega arith, (omega arith, (omega arith, (omega arith, (omega arith, (omega arith, tt)))))),
)

abbrev pub sending : Replicas
sending = record {
  factory = leading;
  admin = at_place (Place.sending req q);
  count = 3;
  followers = λ i. record fresh { turn = Turn.untold };
}

pub sending-Reach : Reach sending
unfolding admin_step get_idx from_word
sending-Reach =
    Reach.later
      (Reach.later (Reach.start (Founded-Starts connected-Founded))
        (Step.admin little (λ r s e. cc) refl (λ r s e. cc)))
      (Step.admin little (λ r s e. cc) refl
        (λ r s e. subst (λ x. Fits (request_fields x)) (sending_inj e).1 q-Fits))

-- The first follower has been asked.
abbrev bytes : List ℕ
bytes =
    0 ∷ 0 ∷ 0 ∷ 1 ∷ 0 ∷ 0 ∷ 0 ∷ 1 ∷ 255 ∷ 255 ∷ 255 ∷ 255 ∷ 255 ∷ 255 ∷ 255 ∷ 255 ∷ 0 ∷ 0 ∷ 0 ∷ 1
    ∷ 0 ∷ 0 ∷ 0 ∷ 3 ∷ 0 ∷ 1 ∷ 17 ∷ 112 ∷ []

abbrev pub asked : Follower
asked = record fresh {
  stub = stub_with (record open_link { sent = bytes });
  turn = Turn.asked;
  to = bytes;
}

pub asked-Talk : Talk leading q [] (record fresh { turn = Turn.untold }) asked []
unfolding ask_replication send Request.marshal put_field write to_word
asked-Talk = Talk.asks little (pos 20 ∷ pos 8 ∷ []) bytes refl refl refl refl

-- It reads the request in two pieces, stores the order and answers.
abbrev pub answer : List ℕ
answer = 0 ∷ 0 ∷ 0 ∷ 3 ∷ 0 ∷ 1 ∷ 17 ∷ 112 ∷ 0 ∷ 0 ∷ 0 ∷ 4 ∷ []

abbrev pub heard : Follower
heard = record asked {
  factory = record (start (pos 2) []) {
    primary_id = pos 1;
    server_storage = place_order (start (pos 2) []).server_storage (pos 3) (pos 70000);
  };
  engineer = record {
    id = pos 0;
    link = record open_link { sent = answer };
    phase = Phase.replica;
  };
  to = [];
  back = answer;
}

pub heard-Follow : Follow asked heard
unfolding replica_round take_chunks recv write put_field to_word from_word send place_order
    receive_replication_request send_replication_result Order.marshal Request.unmarshal get_field
heard-Follow =
    Follow.reads big a_request (pos 12 ∷ []) (got (take 5 bytes) ∷ got (drop 5 bytes) ∷ []) [] bytes
      [] answer refl refl refl refl refl refl

-- The primary hears the answer.
abbrev pub answered : Follower
answered = record heard { turn = Turn.told; back = [] }

pub answered-Talk : Talk leading q [] heard answered []
unfolding hear_answer take_chunks recv
answered-Talk = Talk.hears (got answer ∷ []) [] answer [] refl refl refl refl

-- The connection to the second follower fails after eight bytes.
abbrev pub failed : Follower
failed = record fresh {
  stub = stub_with (record open_link { socket = closed_socket; sent = take 8 bytes });
  to = take 8 bytes;
}

pub failed-Talk : Talk leading q [] (record fresh { turn = Turn.untold }) failed []
unfolding ask_replication send Request.marshal put_field write to_word
failed-Talk = Talk.fails little (pos 8 ∷ minus_one ∷ []) (take 8 bytes) refl refl refl refl
