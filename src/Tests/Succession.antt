-- ===== src/Tests/Succession.antt =====
-- The whole replication of one order: two followers store it and answer, the connection to the other
-- fails within the request. Then one of the two succeeds to the primary.
use pa.Prelude.{◌⊎◌, inl, inr, replicate, ℕ, zero, suc, ◌<◌, ◌≡◌, refl, [], arith, pos, minus_one}
use pa.Messages.Order
use pa.Storage.{get_idx, place_order, order_op, read_record}
use pa.Threads.{moved}
use pa.Factory.{start_connection, connect_peers, AdminRequest, LaptopFactory}
use pa.Factory.Admin.{choose, Place, admin_step}
use pa.Factory.Backing.{Logged}
use pa.Factory.Serving.{request_of}
use pa.Replicas.{Turn, Follower, Replicas, Step}
use pa.Replicas.Succession.{Survivor, Unreached, Succeeds, Reach, Run}
use pa.Replicas.Within.{follower_log}
use pa.Replicas.Invariant.{primary_log}
use pa.Replicas.Agreement.{Between, Reach-Between, failover_reads}
use pa.Replicas.Progress.{Ended, replication-Ended}
use pa.Replicas.Promises.{promised-Logged}
use pa.Tests.Data.{little}
use pa.Tests.Replicas.{
  req, fresh, leading, at_place, q, sending, sending-Reach, asked, asked-Talk, heard, heard-Follow,
  answered, answered-Talk, failed, failed-Talk,
}

-- The states of the loop over the stubs.
abbrev first : Follower → ℕ → Follower
first p = moved (λ i. record fresh { turn = Turn.untold }) 0 p

abbrev looping : (ℕ → Follower) → Replicas
looping followers = record sending { followers = followers }

heard-Reach : Reach (looping (moved (first asked) 0 heard))
heard-Reach =
    Reach.later
      (Reach.later sending-Reach
        (Step.replicates 0 req q refl (omega arith) (λ j lt. absurd (omega arith)) asked-Talk))
      (Step.follower 0 heard-Follow)

-- The first follower has stored the order, and the primary has not.
Reach-Between_example : Between (looping (moved (first asked) 0 heard)) 0
Reach-Between_example = Reach-Between 0 heard-Reach (omega arith)

abbrev two_told : ℕ → Follower
two_told = moved (moved (moved (first asked) 0 heard) 0 answered) 1 failed

two_told-Reach : Reach (looping two_told)
two_told-Reach =
    Reach.later
      (Reach.later heard-Reach
        (Step.replicates 0 req q refl (omega arith) (λ j lt. absurd (omega arith)) answered-Talk))
      (Step.replicates 1 req q refl (omega arith) before failed-Talk)
  where
    before : (j : ℕ) → j < 1 → (moved (moved (first asked) 0 heard) 0 answered j).turn ≡ Turn.told
    before zero lt = refl
    before (suc j) lt = absurd (omega arith)

abbrev all_told : ℕ → Follower
all_told = moved (moved (moved two_told 2 asked) 2 heard) 2 answered

all_told-Reach : Reach (looping all_told)
all_told-Reach =
    Reach.later
      (Reach.later
        (Reach.later two_told-Reach (Step.replicates 2 req q refl (omega arith) before asked-Talk))
        (Step.follower 2 heard-Follow))
      (Step.replicates 2 req q refl (omega arith) after answered-Talk)
  where
    before : (j : ℕ) → j < 2 → (two_told j).turn ≡ Turn.told
    before zero lt = refl
    before (suc zero) lt = refl
    before (suc (suc j)) lt = absurd (omega arith)

    after : (j : ℕ) → j < 2 → (moved (moved two_told 2 asked) 2 heard j).turn ≡ Turn.told
    after zero lt = refl
    after (suc zero) lt = refl
    after (suc (suc j)) lt = absurd (omega arith)

-- The primary has stored the order, and then has committed it.
abbrev stored : LaptopFactory
stored = record leading { server_storage = place_order leading.server_storage (pos 3) (pos 70000) }

abbrev settled : Place → Replicas
settled p = record { factory = stored; admin = at_place p; count = 3; followers = all_told }

stored-Reach : Reach (settled (Place.placed req))
unfolding admin_step
stored-Reach =
    Reach.later (Reach.later all_told-Reach (Step.replicated req q refl told))
      (Step.admin little (λ r s e. cc) refl (λ r s e. cc))
  where
    told : (i : ℕ) → i < 3 → (all_told i).turn ≡ Turn.told
    told zero lt = refl
    told (suc zero) lt = refl
    told (suc (suc zero)) lt = refl
    told (suc (suc (suc i))) lt = absurd (omega arith)

failover_reads_example :
    (read_record (all_told 0).factory.server_storage (pos 3)
      ≡ read_record stored.server_storage (pos 3))
    × (get_idx (all_told 0).factory.server_storage ≡ get_idx stored.server_storage)
failover_reads_example = failover_reads 0 (pos 3) stored-Reach (omega arith) refl refl

-- The admin is about to fulfil the promise.
abbrev promising : Replicas
promising = record (settled (Place.committed req)) {
  factory = record stored { committed_index = stored.last_index };
}

promising-Reach : Reach promising
unfolding admin_step
promising-Reach = Reach.later stored-Reach (Step.admin little (λ r s e. cc) refl (λ r s e. cc))

-- The first follower becomes primary with the next order, over the third; it does not reach the second, whose connection had failed.
abbrev other_req : AdminRequest
other_req = request_of (Order.set_order (pos 4) (pos 5) (pos 1)) (pos 1)

abbrev succeeding : Replicas
succeeding = record {
  factory = record heard.factory { primary_id = pos 2 };
  admin = at_place (Place.connected other_req);
  count = 2;
  followers = moved (λ i. record fresh { factory = heard.factory }) 1 failed;
}

succession : Succeeds promising succeeding
unfolding choose start_connection connect_peers
succession = record {
  calm = refl;
  heir = 0;
  there = omega arith;
  connected = refl;
  before = heard.factory;
  storage = refl;
  known = λ e. cc;
  machine = little;
  req = other_req;
  dials = [];
  orders = refl;
  chosen = refl;
  peers = their_peers;
}
  where
    their_peers :
        (i : ℕ)
        → i < 2
        → Survivor promising (succeeding.followers i) ⊎ Unreached promising (succeeding.followers i)
    their_peers zero lt = inl (record {
      number = 2;
      there = omega arith;
      connected = refl;
      storage = refl;
      none_to = refl;
      none_back = refl;
    })
    their_peers (suc zero) lt =
        inr (record { number = 1; there = omega arith; refused = refl; storage = refl; to = refl })
    their_peers (suc (suc i)) lt = absurd (omega arith)

promised-Logged_example :
    Logged (order_op (pos 3) (pos 70000)) (primary_log succeeding)
    × Logged (order_op (pos 3) (pos 70000)) (follower_log (succeeding.followers 0))
promised-Logged_example =
    promised-Logged req 0 promising-Reach refl (Run.passes_on succession Run.stops) (omega arith)
      refl

-- The first follower has been asked and does not answer.
abbrev held_up : Replicas
held_up = record (looping (first asked)) {
  admin = record {
    place = Place.sending req q;
    dials = replicate 3 (record { fd = minus_one; result = minus_one; sends = []; recvs = [] });
  };
}

replication-Ended_example : Ended held_up req
replication-Ended_example = replication-Ended little req q held_up refl (omega arith)
