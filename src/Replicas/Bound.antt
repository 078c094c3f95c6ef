-- ===== src/Replicas/Bound.antt =====
-- How long the loop of LaptopFactory::startReplication can go on: the steps that it has left.
use pa.Prelude.{ℕ, ◌+◌, ◌≡◌}
use pa.Messages.Request.{ReplicationRequest}
use pa.Threads.{tally}
use pa.Factory.{AdminRequest}
use pa.Factory.Admin.{sending}
use pa.Replicas.{
  Turn, untold, asked, told, Replicas, Step, customer, admin, replicates, replicated, follower,
}

-- What is left to do for one follower: to ask it, and to hear it.
abbrev pub calls_left : Turn → ℕ
calls_left untold = 2
calls_left asked = 1
calls_left told = 0

-- What is left to do for all of them.
abbrev pub remaining : Replicas → ℕ
remaining c = tally (λ p. calls_left p.turn) c.count c.followers

-- Whether a step is one of the loop.
abbrev pub of_loop : {c d : Replicas} → Step c d → ℕ
of_loop (customer m unset e other taken) = 0
of_loop (admin m alone taken fits) = 0
of_loop (replicates i req q now lt turn talk) = 1
of_loop (replicated req q now all) = 0
of_loop (follower i followed) = 0

-- The steps while the loop for a request goes on, among them so many of the loop itself; the others
-- are of the customers and of the followers.
pub data Looping (req : AdminRequest) (q : ReplicationRequest)
    : ℕ → Replicas → Replicas → Type 0 where
  stays : {c : Replicas} → Looping req q 0 c c
  steps :
      {c d e : Replicas} {n : ℕ} (step : Step c d)
      → d.admin.place ≡ sending req q
      → Looping req q n d e
      → Looping req q (of_loop step + n) c e
