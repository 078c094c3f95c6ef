-- ===== src/Replicas/Promises.antt =====
-- When the admin of a primary fulfils a promise, and what becomes of the order.
use pa.Prelude.{ℕ, ◌<◌, ◌≡◌, sym, subst, true, List, [], All}
use pa.Messages.Request.{MapOp}
use pa.Storage.{order_op}
use pa.Socket.Whenever.{Whenever-done}
use pa.Factory.{AdminRequest, LaptopFactory}
use pa.Factory.Admin.{Admin, committed, admin_step}
use pa.Factory.Backing.{Logged, Logged-append, All-map}
use pa.Factory.Engineer.{engineer_step}
use pa.Factory.Deeds.{Grown}
use pa.Factory.Chores.{Chore, takes, works, places, fulfils, reads, in_log, admin_step-Chores}
use pa.Replicas.{Replicas, Step, customer, admin, replicates, replicated, follower}
use pa.Replicas.Primary.{engineer_step-Steady}
use pa.Replicas.Invariant.{primary_log}
use pa.Replicas.Inheritance.{inherited}
use pa.Replicas.Within.{follower_log}
use pa.Replicas.Agreement.{stored-Logged}
use pa.Replicas.Succession.{Reach, start, later, succeeded, Run}

-- The order of a request that is past the log is in it.
abbrev Stored : List MapOp → AdminRequest → Type 0
Stored log req = Logged (order_op req.ops.arg1 req.ops.arg2) log

Chore-Stored :
    (f f' : LaptopFactory) (a a' : Admin)
    → Grown f f'
    → Chore f a f' a'
    → All (Stored f.server_storage.state_machine_log) (in_log a.place)
    → All (Stored f'.server_storage.state_machine_log) (in_log a'.place)
Chore-Stored f f' a a' g (takes req erq fulfilled before after) h =
    subst (All (Stored f'.server_storage.state_machine_log)) (sym after.1) tt
Chore-Stored f f' a a' g (works same after) h =
    subst (All (Stored f'.server_storage.state_machine_log)) (sym after.1) (
      All-map (in_log a.place)
        (λ req k.
          subst (Logged (order_op req.ops.arg1 req.ops.arg2)) (sym g.log)
            (Logged-append f.server_storage.state_machine_log g.added k))
        h)
Chore-Stored f f' a a' g (places req same before after log) h =
    subst (All (Stored f'.server_storage.state_machine_log)) (sym after.1)
      (record { before = f.server_storage.state_machine_log; after = []; split = log }, tt)
Chore-Stored f f' a a' g (fulfils req value erq fulfilled before after) h =
    subst (All (Stored f'.server_storage.state_machine_log)) (sym after.1) tt
Chore-Stored f f' a a' g (reads req value erq fulfilled before after read) h =
    subst (All (Stored f'.server_storage.state_machine_log)) (sym after.1) tt

Step-Stored :
    {c d : Replicas}
    → Step c d
    → All (Stored (primary_log c)) (in_log c.admin.place)
    → All (Stored (primary_log d)) (in_log d.admin.place)
Step-Stored {c} (customer m unset e {f} other taken) h =
    let k =
      Whenever-done _ (engineer_step m unset c.factory e)
        (engineer_step-Steady m c.factory e unset other) taken in
    subst (λ s. All (Stored s.state_machine_log) (in_log c.admin.place)) (sym k.storage) h
Step-Stored {c} (admin m {f} {a} alone taken fits) h =
    let k =
      Whenever-done _ (admin_step m c.factory c.admin) (admin_step-Chores m c.factory c.admin)
        taken in
    Chore-Stored c.factory f c.admin a k.grown k.chore h
Step-Stored (replicates i req q now lt turn talk) h = h
Step-Stored (replicated req q now all) h = tt
Step-Stored (follower i followed) h = h

Reach-Stored : {c : Replicas} → Reach c → All (Stored (primary_log c)) (in_log c.admin.place)
Reach-Stored {c} (start b) = subst (λ p. All (Stored (primary_log c)) (in_log p)) (sym b.place) tt
Reach-Stored (later r step) = Step-Stored step (Reach-Stored r)
Reach-Stored {c} (succeeded r h) =
    subst (λ p. All (Stored (primary_log c)) (in_log p)) (sym (inherited h).place) tt

-- When the admin of a primary that started over followers with its own log is about to fulfil the
-- promise of an order, the order is in the primary's log and in that of every follower that is
-- connected; and it is in the log of the primary of any later time, and of every follower connected at
-- that time. Between the two times there may be any steps, and any number of successions in which the
-- primary stops while no order is being replicated, a follower that it had not lost takes its place,
-- and each peer of the new primary is one that the old had not lost or one that the new does not
-- reach.
pub promised-Logged :
    {c d : Replicas} (req : AdminRequest) (i : ℕ)
    → Reach c
    → c.admin.place ≡ committed req
    → Run c d
    → i < d.count
    → (d.followers i).stub.link.socket.valid ≡ true
    → Logged (order_op req.ops.arg1 req.ops.arg2) (primary_log d)
      × Logged (order_op req.ops.arg1 req.ops.arg2) (follower_log (d.followers i))
promised-Logged {c} req i r now run lt valid =
    stored-Logged (order_op req.ops.arg1 req.ops.arg2) i r
      (subst (λ p. All (Stored (primary_log c)) (in_log p)) now (Reach-Stored r)).0 run lt valid
