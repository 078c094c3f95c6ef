-- ===== src/Factory/System.antt =====
-- A running server: the admin and any number of engineers, who take their steps in any order.
use pa.Prelude.{ℕ, ◌≡◌, List, ℤ, pos}
use pa.Machine.{Machine}
use pa.Messages.Request.{ReplicationRequest}
use pa.Socket.{done}
use pa.Threads.{moved}
use pa.Factory.{Peer, LaptopFactory, start}
use pa.Factory.Engineer.{Engineer, Phase, engineer_step}
use pa.Factory.Admin.{Admin, Place, admin_step}

-- The engineer with number `i` is a thread from the start; it takes its first step once its
-- connection is there.
pub record System : Type 0 where
  pub factory : LaptopFactory
  pub admin : Admin
  pub engineers : ℕ → Engineer

-- What `main` starts: a new factory with its identity and peers, an admin that waits for the queue,
-- and the engineers in the order of their numbers.
pub record Boots (factory_id : ℤ) (peers : List Peer) (s : System) : Type 0 where
  pub factory : s.factory ≡ start factory_id peers
  pub admin : s.admin.place ≡ Place.ready
  pub ids : (i : ℕ) → (s.engineers i).id ≡ pos i
  pub phases : (i : ℕ) → (s.engineers i).phase ≡ Phase.starting

-- The stacks that the calls run on, and what the fields of a fresh request hold, differ from step to
-- step.
pub data Step (s : System) : System → Type 0 where
  engineer :
      (i : ℕ) (m : Machine) (unset : ReplicationRequest) {f : LaptopFactory} {e : Engineer}
      → engineer_step m unset s.factory (s.engineers i) ≡ done (f, e)
      → Step s (record s { factory = f; engineers = moved s.engineers i e })
  admin :
      (m : Machine) {f : LaptopFactory} {a : Admin}
      → admin_step m s.factory s.admin ≡ done (f, a)
      → Step s (record s { factory = f; admin = a })

-- The states that a server can come to.
pub data Reach : System → Type 0 where
  boot : {factory_id : ℤ} {peers : List Peer} {s : System} → Boots factory_id peers s → Reach s
  later : {s t : System} → Reach s → Step s t → Reach t

-- From one state to another, in any number of steps.
pub data Run : System → System → Type 0 where
  ends : {s : System} → Run s s
  goes_on : {s t u : System} → Step s t → Run t u → Run s u
