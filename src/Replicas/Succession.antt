-- ===== src/Replicas/Succession.antt =====
-- The start of a primary with its followers, and what becomes of them: their steps, and the succession
-- of a follower to a primary that has stopped.
use pa.Prelude.{ℕ, ◌<◌, ◌≡◌, ◌≢◌, ◌⊎◌, true, false, List, [], pos, minus_one}
use pa.Machine.{Machine}
use pa.Socket.{done}
use pa.Storage.Latest.{IsReplay}
use pa.Stub.Client.{Dial}
use pa.Factory.{LaptopFactory, AdminRequest}
use pa.Factory.Admin.{Place, choose}
use pa.Factory.Chores.{under_way}
use pa.Replicas.{Follower, Replicas, Step}

-- Behind `startConnection` of a new primary: no request is under way, and every follower has the
-- log of the primary. The maps agree with the logs.
pub record Starts (c : Replicas) : Type 0 where
  pub req : AdminRequest
  pub place : c.admin.place ≡ Place.connected req
  pub named : c.factory.primary_id ≡ c.factory.factory_id
  pub known : c.factory.factory_id ≢ minus_one
  pub replay : IsReplay c.factory.server_storage
  pub same :
      (i : ℕ)
      → i < c.count
      → (c.followers i).factory.server_storage.state_machine_log
        ≡ c.factory.server_storage.state_machine_log
  pub replays : (i : ℕ) → i < c.count → IsReplay (c.followers i).factory.server_storage
  pub none_to : (i : ℕ) → i < c.count → (c.followers i).to ≡ []
  pub none_back : (i : ℕ) → i < c.count → (c.followers i).back ≡ []

-- A follower that the old primary had not lost, behind a fresh connection.
pub record Survivor (c : Replicas) (p : Follower) : Type 0 where
  pub number : ℕ
  pub there : number < c.count
  pub connected : (c.followers number).stub.link.socket.valid ≡ true
  pub storage : p.factory.server_storage ≡ (c.followers number).factory.server_storage
  pub none_to : p.to ≡ []
  pub none_back : p.back ≡ []

-- A follower that the new primary does not reach: its call of `connect` failed, as it does for a process
-- that is gone. The follower may read on what the old primary had sent it.
pub record Unreached (c : Replicas) (p : Follower) : Type 0 where
  pub number : ℕ
  pub there : number < c.count
  pub refused : p.stub.link.socket.valid ≡ false
  pub storage : p.factory.server_storage ≡ (c.followers number).factory.server_storage
  pub to : p.to ≡ (c.followers number).to

-- The successions that are considered: the primary stops while no request is under way, and a follower
-- that it had not lost becomes primary with the first order that reaches it. The others are such that
-- the old primary had not lost them either, or such that the new one does not reach them. Its factory
-- has served its own customers since. A follower that was lost and then takes over, or that the new
-- primary reaches, is not considered.
pub record Succeeds (c d : Replicas) : Type 0 where
  pub calm : under_way c.admin.place ≡ []
  pub heir : ℕ
  pub there : heir < c.count
  pub connected : (c.followers heir).stub.link.socket.valid ≡ true
  pub before : LaptopFactory
  pub storage : before.server_storage ≡ (c.followers heir).factory.server_storage
  pub known : before.factory_id ≢ minus_one
  pub machine : Machine
  pub req : AdminRequest
  pub dials : List Dial
  pub orders : req.type ≡ pos 1
  pub chosen : choose machine before req dials ≡ done (d.factory, d.admin)
  pub peers : (i : ℕ) → i < d.count → Survivor c (d.followers i) ⊎ Unreached c (d.followers i)

-- The states that they can come to, through any number of such successions.
pub data Reach : Replicas → Type 0 where
  start : {c : Replicas} → Starts c → Reach c
  later : {c d : Replicas} → Reach c → Step c d → Reach d
  succeeded : {c d : Replicas} → Reach c → Succeeds c d → Reach d

-- From one state to another, in any number of steps and successions.
pub data Run : Replicas → Replicas → Type 0 where
  stops : {c : Replicas} → Run c c
  goes_on : {c d e : Replicas} → Step c d → Run d e → Run c e
  passes_on : {c d e : Replicas} → Succeeds c d → Run d e → Run c e
