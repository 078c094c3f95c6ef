-- ===== src/Replicas.antt =====
-- A primary and the servers that it replicates to, each with the bytes under way between them. The
-- primary is the LaptopFactory of one process, with its admin in the steps of `Factory.Admin`; a
-- follower is a stub of LaptopFactory::stubs together with the factory and the engineer's thread of
-- the process at its other end. A request goes out over many calls, so a follower may have read it,
-- or lost its connection, at any point of the loop of LaptopFactory::startReplication.
pub mod Succession
pub mod Heard
pub mod Asked
pub mod Primary
pub mod Within
pub mod Follows
pub mod Talks
pub mod Stages
pub mod Invariant
pub mod Inheritance
pub mod Agreement
pub mod Promises
pub mod Progress
pub mod Bound
pub mod Lagging
use pa.Prelude.{ℕ, ◌<◌, ◌≡◌, ◌≢◌, true, false, List, [], ◌++◌, some, ℤ}
use pa.Machine.{Machine}
use pa.Messages.Order
use pa.Messages.Request
use pa.Messages.Request.{ReplicationRequest}
use pa.Messages.RoundTrip.{request_fields, Fits}
use pa.Socket.{Link, Chunk, done}
use pa.Socket.Healthy.{take_chunks}
use pa.Stub.Client.{ClientStub, Dial}
use pa.Stub.Halves.{ask_replication, hear_answer}
use pa.Threads.{moved}
use pa.Factory.{LaptopFactory, AdminRequest, replicate_to}
use pa.Factory.Engineer.{Engineer, Phase, engineer_step, replica_round}
use pa.Factory.Admin.{Admin, Place, sending, admin_step}

-- Where the loop over the stubs stands with one of them.
pub data Turn : Type 0 where
  untold asked told : Turn

-- `to` and `back` are the bytes sent to the follower and by it that the other side has not read.
pub record Follower : Type 0 where
  pub stub : ClientStub
  pub turn : Turn
  pub factory : LaptopFactory
  pub engineer : Engineer
  pub to : List ℕ
  pub back : List ℕ

-- The followers with a number below `count` are there.
pub record Replicas : Type 0 where
  pub factory : LaptopFactory
  pub admin : Admin
  pub count : ℕ
  pub followers : ℕ → Follower

-- The admin goes on to replicate a request when it was not before: no stub has its turn yet.
abbrev pub turns : Place → (ℕ → Follower) → ℕ → Follower
turns (sending req q) followers i = record (followers i) { turn = untold }
turns _ followers i = followers i

-- The link of a stub with the coming results of the kernel.
abbrev pub sending_by : Follower → List ℤ → Link
sending_by p results = record p.stub.link { sends = results }

abbrev pub hearing_by : Follower → List Chunk → Link
hearing_by p results = record p.stub.link { recvs = results }

-- What a follower or its stub does while the admin replicates `q` of the factory `f`.
pub data Talk (f : LaptopFactory) (q : ReplicationRequest) (dials : List Dial) (p : Follower)
    : Follower → List Dial → Type 0 where
  asks :
      (m : Machine) (results : List ℤ) {l : Link} (front : List ℕ)
      → p.turn ≡ untold
      → p.stub.link.socket.valid ≡ true
      → ask_replication m q (sending_by p results) ≡ done (true, l)
      → l.sent ≡ p.stub.link.sent ++ front
      → Talk f q dials p
          (record p { stub = record p.stub { link = l }; turn = asked; to = p.to ++ front })
          dials
  fails :
      (m : Machine) (results : List ℤ) {l : Link} (front : List ℕ)
      → p.turn ≡ untold
      → p.stub.link.socket.valid ≡ true
      → ask_replication m q (sending_by p results) ≡ done (false, l)
      → l.sent ≡ p.stub.link.sent ++ front
      → Talk f q dials p
          (record p { stub = record p.stub { link = l }; turn = told; to = p.to ++ front })
          dials
  skips :
      (m : Machine) {s : ClientStub} {rest : List Dial}
      → p.turn ≡ untold
      → p.stub.link.socket.valid ≡ false
      → replicate_to m f q p.stub dials ≡ done (s, rest)
      → Talk f q dials p (record p { stub = s; turn = told }) rest
  hears :
      (results left : List Chunk) (bytes others : List ℕ) {l : Link}
      → p.turn ≡ asked
      → take_chunks results Order.size ≡ some (bytes, left)
      → p.back ≡ bytes ++ others
      → hear_answer (hearing_by p results) ≡ done l
      → Talk f q dials p
          (record p { stub = record p.stub { link = l }; turn = told; back = others })
          dials
  loses :
      (results : List Chunk) {l : Link}
      → p.turn ≡ asked
      → hear_answer (hearing_by p results) ≡ done l
      → l.socket.valid ≡ false
      → Talk f q dials p (record p { stub = record p.stub { link = l }; turn = told }) dials

-- What the thread at the other end does: it reads a request, whole, of the bytes that are under way,
-- or its connection ends.
pub data Follow (p : Follower) : Follower → Type 0 where
  reads :
      (m : Machine) (unset : ReplicationRequest) (results : List ℤ) (chunks left : List Chunk)
      (bytes others answer : List ℕ) {g : LaptopFactory} {e : Engineer}
      → p.engineer.phase ≡ Phase.replica
      → p.engineer.link.socket.valid ≡ true
      → take_chunks chunks Request.size ≡ some (bytes, left)
      → p.to ≡ bytes ++ others
      → replica_round m unset p.factory
          (record p.engineer { link = record p.engineer.link { sends = results; recvs = chunks } })
        ≡ done (g, e)
      → e.link.sent ≡ p.engineer.link.sent ++ answer
      → Follow p (record p { factory = g; engineer = e; to = others; back = p.back ++ answer })
  ends :
      (m : Machine) (unset : ReplicationRequest) (chunks : List Chunk) {g : LaptopFactory}
      {e : Engineer}
      → p.engineer.phase ≡ Phase.replica
      → replica_round m unset p.factory
          (record p.engineer { link = record p.engineer.link { recvs = chunks } })
        ≡ done (g, e)
      → e.phase ≡ Phase.ended
      → Follow p (record p { factory = g; engineer = e })

-- One step of the primary's customers, of its admin, of the loop over the stubs, or of a follower.
-- The fields of a request are `int`s.
pub data Step (c : Replicas) : Replicas → Type 0 where
  customer :
      (m : Machine) (unset : ReplicationRequest) (e : Engineer) {f : LaptopFactory} {e' : Engineer}
      → e.phase ≢ Phase.replica
      → engineer_step m unset c.factory e ≡ done (f, e')
      → Step c (record c { factory = f })
  admin :
      (m : Machine) {f : LaptopFactory} {a : Admin}
      → ((req : AdminRequest) (q : ReplicationRequest) → c.admin.place ≢ sending req q)
      → admin_step m c.factory c.admin ≡ done (f, a)
      → ((req : AdminRequest) (q : ReplicationRequest)
          → a.place ≡ sending req q
          → Fits (request_fields q))
      → Step c (record c { factory = f; admin = a; followers = turns a.place c.followers })
  replicates :
      (i : ℕ) (req : AdminRequest) (q : ReplicationRequest) {p : Follower} {dials : List Dial}
      → c.admin.place ≡ sending req q
      → i < c.count
      → ((j : ℕ) → j < i → (c.followers j).turn ≡ told)
      → Talk c.factory q c.admin.dials (c.followers i) p dials
      → Step c
          (record c { admin = record c.admin { dials = dials }; followers = moved c.followers i p })
  replicated :
      (req : AdminRequest) (q : ReplicationRequest)
      → c.admin.place ≡ sending req q
      → ((i : ℕ) → i < c.count → (c.followers i).turn ≡ told)
      → Step c (record c { admin = record c.admin { place = Place.sent req } })
  follower :
      (i : ℕ) {p : Follower}
      → Follow (c.followers i) p
      → Step c (record c { followers = moved c.followers i p })
