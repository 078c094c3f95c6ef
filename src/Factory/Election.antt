-- ===== src/Factory/Election.antt =====
-- A factory that becomes primary with orders in its queue, and another that hears of it.
use pa.Prelude.{
  ◌≡◌, ◌≢◌, refl, sym, ap, ◌∙◌, true, not, ◌||◌, List, [], ◌∷◌, ◌++◌, append_assoc, append-nil, All,
  length, some, ℤ, pos, minus_one, eq_int, is_nonneg, inc, if◌then◌else◌, to_word,
}
use pa.Machine.{Machine}
use pa.Messages.Fields.{int_size}
use pa.Socket.{done, ◌>>=◌, Returns}
use pa.Socket.Healthy.{take_sends, after_send}
use pa.Stub.Client.{ClientStub, Dial, make}
use pa.Stub.Healthy.{Connects, dialled, init-Connects, send_identification-taken}
use pa.Factory.{
  LaptopFactory, AdminRequest, Peer, server_code, connect_peers, start_connection, admin_order,
}
use pa.Factory.Replication.{IsPrimary, follows_of_IsPrimary}
use pa.Factory.Rounds.{Carrying, admin_rounds, admin_round-front, Worked, admin_rounds-Worked}

-- The stub for a peer after a successful attempt to connect, named as a server.
abbrev pub named : Machine → Peer → Dial → List ℤ → ClientStub
named m p d sends = record {
  ip = p.ip_addr;
  port = p.port;
  link = after_send (dialled (make m.junk).link d) sends (m.host.store (to_word server_code));
}

-- Each peer has an attempt that succeeds, on which the kernel carries the name: the stubs that come
-- of it, and the attempts that are left.
pub data Reached (m : Machine) : List Peer → List Dial → List ClientStub → List Dial → Type 0 where
  all : {rest : List Dial} → Reached m [] rest [] rest
  peer :
      {p : Peer} {peers : List Peer} {d : Dial} {dials rest : List Dial} {fresh : List ClientStub}
      {sends : List ℤ}
      → Connects (make m.junk).link d
      → take_sends d.sends int_size ≡ some sends
      → Reached m peers dials fresh rest
      → Reached m (p ∷ peers) (d ∷ dials) (named m p d sends ∷ fresh) rest

connect_peers-Reached :
    (m : Machine) {peers : List Peer} (stubs : List ClientStub) {dials rest : List Dial}
    {fresh : List ClientStub}
    → Reached m peers dials fresh rest
    → connect_peers m peers stubs dials ≡ done (stubs ++ fresh, rest)
unfolding connect_peers
connect_peers-Reached m stubs {rest = rest} all = ap (λ s. done (s, rest)) (sym (append-nil stubs))
connect_peers-Reached m stubs
      (peer {p = p} {d = d} {dials = dials} {rest = rest} {fresh = fresh} {sends = sends} c out
        more) =
    rw (init-Connects (make m.junk) p.ip_addr p.port d dials c) (
      rw (send_identification-taken m server_code (dialled (make m.junk).link d) sends out) (
        connect_peers-Reached m (stubs ++ (named m p d sends ∷ [])) more
        ∙ ap (λ s. done (s, rest)) (append_assoc stubs (named m p d sends ∷ []) fresh)))

-- A factory after its election.
abbrev pub elected : LaptopFactory → List ClientStub → LaptopFactory
elected f fresh = record f {
  committed_index =
      if is_nonneg f.committed_index then inc f.committed_index else f.committed_index;
  primary_id = f.factory_id;
  stubs = f.stubs ++ fresh;
}

pub start_connection-Reached :
    (m : Machine) (f : LaptopFactory) {dials rest : List Dial} {fresh : List ClientStub}
    → Reached m f.peer_list dials fresh rest
    → start_connection m f dials ≡ done (elected f fresh, rest)
unfolding start_connection
start_connection-Reached m f r = rw (connect_peers-Reached m f.stubs r) refl

-- The test by which the admin sees that the factory is not its own primary.
abbrev pub Follows : LaptopFactory → Type 0
Follows f = (not (eq_int f.factory_id f.primary_id) || eq_int f.primary_id minus_one) ≡ true

pub elected-IsPrimary :
    (f : LaptopFactory) (fresh : List ClientStub)
    → f.factory_id ≢ minus_one
    → IsPrimary (elected f fresh)
elected-IsPrimary f fresh named_well = record { named = refl; known = named_well }

-- A follower's order is the order of the factory that it is after its election.
admin_order-elected :
    (m : Machine) (f : LaptopFactory) (req : AdminRequest) {dials rest : List Dial}
    {fresh : List ClientStub}
    → Follows f
    → f.factory_id ≢ minus_one
    → Reached m f.peer_list dials fresh rest
    → admin_order m f req dials ≡ admin_order m (elected f fresh) req rest
unfolding admin_order
admin_order-elected m f req {fresh = fresh} follows named_well r =
    rw
      (
        follows,
        start_connection-Reached m f r,
        follows_of_IsPrimary (elected f fresh) (elected-IsPrimary f fresh named_well),
      )
      refl

pub admin_rounds-elected :
    (m : Machine) (f : LaptopFactory) (req : AdminRequest) (reqs : List AdminRequest)
    {dials rest : List Dial} {fresh : List ClientStub}
    → f.erq ≡ req ∷ reqs
    → req.type ≡ pos 1
    → Follows f
    → f.factory_id ≢ minus_one
    → Reached m f.peer_list dials fresh rest
    → admin_rounds m (length (req ∷ reqs)) f dials
      ≡ admin_rounds m (length (req ∷ reqs)) (elected f fresh) rest
unfolding admin_rounds
admin_rounds-elected m f req reqs {dials} {rest} {fresh} queue order follows named_well r =
    ap (λ o. o >>= λ x. admin_rounds m (length reqs) x.0 x.1)
      (admin_round-front m f req reqs dials queue order
        ∙ admin_order-elected m (record f { erq = reqs }) req follows named_well r
        ∙ sym (admin_round-front m (elected f fresh) req reqs rest queue order))

-- A follower with one or more orders in its queue, each of whose peers it can reach, and to every
-- stub of which, old or fresh, the kernel carries the requests: the admin's rounds return, the factory
-- has become its own primary with a named stub for each peer behind the old ones, the queue is empty,
-- every order is placed in turn and every stub has been sent the requests in turn.
pub admin_rounds-Elected :
    (m : Machine) (f : LaptopFactory) (req : AdminRequest) (reqs : List AdminRequest)
    {dials rest : List Dial} {fresh : List ClientStub}
    → f.erq ≡ req ∷ reqs
    → All (λ x. x.type ≡ pos 1) (req ∷ reqs)
    → Follows f
    → f.factory_id ≢ minus_one
    → Reached m f.peer_list dials fresh rest
    → All (Carrying (length (req ∷ reqs))) (f.stubs ++ fresh)
    → Returns
        (admin_rounds m (length (req ∷ reqs)) f dials)
        (λ r. Worked m (elected f fresh) (req ∷ reqs) r.0)
admin_rounds-Elected m f req reqs {dials} {rest} {fresh} queue (order, orders) follows named_well r
      c =
    rw (admin_rounds-elected m f req reqs queue order follows named_well r) (
      admin_rounds-Worked m (elected f fresh) (req ∷ reqs) rest queue (order, orders)
        (elected-IsPrimary f fresh named_well) c)
