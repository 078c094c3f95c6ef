-- ===== src/Replicas/Inheritance.antt =====
-- What a new server starts with, what a follower that succeeds to the primary takes over, and the
-- invariant of the states that are reached.
use pa.Prelude.{
  ℤ, ◌≢◌, ℕ, ◌<◌, ◌≡◌, refl, sym, ap, ◌∙◌, subst, true, false, inl, inr, ◌++◌, not, ◌||◌, List, [],
  pos, minus_one, eq_int, eq_int_iff, if◌then◌else◌, arith,
}
use mathlib.Core.Bool.{true≢false}
use pa.Machine.{Machine}
use pa.Storage.{new}
use pa.Storage.Latest.{IsReplay, new-IsReplay}
use pa.Factory
use pa.Factory.{Peer}
use pa.Socket.{done}
use pa.Socket.Whenever.{Whenever, Whenever-then, Whenever-bind, Whenever-if, Whenever-done}
use pa.Stub.Client.{Dial}
use pa.Factory.{AdminRequest, LaptopFactory, start_connection, connect_peers}
use pa.Factory.Admin.{Admin, connected, choose}
use pa.Replicas.{Follower, Replicas}
use pa.Replicas.Succession.{Starts, Survivor, Unreached, Succeeds, Reach, start, later, succeeded}
use pa.Factory.Chores.{under_way}
use pa.Replicas.Within.{Within, Good, follower_log, InSync-calm}
use pa.Replicas.Follows.{Matches}
use pa.Replicas.Invariant.{primary_log, Sound, Good-fresh, Starts-Sound, Step-Sound}

-- The factory is primary, with its storage as it was, and the admin goes on with the order.
pub record Chosen (req : AdminRequest) (f f' : LaptopFactory) (a : Admin) : Type 0 where
  pub storage : f'.server_storage ≡ f.server_storage
  pub named : f'.primary_id ≡ f'.factory_id
  pub same : f'.factory_id ≡ f.factory_id
  pub place : a.place ≡ connected req

follows_not :
    (f : LaptopFactory)
    → (not (eq_int f.factory_id f.primary_id) || eq_int f.primary_id minus_one) ≡ false
    → f.primary_id ≡ f.factory_id
follows_not f e = ground (arith, e, eq_int_iff f.factory_id f.primary_id)

choose-Chosen :
    (m : Machine) (f : LaptopFactory) (req : AdminRequest) (dials : List Dial)
    → req.type ≡ pos 1
    → Whenever (choose m f req dials) (λ r. Chosen req f r.0 r.1)
unfolding choose start_connection
choose-Chosen m f req dials orders =
    Whenever-if _ (eq_int req.type (pos 1)) _ _
      (λ t.
        Whenever-bind
          {P = λ r.
            (r.0.server_storage ≡ f.server_storage)
            × (r.0.primary_id ≡ r.0.factory_id)
            × (r.0.factory_id ≡ f.factory_id)}
          _
          (if not (eq_int f.factory_id f.primary_id) || eq_int f.primary_id minus_one
            then start_connection m f dials
            else done (f, dials))
          _
          (Whenever-if _ (not (eq_int f.factory_id f.primary_id) || eq_int f.primary_id minus_one) _
            _
            (λ u.
              Whenever-then _ (connect_peers m f.peer_list f.stubs dials) _
                (λ r. (refl, refl, refl)))
            (λ u. (refl, follows_not f u, refl)))
          (λ r h. record { storage = h.0; named = h.1; same = h.2; place = refl }))
      (λ t. absurd (ground (arith, t, orders, eq_int_iff req.type (pos 1))))

-- A follower that was not lost holds the log of a primary that stops with nothing under way.
connected-log :
    (c : Replicas) (i : ℕ)
    → Sound c
    → under_way c.admin.place ≡ []
    → i < c.count
    → (c.followers i).stub.link.socket.valid ≡ true
    → follower_log (c.followers i) ≡ primary_log c
connected-log c i s none lt valid =
    (InSync-calm (c.followers i).turn c.admin.place none ((s.good i lt).in_step valid)).0

pub inherited : {c d : Replicas} (h : Succeeds c d) → Chosen h.req h.before d.factory d.admin
inherited {c} {d} h =
    Whenever-done _ (choose h.machine h.before h.req h.dials)
      (choose-Chosen h.machine h.before h.req h.dials h.orders) h.chosen

pub heir-log :
    {c d : Replicas}
    → Sound c
    → Succeeds c d
    → d.factory.server_storage.state_machine_log ≡ primary_log c
heir-log {c} {d} s h =
    ap (λ x. x.state_machine_log) ((inherited h).storage ∙ h.storage)
    ∙ connected-log c h.heir s h.calm h.there h.connected

-- A peer that was not lost holds the new primary's log, behind a fresh connection.
Survivor-Good :
    {c : Replicas} (s : Sound c) (req : AdminRequest) (p : Follower)
    → under_way c.admin.place ≡ []
    → Survivor c p
    → Good (connected req) (primary_log c) p
Survivor-Good {c} s req p calm h =
    Good-fresh req p
      (ap (λ x. x.state_machine_log) h.storage
        ∙ connected-log c h.number s calm h.there h.connected)
      (subst IsReplay (sym h.storage) (s.good h.number h.there).replay) h.none_to h.none_back

-- A peer that is not reached has, with what it has still to read, a front of the log as before.
Unreached-Good :
    {c : Replicas} (s : Sound c) (req : AdminRequest) (p : Follower)
    → under_way c.admin.place ≡ []
    → Unreached c p
    → Good (connected req) (primary_log c) p
Unreached-Good {c} s req p calm h =
    let old = s.good h.number h.there in
    record {
      within =
          subst (λ ops. Within (primary_log c ++ ops) (follower_log p) p.to) calm
            (subst (λ x. Within (primary_log c ++ under_way c.admin.place) x.state_machine_log p.to)
              (sym h.storage)
              (subst
                (Within (primary_log c ++ under_way c.admin.place)
                  (follower_log (c.followers h.number)))
                (sym h.to) old.within));
      in_step = λ v. absurd (true≢false (sym v ∙ h.refused));
      replay = subst IsReplay (sym h.storage) old.replay;
    }

Succeeds-Sound : {c d : Replicas} → Sound c → Succeeds c d → Sound d
Succeeds-Sound {c} {d} s h =
    let k = inherited h in
    record {
      primary = record { named = k.named; known = λ e. h.known (sym k.same ∙ sym k.named ∙ e) };
      replay = subst IsReplay (sym (k.storage ∙ h.storage)) (s.good h.heir h.there).replay;
      matches = subst Matches (sym k.place) (λ req q e. cc);
      good = λ i lt.
          subst (λ place. Good place (primary_log d) (d.followers i)) (sym k.place)
            (subst (λ log. Good (connected h.req) log (d.followers i)) (sym (heir-log s h))
              (elim (h.peers i lt) [
                | inl kept ↦ Survivor-Good s h.req (d.followers i) h.calm kept
                | inr gone ↦ Unreached-Good s h.req (d.followers i) h.calm gone
              ]));
    }

pub Reach-Sound : {c : Replicas} → Reach c → Sound c
Reach-Sound (start b) = Starts-Sound b
Reach-Sound (later r step) = Step-Sound step (Reach-Sound r)
Reach-Sound (succeeded r h) = Succeeds-Sound (Reach-Sound r) h

-- The first order of a server reaches it, and no server has stored one. Its customers may have queued
-- requests before.
pub record Founded (factory_id : ℤ) (peers : List Peer) (c : Replicas) : Type 0 where
  pub known : factory_id ≢ minus_one
  pub queue : List AdminRequest
  pub machine : Machine
  pub req : AdminRequest
  pub dials : List Dial
  pub orders : req.type ≡ pos 1
  pub chosen :
      choose machine (record (Factory.start factory_id peers) { erq = queue }) req dials
      ≡ done (c.factory, c.admin)
  pub stores : (i : ℕ) → i < c.count → (c.followers i).factory.server_storage ≡ new
  pub none_to : (i : ℕ) → i < c.count → (c.followers i).to ≡ []
  pub none_back : (i : ℕ) → i < c.count → (c.followers i).back ≡ []

-- A server whose admin makes it primary for its first order starts as a primary does.
pub Founded-Starts :
    {factory_id : ℤ} {peers : List Peer} {c : Replicas} → Founded factory_id peers c → Starts c
Founded-Starts {factory_id} {peers} {c} b =
    let k : Chosen b.req (record (Factory.start factory_id peers) { erq = b.queue }) c.factory
        c.admin =
      Whenever-done _
        (choose b.machine (record (Factory.start factory_id peers) { erq = b.queue }) b.req b.dials)
        (choose-Chosen b.machine (record (Factory.start factory_id peers) { erq = b.queue }) b.req
          b.dials b.orders)
        b.chosen in
    record {
      req = b.req;
      place = k.place;
      named = k.named;
      known = λ e. b.known (sym k.same ∙ e);
      replay = subst IsReplay (sym k.storage) new-IsReplay;
      same = λ i lt. ap (λ x. x.state_machine_log) (b.stores i lt ∙ sym k.storage);
      replays = λ i lt. subst IsReplay (sym (b.stores i lt)) new-IsReplay;
      none_to = b.none_to;
      none_back = b.none_back;
    }
