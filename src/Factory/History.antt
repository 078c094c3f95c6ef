-- ===== src/Factory/History.antt =====
-- Whole histories: a primary that places one order after another, and a backup that applies the
-- requests in the same order.
use pa.Prelude.{ℕ, ◌≤◌, ◌<◌, ◌^◌, ◌≡◌, ap, ◌∙◌, List, [], ◌∷◌, length, arith}
use pa.Machine.{Machine}
use pa.Messages.Request.{ReplicationRequest}
use pa.Messages.RoundTrip.{request_fields, Fits}
use pa.Socket.{done, Returns-done}
use pa.Stub.Client.{Dial}
use pa.Factory.{LaptopFactory, AdminRequest, admin_order}
use pa.Factory.Engineer.{Engineer, apply_request, replica_round}
use pa.Factory.Replica.{replica_round-apply}
use pa.Factory.Replication.{IsPrimary, AllReady, Placed, next_request, admin_order-Placed}
use pa.Factory.Takeover.{entries, PrimaryIndices, BackupIndices}
use pa.Factory.Consistency.{
  Brings, storage-Placed, Placed-PrimaryIndices, apply_request-BackupIndices,
}

-- The orders that a primary has placed, by the requests that it sent for them.
pub data Serves (m : Machine)
    : LaptopFactory → List ReplicationRequest → LaptopFactory → Type 0 where
  stop : {f : LaptopFactory} → Serves m f [] f
  order :
      {f f1 f' : LaptopFactory} {q : ReplicationRequest} {qs : List ReplicationRequest}
      (req : AdminRequest) (dials rest : List Dial)
      → AllReady f.stubs
      → length f.stubs ≤ length dials
      → entries f < 2 ^ 31
      → q ≡ next_request m f req
      → admin_order m f req dials ≡ done (f1, rest)
      → Serves m f1 qs f'
      → Serves m f (q ∷ qs) f'

-- The requests that a backup has received and applied.
pub data Follows (m : Machine)
    : LaptopFactory → Engineer → List ReplicationRequest → LaptopFactory → Type 0 where
  stop : {g : LaptopFactory} {e : Engineer} → Follows m g e [] g
  request :
      {g g1 g' : LaptopFactory} {e e1 : Engineer} {q : ReplicationRequest}
      {qs : List ReplicationRequest} (unset : ReplicationRequest) (rest : List ℕ)
      → Fits (request_fields q)
      → Brings e q rest
      → replica_round m unset g e ≡ done (g1, e1)
      → Follows m g1 e1 qs g'
      → Follows m g e (q ∷ qs) g'

-- Primary and backup agree between two orders.
pub record Agree (f g : LaptopFactory) : Type 0 where
  pub primary : IsPrimary f
  pub storage : g.server_storage ≡ f.server_storage
  pub indices : PrimaryIndices f
  pub lagging : BackupIndices g

Placed-admin_order :
    (m : Machine) (f f1 : LaptopFactory) (req : AdminRequest) (dials rest : List Dial)
    → IsPrimary f
    → AllReady f.stubs
    → length f.stubs ≤ length dials
    → admin_order m f req dials ≡ done (f1, rest)
    → Placed m f req f1
Placed-admin_order m f f1 req dials rest p ready enough e =
    Returns-done _ (admin_order m f req dials) (admin_order-Placed m f req dials p ready enough) e

pub applied_of :
    (m : Machine) (unset q : ReplicationRequest) (g g1 : LaptopFactory) (e e1 : Engineer)
    (rest : List ℕ)
    → Fits (request_fields q)
    → Brings e q rest
    → replica_round m unset g e ≡ done (g1, e1)
    → g1 ≡ apply_request g q
applied_of m unset q g g1 e e1 rest fits b r =
    (Returns-done _ (replica_round m unset g e)
      (replica_round-apply m unset q g e rest fits b.valid b.arrives b.documented b.sending) r).0

-- One order on both sides.
Agree-step :
    (m : Machine) (f f1 g g1 : LaptopFactory) (req : AdminRequest)
    → entries f < 2 ^ 31
    → Agree f g
    → Placed m f req f1
    → g1 ≡ apply_request g (next_request m f req)
    → Agree f1 g1
Agree-step m f f1 g g1 req small a p e = record {
  primary = p.primary;
  storage = ap (λ x. x.server_storage) e ∙ storage-Placed m f g f1 req a.storage p;
  indices = Placed-PrimaryIndices m f f1 req (omega arith) p;
  lagging = rw e (apply_request-BackupIndices m f g req (omega arith) a.storage a.indices);
}

-- After any history of orders that the backup has followed, the two agree again.
pub history-Agree :
    {mp mb : Machine} {f f' g g' : LaptopFactory} {e : Engineer} {qs : List ReplicationRequest}
    → Agree f g
    → Serves mp f qs f'
    → Follows mb g e qs g'
    → Agree f' g'
history-Agree a stop stop = a
history-Agree {mp} {mb} {f} {g} {e} a
      (order {f1 = f1} {q = q1} req dials rest ready enough small q placed more)
      (request {g1 = g1} {e1 = e1} unset behind fits b r others) =
    history-Agree
      (Agree-step mp f f1 g g1 req small a
        (Placed-admin_order mp f f1 req dials rest a.primary ready enough placed)
        (applied_of mb unset q1 g g1 e e1 behind fits b r ∙ ap (apply_request g) q))
      more others
