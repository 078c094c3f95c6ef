-- ===== src/Factory/Consistency.antt =====
-- Primary and backup side by side: what the one sends and the other applies keeps their storages
-- the same, and the indices of both count the log.
use pa.Prelude.{ℕ, ◌+◌, ◌-◌, ◌≤◌, ◌^◌, ◌≡◌, sym, ap, ◌∙◌, List, ◌++◌, length, true, arith, last_of}
use pa.Machine.{Machine}
use pa.Messages.Fields.{encode}
use pa.Messages.Order
use pa.Messages.Request
use pa.Messages.Request.{ReplicationRequest}
use pa.Messages.RoundTrip.{request_fields, Fits}
use pa.Storage.{place_order, get_idx}
use pa.Storage.Latest.{get_idx_lem, length-place_order}
use pa.Socket.{Returns, Returns-mono}
use pa.Socket.Receiving.{stream, RecvsDocumented}
use pa.Stub.Client.{Dial}
use pa.Stub.Exchanges.{CanSend}
use pa.Factory.{LaptopFactory, AdminRequest, admin_order}
use pa.Factory.Engineer.{Engineer, apply_request, replica_round}
use pa.Factory.Replica.{replica_round-apply, Acknowledged}
use pa.Factory.Replication.{
  IsPrimary, AllReady, AllResults, Placed, next_request, admin_order-Placed,
}
use pa.Factory.Takeover.{entries, PrimaryIndices, BackupIndices}

-- The backup's connection brings the request `q`, whole, and will carry its answer.
pub record Brings (e : Engineer) (q : ReplicationRequest) (rest : List ℕ) : Type 0 where
  pub valid : e.link.socket.valid ≡ true
  pub arrives : stream e.link.recvs ≡ encode (request_fields q) ++ rest
  pub documented : RecvsDocumented e.link.recvs Request.size
  pub sending : CanSend e.link Order.size

-- The storages are the same again.
pub storage-Placed :
    (m : Machine) (f g f' : LaptopFactory) (req : AdminRequest)
    → g.server_storage ≡ f.server_storage
    → Placed m f req f'
    → (apply_request g (next_request m f req)).server_storage ≡ f'.server_storage
unfolding apply_request
storage-Placed m f g f' req same p =
    ap (λ s. place_order s req.ops.arg1 req.ops.arg2) same ∙ sym p.stored

-- A primary places an order and a backup with the same storage applies the request that the primary
-- sent for it: both return, the storages are the same again, the backup knows the primary and holds
-- its last index.
pub order_replicated :
    (mp mb : Machine) (f g : LaptopFactory) (req : AdminRequest) (dials : List Dial)
    (unset : ReplicationRequest) (e : Engineer) (rest : List ℕ)
    → IsPrimary f
    → AllReady f.stubs
    → length f.stubs ≤ length dials
    → Fits (request_fields (next_request mp f req))
    → g.server_storage ≡ f.server_storage
    → Brings e (next_request mp f req) rest
    → Returns (admin_order mp f req dials) (λ p.
      AllResults (next_request mp f req) f.stubs p.0.stubs
      × Returns (replica_round mb unset g e) (λ b.
        (b.0.server_storage ≡ p.0.server_storage)
        × (b.0.last_index ≡ p.0.last_index)
        × (b.0.primary_id ≡ f.factory_id)
        × Acknowledged (next_request mp f req) e rest b.1))
unfolding apply_request
order_replicated mp mb f g req dials unset e rest primary ready enough fits same brings =
    Returns-mono (admin_order mp f req dials)
      (admin_order-Placed mp f req dials primary ready enough)
      (λ p placed. (
        placed.replicated,
        Returns-mono (replica_round mb unset g e)
            (replica_round-apply mb unset (next_request mp f req) g e rest fits brings.valid
              brings.arrives brings.documented brings.sending)
            (λ b h. (
              ap (λ x. x.server_storage) h.0 ∙ storage-Placed mp f g p.0 req same placed,
              ap (λ x. x.last_index) h.0 ∙ sym placed.last,
              ap (λ x. x.primary_id) h.0,
              h.2,
            )),
      ))

-- A primary's indices count its log after every order.
pub Placed-PrimaryIndices :
    (m : Machine) (f f' : LaptopFactory) (req : AdminRequest)
    → entries f ≤ 2 ^ 31
    → Placed m f req f'
    → PrimaryIndices f'
Placed-PrimaryIndices m f f' req small p = record {
  last = p.last ∙ counted;
  committed = p.committed ∙ counted;
}
  where
    counted : get_idx f.server_storage ≡ last_of (entries f' - 1)
    counted =
        get_idx_lem f.server_storage small
        ∙ ap last_of (
            omega (
              arith,
              ap (λ s. length s.state_machine_log) p.stored,
              length-place_order f.server_storage req.ops.arg1 req.ops.arg2,
            ))

-- A backup's indices lag behind: its committed index counts the log without the last two entries.
pub apply_request-BackupIndices :
    (m : Machine) (f g : LaptopFactory) (req : AdminRequest)
    → entries f ≤ 2 ^ 31
    → g.server_storage ≡ f.server_storage
    → PrimaryIndices f
    → BackupIndices (apply_request g (next_request m f req))
unfolding apply_request
apply_request-BackupIndices m f g req small same p = record {
  last = get_idx_lem f.server_storage small ∙ ap last_of (omega (arith, grown));
  committed = p.committed ∙ ap last_of (omega (arith, grown));
}
  where
    grown : entries (apply_request g (next_request m f req)) ≡ entries f + 1
    grown =
        length-place_order g.server_storage req.ops.arg1 req.ops.arg2
        ∙ ap (λ s. length s.state_machine_log + 1) same
