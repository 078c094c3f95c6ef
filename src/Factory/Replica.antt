-- ===== src/Factory/Replica.antt =====
-- A backup applying what the primary replicates.
use pa.Prelude.{
  ℕ, ◌≤◌, ◌<◌, ◌≡◌, refl, sym, ap, ◌∙◌, subst, ◌⊎◌, inl, inr, Bool, true, false, List, ◌++◌, length,
  arith, minus_one, ℤ, pos, eq_int, if◌then◌else◌, [], ◌∷◌,
}
use pa.Machine.{Machine, buffer, length-buffer}
use pa.Messages.Fields.{encode}
use pa.Messages.Order
use pa.Messages.Request
use pa.Messages.Request.{ReplicationRequest}
use pa.Messages.RoundTrip.{order_fields, order-wire, order-length, request_fields, Fits}
use pa.Storage.{place_order, read_record}
use pa.Storage.Latest.{read_record-place_order}
use mathlib.Core.Bool.{false≢true}
use pa.Socket.{Socket, Link, Returns, Returns-bind, Returns-if, Returns-mono}
use pa.Socket.Sending.{SendResult}
use pa.Socket.Receiving.{stream, RecvsDocumented, Ends}
use pa.Stub.Server.{receive_replication_request, send_replication_result}
use pa.Stub.Receives.{After, receive_replication_request_lem, receive_replication_request-Lost}
use pa.Stub.Exchanges.{CanSend, CanSend-After, send_message}
use pa.Factory.{LaptopFactory}
use pa.Factory.Engineer.{Engineer, ended, apply_request, acknowledgement, replica_round}

-- The acknowledgement went out behind the request, or the socket was lost.
abbrev pub Acknowledged : ReplicationRequest → Engineer → List ℕ → Engineer → Type 0
Acknowledged q e rest e' =
    ((e'.link.sent ≡ e.link.sent ++ encode (order_fields (acknowledgement q)))
      × (e'.link.socket ≡ e.link.socket))
    ⊎ (e'.link.socket.valid ≡ false)

send_replication_result_lem :
    (m : Machine) (o : Order.LaptopOrder) (l : Link)
    → CanSend l Order.size
    → Returns (send_replication_result m o l) (SendResult l (encode (order_fields o)))
unfolding send_replication_result
send_replication_result_lem m o l c =
    send_message l _ _ Order.size (omega (arith, order-length m.host o (buffer m 32) fits, fits))
      (order-wire m.host o (buffer m 32) fits) c
  where
    fits : Order.size ≤ length (buffer m 32)
    fits = omega (arith, length-buffer m 32)

acked :
    (q : ReplicationRequest) (e : Engineer) (rest : List ℕ) {l : Link}
    → After e.link rest l
    → (r : Bool × Link) → SendResult l (encode (order_fields (acknowledgement q))) r
    → Acknowledged q e rest (record e { link = r.1 })
acked q e rest a (true, l1) h = inl (
  h.0 ∙ ap (λ s. s ++ encode (order_fields (acknowledgement q))) a.same_sent,
  h.1 ∙ a.same_socket,
)
acked q e rest a (false, l1) h = inr h.0

-- A request that arrives whole is applied, and the thread goes on with the next.
pub replica_round-apply :
    (m : Machine) (unset q : ReplicationRequest) (f : LaptopFactory) (e : Engineer) (rest : List ℕ)
    → Fits (request_fields q)
    → e.link.socket.valid ≡ true
    → stream e.link.recvs ≡ encode (request_fields q) ++ rest
    → RecvsDocumented e.link.recvs Request.size
    → CanSend e.link Order.size
    → Returns
        (replica_round m unset f e)
        (λ r. (r.0 ≡ apply_request f q) × (r.1.phase ≡ e.phase) × Acknowledged q e rest r.1)
unfolding replica_round
replica_round-apply m unset q f e rest fits valid arrives rd cs =
    Returns-bind _ (receive_replication_request m unset e.link) _
      (receive_replication_request_lem m unset q e.link rest fits arrives rd)
      (λ (req, l) (same, a).
        Returns-if _ l.socket.valid _ _
          (λ t.
            Returns-bind _ (send_replication_result m (acknowledgement req) l) _
              (send_replication_result_lem m (acknowledgement req) l
                (CanSend-After e.link l rest Order.size a cs))
              (λ (ok, l1) h. (
                ap (apply_request f) same,
                refl,
                acked q e rest a (ok, l1)
                    (subst (λ r. SendResult l (encode (order_fields (acknowledgement r))) (ok, l1))
                      same h),
              )))
          (λ t. absurd (false≢true (sym t ∙ ap (λ (s : Socket). s.valid) a.same_socket ∙ valid))))

-- What applying a request comes to: the order is the last entry of the log and the latest number of
-- its customer, the request's server is the primary, and its indices are the backup's.
pub record Replayed (q : ReplicationRequest) (f g : LaptopFactory) : Type 0 where
  pub log :
      g.server_storage.state_machine_log
      ≡ f.server_storage.state_machine_log
        ++ (record { opcode = pos 1; arg1 = q.operation.arg1; arg2 = q.operation.arg2 } ∷ [])
  pub reads :
      (c : ℤ)
      → read_record g.server_storage c
        ≡ (if eq_int q.operation.arg1 c then q.operation.arg2 else read_record f.server_storage c)
  pub primary : g.primary_id ≡ q.factory_id
  pub last : g.last_index ≡ q.last_index
  pub committed : g.committed_index ≡ q.committed_index
  pub identity : g.factory_id ≡ f.factory_id
  pub peers : g.peer_list ≡ f.peer_list
  pub stubs : g.stubs ≡ f.stubs
  pub queue : g.erq ≡ f.erq
  pub promises : g.fulfilled ≡ f.fulfilled

-- The bytes that acknowledge a request: its customer, its order number, and 4.
abbrev pub acknowledged_by : ReplicationRequest → List ℕ
acknowledged_by q = encode (q.operation.arg1 ∷ q.operation.arg2 ∷ pos 4 ∷ [])

apply_request-Replayed :
    (f : LaptopFactory) (q : ReplicationRequest) → Replayed q f (apply_request f q)
unfolding apply_request place_order
apply_request-Replayed f q = record {
  log = refl;
  reads = λ c. read_record-place_order f.server_storage q.operation.arg1 c q.operation.arg2;
  primary = refl;
  last = refl;
  committed = refl;
  identity = refl;
  peers = refl;
  stubs = refl;
  queue = refl;
  promises = refl;
}

-- A replication request that arrives whole, in whatever pieces: the round returns with its order at
-- the end of the log and as the latest of its customer, its server for the primary and its indices,
-- and the rest of the factory as it was. The thread stays in its branch, and has sent the customer,
-- the order number and 4 behind what it had sent before, or its socket is lost.
pub replica_round-Replayed :
    (m : Machine) (unset q : ReplicationRequest) (f : LaptopFactory) (e : Engineer) (rest : List ℕ)
    → Fits (request_fields q)
    → e.link.socket.valid ≡ true
    → stream e.link.recvs ≡ encode (request_fields q) ++ rest
    → RecvsDocumented e.link.recvs Request.size
    → CanSend e.link Order.size
    → Returns (replica_round m unset f e) (λ r.
      Replayed q f r.0
      × (r.1.phase ≡ e.phase)
      × (((r.1.link.sent ≡ e.link.sent ++ acknowledged_by q) × (r.1.link.socket ≡ e.link.socket))
          ⊎ (r.1.link.socket.valid ≡ false)))
replica_round-Replayed m unset q f e rest fits valid arrives rd cs =
    Returns-mono (replica_round m unset f e)
      (replica_round-apply m unset q f e rest fits valid arrives rd cs)
      (λ r (applied, phase, acknowledged).
        (subst (Replayed q f) (sym applied) (apply_request-Replayed f q), phase, acknowledged))

-- A connection that ends before a whole request makes the backup forget the primary: nothing is
-- applied, the thread returns and its socket is closed.
pub replica_round-Lost :
    (m : Machine) (unset : ReplicationRequest) (f : LaptopFactory) (e : Engineer)
    → RecvsDocumented e.link.recvs Request.size
    → Ends e.link.recvs
    → length (stream e.link.recvs) < Request.size
    → Returns (replica_round m unset f e) (λ r.
      (r.0 ≡ record f { primary_id = minus_one })
      × (r.1.phase ≡ ended)
      × (r.1.link.socket.fd ≡ minus_one)
      × (r.1.link.sent ≡ e.link.sent))
unfolding replica_round
replica_round-Lost m unset f e rd ends short =
    Returns-bind _ (receive_replication_request m unset e.link) _
      (receive_replication_request-Lost m unset e.link rd ends short)
      (λ (req, l) h.
        Returns-if _ l.socket.valid _ _ (λ t. absurd (false≢true (sym h.1 ∙ t)))
          (λ t. (refl, refl, refl, h.2)))
