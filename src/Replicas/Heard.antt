-- ===== src/Replicas/Heard.antt =====
-- What a follower's round leaves behind, whatever the kernel answers to its sends.
use mathlib.Core.Bool.{false≢true}
use mathlib.Core.List.{append_cancel_left}
use pa.Prelude.{
  ℕ, ◌≤◌, ◌≡◌, refl, sym, ap, ◌∙◌, subst, true, List, ◌++◌, length, length-append, some, arith,
}
use pa.Machine.{Machine, buffer, length-buffer}
use pa.Messages.Fields.{encode, length-encode}
use pa.Messages.Order
use pa.Messages.Request
use pa.Messages.Request.{ReplicationRequest}
use pa.Messages.RoundTrip.{order_fields, order-wire, request_fields, Fits}
use pa.Socket.{Link, Chunk, done}
use pa.Socket.Healthy.{take_chunks}
use pa.Socket.Parts.{SentPart, send-SentPart}
use pa.Socket.Whenever.{Whenever, Whenever-bind, Whenever-then, Whenever-if, Whenever-done}
use pa.Stub.Server.{receive_replication_request, send_replication_result}
use pa.Stub.Healthy.{receive_replication_request-taken}
use pa.Factory.{LaptopFactory}
use pa.Factory.Engineer.{Engineer, replica, ended, apply_request, acknowledgement, replica_round}

-- The round has applied the request and sent at most an acknowledgement.
pub record Applied (q : ReplicationRequest) (f : LaptopFactory) (l : Link)
    (r : LaptopFactory × Engineer) : Type 0 where
  pub factory : r.0 ≡ apply_request f q
  pub answer : List ℕ
  pub sent : r.1.link.sent ≡ l.sent ++ answer
  pub short : length answer ≤ Order.size

send_replication_result-SentPart :
    (m : Machine) (q : ReplicationRequest) (l : Link)
    → Whenever
        (send_replication_result m (acknowledgement q) l)
        (SentPart l (encode (order_fields (acknowledgement q))))
unfolding send_replication_result
send_replication_result-SentPart m q l =
    subst (λ bytes. Whenever (send_replication_result m (acknowledgement q) l) (SentPart l bytes))
      (order-wire m.host (acknowledgement q) (buffer m 32) (omega (arith, length-buffer m 32)))
      (send-SentPart l _ Order.size)

replica_round-Applied :
    (m : Machine) (unset q : ReplicationRequest) (f : LaptopFactory) (e : Engineer)
    (left : List Chunk)
    → Fits (request_fields q)
    → e.link.socket.valid ≡ true
    → take_chunks e.link.recvs Request.size ≡ some (encode (request_fields q), left)
    → Whenever (replica_round m unset f e) (Applied q f e.link)
unfolding replica_round
replica_round-Applied m unset q f e left fits valid into =
    rw (receive_replication_request-taken m unset q e.link left fits into) (
      Whenever-if _ e.link.socket.valid _ _
        (λ t.
          Whenever-bind _
            (send_replication_result m (acknowledgement q) (record e.link { recvs = left })) _
            (send_replication_result-SentPart m q (record e.link { recvs = left }))
            (λ r p. record {
              factory = refl;
              answer = p.front;
              sent = p.sent;
              short = omega (
                arith,
                length-append p.front p.tail,
                ap length p.parts,
                length-encode (order_fields (acknowledgement q)),
              );
            }))
        (λ t. absurd (false≢true (sym t ∙ valid))))

-- The same of a round that has returned, for the bytes that it has sent.
pub replica_round-heard :
    (m : Machine) (unset q : ReplicationRequest) (f f' : LaptopFactory) (e e' : Engineer)
    (left : List Chunk) (answer : List ℕ)
    → Fits (request_fields q)
    → e.link.socket.valid ≡ true
    → take_chunks e.link.recvs Request.size ≡ some (encode (request_fields q), left)
    → replica_round m unset f e ≡ done (f', e')
    → e'.link.sent ≡ e.link.sent ++ answer
    → (f' ≡ apply_request f q) × (length answer ≤ Order.size)
replica_round-heard m unset q f f' e e' left answer fits valid into round out =
    let r : Applied q f e.link (f', e') =
      Whenever-done _ (replica_round m unset f e)
        (replica_round-Applied m unset q f e left fits valid into) round in
    (
      r.factory,
      subst (λ bytes. length bytes ≤ Order.size)
          (append_cancel_left e.link.sent r.answer answer (sym r.sent ∙ out)) r.short,
    )

-- A round in which the thread ends has stored nothing.
pub replica_round-ended :
    (m : Machine) (unset : ReplicationRequest) (f : LaptopFactory) (e : Engineer)
    → e.phase ≡ replica
    → Whenever
        (replica_round m unset f e)
        (λ r. r.1.phase ≡ ended → r.0.server_storage ≡ f.server_storage)
unfolding replica_round
replica_round-ended m unset f e now =
    Whenever-then _ (receive_replication_request m unset e.link) _ (λ (req, l).
      Whenever-if _ l.socket.valid _ _
        (λ t.
          Whenever-then _ (send_replication_result m (acknowledgement req) l) _
            (λ (ok, l1) over. absurd (cc)))
        (λ t over. refl))
