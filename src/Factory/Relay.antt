-- ===== src/Factory/Relay.antt =====
-- A backup that applies request after request, and beside it the primary that sends them.
use pa.Prelude.{
  ℕ, zero, suc, ◌≡◌, refl, sym, ap, ◌∙◌, Bool, true, if◌then◌else◌, List, [], ◌∷◌, ◌++◌,
  append_assoc, append-nil, All, length, some, ℤ, pos,
}
use pa.Machine.{Machine}
use pa.Messages.Fields.{encode}
use pa.Messages.Order
use pa.Messages.Request
use pa.Messages.Request.{ReplicationRequest}
use pa.Messages.RoundTrip.{order_fields, request_fields, sent, Fits}
use pa.Storage.{place_order}
use pa.Socket.{Chunk, Outcome, done, ◌>>=◌, Returns, Returns-mono}
use pa.Socket.Healthy.{take_sends, take_chunks}
use pa.Stub.Client.{Dial}
use pa.Stub.Healthy.{exchanged, receive_replication_request-taken, send_replication_result-taken}
use pa.Factory.{LaptopFactory, AdminRequest}
use pa.Factory.Engineer.{Engineer, apply_request, acknowledgement, replica_round}
use pa.Factory.Replication.{IsPrimary, next_request}
use pa.Factory.Rounds.{
  Carrying, placed, placed_all, requests_of, admin_rounds, Worked, admin_rounds-Worked,
}

-- So many rounds of the branch for status 2.
unfoldable pub replica_rounds :
    Machine
    → ReplicationRequest
    → (left : ℕ) → LaptopFactory
    → Engineer
    → Outcome (LaptopFactory × Engineer)
unfolding replica_round
replica_rounds m unset zero f e = done (f, e)
replica_rounds m unset (suc left) f e = do
  (f1, e1) ← replica_round m unset f e
  replica_rounds m unset left f1 e1

-- The kernel brings these requests in, whole, and carries an answer to each.
pub data Hears : List ℤ → List Chunk → List ReplicationRequest → Type 0 where
  silent : {sends : List ℤ} {recvs : List Chunk} → Hears sends recvs []
  hears :
      {sends sends' : List ℤ} {recvs recvs' : List Chunk} {q : ReplicationRequest}
      {qs : List ReplicationRequest}
      → Fits (request_fields q)
      → take_chunks recvs Request.size ≡ some (encode (request_fields q), recvs')
      → take_sends sends Order.size ≡ some sends'
      → Hears sends' recvs' qs
      → Hears sends recvs (q ∷ qs)

unfoldable pub apply_all : LaptopFactory → List ReplicationRequest → LaptopFactory
apply_all g [] = g
apply_all g (q ∷ qs) = apply_all (apply_request g q) qs

-- The acknowledgements as they stand on the wire.
unfoldable pub acknowledged : List ReplicationRequest → List ℕ
acknowledged [] = []
acknowledged (q ∷ qs) = encode (order_fields (acknowledgement q)) ++ acknowledged qs

then_of {ℓ} : {A : Type ℓ} (x y : A) (b : Bool) → b ≡ true → (if b then x else y) ≡ x
then_of x y b e = rw e refl

replica_round-taken :
    (m : Machine) (unset q : ReplicationRequest) (g : LaptopFactory) (e : Engineer) (sends : List ℤ)
    (recvs : List Chunk)
    → Fits (request_fields q)
    → e.link.socket.valid ≡ true
    → take_chunks e.link.recvs Request.size ≡ some (encode (request_fields q), recvs)
    → take_sends e.link.sends Order.size ≡ some sends
    → replica_round m unset g e
      ≡ done (
        apply_request g q,
        record e {
          link = exchanged e.link sends recvs (encode (order_fields (acknowledgement q)));
        },
      )
unfolding replica_round apply_request
replica_round-taken m unset q g e sends recvs fits valid into out =
    rw (receive_replication_request-taken m unset q e.link recvs fits into) (
      then_of _ _ e.link.socket.valid valid
      ∙ rw
          (send_replication_result-taken m (acknowledgement (sent q))
            (record e.link { recvs = recvs }) sends out)
          refl)

-- A thread to which the kernel brings requests, whole, and for which it carries an answer to each:
-- the rounds return with the requests applied in turn and one acknowledgement for each sent in turn.
pub replica_rounds_lem :
    (m : Machine) (unset : ReplicationRequest) (g : LaptopFactory) (e : Engineer)
    (qs : List ReplicationRequest)
    → e.link.socket.valid ≡ true
    → Hears e.link.sends e.link.recvs qs
    → Returns (replica_rounds m unset (length qs) g e) (λ r.
      (r.0 ≡ apply_all g qs)
      × (r.1.link.sent ≡ e.link.sent ++ acknowledged qs)
      × (r.1.link.socket ≡ e.link.socket)
      × (r.1.phase ≡ e.phase))
unfolding replica_rounds apply_all acknowledged
replica_rounds_lem m unset g e [] valid h = (refl, sym (append-nil e.link.sent), refl, refl)
replica_rounds_lem m unset g e (q ∷ qs) valid
      (hears {sends' = sends} {recvs' = recvs} fits into out more) =
    let e1 : Engineer = record e {
      link = exchanged e.link sends recvs (encode (order_fields (acknowledgement q)));
    } in
    rw (replica_round-taken m unset q g e sends recvs fits valid into out) (
      Returns-mono (replica_rounds m unset (length qs) (apply_request g q) e1)
        (replica_rounds_lem m unset (apply_request g q) e1 qs valid more)
        (λ r x. (
          x.0,
          x.1
              ∙ append_assoc e.link.sent (encode (order_fields (acknowledgement q)))
                  (acknowledged qs),
          x.2,
          x.3,
        )))

-- The backup holds what the primary holds.
pub record InStep (f g : LaptopFactory) : Type 0 where
  pub storage : g.server_storage ≡ f.server_storage
  pub last : g.last_index ≡ f.last_index
  pub leader : g.primary_id ≡ f.factory_id

InStep-placed :
    (m : Machine) (f g : LaptopFactory) (req : AdminRequest)
    → g.server_storage ≡ f.server_storage
    → InStep (placed f req) (apply_request g (next_request m f req))
unfolding apply_request
InStep-placed m f g req same = record {
  storage = ap (λ s. place_order s req.ops.arg1 req.ops.arg2) same;
  last = refl;
  leader = refl;
}

InStep-placed_all :
    (m : Machine) (f g : LaptopFactory) (reqs : List AdminRequest)
    → InStep f g
    → InStep (placed_all f reqs) (apply_all g (requests_of m f reqs))
unfolding placed_all apply_all requests_of
InStep-placed_all m f g [] h = h
InStep-placed_all m f g (req ∷ reqs) h =
    InStep-placed_all m (placed f req) (apply_request g (next_request m f req)) reqs
      (InStep-placed m f g req h.storage)

-- A primary works through a queue of one or more orders, and a backup with the same storage at the
-- start hears the requests for them: both return, and the backup holds the primary's storage and its
-- last index and knows it as primary.
pub queue-InStep :
    (mp mb : Machine) (f g : LaptopFactory) (req : AdminRequest) (reqs : List AdminRequest)
    (dials : List Dial) (unset : ReplicationRequest) (e : Engineer)
    → f.erq ≡ req ∷ reqs
    → All (λ x. x.type ≡ pos 1) (req ∷ reqs)
    → IsPrimary f
    → All (Carrying (length (req ∷ reqs))) f.stubs
    → g.server_storage ≡ f.server_storage
    → e.link.socket.valid ≡ true
    → Hears e.link.sends e.link.recvs (requests_of mp f (req ∷ reqs))
    → Returns (admin_rounds mp (length (req ∷ reqs)) f dials) (λ p.
      Worked mp f (req ∷ reqs) p.0
      × Returns
          (replica_rounds mb unset (length (requests_of mp f (req ∷ reqs))) g e)
          (λ b. InStep p.0 b.0))
unfolding placed_all requests_of apply_all
queue-InStep mp mb f g req reqs dials unset e queue orders p c same valid h =
    Returns-mono (admin_rounds mp (length (req ∷ reqs)) f dials)
      (admin_rounds-Worked mp f (req ∷ reqs) dials queue orders p c)
      (λ x w. (
        w,
        Returns-mono (replica_rounds mb unset (length (requests_of mp f (req ∷ reqs))) g e)
            (replica_rounds_lem mb unset g e (requests_of mp f (req ∷ reqs)) valid h)
            (λ b k.
              let i =
                InStep-placed_all mp (placed f req) (apply_request g (next_request mp f req)) reqs
                  (InStep-placed mp f g req same) in
              record {
                storage =
                    ap (λ y. y.server_storage) k.0
                    ∙ i.storage
                    ∙ sym (ap (λ y. y.server_storage) w.state);
                last = ap (λ y. y.last_index) k.0 ∙ i.last ∙ sym (ap (λ y. y.last_index) w.state);
                leader =
                    ap (λ y. y.primary_id) k.0 ∙ i.leader ∙ sym (ap (λ y. y.factory_id) w.state);
              }),
      ))
