-- ===== src/Replicas/Lagging.antt =====
-- A new primary over a peer that lacks an order: LaptopFactory::startConnection names the primary to
-- every peer and does not send its log.
use pa.Prelude.{
  ◌≡◌, ◌≢◌, refl, sym, ap, ◌∙◌, true, some, List, [], ◌∷◌, ◌++◌, append_assoc, append-nil, All,
  length, pos, minus_one, to_word, arith,
}
use mathlib.Core.List.{append_cancel_left}
use pa.Machine.{Machine}
use pa.Messages.Fields.{int_size}
use pa.Messages.Request.{MapOp, ReplicationRequest}
use pa.Socket.{Chunk, Returns, Returns-mono}
use pa.Socket.Healthy.{take_chunks}
use pa.Storage.{order_op, place_order}
use pa.Stub.Client.{ClientStub, Dial}
use pa.Factory.{AdminRequest, LaptopFactory, server_code}
use pa.Factory.Engineer.{Engineer, Phase, apply_request, identify}
use pa.Factory.Replication.{next_request}
use pa.Factory.Rounds.{Carrying, placed, placed_all, requests_of, admin_rounds, Worked}
use pa.Factory.Relay.{Hears, apply_all, replica_rounds, replica_rounds_lem}
use pa.Factory.Election.{Reached, Follows, elected, admin_rounds-Elected}
use pa.Factory.Hearing.{identify-taken}
use pa.Replicas.Within.{Prefix}

abbrev pub log_of_factory : LaptopFactory → List MapOp
log_of_factory f = f.server_storage.state_machine_log

-- The entries of the log that orders make.
abbrev pub ops_of : List AdminRequest → List MapOp
ops_of [] = []
ops_of (req ∷ reqs) = order_op req.ops.arg1 req.ops.arg2 ∷ ops_of reqs

log-placed_all :
    (f : LaptopFactory) (reqs : List AdminRequest)
    → log_of_factory (placed_all f reqs) ≡ log_of_factory f ++ ops_of reqs
unfolding placed_all place_order
log-placed_all f [] = sym (append-nil (log_of_factory f))
log-placed_all f (req ∷ reqs) =
    log-placed_all (placed f req) reqs
    ∙ append_assoc (log_of_factory f) (order_op req.ops.arg1 req.ops.arg2 ∷ []) (ops_of reqs)

log-apply_all :
    (m : Machine) (f g : LaptopFactory) (reqs : List AdminRequest)
    → log_of_factory (apply_all g (requests_of m f reqs)) ≡ log_of_factory g ++ ops_of reqs
unfolding apply_all requests_of apply_request place_order
log-apply_all m f g [] = sym (append-nil (log_of_factory g))
log-apply_all m f g (req ∷ reqs) =
    log-apply_all m (placed f req) (apply_request g (next_request m f req)) reqs
    ∙ append_assoc (log_of_factory g) (order_op req.ops.arg1 req.ops.arg2 ∷ []) (ops_of reqs)

primary_id-apply_all :
    (m : Machine) (f g : LaptopFactory) (reqs : List AdminRequest)
    → g.primary_id ≡ f.factory_id
    → (apply_all g (requests_of m f reqs)).primary_id ≡ f.factory_id
unfolding apply_all requests_of apply_request
primary_id-apply_all m f g [] named = named
primary_id-apply_all m f g (req ∷ reqs) named =
    primary_id-apply_all m (placed f req) (apply_request g (next_request m f req)) reqs refl

-- The first request is enough.
leader-apply_all :
    (m : Machine) (f g : LaptopFactory) (req : AdminRequest) (reqs : List AdminRequest)
    → (apply_all g (requests_of m f (req ∷ reqs))).primary_id ≡ f.factory_id
unfolding apply_all requests_of apply_request
leader-apply_all m f g req reqs =
    primary_id-apply_all m (placed f req) (apply_request g (next_request m f req)) reqs refl

factory_id-placed_all :
    (f : LaptopFactory) (reqs : List AdminRequest) → (placed_all f reqs).factory_id ≡ f.factory_id
unfolding placed_all
factory_id-placed_all f [] = refl
factory_id-placed_all f (req ∷ reqs) = factory_id-placed_all (placed f req) reqs

-- What stands behind a common front of two lists.
front_inj :
    (xs later ops rest : List MapOp) (op missed : MapOp)
    → (xs ++ (missed ∷ later)) ++ (op ∷ ops) ≡ (xs ++ (op ∷ ops)) ++ rest
    → op ≡ missed
front_inj xs later ops rest op missed e =
    let same =
      append_cancel_left xs _ _
        (sym (append_assoc xs (missed ∷ later) (op ∷ ops)) ∙ e ∙ append_assoc xs (op ∷ ops) rest) in
    cc

-- The two logs after the new orders, where the one lacked an entry of the other's.
not_front :
    (req : AdminRequest) (reqs : List AdminRequest) (f g f' g' : LaptopFactory) (missed : MapOp)
    (later : List MapOp)
    → log_of_factory f ≡ log_of_factory g ++ (missed ∷ later)
    → order_op req.ops.arg1 req.ops.arg2 ≢ missed
    → log_of_factory f' ≡ log_of_factory f ++ ops_of (req ∷ reqs)
    → log_of_factory g' ≡ log_of_factory g ++ ops_of (req ∷ reqs)
    → ¬ Prefix (log_of_factory g') (log_of_factory f')
not_front req reqs f g f' g' missed later lacks other placing applying p = other (
    front_inj (log_of_factory g) later (ops_of reqs) p.rest _ missed (
      ap (λ log. log ++ ops_of (req ∷ reqs)) (sym lacks)
      ∙ sym placing
      ∙ p.split
      ∙ ap (λ log. log ++ p.rest) applying))

-- A follower with orders in its queue takes over, on machines of the same byte order, while a thread
-- of another factory, whose log lacks an order of the follower's and what is behind it, hears its
-- name and its requests. All calls return, and the new primary has sent its peers its name and the
-- requests. Both have the new orders behind what they had, and the other factory knows the new
-- primary, but its log is no front of the primary's if the first of the orders is not the one that it
-- lacked.
pub lagging-Diverges :
    (mp mb : Machine) (f g : LaptopFactory) (req : AdminRequest) (reqs : List AdminRequest)
    {dials rest : List Dial} {fresh : List ClientStub} (unset : ReplicationRequest) (e : Engineer)
    (recvs : List Chunk) (missed : MapOp) (later : List MapOp)
    → f.erq ≡ req ∷ reqs
    → All (λ x. x.type ≡ pos 1) (req ∷ reqs)
    → Follows f
    → f.factory_id ≢ minus_one
    → Reached mp f.peer_list dials fresh rest
    → All (Carrying (length (req ∷ reqs))) (f.stubs ++ fresh)
    → log_of_factory f ≡ log_of_factory g ++ (missed ∷ later)
    → order_op req.ops.arg1 req.ops.arg2 ≢ missed
    → mp.host ≡ mb.host
    → e.link.socket.valid ≡ true
    → take_chunks e.link.recvs int_size ≡ some (mp.host.store (to_word server_code), recvs)
    → Hears e.link.sends recvs (requests_of mp (elected f fresh) (req ∷ reqs))
    → Returns (admin_rounds mp (length (req ∷ reqs)) f dials) (λ p.
      Worked mp (elected f fresh) (req ∷ reqs) p.0
      × Returns (identify mb e) (λ e1.
        (e1.phase ≡ Phase.replica)
        × Returns
            (replica_rounds mb unset (length (requests_of mp (elected f fresh) (req ∷ reqs))) g e1)
            (λ b.
              (log_of_factory p.0 ≡ log_of_factory f ++ ops_of (req ∷ reqs))
              × (log_of_factory b.0 ≡ log_of_factory g ++ ops_of (req ∷ reqs))
              × (b.0.primary_id ≡ p.0.factory_id)
              × ¬ Prefix (log_of_factory b.0) (log_of_factory p.0))))
lagging-Diverges mp mb f g req reqs {dials} {rest} {fresh} unset e recvs missed later queue orders
      follows named_well r c lacks other hosts valid into heard =
    Returns-mono (admin_rounds mp (length (req ∷ reqs)) f dials)
      (admin_rounds-Elected mp f req reqs queue orders follows named_well r c)
      (λ p w. (
        w,
        rw
            (identify-taken mb server_code e recvs (omega arith)
              (into ∙ ap (λ h. some (h.store (to_word server_code), recvs)) hosts))
            (
              refl,
              Returns-mono (replica_rounds mb unset (length qs) g e1)
                  (replica_rounds_lem mb unset g e1 qs valid heard)
                  (λ b k.
                    let placing =
                      ap log_of_factory w.state ∙ log-placed_all (elected f fresh) (req ∷ reqs) in
                    let applying =
                      ap log_of_factory k.0 ∙ log-apply_all mp (elected f fresh) g (req ∷ reqs) in
                    (
                      placing,
                      applying,
                      ap (λ x. x.primary_id) k.0
                          ∙ leader-apply_all mp (elected f fresh) g req reqs
                          ∙ sym (factory_id-placed_all (elected f fresh) (req ∷ reqs))
                          ∙ sym (ap (λ x. x.factory_id) w.state),
                      not_front req reqs f g p.0 b.0 missed later lacks other placing applying,
                    )),
            ),
      ))
  where
    qs : List ReplicationRequest
    qs = requests_of mp (elected f fresh) (req ∷ reqs)

    e1 : Engineer
    e1 = record e { link = record e.link { recvs = recvs }; phase = Phase.replica }
