-- ===== src/Replicas/Follows.antt =====
-- What a step of the thread at the other end keeps of a follower.
use pa.Prelude.{
  ℕ, ◌≤◌, ◌≡◌, refl, sym, ap, ap₂, ◌∙◌, subst, inl, inr, true, List, [], ◌∷◌, ◌++◌, append-nil,
  append_assoc, length, length-append, some, arith, ℤ,
}
use pa.Machine.{Machine}
use pa.Messages.Fields.{encode, length-encode}
use pa.Messages.Order
use pa.Messages.Request
use pa.Messages.Request.{MapOp, ReplicationRequest}
use pa.Messages.RoundTrip.{request_fields, Fits}
use pa.Socket.{Chunk, done}
use pa.Socket.Healthy.{take_chunks, stream-taken}
use pa.Socket.Whenever.{Whenever-done}
use pa.Storage.{ServerStorage, order_op, place_order}
use pa.Storage.Latest.{IsReplay, place_order-IsReplay}
use pa.Factory.{AdminRequest, LaptopFactory}
use pa.Factory.Admin.{Place, sending}
use pa.Factory.Engineer.{Engineer, apply_request, replica_round}
use pa.Replicas.{Follower, Follow, reads, ends}
use pa.Replicas.Heard.{replica_round-heard, replica_round-ended}
use pa.Factory.Chores.{under_way}
use pa.Replicas.Within.{
  Prefix, append-empty, append-whole, follower_log, Unread, nothing, request, Within, InTurn,
  InStep, Good, on_its_way,
}

-- The request that is being sent asks for the operation that the admin will store.
abbrev pub Matches : Place → Type 0
Matches place =
    (req : AdminRequest) (q : ReplicationRequest)
    → place ≡ sending req q
    → Fits (request_fields q) × (q.operation ≡ order_op req.ops.arg1 req.ops.arg2)

some_bytes :
    (chunks left : List Chunk) (bytes others : List ℕ)
    → take_chunks chunks Request.size ≡ some (bytes, left)
    → bytes ++ others ≡ []
    → ⊥
some_bytes chunks left bytes others into e = omega (
  arith,
  (stream-taken chunks left Request.size bytes into).0,
  ap length (append-empty bytes others e).0,
)

-- The bytes of a whole request at the front of a part of one are that request.
whole_request :
    (q : ReplicationRequest) (chunks left : List Chunk) (bytes others tail : List ℕ)
    → take_chunks chunks Request.size ≡ some (bytes, left)
    → (bytes ++ others) ++ tail ≡ encode (request_fields q)
    → (bytes ≡ encode (request_fields q)) × (others ≡ [])
whole_request q chunks left bytes others tail into e =
    let (same, none) =
      append-whole bytes (others ++ tail) (encode (request_fields q))
        (sym (append_assoc bytes others tail) ∙ e)
        ((stream-taken chunks left Request.size bytes into).0
          ∙ sym (length-encode (request_fields q))) in
    (same, (append-empty others tail none).0)

-- What reading one request does to a follower: the bytes were that request, and it is stored.
record ReadOne (p : Follower) (g : LaptopFactory) (others answer : List ℕ) : Type 0 where
  nonempty : p.to ≡ [] → ⊥
  one :
      (q : ReplicationRequest) (tail : List ℕ)
      → Fits (request_fields q)
      → p.to ++ tail ≡ encode (request_fields q)
      → (others ≡ [])
        × (g.server_storage
            ≡ place_order p.factory.server_storage q.operation.arg1 q.operation.arg2)
        × (length answer ≤ Order.size)

pub log_of_order :
    (f g : LaptopFactory) (c n : ℤ)
    → g.server_storage ≡ place_order f.server_storage c n
    → g.server_storage.state_machine_log ≡ f.server_storage.state_machine_log ++ (order_op c n ∷ [])
unfolding place_order
log_of_order f g c n e = ap (λ s. s.state_machine_log) e

reads-ReadOne :
    (m : Machine) (unset : ReplicationRequest) (p : Follower) (results : List ℤ)
    (chunks left : List Chunk) (bytes others answer : List ℕ) (g : LaptopFactory) (e : Engineer)
    → p.engineer.link.socket.valid ≡ true
    → take_chunks chunks Request.size ≡ some (bytes, left)
    → p.to ≡ bytes ++ others
    → replica_round m unset p.factory
        (record p.engineer { link = record p.engineer.link { sends = results; recvs = chunks } })
      ≡ done (g, e)
    → e.link.sent ≡ p.engineer.link.sent ++ answer
    → ReadOne p g others answer
unfolding apply_request
reads-ReadOne m unset p results chunks left bytes others answer g e valid into to round out =
    record {
      nonempty = λ none. some_bytes chunks left bytes others into (sym to ∙ none);
      one = λ q tail fits whole.
          let (same, empty) =
            whole_request q chunks left bytes others tail into
              (ap (λ x. x ++ tail) (sym to) ∙ whole) in
          let (factory, short) =
            replica_round-heard m unset q p.factory g
              (record p.engineer {
                link = record p.engineer.link { sends = results; recvs = chunks };
              })
              e left answer fits valid (into ∙ ap (λ x. some (x, left)) same) round out in
          (empty, ap (λ (x : LaptopFactory). x.server_storage) factory, short);
    }

module _ (place : Place) (target : List MapOp) (p : Follower) where
  -- The thread's end changes nothing that is known.
  Good-ends :
      (g : LaptopFactory) {e : Engineer}
      → g.server_storage ≡ p.factory.server_storage
      → Good place target p
      → Good place target (record p { factory = g; engineer = e })
  Good-ends g same h = record {
    within =
        subst (λ (s : ServerStorage). Within (target ++ under_way place) s.state_machine_log p.to)
          (sym same) h.within;
    in_step = λ v.
        subst (λ (s : ServerStorage). InStep place target p.turn s.state_machine_log p.to p.back)
          (sym same) (h.in_step v);
    replay = subst IsReplay (sym same) h.replay;
  }

  module _ (g : LaptopFactory) (others answer : List ℕ) (r : ReadOne p g others answer) where
    unread :
        {ops : List MapOp}
        → Unread p.to ops
        → Prefix (follower_log p ++ ops) (target ++ under_way place)
        → Within (target ++ under_way place) g.server_storage.state_machine_log others
    unread (nothing none e) front = absurd (r.nonempty none)
    unread (request q tail fits whole e) front =
        let (empty, stored, short) = r.one q tail fits whole in
        record {
          ops = [];
          unread = nothing empty refl;
          front =
              subst (λ l. Prefix l (target ++ under_way place))
                (ap (◌++◌ (follower_log p)) e
                  ∙ sym (log_of_order p.factory g _ _ stored)
                  ∙ sym (append-nil g.server_storage.state_machine_log))
                front;
        }

    in_step :
        Matches place
        → InStep place target p.turn (follower_log p) p.to p.back
        → InStep place target p.turn g.server_storage.state_machine_log others (p.back ++ answer)
    in_step m h = elim (on_its_way p.turn place h) [
      | inl none ↦ absurd (r.nonempty none)
      | inr (req, q, sends, turn, fits, to, log, back) ↦
          let (empty, stored, short) = r.one q [] fits (append-nil p.to ∙ to) in
          subst
            (λ x.
              InStep x target p.turn g.server_storage.state_machine_log others (p.back ++ answer))
            (sym sends)
            (subst
              (λ t.
                InTurn req q target t g.server_storage.state_machine_log others (p.back ++ answer))
              (sym turn)
              (inr (
                empty,
                log_of_order p.factory g _ _ stored
                    ∙ ap₂ (λ l (o : MapOp). l ++ (order_op o.arg1 o.arg2 ∷ [])) log
                        ((m req q sends).1),
                omega (arith, ap length back, length-append p.back answer),
              )))
    ]

    Good-reads :
        (e : Engineer)
        → Matches place
        → Good place target p
        → Good place target
            (record p { factory = g; engineer = e; to = others; back = p.back ++ answer })
    Good-reads e m h = record {
      within = unread h.within.unread h.within.front;
      in_step = λ v. in_step m (h.in_step v);
      replay = of_unread h.within.unread;
    }
      where
        of_unread : {ops : List MapOp} → Unread p.to ops → IsReplay g.server_storage
        of_unread (nothing none same) = absurd (r.nonempty none)
        of_unread (request q tail fits whole same) =
            subst IsReplay (sym (r.one q tail fits whole).1) (
              place_order-IsReplay p.factory.server_storage q.operation.arg1 q.operation.arg2
                h.replay)

  -- What the thread at the other end does.
  pub Follow-Good :
      {p' : Follower} → Matches place → Follow p p' → Good place target p → Good place target p'
  Follow-Good matches
        (reads m unset results chunks left bytes others answer {g} {e} phase valid into to round
          out)
        h =
      Good-reads g others answer
        (reads-ReadOne m unset p results chunks left bytes others answer g e valid into to round
          out)
        e matches h
  Follow-Good matches (ends m unset chunks {g} {e} phase round over) h =
      Good-ends g
        (Whenever-done _
          (replica_round m unset p.factory
            (record p.engineer { link = record p.engineer.link { recvs = chunks } }))
          (replica_round-ended m unset p.factory
            (record p.engineer { link = record p.engineer.link { recvs = chunks } }) phase)
          round over)
        h
