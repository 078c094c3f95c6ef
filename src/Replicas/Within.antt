-- ===== src/Replicas/Within.antt =====
-- What is known of one follower while the primary replicates: how its log stands to the primary's,
-- and which bytes are under way.
use pa.Prelude.{
  ℕ, ◌≤◌, ◌≡◌, refl, sym, ap, ◌∙◌, ◌⊎◌, inl, inr, true, List, [], ◌∷◌, ◌++◌, append-nil,
  append_assoc, length, arith,
}
use pa.Messages.Fields.{encode}
use pa.Messages.Order
use pa.Messages.Request.{MapOp, ReplicationRequest}
use pa.Messages.RoundTrip.{request_fields, Fits}
use pa.Storage.{order_op}
use pa.Storage.Latest.{IsReplay}
use pa.Factory.{AdminRequest}
use pa.Factory.Admin.{Place, sending, sent, ready, popped, connected, indexed, placed, committed}
use pa.Replicas.{Turn, untold, asked, told, Follower}
use pa.Factory.Chores.{under_way}

-- The second list starts with the first.
pub record Prefix (xs ys : List MapOp) : Type 0 where
  pub rest : List MapOp
  pub split : ys ≡ xs ++ rest

pub Prefix-refl : (xs : List MapOp) → Prefix xs xs
Prefix-refl xs = record { rest = []; split = sym (append-nil xs) }

pub Prefix-append : {xs ys : List MapOp} (zs : List MapOp) → Prefix xs ys → Prefix xs (ys ++ zs)
Prefix-append {xs} zs p = record {
  rest = p.rest ++ zs;
  split = ap (λ x. x ++ zs) p.split ∙ append_assoc xs p.rest zs;
}

pub Prefix-front : {xs zs : List MapOp} (ys : List MapOp) → Prefix (xs ++ ys) zs → Prefix xs zs
Prefix-front {xs} ys p = record { rest = ys ++ p.rest; split = p.split ∙ append_assoc xs ys p.rest }

pub append-empty {ℓ} : {A : Type ℓ} (xs ys : List A) → xs ++ ys ≡ [] → (xs ≡ []) × (ys ≡ [])
append-empty [] ys e = (refl, e)
append-empty (x ∷ xs) ys e = cc

-- A front as long as the whole is the whole.
pub append-whole {ℓ} :
    {A : Type ℓ} (xs ys zs : List A) → xs ++ ys ≡ zs → length xs ≡ length zs → (xs ≡ zs) × (ys ≡ [])
append-whole [] ys [] e same = (refl, e)
append-whole [] ys (z ∷ zs) e same = absurd (omega (arith, same))
append-whole (x ∷ xs) ys [] e same = cc
append-whole (x ∷ xs) ys (z ∷ zs) e same =
    let (front, none) = append-whole xs ys zs (cc) (omega (arith, same)) in (cc, none)

abbrev pub op_of : ReplicationRequest → MapOp
op_of q = order_op q.operation.arg1 q.operation.arg2

abbrev pub follower_log : Follower → List MapOp
follower_log p = p.factory.server_storage.state_machine_log

-- The bytes that a follower has not read are none, or a front of one request; `ops` is what it has
-- still to store.
pub data Unread (to : List ℕ) (ops : List MapOp) : Type 0 where
  nothing : to ≡ [] → ops ≡ [] → Unread to ops
  request :
      (q : ReplicationRequest) (tail : List ℕ)
      → Fits (request_fields q)
      → to ++ tail ≡ encode (request_fields q)
      → ops ≡ op_of q ∷ []
      → Unread to ops

-- What a follower has stored and has still to store is a front of `goal`.
pub record Within (goal log : List MapOp) (to : List ℕ) : Type 0 where
  pub ops : List MapOp
  pub unread : Unread to ops
  pub front : Prefix (log ++ ops) goal

abbrev pub InSync : (target log : List MapOp) (to back : List ℕ) → Type 0
InSync target log to back = (log ≡ target) × (to ≡ []) × (back ≡ [])

-- A request for the operation is on its way, or the follower has stored it and answers.
abbrev pub InTransit :
    (target : List MapOp) (op : MapOp) (q : ReplicationRequest) (log : List MapOp)
    (to back : List ℕ)
    → Type 0
InTransit target op q log to back =
    (Fits (request_fields q) × (to ≡ encode (request_fields q)) × (log ≡ target) × (back ≡ []))
    ⊎ ((to ≡ []) × (log ≡ target ++ (op ∷ [])) × (length back ≤ Order.size))

abbrev pub InTurn :
    AdminRequest → ReplicationRequest → List MapOp → Turn → List MapOp → List ℕ → List ℕ → Type 0
InTurn req q target untold log to back = InSync target log to back
InTurn req q target asked log to back =
    InTransit target (order_op req.ops.arg1 req.ops.arg2) q log to back
InTurn req q target told log to back =
    InSync (target ++ (order_op req.ops.arg1 req.ops.arg2 ∷ [])) log to back

-- A follower that is connected, against the primary's log and the place of its admin.
abbrev pub InStep : Place → List MapOp → Turn → List MapOp → List ℕ → List ℕ → Type 0
InStep (sending req q) target turn log to back = InTurn req q target turn log to back
InStep (sent req) target turn log to back =
    InSync (target ++ (order_op req.ops.arg1 req.ops.arg2 ∷ [])) log to back
InStep ready target turn log to back = InSync target log to back
InStep (popped req) target turn log to back = InSync target log to back
InStep (connected req) target turn log to back = InSync target log to back
InStep (indexed req) target turn log to back = InSync target log to back
InStep (placed req) target turn log to back = InSync target log to back
InStep (committed req) target turn log to back = InSync target log to back

pub record Good (place : Place) (target : List MapOp) (p : Follower) : Type 0 where
  pub within : Within (target ++ under_way place) (follower_log p) p.to
  pub in_step :
      p.stub.link.socket.valid ≡ true → InStep place target p.turn (follower_log p) p.to p.back
  pub replay : IsReplay p.factory.server_storage

module _ (turn : Turn) {target log : List MapOp} {to back : List ℕ} where
  -- With nothing under way a connected follower is in sync.
  pub InSync-calm :
      (place : Place)
      → under_way place ≡ []
      → InStep place target turn log to back
      → InSync target log to back
  InSync-calm ready none h = h
  InSync-calm (popped req) none h = h
  InSync-calm (connected req) none h = h
  InSync-calm (indexed req) none h = h
  InSync-calm (sent req) none h = cc
  InSync-calm (placed req) none h = h
  InSync-calm (committed req) none h = h
  InSync-calm (sending req q) none h = cc

  pub InStep-calm :
      (place : Place)
      → under_way place ≡ []
      → InSync target log to back
      → InStep place target turn log to back
  InStep-calm ready none h = h
  InStep-calm (popped req) none h = h
  InStep-calm (connected req) none h = h
  InStep-calm (indexed req) none h = h
  InStep-calm (sent req) none h = cc
  InStep-calm (placed req) none h = h
  InStep-calm (committed req) none h = h
  InStep-calm (sending req q) none h = cc

  -- What is on its way to a connected follower: nothing, or the request that it has been asked for.
  pub on_its_way :
      (place : Place)
      → InStep place target turn log to back
      → (to ≡ [])
        ⊎ ((req : AdminRequest) × (q : ReplicationRequest) × (place ≡ sending req q)
            × (turn ≡ asked)
            × Fits (request_fields q)
            × (to ≡ encode (request_fields q))
            × (log ≡ target)
            × (back ≡ []))
  on_its_way ready h = inl h.1
  on_its_way (popped req) h = inl h.1
  on_its_way (connected req) h = inl h.1
  on_its_way (indexed req) h = inl h.1
  on_its_way (sent req) h = inl h.1
  on_its_way (placed req) h = inl h.1
  on_its_way (committed req) h = inl h.1
  on_its_way (sending req q) h = of_turn turn refl h
    where
      of_turn :
          (t : Turn)
          → turn ≡ t
          → InTurn req q target t log to back
          → (to ≡ [])
            ⊎ ((r : AdminRequest) × (s : ReplicationRequest) × (sending req q ≡ sending r s)
                × (turn ≡ asked)
                × Fits (request_fields s)
                × (to ≡ encode (request_fields s))
                × (log ≡ target)
                × (back ≡ []))
      of_turn untold e k = inl k.1
      of_turn asked e (inl k) = inr (req, q, refl, e, k.0, k.1, k.2, k.3)
      of_turn asked e (inr k) = inl k.0
      of_turn told e k = inl k.1
