-- ===== src/Replicas/Stages.antt =====
-- What is known of a follower as the primary's admin goes from place to place.
use pa.Prelude.{ℕ, ◌≡◌, refl, sym, ap, ◌∙◌, subst, List, [], ◌∷◌, ◌++◌, append-nil}
use pa.Messages.Request.{MapOp, ReplicationRequest}
use pa.Storage.{order_op}
use pa.Factory.{AdminRequest}
use pa.Factory.Admin.{Place, sending, sent, ready, popped, connected, indexed, placed, committed}
use pa.Replicas.{untold, told, Follower, turns}
use pa.Factory.Chores.{under_way}
use pa.Replicas.Within.{
  Prefix, Prefix-append, follower_log, Within, Good, InSync-calm, InStep-calm, InTurn,
}
use pa.Replicas.Follows.{Matches}

-- No request is on its way before and after.
pub Good-calm :
    {place place' : Place} {target : List MapOp} {p : Follower}
    → under_way place ≡ []
    → under_way place' ≡ []
    → Good place target p
    → Good place' target p
Good-calm {place} {place'} {target} {p} none none' h = record {
  within = subst (λ ops. Within (target ++ ops) (follower_log p) p.to) (none ∙ sym none') h.within;
  in_step = λ v. InStep-calm p.turn place' none' (InSync-calm p.turn place none (h.in_step v));
  replay = h.replay;
}

-- A request begins.
pub Good-begins :
    {place : Place} {target : List MapOp} {p : Follower} (req : AdminRequest)
    (q : ReplicationRequest)
    → under_way place ≡ []
    → Good place target p
    → Good (sending req q) target (record p { turn = untold })
Good-begins {place} {target} {p} req q none h = record {
  within = record {
    ops = h.within.ops;
    unread = h.within.unread;
    front = Prefix-append _ (
        subst (λ l. Prefix (follower_log p ++ h.within.ops) l)
          (ap (◌++◌ target) none ∙ append-nil target) h.within.front);
  };
  in_step = λ v. InSync-calm p.turn place none (h.in_step v);
  replay = h.replay;
}

-- The primary stores the operation that all have been told of.
pub Good-stores :
    {place' : Place} {target : List MapOp} {p : Follower} (req : AdminRequest)
    → under_way place' ≡ []
    → Good (sent req) target p
    → Good place' (target ++ (order_op req.ops.arg1 req.ops.arg2 ∷ [])) p
Good-stores {place'} {target} {p} req none h = record {
  within =
      subst (λ l. Within l (follower_log p) p.to)
        (sym (append-nil _)
          ∙ ap (◌++◌ (target ++ (order_op req.ops.arg1 req.ops.arg2 ∷ []))) (sym none))
        h.within;
  in_step = λ v. InStep-calm p.turn place' none (h.in_step v);
  replay = h.replay;
}

-- The loop over the stubs is over.
pub Good-sent :
    {target : List MapOp} {p : Follower} (req : AdminRequest) (q : ReplicationRequest)
    → p.turn ≡ told
    → Good (sending req q) target p
    → Good (sent req) target p
Good-sent {target} {p} req q turn h = record {
  within = h.within;
  in_step = λ v. subst (λ t. InTurn req q target t (follower_log p) p.to p.back) turn (h.in_step v);
  replay = h.replay;
}

pub turns-calm :
    (place : Place)
    → under_way place ≡ []
    → (followers : ℕ → Follower) (i : ℕ) → turns place followers i ≡ followers i
turns-calm ready none followers i = refl
turns-calm (popped req) none followers i = refl
turns-calm (connected req) none followers i = refl
turns-calm (indexed req) none followers i = refl
turns-calm (sending req q) none followers i = cc
turns-calm (sent req) none followers i = cc
turns-calm (placed req) none followers i = refl
turns-calm (committed req) none followers i = refl

-- The place of an admin that sends names one request.
pub sending_inj :
    {req req' : AdminRequest} {q q' : ReplicationRequest}
    → sending req q ≡ sending req' q'
    → (req ≡ req') × (q ≡ q')
sending_inj e = (cc, cc)

pub Matches-calm : (place : Place) → under_way place ≡ [] → Matches place
Matches-calm place none req q e = cc
