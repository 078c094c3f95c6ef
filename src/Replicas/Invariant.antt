-- ===== src/Replicas/Invariant.antt =====
-- The invariant of a primary with its followers: it holds at the start, and every step keeps it.
use pa.Prelude.{ℕ, ◌<◌, ◌≡◌, refl, sym, ap, ◌∙◌, subst, inl, inr, List, [], ◌++◌}
use pa.Messages.Request.{MapOp, ReplicationRequest}
use pa.Messages.RoundTrip.{request_fields, Fits}
use pa.Storage.{order_op}
use pa.Storage.Latest.{IsReplay, place_order-IsReplay}
use pa.Socket.Whenever.{Whenever-done}
use pa.Threads.{moved, moved-cases}
use pa.Factory.{AdminRequest, LaptopFactory}
use pa.Factory.Admin.{Admin, Place, connected, sending, admin_step}
use pa.Factory.Engineer.{engineer_step}
use pa.Factory.Replication.{IsPrimary}
use pa.Replicas.{
  untold, Follower, Replicas, turns, Step, customer, admin, replicates, replicated, follower,
}
use pa.Replicas.Succession.{Starts}
use pa.Replicas.Primary.{Kind, calm, begins, stores, admin_step-Kind, engineer_step-Steady}
use pa.Replicas.Within.{Prefix, Prefix-refl, nothing, Good, follower_log}
use pa.Replicas.Follows.{Matches, Follow-Good, log_of_order}
use pa.Replicas.Talks.{Talk-Good}
use pa.Replicas.Stages.{
  Good-calm, Good-begins, Good-stores, Good-sent, turns-calm, sending_inj, Matches-calm,
}

abbrev pub primary_log : Replicas → List MapOp
primary_log c = c.factory.server_storage.state_machine_log

pub record Sound (c : Replicas) : Type 0 where
  pub primary : IsPrimary c.factory
  pub replay : IsReplay c.factory.server_storage
  pub matches : Matches c.admin.place
  pub good : (i : ℕ) → i < c.count → Good c.admin.place (primary_log c) (c.followers i)

-- One follower has moved, and the others are as they were.
moved-Good :
    (place : Place) (target : List MapOp) (followers : ℕ → Follower) (i : ℕ) (p : Follower) (n : ℕ)
    → ((j : ℕ) → j < n → Good place target (followers j))
    → (i < n → Good place target p)
    → (j : ℕ) → j < n
    → Good place target (moved followers i p j)
moved-Good place target followers i p n old new j lt = elim (moved-cases followers i p j) [
  | inl (same, here) ↦ subst (Good place target) (sym here) (new (subst (λ k. k < n) (sym same) lt))
  | inr (other, here) ↦ subst (Good place target) (sym here) (old j lt)
]

IsPrimary-Steady :
    {f f' : LaptopFactory}
    → f'.primary_id ≡ f.primary_id
    → f'.factory_id ≡ f.factory_id
    → IsPrimary f
    → IsPrimary f'
IsPrimary-Steady primary factory p = record {
  named = primary ∙ p.named ∙ sym factory;
  known = λ e. p.known (sym primary ∙ e);
}

module _ (c : Replicas) (s : Sound c) (f : LaptopFactory) (a : Admin) where
  -- What the admin does between two loops.
  Kind-Sound :
      ((req : AdminRequest) (q : ReplicationRequest)
        → a.place ≡ sending req q
        → Fits (request_fields q))
      → Kind c.factory f c.admin.place a.place
      → Sound (record c { factory = f; admin = a; followers = turns a.place c.followers })
  Kind-Sound fits (calm k none none') = record {
    primary = IsPrimary-Steady k.primary k.factory s.primary;
    replay = subst IsReplay (sym k.storage) s.replay;
    matches = Matches-calm a.place none';
    good = λ i lt. subst (Good a.place _) (sym (turns-calm a.place none' c.followers i)) (
        subst (λ l. Good a.place l (c.followers i)) (ap (λ x. x.state_machine_log) (sym k.storage))
          (Good-calm none none' (s.good i lt)));
  }
  Kind-Sound fits (begins req q k none now same) = record {
    primary = IsPrimary-Steady k.primary k.factory s.primary;
    replay = subst IsReplay (sym k.storage) s.replay;
    matches = λ req' q' e.
        let (r, u) = sending_inj (sym now ∙ e) in
        (
          fits req' q' e,
          ap (λ x. x.operation) (sym u) ∙ same ∙ ap (λ x. order_op x.ops.arg1 x.ops.arg2) r,
        );
    good = λ i lt.
        subst (λ p. Good p f.server_storage.state_machine_log (turns p c.followers i)) (sym now)
          (subst (λ l. Good (sending req q) l (record (c.followers i) { turn = untold }))
            (ap (λ x. x.state_machine_log) (sym k.storage)) (Good-begins req q none (s.good i lt)));
  }
  Kind-Sound fits (stores req now none primary factory stored) = record {
    primary = IsPrimary-Steady primary factory s.primary;
    replay =
        subst IsReplay (sym stored)
          (place_order-IsReplay c.factory.server_storage req.ops.arg1 req.ops.arg2 s.replay);
    matches = Matches-calm a.place none;
    good = λ i lt. subst (Good a.place _) (sym (turns-calm a.place none c.followers i)) (
        subst (λ l. Good a.place l (c.followers i))
          (sym (log_of_order c.factory f req.ops.arg1 req.ops.arg2 stored))
          (Good-stores req none
            (subst (λ p. Good p (primary_log c) (c.followers i)) now (s.good i lt))));
  }

pub Step-Sound : {c d : Replicas} → Step c d → Sound c → Sound d
Step-Sound {c} (customer m unset e {f} other taken) s =
    let k =
      Whenever-done _ (engineer_step m unset c.factory e)
        (engineer_step-Steady m c.factory e unset other) taken in
    record {
      primary = IsPrimary-Steady k.primary k.factory s.primary;
      replay = subst IsReplay (sym k.storage) s.replay;
      matches = s.matches;
      good = λ i lt.
          subst (λ l. Good c.admin.place l (c.followers i))
            (ap (λ x. x.state_machine_log) (sym k.storage)) (s.good i lt);
    }
Step-Sound {c} (admin m {f} {a} alone taken fits) s = Kind-Sound c s f a fits (
    Whenever-done _ (admin_step m c.factory c.admin)
      (admin_step-Kind m c.factory c.admin alone s.primary) taken)
Step-Sound {c} (replicates i req q {p} {dials} now lt turn talk) s = record {
  primary = s.primary;
  replay = s.replay;
  matches = s.matches;
  good = moved-Good c.admin.place (primary_log c) c.followers i p c.count s.good (λ lt'.
      subst (λ x. Good x (primary_log c) p) (sym now)
        (Talk-Good c.factory req q c.admin.dials (primary_log c) (c.followers i)
          (s.matches req q now).0 (s.matches req q now).1
          (subst (λ x. Good x (primary_log c) (c.followers i)) now (s.good i lt)) talk));
}
Step-Sound {c} (replicated req q now all) s = record {
  primary = s.primary;
  replay = s.replay;
  matches = λ req' q' e. cc;
  good = λ i lt.
      Good-sent req q (all i lt)
        (subst (λ x. Good x (primary_log c) (c.followers i)) now (s.good i lt));
}
Step-Sound {c} (follower i {p} followed) s = record {
  primary = s.primary;
  replay = s.replay;
  matches = s.matches;
  good = moved-Good c.admin.place (primary_log c) c.followers i p c.count s.good (λ lt.
      Follow-Good c.admin.place (primary_log c) (c.followers i) s.matches followed (s.good i lt));
}

-- A follower with the primary's log behind a fresh connection.
pub Good-fresh :
    {target : List MapOp} (req : AdminRequest) (p : Follower)
    → follower_log p ≡ target
    → IsReplay p.factory.server_storage
    → p.to ≡ []
    → p.back ≡ []
    → Good (connected req) target p
Good-fresh {target} req p same replay none_to none_back = record {
  within = record {
    ops = [];
    unread = nothing none_to refl;
    front = subst (λ l. Prefix (l ++ []) (target ++ [])) (sym same) (Prefix-refl (target ++ []));
  };
  in_step = λ v. (same, none_to, none_back);
  replay = replay;
}

-- Behind `startConnection`.
pub Starts-Sound : {c : Replicas} → Starts c → Sound c
Starts-Sound {c} b = record {
  primary = record { named = b.named; known = λ e. b.known (sym b.named ∙ e) };
  replay = b.replay;
  matches = λ req q e. cc;
  good = λ i lt.
      subst (λ x. Good x (primary_log c) (c.followers i)) (sym b.place)
        (Good-fresh b.req (c.followers i) (b.same i lt) (b.replays i lt) (b.none_to i lt)
          (b.none_back i lt));
}
