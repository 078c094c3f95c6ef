-- ===== src/Replicas/Agreement.antt =====
-- What the followers of a primary have stored, in every state that they come to with it.
use pa.Prelude.{
  ℕ, ◌<◌, ◌+◌, ◌-◌, ◌%◌, ◌^◌, ◌≡◌, ◌⊎◌, Bool-cases, length, from_word, false, sym, ap, ◌∙◌, subst,
  inl, inr, true, List, [], ◌++◌, append-nil, ℤ,
}
use pa.Messages.Request.{MapOp}
use pa.Storage.{read_record, get_idx}
use pa.Storage.Latest.{read_record-same_log}
use pa.Socket.Whenever.{Whenever-done}
use pa.Factory.{LaptopFactory}
use pa.Factory.Admin.{
  Place, sending, sent, ready, popped, connected, indexed, placed, committed, admin_step,
}
use pa.Factory.Backing.{Logged, Logged-append}
use pa.Factory.Engineer.{engineer_step}
use pa.Replicas.{
  Turn, untold, asked, told, Follower, Replicas, Step, customer, admin, replicates, replicated,
  follower,
}
use pa.Replicas.Primary.{Steady, Kind, calm, begins, stores, admin_step-Kind, engineer_step-Steady}
use pa.Factory.Chores.{under_way}
use pa.Replicas.Within.{Prefix, Prefix-refl, Prefix-front, follower_log, InStep, InSync-calm, Good}
use pa.Replicas.Follows.{log_of_order}
use pa.Replicas.Invariant.{primary_log}
use pa.Replicas.Inheritance.{Reach-Sound, heir-log}
use pa.Replicas.Succession.{Reach, later, succeeded, Run, stops, goes_on, passes_on}

-- A follower has stored a front of the primary's log with the order under way behind it. If it is
-- connected, it has stored all that the primary has.
pub record Between (c : Replicas) (i : ℕ) : Type 0 where
  pub behind : Prefix (follower_log (c.followers i)) (primary_log c ++ under_way c.admin.place)
  pub ahead :
      ((c.followers i).stub.link.socket.valid ≡ false)
      ⊎ Prefix (primary_log c) (follower_log (c.followers i))

-- A connected follower has stored all that the primary has.
InStep-Prefix :
    {target log : List MapOp} (to back : List ℕ) (turn : Turn) (place : Place)
    → InStep place target turn log to back
    → Prefix target log
InStep-Prefix to back turn ready h = record { rest = []; split = h.0 ∙ sym (append-nil _) }
InStep-Prefix to back turn (popped req) h = record { rest = []; split = h.0 ∙ sym (append-nil _) }
InStep-Prefix to back turn (connected req) h = record {
  rest = [];
  split = h.0 ∙ sym (append-nil _);
}
InStep-Prefix to back turn (indexed req) h = record { rest = []; split = h.0 ∙ sym (append-nil _) }
InStep-Prefix to back turn (sent req) h = record { rest = _; split = h.0 }
InStep-Prefix to back turn (placed req) h = record { rest = []; split = h.0 ∙ sym (append-nil _) }
InStep-Prefix to back turn (committed req) h = record {
  rest = [];
  split = h.0 ∙ sym (append-nil _);
}
InStep-Prefix to back untold (sending req q) h = record {
  rest = [];
  split = h.0 ∙ sym (append-nil _);
}
InStep-Prefix to back asked (sending req q) (inl h) = record {
  rest = [];
  split = h.2 ∙ sym (append-nil _);
}
InStep-Prefix to back asked (sending req q) (inr h) = record { rest = _; split = h.1 }
InStep-Prefix to back told (sending req q) h = record { rest = _; split = h.0 }

connected-Prefix :
    {place : Place} {target : List MapOp} {p : Follower}
    → Good place target p
    → p.stub.link.socket.valid ≡ true
    → Prefix target (follower_log p)
connected-Prefix {place} {target} {p} h valid =
    InStep-Prefix p.to p.back p.turn place (h.in_step valid)

same_log :
    (c : Replicas) (f : LaptopFactory)
    → Steady c.factory f
    → Prefix (primary_log c) f.server_storage.state_machine_log
same_log c f k = record {
  rest = [];
  split = ap (λ x. x.state_machine_log) k.storage ∙ sym (append-nil (primary_log c));
}

-- From a primary over followers with its own log, in every state that they come to, with the bytes
-- between them under way, whatever the order of the steps and wherever a connection is lost, the log
-- of each follower is a front of the primary's log with the order that is being replicated behind it,
-- and the log of a follower that is still connected starts with the primary's log. So it is also
-- through any number of successions in which the primary stops while no order is being replicated, a
-- follower that it had not lost takes its place, and each peer of the new primary is one that the old
-- had not lost or one that the new does not reach.
pub Reach-Between : {c : Replicas} (i : ℕ) → Reach c → i < c.count → Between c i
Reach-Between {c} i r lt =
    let h = (Reach-Sound r).good i lt in
    record {
      behind = Prefix-front h.within.ops h.within.front;
      ahead = elim (Bool-cases (c.followers i).stub.link.socket.valid) [
        | inl t ↦ inr (connected-Prefix h t)
        | inr lost ↦ inl lost
      ];
    }

-- A follower that is still connected while no order is being replicated answers every read as the
-- primary does, and counts its log alike: it can take the primary's place.
pub failover_reads :
    {c : Replicas} (i : ℕ) (customer_id : ℤ)
    → Reach c
    → i < c.count
    → (c.followers i).stub.link.socket.valid ≡ true
    → under_way c.admin.place ≡ []
    → (read_record (c.followers i).factory.server_storage customer_id
        ≡ read_record c.factory.server_storage customer_id)
      × (get_idx (c.followers i).factory.server_storage ≡ get_idx c.factory.server_storage)
unfolding get_idx
failover_reads {c} i customer_id r lt valid none =
    let s = Reach-Sound r in
    let h = s.good i lt in
    let same = (InSync-calm (c.followers i).turn c.admin.place none (h.in_step valid)).0 in
    (
      read_record-same_log (c.followers i).factory.server_storage c.factory.server_storage
          customer_id h.replay s.replay same,
      ap (λ log. from_word ((length log + 2 ^ 64 - 1) % 2 ^ 64)) same,
    )

Run-Reach : {c d : Replicas} → Reach c → Run c d → Reach d
Run-Reach r stops = r
Run-Reach r (goes_on step run) = Run-Reach (later r step) run
Run-Reach r (passes_on h run) = Run-Reach (succeeded r h) run

-- The primary's log only grows.
Kind-Prefix :
    (c : Replicas) (f : LaptopFactory) (place : Place)
    → Kind c.factory f c.admin.place place
    → Prefix (primary_log c) f.server_storage.state_machine_log
Kind-Prefix c f place (calm k none none') = same_log c f k
Kind-Prefix c f place (begins req q k none now same) = same_log c f k
Kind-Prefix c f place (stores req now none primary factory stored) = record {
  rest = _;
  split = log_of_order c.factory f req.ops.arg1 req.ops.arg2 stored;
}

Step-Prefix : {c d : Replicas} → Reach c → Step c d → Prefix (primary_log c) (primary_log d)
Step-Prefix {c} r (customer m unset e {f} other taken) = same_log c f (
    Whenever-done _ (engineer_step m unset c.factory e)
      (engineer_step-Steady m c.factory e unset other) taken)
Step-Prefix {c} r (admin m {f} {a} alone taken fits) = Kind-Prefix c f a.place (
    Whenever-done _ (admin_step m c.factory c.admin)
      (admin_step-Kind m c.factory c.admin alone (Reach-Sound r).primary) taken)
Step-Prefix {c} r (replicates i req q now lt turn talk) = Prefix-refl (primary_log c)
Step-Prefix {c} r (replicated req q now all) = Prefix-refl (primary_log c)
Step-Prefix {c} r (follower i followed) = Prefix-refl (primary_log c)

Logged-Prefix : {op : MapOp} {xs ys : List MapOp} → Prefix xs ys → Logged op xs → Logged op ys
Logged-Prefix {op} {xs} p h = subst (Logged op) (sym p.split) (Logged-append xs p.rest h)

Run-Logged :
    {c d : Replicas} (op : MapOp)
    → Reach c
    → Run c d
    → Logged op (primary_log c)
    → Logged op (primary_log d)
Run-Logged op r stops h = h
Run-Logged op r (goes_on step run) h =
    Run-Logged op (later r step) run (Logged-Prefix (Step-Prefix r step) h)
Run-Logged op r (passes_on s run) h =
    Run-Logged op (succeeded r s) run (subst (Logged op) (sym (heir-log (Reach-Sound r) s)) h)

-- An order that is once in the primary's log is there, and in the log of every follower that is
-- connected, at that time and at any later one, whatever steps there are and through any number of
-- successions as `Succeeds` admits them: the log is that of the primary of the time.
pub stored-Logged :
    {c d : Replicas} (op : MapOp) (i : ℕ)
    → Reach c
    → Logged op (primary_log c)
    → Run c d
    → i < d.count
    → (d.followers i).stub.link.socket.valid ≡ true
    → Logged op (primary_log d) × Logged op (follower_log (d.followers i))
stored-Logged op i r h run lt valid =
    let here = Run-Logged op r run h in
    (here, Logged-Prefix (connected-Prefix ((Reach-Sound (Run-Reach r run)).good i lt) valid) here)
