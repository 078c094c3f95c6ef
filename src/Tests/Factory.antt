-- ===== src/Tests/Factory.antt =====
-- A primary with one backup, and an order that reaches both.
use pa.Prelude.{
  ◌⊎◌, ℕ, suc, ◌≤◌, ◌≡◌, refl, false, List, [], ◌∷◌, take, length, drop, arith, from_word, pos,
  minus_one, to_word,
}
use pa.Messages.Fields.{encode, network}
use pa.Messages.Request.{ReplicationRequest}
use pa.Messages.RoundTrip.{request_fields, Fits}
use pa.Storage.{get_idx}
use pa.Socket.{Link, got, Outcome, done, blocked, aborted, Returns}
use pa.Socket.Receiving.{stream}
use pa.Stub.Client.{reconnect}
use pa.Factory.{LaptopFactory, admin_order}
use pa.Factory.Engineer.{Engineer, Phase, ended, apply_request, replica_round}
use pa.Factory.Replica.{
  Acknowledged, Replayed, acknowledged_by, replica_round-apply, replica_round-Replayed,
  replica_round-Lost,
}
use pa.Factory.Replication.{Placed, next_request, reconnect-invalid, admin_order-Placed}
use pa.Factory.Consistency.{Brings}
use pa.Factory.History.{Agree, Serves, Follows, history-Agree}
use pa.Tests.Data.{little, big, link_with, a_request}
use pa.Tests.Servers.{lost_stub, primary, backup, primary_IsPrimary, stubs_ready, req, dials}

reconnect-invalid_example :
    Returns
      (reconnect lost_stub dials)
      (λ r. (r.1.link.socket.valid ≡ false) × (length dials ≤ suc (length r.2)))
reconnect-invalid_example = reconnect-invalid lost_stub dials refl (omega arith)

admin_order-Placed_example :
    Returns (admin_order little primary req dials) (λ r. Placed little primary req r.0)
admin_order-Placed_example =
    admin_order-Placed little primary req dials primary_IsPrimary stubs_ready (omega arith)

-- The connection on which the request reaches the backup, in three pieces.
abbrev request_bytes : List ℕ
request_bytes =
    0 ∷ 0 ∷ 0 ∷ 1 ∷ 0 ∷ 0 ∷ 0 ∷ 1 ∷ 255 ∷ 255 ∷ 255 ∷ 255 ∷ 255 ∷ 255 ∷ 255 ∷ 255 ∷ 0 ∷ 0 ∷ 0 ∷ 1
    ∷ 0 ∷ 0 ∷ 0 ∷ 3 ∷ 0 ∷ 1 ∷ 17 ∷ 112 ∷ []

abbrev replica_link : Link
replica_link = link_with (got (take 10 request_bytes) ∷ got (drop 10 request_bytes) ∷ [])

abbrev replica_thread : Engineer
replica_thread = record { id = pos 0; link = replica_link; phase = Phase.replica }

abbrev the_request : ReplicationRequest
the_request = next_request little primary req

Brings-request : Brings replica_thread the_request []
unfolding stream encode network to_word from_word get_idx
Brings-request = record {
  valid = refl;
  arrives = refl;
  documented = omega arith;
  sending = record { documented = omega arith; answered = omega arith };
}

request-Fits : Fits (request_fields the_request)
unfolding get_idx from_word
request-Fits = omega arith

applied_now : Returns (replica_round big a_request backup replica_thread) (λ r.
    (r.0 ≡ apply_request backup the_request)
    × (r.1.phase ≡ Phase.replica)
    × Acknowledged the_request replica_thread [] r.1)
applied_now =
    replica_round-apply big a_request the_request backup replica_thread [] request-Fits refl
      Brings-request.arrives Brings-request.documented Brings-request.sending

replica_round-Replayed_example : Returns (replica_round big a_request backup replica_thread) (λ r.
    Replayed the_request backup r.0
    × (r.1.phase ≡ Phase.replica)
    × (((r.1.link.sent ≡ acknowledged_by the_request) × (r.1.link.socket ≡ replica_link.socket))
        ⊎ (r.1.link.socket.valid ≡ false)))
replica_round-Replayed_example =
    replica_round-Replayed big a_request the_request backup replica_thread [] request-Fits refl
      Brings-request.arrives Brings-request.documented Brings-request.sending

-- The primary goes away in the middle of a request.
abbrev cut_thread : Engineer
cut_thread = record {
  id = pos 0;
  link = link_with (got (take 10 request_bytes) ∷ got [] ∷ []);
  phase = Phase.replica;
}

replica_round-Lost_example : Returns (replica_round big a_request backup cut_thread) (λ r.
    (r.0 ≡ record backup { primary_id = minus_one })
    × (r.1.phase ≡ ended)
    × (r.1.link.socket.fd ≡ minus_one)
    × (r.1.link.sent ≡ []))
unfolding stream
replica_round-Lost_example =
    replica_round-Lost big a_request backup cut_thread (omega arith) tt (omega arith)

-- One order, placed by the primary and applied by the backup.
abbrev result_of {ℓ} : {A : Type ℓ} → Outcome A → A → A
result_of (done a) other = a
result_of _ other = other

abbrev primary_after : LaptopFactory
primary_after = (result_of (admin_order little primary req dials) (primary, dials)).0

abbrev backup_after : LaptopFactory
backup_after =
    (result_of (replica_round big a_request backup replica_thread) (backup, replica_thread)).0

start_Agree : Agree primary backup
start_Agree = record {
  primary = primary_IsPrimary;
  storage = refl;
  indices = record { last = refl; committed = refl };
  lagging = record { last = refl; committed = refl };
}

Returns-done_eq {ℓ} :
    {A : Type ℓ} (P : A → Type 0) (o : Outcome A) (other : A)
    → Returns o P
    → o ≡ done (result_of o other)
Returns-done_eq P (done a) other h = refl
Returns-done_eq P blocked other h = absurd h
Returns-done_eq P aborted other h = absurd h

served : Serves little primary (the_request ∷ []) primary_after
served =
    Serves.order req dials (result_of (admin_order little primary req dials) (primary, dials)).1
      stubs_ready (omega arith) (omega arith) refl
      (Returns-done_eq _ (admin_order little primary req dials) (primary, dials)
        admin_order-Placed_example)
      Serves.stop

followed : Follows big backup replica_thread (the_request ∷ []) backup_after
followed =
    Follows.request a_request [] request-Fits Brings-request
      (Returns-done_eq _ (replica_round big a_request backup replica_thread)
        (backup, replica_thread) applied_now)
      Follows.stop

history-Agree_example : Agree primary_after backup_after
history-Agree_example = history-Agree start_Agree served followed
