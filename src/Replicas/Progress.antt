-- ===== src/Replicas/Progress.antt =====
-- The loop over the stubs can come to its end.
use pa.Prelude.{
  ℕ, zero, suc, ◌+◌, ◌≤◌, ◌<◌, ◌≡◌, ◌⊎◌, ◌==◌, refl, sym, ap, ◌∙◌, subst, inl, inr, true, false,
  Bool-cases, List, [], ◌∷◌, append-nil, length, arith, minus_one,
}
use mathlib.Core.Bool.{true≢false}
use pa.Machine.{Machine, buffer, length-buffer}
use pa.Messages.Fields.{encode, network}
use pa.Messages.RoundTrip.{request-wire}
use pa.Messages.Request.{ReplicationRequest}
use pa.Socket.{
  Link, failed, done, Outcome, blocked, aborted, Returns, Returns-bind, Returns-if, give_up, send,
  recv,
}
use pa.Stub.Client.{ClientStub, Dial, reconnect}
use pa.Stub.Halves.{ask_replication, hear_answer}
use pa.Threads.{moved, moved-cases}
use pa.Factory.{LaptopFactory, AdminRequest, replicate_to}
use pa.Factory.Admin.{sending, sent}
use pa.Factory.Replication.{reconnect-invalid}
use pa.Replicas.{
  Turn, untold, asked, told, Follower, Replicas, Talk, fails, skips, loses, replicates, replicated,
  sending_by,
}
use pa.Replicas.Succession.{Run, stops, goes_on}
use pa.Replicas.Invariant.{primary_log}

-- A step of the loop with one follower that leaves it told, after at most one attempt to connect.
record Told (f : LaptopFactory) (q : ReplicationRequest) (dials : List Dial) (p : Follower)
    : Type 0 where
  after : Follower
  rest : List Dial
  talk : Talk f q dials p after rest
  told_now : after.turn ≡ told
  same : after.factory ≡ p.factory
  enough : length dials ≤ suc (length rest)

-- The link behind an error of the first call.
abbrev cut : Link → Link
cut l = give_up (record l { sends = [] })

ask_replication-cut :
    (m : Machine) (q : ReplicationRequest) (l : Link)
    → l.sends ≡ minus_one ∷ []
    → ask_replication m q l ≡ done (false, cut l)
unfolding ask_replication send encode network
ask_replication-cut m q l e =
    rw (request-wire m.host q (buffer m 128) (omega (arith, length-buffer m 128)), e) refl

-- The kernel reports an error for the request, or for the answer.
fails_now :
    (m : Machine) (f : LaptopFactory) (q : ReplicationRequest) (dials : List Dial) (p : Follower)
    → p.turn ≡ untold
    → p.stub.link.socket.valid ≡ true
    → Told f q dials p
fails_now m f q dials p turn valid = record {
  after = _;
  rest = dials;
  talk =
      fails m (minus_one ∷ []) [] turn valid
        (ask_replication-cut m q (sending_by p (minus_one ∷ [])) refl)
        (sym (append-nil p.stub.link.sent));
  told_now = refl;
  same = refl;
  enough = omega arith;
}

loses_now :
    (f : LaptopFactory) (q : ReplicationRequest) (dials : List Dial) (p : Follower)
    → p.turn ≡ asked
    → Told f q dials p
unfolding hear_answer recv
loses_now f q dials p turn = record {
  after = _;
  rest = dials;
  talk = loses (failed ∷ []) turn refl refl;
  told_now = refl;
  same = refl;
  enough = omega arith;
}

replicate_to-skipped :
    (m : Machine) (f : LaptopFactory) (q : ReplicationRequest) (s : ClientStub) (dials : List Dial)
    → s.link.socket.valid ≡ false
    → 1 ≤ length dials
    → Returns (replicate_to m f q s dials) (λ r. length dials ≤ suc (length r.1))
unfolding replicate_to
replicate_to-skipped m f q s dials lost some =
    Returns-if _ s.link.socket.valid _ _ (λ t. absurd (true≢false (sym t ∙ lost)))
      (λ t.
        Returns-bind _ (reconnect s dials) _ (reconnect-invalid s dials t some) (λ (ok, s1, rest) h.
          Returns-if _ s1.link.socket.valid _ _ (λ v. absurd (true≢false (sym v ∙ h.0)))
            (λ v. h.1)))

-- What a call that returns has returned.
result_of {ℓ} :
    {A : Type ℓ} (P : A → Type 0) (o : Outcome A) → Returns o P → (a : A) × (o ≡ done a) × P a
result_of P (done a) h = (a, refl, h)
result_of P blocked h = absurd h
result_of P aborted h = absurd h

skips_now :
    (m : Machine) (f : LaptopFactory) (q : ReplicationRequest) (dials : List Dial) (p : Follower)
    → p.turn ≡ untold
    → p.stub.link.socket.valid ≡ false
    → 1 ≤ length dials
    → Told f q dials p
skips_now m f q dials p turn lost some =
    let (r, returned, enough) =
      result_of _ (replicate_to m f q p.stub dials)
        (replicate_to-skipped m f q p.stub dials lost some) in
    record {
      after = _;
      rest = r.1;
      talk = skips m turn lost returned;
      told_now = refl;
      same = refl;
      enough = enough;
    }

-- Each turn that is not over can be ended.
turn_ends :
    (m : Machine) (f : LaptopFactory) (q : ReplicationRequest) (dials : List Dial) (p : Follower)
    → 1 ≤ length dials
    → (p.turn ≡ told) ⊎ Told f q dials p
turn_ends m f q dials p some = at_turn p.turn refl
  where
    at_turn : (t : Turn) → p.turn ≡ t → (p.turn ≡ told) ⊎ Told f q dials p
    at_turn told e = inl e
    at_turn asked e = inr (loses_now f q dials p e)
    at_turn untold e = inr (elim (Bool-cases p.stub.link.socket.valid) [
      | inl t ↦ fails_now m f q dials p e t
      | inr t ↦ skips_now m f q dials p e t some
    ])

-- The loop is over, with the primary's log and the followers' factories as they were.
pub record Ended (c : Replicas) (req : AdminRequest) : Type 0 where
  pub after : Replicas
  pub run : Run c after
  pub place : after.admin.place ≡ sent req
  pub log : primary_log after ≡ primary_log c
  pub idle : (i : ℕ) → (after.followers i).factory ≡ (c.followers i).factory

told_below :
    (followers : ℕ → Follower) (k : ℕ) (p : Follower)
    → ((j : ℕ) → j < k → (followers j).turn ≡ told)
    → p.turn ≡ told
    → (j : ℕ) → j < suc k
    → (moved followers k p j).turn ≡ told
told_below followers k p before now j lt = elim (moved-cases followers k p j) [
  | inl (same, here) ↦ ap (λ x. x.turn) here ∙ now
  | inr (other, here) ↦ ap (λ x. x.turn) here ∙ before j (omega (arith, other))
]

same_factory :
    (followers : ℕ → Follower) (k : ℕ) (p : Follower)
    → p.factory ≡ (followers k).factory
    → (i : ℕ) → (moved followers k p i).factory ≡ (followers i).factory
same_factory followers k p e i = elim (moved-cases followers k p i) [
  | inl (same, here) ↦ ap (λ x. x.factory) here ∙ e ∙ ap (λ j. (followers j).factory) same
  | inr (other, here) ↦ ap (λ x. x.factory) here
]

loop_ends :
    (m : Machine) (req : AdminRequest) (q : ReplicationRequest) (left k : ℕ) (c : Replicas)
    → c.admin.place ≡ sending req q
    → c.count ≡ k + left
    → ((j : ℕ) → j < k → (c.followers j).turn ≡ told)
    → left ≤ length c.admin.dials
    → Ended c req
loop_ends m req q zero k c now all before enough = record {
  after = _;
  run = goes_on (replicated req q now (λ i lt. before i (omega (arith, all)))) stops;
  place = refl;
  log = refl;
  idle = λ i. refl;
}
loop_ends m req q (suc left) k c now all before enough =
    elim (turn_ends m c.factory q c.admin.dials (c.followers k) (omega arith)) [
      | inl over ↦
          loop_ends m req q left (suc k) c now (omega (arith, all))
            (λ j lt. elim (Bool-cases (j == k)) [
              | inl same ↦ subst (λ i. (c.followers i).turn ≡ told) (ground arith) over
              | inr other ↦ before j (ground arith)
            ])
            (omega arith)
      | inr t ↦
          let d = record c {
            admin = record c.admin { dials = t.rest };
            followers = moved c.followers k t.after;
          } in
          let e =
            loop_ends m req q left (suc k) d now (omega (arith, all))
              (told_below c.followers k t.after before t.told_now) (omega (arith, t.enough)) in
          record {
            after = e.after;
            run = goes_on (replicates k req q now (omega (arith, all)) before t.talk) e.run;
            place = e.place;
            log = e.log;
            idle = λ i. e.idle i ∙ same_factory c.followers k t.after t.same i;
          }
    ]

-- Wherever the loop over the stubs stands, with an attempt to connect for each follower, there are
-- steps that bring the admin behind the loop with the primary's log and the followers' factories
-- as they were. The steps need not come: a follower that stays connected and is silent holds the
-- loop up.
pub replication-Ended :
    (m : Machine) (req : AdminRequest) (q : ReplicationRequest) (c : Replicas)
    → c.admin.place ≡ sending req q
    → c.count ≤ length c.admin.dials
    → Ended c req
replication-Ended m req q c now enough =
    loop_ends m req q c.count 0 c now (omega arith) (λ j lt. absurd (omega arith)) enough
