-- ===== src/Replicas/Talks.antt =====
-- What a step of the loop over the stubs keeps of a follower.
use mathlib.Core.Bool.{true≢false}
use pa.Prelude.{
  ℕ, ◌≡◌, refl, sym, ap, ap₂, ◌∙◌, subst, inl, inr, true, false, List, [], ◌∷◌, ◌++◌, append-nil,
  length, length-append, some, arith,
}
use pa.Messages.Fields.{encode}
use pa.Messages.Order
use pa.Messages.Request.{MapOp, ReplicationRequest}
use pa.Messages.RoundTrip.{request_fields, Fits}
use pa.Socket.{Chunk, Link, done}
use pa.Socket.Healthy.{take_chunks, stream-taken}
use pa.Socket.Whenever.{Whenever-done}
use pa.Stub.Client.{Dial}
use pa.Storage.{order_op}
use pa.Factory.{AdminRequest, LaptopFactory, replicate_to}
use pa.Factory.Admin.{sending}
use pa.Replicas.{untold, Follower, Talk, asks, fails, skips, hears, loses, hearing_by}
use pa.Replicas.Asked.{ask_replication-front, replicate_to-lost, hear_answer-taken}
use pa.Replicas.Within.{
  Prefix, Prefix-refl, append-empty, op_of, follower_log, request, Within, InSync, InTransit,
  InTurn, Good,
}

done_inj {ℓ} : {A : Type ℓ} {a b : A} → done a ≡ done b → a ≡ b
done_inj e = cc

module _ (f : LaptopFactory) (req : AdminRequest) (q : ReplicationRequest) (dials : List Dial)
    (target : List MapOp) (p : Follower) (fits : Fits (request_fields q))
    (matches : q.operation ≡ order_op req.ops.arg1 req.ops.arg2)
    (h : Good (sending req q) target p) where
  abbrev op : MapOp
  op = order_op req.ops.arg1 req.ops.arg2

  -- Before its turn a connected follower is in sync.
  before :
      p.turn ≡ untold → p.stub.link.socket.valid ≡ true → InSync target (follower_log p) p.to p.back
  before turn valid =
      subst (λ t. InTurn req q target t (follower_log p) p.to p.back) turn (h.in_step valid)

  -- A front of the request is on its way.
  Within-asked :
      (front tail : List ℕ)
      → front ++ tail ≡ encode (request_fields q)
      → InSync target (follower_log p) p.to p.back
      → Within (target ++ (op ∷ [])) (follower_log p) (p.to ++ front)
  Within-asked front tail whole s = record {
    ops = op_of q ∷ [];
    unread = request q tail fits (ap (λ x. (x ++ front) ++ tail) s.1 ∙ whole) refl;
    front =
        subst (λ l. Prefix l (target ++ (op ∷ [])))
          (ap₂ (λ l (o : MapOp). l ++ (order_op o.arg1 o.arg2 ∷ [])) (sym s.0) (sym matches))
          (Prefix-refl (target ++ (op ∷ [])));
  }

  -- An answer that has been read was sent behind the request.
  answered :
      (results left : List Chunk) (bytes others : List ℕ)
      → take_chunks results Order.size ≡ some (bytes, left)
      → p.back ≡ bytes ++ others
      → InTransit target op q (follower_log p) p.to p.back
      → InSync (target ++ (op ∷ [])) (follower_log p) p.to others
  answered results left bytes others into back (inl (_, to, log, none)) = absurd (
      omega (
        arith,
        (stream-taken results left Order.size bytes into).0,
        ap length (append-empty bytes others (sym back ∙ none)).0,
      ))
  answered results left bytes others into back (inr (to, log, short)) =
      (log, to, empty others counted)
    where
      counted : length others ≡ 0
      counted = omega (
        arith,
        short,
        ap length back,
        length-append bytes others,
        (stream-taken results left Order.size bytes into).0,
      )

      empty : (xs : List ℕ) → length xs ≡ 0 → xs ≡ []
      empty [] e = refl
      empty (x ∷ xs) e = absurd (omega (arith, e))

  pub Talk-Good :
      {p' : Follower} {rest : List Dial} → Talk f q dials p p' rest → Good (sending req q) target p'
  Talk-Good (asks m results {l} front turn valid asking out) =
      let s = before turn valid in
      let (tail, whole, all, lost) = ask_replication-front m q _ l true front asking out in
      let all_out = ap (◌++◌ front) (sym (all refl)) in
      record {
        within = Within-asked front tail whole s;
        in_step = λ v.
            inl
              (fits, ap (λ x. x ++ front) s.1 ∙ sym (append-nil front) ∙ all_out ∙ whole, s.0, s.2);
        replay = h.replay;
      }
  Talk-Good (fails m results {l} front turn valid asking out) =
      let (tail, whole, all, lost) = ask_replication-front m q _ l false front asking out in
      record {
        within = Within-asked front tail whole (before turn valid);
        in_step = λ v. absurd (true≢false (sym v ∙ lost refl));
        replay = h.replay;
      }
  Talk-Good (skips m {s} {rest} turn lost round) =
      let still =
        Whenever-done _ (replicate_to m f q p.stub dials)
          (replicate_to-lost m f q p.stub dials lost) round in
      record {
        within = h.within;
        in_step = λ v. absurd (true≢false (sym v ∙ still));
        replay = h.replay;
      }
  Talk-Good (hears results left bytes others {l} turn into back heard) =
      let as_before : l.socket ≡ p.stub.link.socket =
        ap (λ (x : Link). x.socket)
          (done_inj (sym heard ∙ hear_answer-taken (hearing_by p results) bytes left into)) in
      record {
        within = h.within;
        in_step = λ v. answered results left bytes others into back (
            subst (λ t. InTurn req q target t (follower_log p) p.to p.back) turn
              (h.in_step (sym (ap (λ s. s.valid) as_before) ∙ v)));
        replay = h.replay;
      }
  Talk-Good (loses results {l} turn heard lost) = record {
    within = h.within;
    in_step = λ v. absurd (true≢false (sym v ∙ lost));
    replay = h.replay;
  }
