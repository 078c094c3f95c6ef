-- ===== src/Replicas/Asked.antt =====
-- What the primary's side of a request leaves behind, whatever the kernel answers.
use mathlib.Core.Bool.{true≢false}
use mathlib.Core.List.{append_cancel_left}
use pa.Prelude.{
  ℕ, ◌≡◌, refl, sym, ap, ◌∙◌, subst, Bool, true, false, List, [], ◌∷◌, ◌++◌, some, arith,
  if◌then◌else◌, Bool-cases, inl, inr,
}
use pa.Machine.{Machine, buffer, length-buffer}
use pa.Messages.Fields.{encode}
use pa.Messages.Order
use pa.Messages.Request
use pa.Messages.Request.{ReplicationRequest}
use pa.Messages.RoundTrip.{request_fields, request-wire}
use pa.Socket.{Link, Chunk, done, ◌>>=◌}
use pa.Socket.Healthy.{take_chunks, recv-taken}
use pa.Socket.Lifetime.{connect-invalid}
use pa.Socket.Parts.{SentPart, send-SentPart}
use pa.Socket.Whenever.{Whenever, Whenever-bind, Whenever-if, Whenever-done}
use pa.Stub.Client.{ClientStub, Dial, dial_socket, reconnect}
use pa.Stub.Halves.{ask_replication, hear_answer, start_replication-halves}
use pa.Factory.{LaptopFactory, replicate_to}

ask_replication-SentPart :
    (m : Machine) (q : ReplicationRequest) (l : Link)
    → Whenever (ask_replication m q l) (SentPart l (encode (request_fields q)))
unfolding ask_replication
ask_replication-SentPart m q l =
    subst (λ bytes. Whenever (ask_replication m q l) (SentPart l bytes))
      (request-wire m.host q (buffer m 128) (omega (arith, length-buffer m 128)))
      (send-SentPart l _ Request.size)

-- The bytes that went out are a front of the request.
pub ask_replication-front :
    (m : Machine) (q : ReplicationRequest) (l l' : Link) (ok : Bool) (front : List ℕ)
    → ask_replication m q l ≡ done (ok, l')
    → l'.sent ≡ l.sent ++ front
    → (tail : List ℕ) × (front ++ tail ≡ encode (request_fields q))
      × (ok ≡ true → tail ≡ [])
      × (ok ≡ false → l'.socket.valid ≡ false)
ask_replication-front m q l l' ok front asks out =
    let p : SentPart l (encode (request_fields q)) (ok, l') =
      Whenever-done _ (ask_replication m q l) (ask_replication-SentPart m q l) asks in
    (
      p.tail,
      ap (λ x. x ++ p.tail) (append_cancel_left l.sent front p.front (sym out ∙ p.sent)) ∙ p.parts,
      λ t. (p.all_out t).0,
      p.lost,
    )

-- A stub that has lost its socket is skipped: `Reconnect` does not bring it back.
dial_socket-lost :
    (l : Link) (dials : List Dial)
    → l.socket.valid ≡ false
    → Whenever (dial_socket l dials) (λ r. r.1.socket.valid ≡ false)
unfolding dial_socket
dial_socket-lost l [] lost = elim (Bool-cases l.socket.is_initialized) [
  | inl t ↦ rw (t, dial_socket) lost
  | inr t ↦ rw (t, dial_socket) tt
]
dial_socket-lost l (d ∷ dials) lost = elim (Bool-cases l.socket.is_initialized) [
  | inl t ↦ rw (t, dial_socket) lost
  | inr t ↦ rw (t, dial_socket) (connect-invalid l.socket d.fd d.result lost)
]

pub replicate_to-lost :
    (m : Machine) (f : LaptopFactory) (q : ReplicationRequest) (s : ClientStub) (dials : List Dial)
    → s.link.socket.valid ≡ false
    → Whenever (replicate_to m f q s dials) (λ r. r.0.link.socket.valid ≡ false)
unfolding replicate_to reconnect
replicate_to-lost m f q s dials lost =
    Whenever-if _ s.link.socket.valid _ _ (λ t. absurd (true≢false (sym t ∙ lost)))
      (λ t.
        Whenever-bind _ (reconnect s dials) _
          (Whenever-bind _ (dial_socket s.link dials) _ (dial_socket-lost s.link dials lost)
            (λ r h. h))
          (λ (ok, s1, rest) h.
            Whenever-if _ s1.link.socket.valid _ _ (λ v. absurd (true≢false (sym v ∙ h))) (λ v. v)))

then_of {ℓ} : {A : Type ℓ} (b : Bool) (x y : A) → b ≡ true → (if b then x else y) ≡ x
then_of true x y t = refl
then_of false x y t = cc

-- A stub that is connected sends the request and waits for the answer; the loop over the stubs does
-- nothing else with it.
pub replicate_to-halves :
    (m : Machine) (f : LaptopFactory) (q : ReplicationRequest) (s : ClientStub) (dials : List Dial)
    → s.link.socket.valid ≡ true
    → replicate_to m f q s dials ≡ (
        ask_replication m q s.link >>= (λ (ok, l). if ok then hear_answer l else done l) >>= λ l.
        done (record s { link = l }, dials))
unfolding replicate_to
replicate_to-halves m f q s dials valid =
    then_of s.link.socket.valid _ _ valid
    ∙ ap (λ o. o >>= λ l. done (record s { link = l }, dials)) (start_replication-halves m q s.link)

-- The answer has been taken, and the socket is as before.
pub hear_answer-taken :
    (l : Link) (bytes : List ℕ) (left : List Chunk)
    → take_chunks l.recvs Order.size ≡ some (bytes, left)
    → hear_answer l ≡ done (record l { recvs = left })
unfolding hear_answer
hear_answer-taken l bytes left into = rw (recv-taken l Order.size bytes left into) refl
