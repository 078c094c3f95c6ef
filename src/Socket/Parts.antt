-- ===== src/Socket/Parts.antt =====
-- What a call of `Send` or `Recv` has done if it returns, whatever the kernel answers.
use pa.Prelude.{
  ℕ, zero, suc, ◌-◌, ◌≡◌, refl, sym, ap, ◌∙◌, Bool, true, false, List, [], ◌∷◌, ◌++◌, append_assoc,
  append-nil, length, take, drop, take-append-drop, ltb, ℤ, pos, negsuc,
}
use pa.Socket.{Chunk, got, failed, Link, send_loop, send, recv_loop, recv}
use pa.Socket.Whenever.{Whenever, Whenever-mono, Whenever-if}

-- A front of the bytes went out: all of them over a socket as before, or the socket was lost.
pub record SentPart (l : Link) (bytes : List ℕ) (r : Bool × Link) : Type 0 where
  pub front : List ℕ
  pub tail : List ℕ
  pub parts : front ++ tail ≡ bytes
  pub sent : r.1.sent ≡ l.sent ++ front
  pub all_out : r.0 ≡ true → (tail ≡ []) × (r.1.socket ≡ l.socket)
  pub lost : r.0 ≡ false → r.1.socket.valid ≡ false

SentPart-step :
    (l : Link) (n : ℕ) (bytes : List ℕ) (r : Bool × Link)
    → SentPart (record l { sent = l.sent ++ take n bytes }) (drop n bytes) r
    → SentPart l bytes r
SentPart-step l n bytes r p = record {
  front = take n bytes ++ p.front;
  tail = p.tail;
  parts =
      append_assoc (take n bytes) p.front p.tail
      ∙ ap (◌++◌ (take n bytes)) p.parts
      ∙ take-append-drop n bytes;
  sent = p.sent ∙ append_assoc l.sent (take n bytes) p.front;
  all_out = p.all_out;
  lost = p.lost;
}

send_loop-SentPart :
    (results : List ℤ) (l : Link) (bytes : List ℕ)
    → Whenever (send_loop results l bytes) (SentPart l bytes)
unfolding send_loop
send_loop-SentPart results l [] = record {
  front = [];
  tail = [];
  parts = refl;
  sent = sym (append-nil l.sent);
  all_out = λ t. (refl, refl);
  lost = λ t. cc;
}
send_loop-SentPart [] l (b ∷ bytes) = tt
send_loop-SentPart (negsuc n ∷ results) l (b ∷ bytes) = record {
  front = [];
  tail = b ∷ bytes;
  parts = refl;
  sent = sym (append-nil l.sent);
  all_out = λ t. absurd (cc);
  lost = λ t. refl;
}
send_loop-SentPart (pos n ∷ results) l (b ∷ bytes) =
    Whenever-if _ (ltb (length (b ∷ bytes)) n) _ _ (λ t. tt)
      (λ t.
        Whenever-mono
          (send_loop results (record l { sent = l.sent ++ take n (b ∷ bytes) })
            (drop n (b ∷ bytes)))
          (send_loop-SentPart results (record l { sent = l.sent ++ take n (b ∷ bytes) })
            (drop n (b ∷ bytes)))
          (λ r p. SentPart-step l n (b ∷ bytes) r p))

pub send-SentPart :
    (l : Link) (buffer : List ℕ) (size : ℕ)
    → Whenever (send l buffer size) (SentPart l (take size buffer))
unfolding send
send-SentPart l buffer size = send_loop-SentPart l.sends l (take size buffer)

-- A receive sends nothing, and loses the socket if it fails.
pub record Received (l : Link) (r : Bool × List ℕ × Link) : Type 0 where
  pub sent : r.2.sent ≡ l.sent
  pub kept : r.0 ≡ true → r.2.socket ≡ l.socket
  pub lost : r.0 ≡ false → r.2.socket.valid ≡ false

recv_loop-Received :
    (results : List Chunk) (l : Link) (size : ℕ) (received : List ℕ)
    → Whenever (recv_loop results l size received) (Received l)
unfolding recv_loop
recv_loop-Received results l zero received = record {
  sent = refl;
  kept = λ t. refl;
  lost = λ t. cc;
}
recv_loop-Received [] l (suc size) received = tt
recv_loop-Received (failed ∷ results) l (suc size) received = record {
  sent = refl;
  kept = λ t. cc;
  lost = λ t. refl;
}
recv_loop-Received (got [] ∷ results) l (suc size) received = record {
  sent = refl;
  kept = λ t. cc;
  lost = λ t. refl;
}
recv_loop-Received (got (b ∷ bytes) ∷ results) l (suc size) received =
    Whenever-if _ (ltb (suc size) (length (b ∷ bytes))) _ _ (λ t. tt)
      (λ t. recv_loop-Received results l (suc size - length (b ∷ bytes)) (received ++ (b ∷ bytes)))

pub recv-Received : (l : Link) (size : ℕ) → Whenever (recv l size) (Received l)
unfolding recv
recv-Received l size = recv_loop-Received l.recvs l size []
