-- ===== src/Socket/Sending.antt =====
-- What `Socket::Send` hands to the kernel.
use pa.Prelude.{
  ℕ, zero, suc, ◌+◌, ◌-◌, ◌≤◌, ◌<◌, ◌≡◌, refl, sym, ap, ◌∙◌, Bool, true, false, List, [], ◌∷◌, ◌++◌,
  append_assoc, append-nil, length, take, drop, length-drop, length-take_of_le, take-append-drop,
  take-add, ltb, Bool-cases, ltb→lt, inl, inr, arith, ℤ, pos, negsuc, minus_one,
}
use pa.Socket.{Link, send_loop, send, Returns, Returns-mono}

-- As documented, `send` of `n` bytes returns an error or takes at least one byte and at most `n`.
abbrev pub SendsDocumented : List ℤ → ℕ → Type 0
SendsDocumented results zero = Unit {0}
SendsDocumented [] (suc n) = Unit {0}
SendsDocumented (negsuc e ∷ results) (suc n) = Unit {0}
SendsDocumented (pos k ∷ results) (suc n) =
    (1 ≤ k) × (k ≤ suc n) × SendsDocumented results (suc n - k)

-- 1 means that every byte went out and the socket is as before; 0, that only a proper prefix did and
-- that the socket is closed and invalid.
abbrev pub SendResult : Link → List ℕ → Bool × Link → Type 0
SendResult l bytes (true, l') =
    (l'.sent ≡ l.sent ++ bytes) × (l'.socket ≡ l.socket) × (l'.recvs ≡ l.recvs)
SendResult l bytes (false, l') =
    (l'.socket.valid ≡ false)
    × (l'.socket.fd ≡ minus_one)
    × (l'.socket.is_initialized ≡ false)
    × ((k : ℕ) × (k < length bytes) × (l'.sent ≡ l.sent ++ take k bytes))

-- One `send` of `n` bytes, and then the loop over the others.
SendResult-step :
    (l : Link) (n : ℕ) (bytes : List ℕ) (r : Bool × Link)
    → 1 ≤ n
    → n ≤ length bytes
    → SendResult (record l { sent = l.sent ++ take n bytes }) (drop n bytes) r
    → SendResult l bytes r
SendResult-step l n bytes (true, l') some fit (sent, same, kept) = (
  sent
      ∙ append_assoc l.sent (take n bytes) (drop n bytes)
      ∙ ap (◌++◌ l.sent) (take-append-drop n bytes),
  same,
  kept,
)
SendResult-step l n bytes (false, l') some fit h =
    let (k, proper, sent) = h.3 in
    (
      h.0,
      h.1,
      h.2,
      (
        n + k,
        omega (arith, length-drop n bytes),
        sent
            ∙ append_assoc l.sent (take n bytes) (take k (drop n bytes))
            ∙ ap (◌++◌ l.sent) (take-add n k bytes),
      ),
    )

send_loop-SendResult :
    (results : List ℤ) (l : Link) (bytes : List ℕ)
    → SendsDocumented results (length bytes)
    → length bytes ≤ length results
    → Returns (send_loop results l bytes) (SendResult l bytes)
unfolding send_loop
send_loop-SendResult results l [] h enough = (sym (append-nil l.sent), refl, refl)
send_loop-SendResult [] l (b ∷ bytes) h enough = absurd (omega arith)
send_loop-SendResult (negsuc n ∷ results) l (b ∷ bytes) h enough =
    (refl, refl, refl, (0, omega arith, sym (append-nil l.sent)))
send_loop-SendResult (pos n ∷ results) l (b ∷ bytes) h enough =
    elim (Bool-cases (ltb (length (b ∷ bytes)) n)) [
      | inl over ↦ absurd (omega (arith, ltb→lt _ _ over))
      | inr fit ↦ rw fit (
          Returns-mono (send_loop results l1 rest)
            (send_loop-SendResult results l1 rest later (omega (arith, length-drop n (b ∷ bytes))))
            (λ r. SendResult-step l n (b ∷ bytes) r h.0 h.1))
    ]
  where
    l1 : Link
    l1 = record l { sent = l.sent ++ take n (b ∷ bytes) }

    rest : List ℕ
    rest = drop n (b ∷ bytes)

    later : SendsDocumented results (length rest)
    later = rw (length-drop n (b ∷ bytes)) h.2

-- `Send` of the `size` bytes at the front of a buffer that holds them returns, if the kernel gives
-- `size` answers as documented. With success it has sent exactly these bytes and kept the socket; with
-- failure the socket is closed and invalid, and only a part from the front went out.
pub send-SendResult :
    (l : Link) (buffer : List ℕ) (size : ℕ)
    → size ≤ length buffer
    → SendsDocumented l.sends size
    → size ≤ length l.sends
    → Returns (send l buffer size) (SendResult l (take size buffer))
unfolding send
send-SendResult l buffer size room h enough =
    send_loop-SendResult l.sends l (take size buffer) (rw e h) (omega (arith, e))
  where
    e : length (take size buffer) ≡ size
    e = length-take_of_le size buffer room
