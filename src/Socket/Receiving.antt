-- ===== src/Socket/Receiving.antt =====
-- `Socket::Recv` against the byte stream that arrives, however the kernel cuts it into pieces.
use pa.Prelude.{
  ℕ, zero, suc, ◌-◌, ◌≤◌, ◌<◌, ◌≡◌, refl, sym, ap, ◌∙◌, ◌⊎◌, Bool, true, false, List, [], ◌∷◌, ◌++◌,
  append_assoc, append-nil, ◌+◌, take-append, drop-append, length, length-append, take, drop,
  take-append_of_le, drop-append_of_le, ltb, Bool-cases, ltb→lt, inl, inr, arith, minus_one,
}
use pa.Socket.{Chunk, got, failed, Link, recv_loop, recv, Returns, Returns-mono}

-- The bytes that arrive until the stream ends or fails.
unfoldable pub stream : List Chunk → List ℕ
stream [] = []
stream (failed ∷ results) = []
stream (got [] ∷ results) = []
stream (got (b ∷ bytes) ∷ results) = (b ∷ bytes) ++ stream results

-- The results tell of an end or an error.
abbrev pub Ends : List Chunk → Type 0
Ends [] = ⊥
Ends (failed ∷ results) = Unit
Ends (got [] ∷ results) = Unit
Ends (got (b ∷ bytes) ∷ results) = Ends results

-- As documented, `recv` returns at most the bytes that it is asked for.
abbrev pub RecvsDocumented : List Chunk → ℕ → Type 0
RecvsDocumented results zero = Unit {0}
RecvsDocumented [] (suc n) = Unit
RecvsDocumented (failed ∷ results) (suc n) = Unit
RecvsDocumented (got [] ∷ results) (suc n) = Unit
RecvsDocumented (got (b ∷ bytes) ∷ results) (suc n) =
    (length (b ∷ bytes) ≤ suc n) × RecvsDocumented results (suc n - length (b ∷ bytes))

-- 1 means that the buffer holds the next `size` bytes of the stream and nothing more was taken from
-- it; 0, that the stream ended before and that the socket is closed and invalid.
abbrev RunResult : List Chunk → Link → ℕ → List ℕ → Bool × List ℕ × Link → Type 0
RunResult results l size received (true, bytes, l') =
    (size ≤ length (stream results))
    × (bytes ≡ received ++ take size (stream results))
    × (stream l'.recvs ≡ drop size (stream results))
    × (l'.socket ≡ l.socket)
    × (l'.sent ≡ l.sent)
    × (l'.sends ≡ l.sends)
RunResult results l size received (false, bytes, l') =
    (length (stream results) < size)
    × (bytes ≡ received ++ stream results)
    × (l'.socket.valid ≡ false)
    × (l'.socket.fd ≡ minus_one)
    × (l'.socket.is_initialized ≡ false)
    × (l'.sent ≡ l.sent)

abbrev pub RecvResult : Link → ℕ → Bool × List ℕ × Link → Type 0
RecvResult l size (true, bytes, l') =
    (size ≤ length (stream l.recvs))
    × (bytes ≡ take size (stream l.recvs))
    × (stream l'.recvs ≡ drop size (stream l.recvs))
    × (l'.socket ≡ l.socket)
    × (l'.sent ≡ l.sent)
    × (l'.sends ≡ l.sends)
RecvResult l size (false, bytes, l') =
    (length (stream l.recvs) < size)
    × (bytes ≡ stream l.recvs)
    × (l'.socket.valid ≡ false)
    × (l'.socket.fd ≡ minus_one)
    × (l'.socket.is_initialized ≡ false)
    × (l'.sent ≡ l.sent)

RunResult-step :
    (results : List Chunk) (l : Link) (size b : ℕ) (bytes received : List ℕ)
    (r : Bool × List ℕ × Link)
    → length (b ∷ bytes) ≤ size
    → RunResult results l (size - length (b ∷ bytes)) (received ++ (b ∷ bytes)) r
    → RunResult (got (b ∷ bytes) ∷ results) l size received r
unfolding stream
RunResult-step results l size b bytes received (true, front, l') fit h = (
  omega (arith, length-append (b ∷ bytes) (stream results), h.0),
  h.1
      ∙ append_assoc received (b ∷ bytes) _
      ∙ ap (◌++◌ received) (sym (take-append_of_le size (b ∷ bytes) (stream results) fit)),
  h.2 ∙ sym (drop-append_of_le size (b ∷ bytes) (stream results) fit),
  h.3,
  h.4,
  h.5,
)
RunResult-step results l size b bytes received (false, front, l') fit h = (
  omega (arith, length-append (b ∷ bytes) (stream results), h.0),
  h.1 ∙ append_assoc received (b ∷ bytes) (stream results),
  h.2,
  h.3,
  h.4,
  h.5,
)

recv_loop-RunResult :
    (results : List Chunk) (l : Link) (size : ℕ) (received : List ℕ)
    → RecvsDocumented results size
    → (size ≤ length (stream results)) ⊎ Ends results
    → Returns (recv_loop results l size received) (RunResult results l size received)
unfolding recv_loop stream
recv_loop-RunResult results l zero received h e =
    (omega arith, sym (append-nil received), refl, refl, refl, refl)
recv_loop-RunResult [] l (suc n) received h e = absurd (omega arith)
recv_loop-RunResult (failed ∷ results) l (suc n) received h e =
    (omega arith, sym (append-nil received), refl, refl, refl, refl)
recv_loop-RunResult (got [] ∷ results) l (suc n) received h e =
    (omega arith, sym (append-nil received), refl, refl, refl, refl)
recv_loop-RunResult (got (b ∷ bytes) ∷ results) l (suc n) received h e =
    elim (Bool-cases (ltb (suc n) (length (b ∷ bytes)))) [
      | inl over ↦ absurd (omega (arith, ltb→lt _ _ over))
      | inr fit ↦ rw fit (
          Returns-mono (recv_loop results l left more)
            (recv_loop-RunResult results l left more h.1 (rest_of e))
            (λ r. RunResult-step results l (suc n) b bytes received r h.0))
    ]
  where
    left : ℕ
    left = suc n - length (b ∷ bytes)

    more : List ℕ
    more = received ++ (b ∷ bytes)

    rest_of :
        (suc n ≤ length ((b ∷ bytes) ++ stream results)) ⊎ Ends results
        → (left ≤ length (stream results)) ⊎ Ends results
    rest_of (inl p) = inl (omega (arith, length-append (b ∷ bytes) (stream results)))
    rest_of (inr q) = inr q

-- `Recv` of `size` bytes returns, if the kernel answers as documented and brings that many bytes or
-- an end of the stream. With success it has taken exactly the first `size` bytes that arrive, in
-- whatever pieces, and kept the socket; with failure the socket is closed and invalid and fewer bytes
-- than `size` came.
pub recv-RecvResult :
    (l : Link) (size : ℕ)
    → RecvsDocumented l.recvs size
    → (size ≤ length (stream l.recvs)) ⊎ Ends l.recvs
    → Returns (recv l size) (RecvResult l size)
unfolding recv
recv-RecvResult l size h e =
    Returns-mono (recv_loop l.recvs l size []) (recv_loop-RunResult l.recvs l size [] h e) plain
  where
    plain : (r : Bool × List ℕ × Link) → RunResult l.recvs l size [] r → RecvResult l size r
    plain (true, bytes, l') p = p
    plain (false, bytes, l') p = p

-- The call took `front` from the head of the stream.
abbrev pub Took : Link → List ℕ → List ℕ → Bool × List ℕ × Link → Type 0
Took l front rest (ok, bytes, l') =
    (ok ≡ true)
    × (bytes ≡ front)
    × (stream l'.recvs ≡ rest)
    × (l'.socket ≡ l.socket)
    × (l'.sent ≡ l.sent)
    × (l'.sends ≡ l.sends)

-- The call found the stream at an end, and the socket is closed.
abbrev pub Lost : Link → Bool × List ℕ × Link → Type 0
Lost l (ok, bytes, l') =
    (ok ≡ false)
    × (l'.socket.valid ≡ false)
    × (l'.socket.is_initialized ≡ false)
    × (l'.sent ≡ l.sent)

pub recv-Took :
    (l : Link) (size : ℕ) (front rest : List ℕ)
    → length front ≡ size
    → stream l.recvs ≡ front ++ rest
    → RecvsDocumented l.recvs size
    → Returns (recv l size) (Took l front rest)
recv-Took l size front rest long e h =
    Returns-mono (recv l size) (recv-RecvResult l size h (inl enough)) took
  where
    total : length (stream l.recvs) ≡ size + length rest
    total = ap length e ∙ length-append front rest ∙ ap (λ k. k + length rest) long

    enough : size ≤ length (stream l.recvs)
    enough = omega (arith, total)

    front_of : take size (stream l.recvs) ≡ front
    front_of = rw (e, ← long) (take-append front rest)

    rest_of : drop size (stream l.recvs) ≡ rest
    rest_of = rw (e, ← long) (drop-append front rest)

    took : (r : Bool × List ℕ × Link) → RecvResult l size r → Took l front rest r
    took (true, bytes, l') p = (refl, p.1 ∙ front_of, p.2 ∙ rest_of, p.3, p.4, p.5)
    took (false, bytes, l') p = absurd (omega (arith, enough, p.0))

pub recv-Lost :
    (l : Link) (size : ℕ)
    → RecvsDocumented l.recvs size
    → Ends l.recvs
    → length (stream l.recvs) < size
    → Returns (recv l size) (Lost l)
recv-Lost l size h e short = Returns-mono (recv l size) (recv-RecvResult l size h (inr e)) lost
  where
    lost : (r : Bool × List ℕ × Link) → RecvResult l size r → Lost l r
    lost (true, bytes, l') p = absurd (omega (arith, p.0))
    lost (false, bytes, l') p = (refl, p.2, p.4, p.5)
