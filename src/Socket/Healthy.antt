-- ===== src/Socket/Healthy.antt =====
-- A kernel that carries whole messages: what it answers while a message goes out or comes in, and
-- what it has left for the next.
use mathlib.Core.Option
use pa.Prelude.{
  ℕ, zero, suc, ◌-◌, ◌≤◌, ◌≡◌, refl, sym, ap, ◌∙◌, Bool, true, false, List, [], ◌∷◌, ◌++◌,
  append_assoc, append-nil, Option, none, some, length, length-append, length-drop,
  length-take_of_le, take, drop, take-append-drop, ltb, ltb→le, if◌then◌else◌, arith, ℤ, pos,
  negsuc,
}
use pa.Socket.{Chunk, got, failed, Link, done, send_loop, send, recv_loop, recv}
use pa.Socket.Receiving.{stream}

-- The answers that are left once `n` bytes have gone out without an error.
unfoldable pub take_sends : List ℤ → ℕ → Option (List ℤ)
take_sends results zero = some results
take_sends [] (suc n) = none
take_sends (negsuc e ∷ results) (suc n) = none
take_sends (pos k ∷ results) (suc n) =
    let rest = take_sends results (suc n - k) in if ltb (suc n) k then none else rest

-- `n` bytes that come in without an end of the stream, in pieces of which none goes beyond them, and
-- what is left behind them.
unfoldable pub take_chunks : List Chunk → ℕ → Option (List ℕ × List Chunk)
take_chunks results zero = some ([], results)
take_chunks [] (suc n) = none
take_chunks (failed ∷ results) (suc n) = none
take_chunks (got [] ∷ results) (suc n) = none
take_chunks (got (b ∷ bytes) ∷ results) (suc n) =
    let rest = take_chunks results (suc n - length (b ∷ bytes)) in
    let more = Option.map (λ r. ((b ∷ bytes) ++ r.0, r.1)) rest in
    if ltb (suc n) (length (b ∷ bytes)) then none else more

some_inj {ℓ} : {A : Type ℓ} {a b : A} → some a ≡ some b → a ≡ b
some_inj e = cc

-- A guarded result that is there: the guard holds.
unguarded {ℓ} :
    {A : Type ℓ} (over : Bool) (o : Option A) {a : A}
    → (if over then none else o) ≡ some a
    → (over ≡ false) × (o ≡ some a)
unguarded true o e = cc
unguarded false o e = (refl, e)

map-some {ℓ κ} :
    {A : Type ℓ} {B : Type κ} (f : A → B) (o : Option A) {b : B}
    → Option.map f o ≡ some b
    → (a : A) × (o ≡ some a) × (b ≡ f a)
map-some f none e = cc
map-some f (some a) e = (a, refl, sym (some_inj e))

send_loop-taken :
    (results left : List ℤ) (l : Link) (bytes : List ℕ)
    → take_sends results (length bytes) ≡ some left
    → send_loop results l bytes ≡ done (true, record l { sends = left; sent = l.sent ++ bytes })
unfolding take_sends send_loop
send_loop-taken results left l [] e = rw (some_inj e, append-nil l.sent) refl
send_loop-taken [] left l (b ∷ bytes) e = cc
send_loop-taken (negsuc n ∷ results) left l (b ∷ bytes) e = cc
send_loop-taken (pos n ∷ results) left l (b ∷ bytes) e =
    let (fit, goes) = unguarded (ltb (length (b ∷ bytes)) n) _ e in
    rw fit (
      send_loop-taken results left (record l { sent = l.sent ++ take n (b ∷ bytes) })
        (drop n (b ∷ bytes)) (rw (length-drop n (b ∷ bytes)) goes)
      ∙ ap (λ s. done (true, record l { sends = left; sent = s }))
          (append_assoc l.sent (take n (b ∷ bytes)) (drop n (b ∷ bytes))
            ∙ ap (◌++◌ l.sent) (take-append-drop n (b ∷ bytes))))

recv_loop-taken :
    (results left : List Chunk) (l : Link) (size : ℕ) (received front : List ℕ)
    → take_chunks results size ≡ some (front, left)
    → recv_loop results l size received ≡ done (true, received ++ front, record l { recvs = left })
unfolding take_chunks recv_loop
recv_loop-taken results left l zero received front e =
    let same = some_inj e in
    rw (← ap (λ r. r.0) same, ← ap (λ r. r.1) same, append-nil received) refl
recv_loop-taken [] left l (suc n) received front e = cc
recv_loop-taken (failed ∷ results) left l (suc n) received front e = cc
recv_loop-taken (got [] ∷ results) left l (suc n) received front e = cc
recv_loop-taken (got (b ∷ bytes) ∷ results) left l (suc n) received front e =
    let (fit, comes) = unguarded (ltb (suc n) (length (b ∷ bytes))) _ e in
    let (r, rest, same) =
      map-some (λ (r : List ℕ × List Chunk). ((b ∷ bytes) ++ r.0, r.1)) _ comes in
    rw (fit, ap (λ x. x.0) same, ap (λ x. x.1) same)
      (recv_loop-taken results r.1 l (suc n - length (b ∷ bytes)) (received ++ (b ∷ bytes)) r.0 rest
        ∙ ap (λ s. done (true, s, record l { recvs = r.1 }))
            (append_assoc received (b ∷ bytes) r.0))

-- The link behind a message that has gone out.
abbrev pub after_send : Link → List ℤ → List ℕ → Link
after_send l left bytes = record l { sends = left; sent = l.sent ++ bytes }

pub send-taken :
    (l : Link) (buf bytes : List ℕ) (size : ℕ) (left : List ℤ)
    → size ≤ length buf
    → take size buf ≡ bytes
    → take_sends l.sends size ≡ some left
    → send l buf size ≡ done (true, after_send l left bytes)
unfolding send
send-taken l buf bytes size left room front e = rw front (
    send_loop-taken l.sends left l bytes
      (rw (sym (ap length front) ∙ length-take_of_le size buf room) e))

pub recv-taken :
    (l : Link) (size : ℕ) (front : List ℕ) (left : List Chunk)
    → take_chunks l.recvs size ≡ some (front, left)
    → recv l size ≡ done (true, front, record l { recvs = left })
unfolding recv
recv-taken l size front left e = recv_loop-taken l.recvs left l size [] front e

-- What comes in is the front of the stream.
pub stream-taken :
    (results left : List Chunk) (size : ℕ) (front : List ℕ)
    → take_chunks results size ≡ some (front, left)
    → (length front ≡ size) × (stream results ≡ front ++ stream left)
unfolding take_chunks stream
stream-taken results left zero front e =
    let same = some_inj e in rw (← ap (λ r. r.0) same, ← ap (λ r. r.1) same) (refl, refl)
stream-taken [] left (suc n) front e = cc
stream-taken (failed ∷ results) left (suc n) front e = cc
stream-taken (got [] ∷ results) left (suc n) front e = cc
stream-taken (got (b ∷ bytes) ∷ results) left (suc n) front e =
    let (fit, comes) = unguarded (ltb (suc n) (length (b ∷ bytes))) _ e in
    let (r, rest, same) =
      map-some (λ (r : List ℕ × List Chunk). ((b ∷ bytes) ++ r.0, r.1)) _ comes in
    let (long, whole) = stream-taken results r.1 (suc n - length (b ∷ bytes)) r.0 rest in
    rw (ap (λ x. x.0) same, ap (λ x. x.1) same)
      (
        omega (arith, length-append (b ∷ bytes) r.0, long, ltb→le _ _ fit),
        ap (◌++◌ (b ∷ bytes)) whole ∙ sym (append_assoc (b ∷ bytes) r.0 (stream r.1)),
      )

-- The kernel carries a number of exchanges: `out` bytes go out, and `back` bytes come in.
pub data Carries (out back : ℕ) : List ℤ → List Chunk → List (List ℕ) → Type 0 where
  silent : {sends : List ℤ} {recvs : List Chunk} → Carries out back sends recvs []
  exchange :
      {sends sends' : List ℤ} {recvs recvs' : List Chunk} {answer : List ℕ}
      {answers : List (List ℕ)}
      → take_sends sends out ≡ some sends'
      → take_chunks recvs back ≡ some (answer, recvs')
      → Carries out back sends' recvs' answers
      → Carries out back sends recvs (answer ∷ answers)
