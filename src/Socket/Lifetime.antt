-- ===== src/Socket/Lifetime.antt =====
-- The flags of a client's socket over its life.
use pa.Prelude.{
  ℕ, zero, suc, ◌≡◌, Bool, false, List, [], ◌∷◌, ◌++◌, take, drop, length, arith, ℤ, pos, negsuc,
  ◌-◌,
}
use pa.Socket.{
  Socket, Chunk, got, failed, Link, done, close, connect, nagle_on, send_loop, send, recv_loop,
  recv,
}

-- One operation on a socket that is over.
pub data Move (l : Link) : Link → Type 0 where
  connects :
      (fd result : ℤ) (answers : List ℤ) (arrivals : List Chunk)
      → Move l (record {
        socket = (connect l.socket fd result).1;
        sends = answers;
        recvs = arrivals;
        sent = [];
      })
  sends :
      (buffer : List ℕ) (size : ℕ) {ok : Bool} {l' : Link}
      → send l buffer size ≡ done (ok, l')
      → Move l l'
  receives :
      (size : ℕ) {ok : Bool} {bytes : List ℕ} {l' : Link}
      → recv l size ≡ done (ok, bytes, l')
      → Move l l'
  closes : Move l (record l { socket = close l.socket })
  sets_nagle :
      (on_off : Bool) (setsockopt : ℤ)
      → Move l (record l { socket = (nagle_on l.socket on_off setsockopt).1 })

pub data Reach (l : Link) : Link → Type 0 where
  here : Reach l l
  next : {l1 l2 : Link} → Reach l l1 → Move l1 l2 → Reach l l2

send_loop-invalid :
    (results : List ℤ) (l : Link) (bytes : List ℕ) (ok : Bool) (l' : Link)
    → send_loop results l bytes ≡ done (ok, l')
    → l.socket.valid ≡ false
    → l'.socket.valid ≡ false
unfolding send_loop
send_loop-invalid results l [] ok l' e h = ground arith
send_loop-invalid [] l (b ∷ bytes) ok l' e h = cc
send_loop-invalid (negsuc n ∷ results) l (b ∷ bytes) ok l' e h = ground arith
send_loop-invalid (pos n ∷ results) l (b ∷ bytes) ok l' e h = ground (
  arith,
  send_loop-invalid results (record l { sent = l.sent ++ take n (b ∷ bytes) }) (drop n (b ∷ bytes))
      ok l',
)

recv_loop-invalid :
    (results : List Chunk) (l : Link) (size : ℕ) (received : List ℕ) (ok : Bool) (bytes : List ℕ)
    (l' : Link)
    → recv_loop results l size received ≡ done (ok, bytes, l')
    → l.socket.valid ≡ false
    → l'.socket.valid ≡ false
unfolding recv_loop
recv_loop-invalid results l zero received ok bytes l' e h = ground arith
recv_loop-invalid [] l (suc n) received ok bytes l' e h = cc
recv_loop-invalid (failed ∷ results) l (suc n) received ok bytes l' e h = ground arith
recv_loop-invalid (got [] ∷ results) l (suc n) received ok bytes l' e h = ground arith
recv_loop-invalid (got (b ∷ more) ∷ results) l (suc n) received ok bytes l' e h = ground (
  arith,
  recv_loop-invalid results l (suc n - length (b ∷ more)) (received ++ (b ∷ more)) ok bytes l',
)

pub connect-invalid :
    (s : Socket) (fd result : ℤ) → s.valid ≡ false → (connect s fd result).1.valid ≡ false
unfolding connect
connect-invalid s fd result h = ground arith

Move-invalid : {l l' : Link} → Move l l' → l.socket.valid ≡ false → l'.socket.valid ≡ false
unfolding send recv nagle_on
Move-invalid {l} (connects fd result answers arrivals) h = connect-invalid l.socket fd result h
Move-invalid {l} (sends buffer size {ok} {l'} e) h =
    send_loop-invalid l.sends l (take size buffer) ok l' e h
Move-invalid {l} (receives size {ok} {bytes} {l'} e) h =
    recv_loop-invalid l.recvs l size [] ok bytes l' e h
Move-invalid closes h = h
Move-invalid (sets_nagle on_off setsockopt) h = ground arith

-- A socket that is not valid never becomes valid again, whatever is done with it.
pub invalid_forever : {l l' : Link} → Reach l l' → l.socket.valid ≡ false → l'.socket.valid ≡ false
invalid_forever here h = h
invalid_forever (next r m) h = Move-invalid m (invalid_forever r h)
