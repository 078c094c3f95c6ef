-- ===== src/Socket.antt =====
-- class Socket of Socket.h and Socket.cpp, with its two subclasses in ClientSocket.cpp and
-- ServerSocket.cpp. What the kernel answers to the calls on one descriptor is a list of results.
pub mod Healthy
pub mod Whenever
pub mod Parts
pub mod Sending
pub mod Receiving
pub mod Lifetime
use pa.Prelude.{
  ℕ, zero, suc, ◌-◌, Bool, true, false, not, List, [], ◌∷◌, ◌++◌, Option, none, some, length, take,
  drop, ltb, ◌==◌, if◌then◌else◌, ◌≡◌, refl, subst, ℤ, pos, negsuc, minus_one, is_nonneg,
}

-- `nagle_` holds NAGLE_ON, 0, or NAGLE_OFF, 1.
pub record Socket : Type 0 where
  pub fd : ℤ
  pub is_initialized : Bool
  pub valid : Bool
  pub nagle : ℕ

-- What one `recv` returned: bytes, none of them at the end of the stream, or an error.
pub data Chunk : Type 0 where
  got : List ℕ → Chunk
  failed : Chunk

-- A socket and its descriptor: the results of the next calls of `send` and `recv` on it, and the
-- bytes that the kernel has taken from it.
pub record Link : Type 0 where
  pub socket : Socket
  pub sends : List ℤ
  pub recvs : List Chunk
  pub sent : List ℕ

-- A call returns, waits for an answer of the kernel that is not there, or fails an `assert`.
pub data Outcome {ℓ} (A : Type ℓ) : Type ℓ where
  done : A → Outcome A
  blocked : Outcome A
  aborted : Outcome A

infixl 5 ◌>>=◌
abbrev pub ◌>>=◌ {ℓ κ} : {A : Type ℓ} {B : Type κ} → Outcome A → (A → Outcome B) → Outcome B
done a >>= f = f a
blocked >>= f = blocked
aborted >>= f = aborted

-- The call returns, and its result satisfies `P`.
abbrev pub Returns {ℓ} : {A : Type ℓ} → Outcome A → (A → Type 0) → Type 0
Returns (done a) P = P a
Returns blocked P = ⊥
Returns aborted P = ⊥

pub Returns-mono {ℓ} :
    {A : Type ℓ} {P Q : A → Type 0} (o : Outcome A)
    → Returns o P
    → ((a : A) → P a → Q a)
    → Returns o Q
Returns-mono (done a) h f = f a h
Returns-mono blocked h f = absurd h
Returns-mono aborted h f = absurd h

-- What a returned result satisfies.
pub Returns-done {ℓ} :
    {A : Type ℓ} (P : A → Type 0) (o : Outcome A) {a : A} → Returns o P → o ≡ done a → P a
Returns-done P o h e = subst (λ o. Returns o P) e h

pub Returns-bind {ℓ κ} :
    {A : Type ℓ} {B : Type κ} {P : A → Type 0} (Q : B → Type 0) (o : Outcome A) (f : A → Outcome B)
    → Returns o P
    → ((a : A) → P a → Returns (f a) Q)
    → Returns (o >>= f) Q
Returns-bind Q (done a) f h k = k a h
Returns-bind Q blocked f h k = absurd h
Returns-bind Q aborted f h k = absurd h

pub Returns-if {ℓ} :
    {A : Type ℓ} (Q : A → Type 0) (b : Bool) (x y : Outcome A)
    → (b ≡ true → Returns x Q)
    → (b ≡ false → Returns y Q)
    → Returns (if b then x else y) Q
Returns-if Q true x y hx hy = hx refl
Returns-if Q false x y hx hy = hy refl

-- Socket::Socket. The constructor sets no descriptor: `fd` holds what the memory held.
abbrev pub new : ℤ → Socket
new junk = record { fd = junk; is_initialized = false; valid = true; nagle = 0 }

-- Socket::Close
abbrev pub close : Socket → Socket
close s = record s { fd = minus_one; is_initialized = false }

-- Socket::~Socket
unfoldable pub destroy : Socket → Socket
destroy s = if s.is_initialized then close s else s

-- `valid = false; Close();`
abbrev pub give_up : Link → Link
give_up l = record l { socket = close (record l.socket { valid = false }) }

-- The loop of Socket::Send over the bytes that are left.
unfoldable pub send_loop : List ℤ → Link → List ℕ → Outcome (Bool × Link)
send_loop results l [] = done (true, record l { sends = results })
send_loop [] l (b ∷ bytes) = blocked
send_loop (negsuc n ∷ results) l (b ∷ bytes) = done (false, give_up (record l { sends = results }))
send_loop (pos n ∷ results) l (b ∷ bytes) =
    let rest =
      send_loop results (record l { sent = l.sent ++ take n (b ∷ bytes) }) (drop n (b ∷ bytes)) in
    if ltb (length (b ∷ bytes)) n then aborted else rest

-- Socket::Send
unfoldable pub send : Link → List ℕ → ℕ → Outcome (Bool × Link)
unfolding send_loop
send l buffer size = send_loop l.sends l (take size buffer)

-- The loop of Socket::Recv: what is still to come, and what has been written to the buffer.
unfoldable pub recv_loop : List Chunk → Link → ℕ → List ℕ → Outcome (Bool × List ℕ × Link)
recv_loop results l zero received = done (true, received, record l { recvs = results })
recv_loop [] l (suc size) received = blocked
recv_loop (failed ∷ results) l (suc size) received =
    done (false, received, give_up (record l { recvs = results }))
recv_loop (got [] ∷ results) l (suc size) received =
    done (false, received, give_up (record l { recvs = results }))
recv_loop (got (b ∷ bytes) ∷ results) l (suc size) received =
    let rest = recv_loop results l (suc size - length (b ∷ bytes)) (received ++ (b ∷ bytes)) in
    if ltb (suc size) (length (b ∷ bytes)) then aborted else rest

-- Socket::Recv: whether it returned 1, and the bytes at the front of the buffer.
unfoldable pub recv : Link → ℕ → Outcome (Bool × List ℕ × Link)
unfolding recv_loop
recv l size = recv_loop l.recvs l size []

-- Socket::NagleOn, given the result of `setsockopt`.
unfoldable pub nagle_on : Socket → Bool → (setsockopt : ℤ) → Bool × Socket
nagle_on s0 on_off setsockopt =
    let s = record s0 { nagle = if on_off then 0 else 1 } in
    if is_nonneg setsockopt then (true, s) else (false, record s { valid = false; fd = minus_one })

-- Socket::IsNagleOn
abbrev pub is_nagle_on : Socket → Bool
is_nagle_on s = s.nagle == 0

-- ClientSocket::Init, given the results of `socket` and `connect`.
unfoldable pub connect : Socket → (fd result : ℤ) → Bool × Socket
connect s0 fd result =
    if s0.is_initialized
    then (false, s0)
    else let s = record s0 { fd = fd } in
      if not (is_nonneg fd)
      then (false, s)
      else if not (is_nonneg result)
      then (false, record s { valid = false })
      else (true, record s { is_initialized = true })

-- ServerSocket::Init, given the results of `socket` and `bind`.
unfoldable pub listen : Socket → (fd result : ℤ) → Bool × Socket
listen s0 fd result =
    if s0.is_initialized
    then (true, s0)
    else let s = record s0 { fd = fd } in
      if not (is_nonneg fd)
      then (false, s)
      else if not (is_nonneg result)
      then (false, s)
      else (true, record s { is_initialized = true })

-- ServerSocket::ServerSocket(int, bool)
unfoldable pub adopt : ℤ → Bool → (setsockopt : ℤ) → Socket
unfolding nagle_on
adopt fd on setsockopt =
    (nagle_on (record { fd = fd; is_initialized = true; valid = true; nagle = 0 }) on setsockopt).1

-- ServerSocket::Accept, given the results of `accept` and `setsockopt`.
unfoldable pub accept : Socket → (fd setsockopt : ℤ) → Option Socket
unfolding adopt
accept s fd setsockopt = if is_nonneg fd then some (adopt fd (is_nagle_on s) setsockopt) else none
