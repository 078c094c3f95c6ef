-- ===== src/Factory/Replication.antt =====
-- The primary's side: what `startReplication` does with every stub, and one round of the admin.
use mathlib.Core.Bool.{false≢true}
use pa.Prelude.{
  suc, ◌≤◌, ◌≡◌, refl, sym, ◌∙◌, ◌⊎◌, ◌≢◌, inl, inr, true, false, not, ◌||◌, Bool-cases, List, [],
  ◌∷◌, length, arith, minus_one, eq_int, eq_int_iff,
}
use pa.Machine.{Machine}
use pa.Messages.Order
use pa.Messages.Request
use pa.Messages.Request.{ReplicationRequest}
use pa.Storage.{place_order, get_idx}
use pa.Socket.{Link, Returns, Returns-bind, Returns-if}
use pa.Socket.Lifetime.{connect-invalid}
use pa.Stub.Client.{ClientStub, Dial, dial_socket, reconnect, start_replication}
use pa.Stub.Exchanges.{CanSend, CanRecv, Replicated, start_replication-Replicated}
use pa.Factory.{LaptopFactory, AdminRequest, request_for, replicate_to, replicate_all, admin_order}

dial_socket-invalid :
    (l : Link) (dials : List Dial)
    → l.socket.valid ≡ false
    → 1 ≤ length dials
    → Returns
        (dial_socket l dials)
        (λ r. (r.1.socket.valid ≡ false) × (length dials ≤ suc (length r.2)))
unfolding dial_socket
dial_socket-invalid l [] h some = absurd (omega arith)
dial_socket-invalid l (d ∷ dials) h some = elim (Bool-cases l.socket.is_initialized) [
  | inl t ↦ rw (t, dial_socket) (h, omega arith)
  | inr t ↦ rw (t, dial_socket) (connect-invalid l.socket d.fd d.result h, omega arith)
]

-- A stub that has lost its socket does not get it back: whatever its attempt to connect gives,
-- `Reconnect` returns with the stub invalid, after at most one attempt.
pub reconnect-invalid :
    (s : ClientStub) (dials : List Dial)
    → s.link.socket.valid ≡ false
    → 1 ≤ length dials
    → Returns
        (reconnect s dials)
        (λ r. (r.1.link.socket.valid ≡ false) × (length dials ≤ suc (length r.2)))
unfolding reconnect
reconnect-invalid s dials h some =
    Returns-bind _ (dial_socket s.link dials) _ (dial_socket-invalid s.link dials h some)
      (λ (ok, l, rest) p. p)

-- The kernel will answer what sending a request to the stub's peer and waiting for it may take.
pub record Ready (s : ClientStub) : Type 0 where
  pub sending : CanSend s.link Request.size
  pub receiving : CanRecv s.link Order.size

-- A valid stub has sent the request or has lost its socket; an invalid one is still invalid.
abbrev pub StubResult : ReplicationRequest → ClientStub → ClientStub → Type 0
StubResult q s s' =
    ((s.link.socket.valid ≡ true) × Replicated q s.link s'.link)
    ⊎ ((s.link.socket.valid ≡ false) × (s'.link.socket.valid ≡ false))

pub replicate_to-StubResult :
    (m : Machine) (f : LaptopFactory) (q : ReplicationRequest) (s : ClientStub) (dials : List Dial)
    → Ready s
    → 1 ≤ length dials
    → Returns
        (replicate_to m f q s dials)
        (λ r. StubResult q s r.0 × (length dials ≤ suc (length r.1)))
unfolding replicate_to
replicate_to-StubResult m f q s dials ready some =
    Returns-if _ s.link.socket.valid _ _
      (λ t.
        Returns-bind _ (start_replication m q s.link) _
          (start_replication-Replicated m q s.link ready.sending ready.receiving)
          (λ l h. (inl (t, h), omega arith)))
      (λ t.
        Returns-bind _ (reconnect s dials) _ (reconnect-invalid s dials t some) (λ (ok, s1, rest) h.
          Returns-if _ s1.link.socket.valid _ _ (λ v. absurd (false≢true (sym h.0 ∙ v)))
            (λ v. (inr (t, v), h.1))))

-- Every stub of the first list is `Ready`.
abbrev pub AllReady : List ClientStub → Type 0
AllReady [] = Unit
AllReady (s ∷ stubs) = Ready s × AllReady stubs

-- Stub by stub, the results of one request.
abbrev pub AllResults : ReplicationRequest → List ClientStub → List ClientStub → Type 0
AllResults q [] [] = Unit
AllResults q [] (s' ∷ stubs') = ⊥
AllResults q (s ∷ stubs) [] = ⊥
AllResults q (s ∷ stubs) (s' ∷ stubs') = StubResult q s s' × AllResults q stubs stubs'

-- With documented answers of the kernel and an attempt to connect for each stub, replication returns:
-- each stub that is connected has sent the request or has lost its socket, whatever became of the
-- others, and each stub that is not connected stays invalid.
pub replicate_all-AllResults :
    (m : Machine) (f : LaptopFactory) (q : ReplicationRequest) (stubs : List ClientStub)
    (dials : List Dial)
    → AllReady stubs
    → length stubs ≤ length dials
    → Returns (replicate_all m f q stubs dials) (λ r. AllResults q stubs r.0)
unfolding replicate_all
replicate_all-AllResults m f q [] dials ready enough = tt
replicate_all-AllResults m f q (s ∷ stubs) dials ready enough =
    Returns-bind _ (replicate_to m f q s dials) _
      (replicate_to-StubResult m f q s dials ready.0 (omega arith))
      (λ (s1, rest) h.
        Returns-bind _ (replicate_all m f q stubs rest) _
          (replicate_all-AllResults m f q stubs rest ready.1 (omega (arith, h.1)))
          (λ (stubs1, rest1) k. (h.0, k)))

-- The factory is its own primary.
pub record IsPrimary (f : LaptopFactory) : Type 0 where
  pub named : f.primary_id ≡ f.factory_id
  pub known : f.primary_id ≢ minus_one

-- The request that a primary sends for an order.
abbrev pub next_request : Machine → LaptopFactory → AdminRequest → ReplicationRequest
next_request m f req = request_for m (record f { last_index = get_idx f.server_storage }) req.ops

-- What an order leaves behind in a factory that is primary.
pub record Placed (m : Machine) (f : LaptopFactory) (req : AdminRequest) (f' : LaptopFactory)
    : Type 0 where
  pub stored : f'.server_storage ≡ place_order f.server_storage req.ops.arg1 req.ops.arg2
  pub last : f'.last_index ≡ get_idx f.server_storage
  pub committed : f'.committed_index ≡ get_idx f.server_storage
  pub told : f'.fulfilled ≡ (req.promise, req.customer) ∷ f.fulfilled
  pub queue : f'.erq ≡ f.erq
  pub primary : IsPrimary f'
  pub replicated : AllResults (next_request m f req) f.stubs f'.stubs

pub follows_of_IsPrimary :
    (f : LaptopFactory)
    → IsPrimary f
    → (not (eq_int f.factory_id f.primary_id) || eq_int f.primary_id minus_one) ≡ false
follows_of_IsPrimary f p = ground (
  arith,
  p.named,
  p.known,
  eq_int_iff f.factory_id f.primary_id,
  eq_int_iff f.primary_id minus_one,
)

-- A primary whose stubs the kernel serves as documented places an order: the admin returns, and the
-- order is in the storage, both indices are the index of the last entry before it, the engineer's
-- promise has its value, the queue is as it was and every valid stub has sent the request or has lost
-- its socket.
pub admin_order-Placed :
    (m : Machine) (f : LaptopFactory) (req : AdminRequest) (dials : List Dial)
    → IsPrimary f
    → AllReady f.stubs
    → length f.stubs ≤ length dials
    → Returns (admin_order m f req dials) (λ r. Placed m f req r.0)
unfolding admin_order
admin_order-Placed m f req dials p ready enough = rw (follows_of_IsPrimary f p) (
    Returns-bind _ (replicate_all m _ (next_request m f req) f.stubs dials) _
      (replicate_all-AllResults m _ (next_request m f req) f.stubs dials ready enough)
      (λ (stubs, rest) h. record {
        stored = refl;
        last = refl;
        committed = refl;
        told = refl;
        queue = refl;
        primary = record { named = p.named; known = p.known };
        replicated = h;
      }))
