-- ===== src/Factory/Rounds.antt =====
-- A primary that works through its queue while the kernel carries its requests to every stub.
use mathlib.Core.Bool.{false≢true}
use pa.Prelude.{
  ℕ, zero, suc, ◌≡◌, refl, sym, ap, ◌∙◌, subst, true, List, [], ◌∷◌, ◌++◌, append_assoc, append-nil,
  All, length, arith, pos, eq_int_iff,
}
use pa.Machine.{Machine}
use pa.Messages.Fields.{encode}
use pa.Messages.Order
use pa.Messages.Request
use pa.Messages.Request.{ReplicationRequest}
use pa.Messages.RoundTrip.{request_fields}
use pa.Storage.{place_order, get_idx}
use pa.Socket.{Outcome, done, ◌>>=◌, Returns, Returns-bind, Returns-if, Returns-mono}
use pa.Socket.Healthy.{Carries, exchange}
use pa.Stub.Client.{ClientStub, Dial}
use pa.Stub.Healthy.{start_replication-taken}
use pa.Factory.{LaptopFactory, AdminRequest, replicate_to, replicate_all, admin_order, admin_round}
use pa.Factory.Replication.{IsPrimary, next_request, follows_of_IsPrimary}

-- A connected stub on which the kernel carries `n` more requests with their answers.
pub record Carrying (n : ℕ) (s : ClientStub) : Type 0 where
  pub valid : s.link.socket.valid ≡ true
  pub answers : List (List ℕ)
  pub carried : Carries Request.size Order.size s.link.sends s.link.recvs answers
  pub enough : length answers ≡ n

-- Stub by stub: the request went out behind what had gone out before, on the same socket.
abbrev pub Told : List ℕ → List ClientStub → List ClientStub → Type 0
Told bytes [] [] = Unit
Told bytes [] (s' ∷ stubs') = ⊥
Told bytes (s ∷ stubs) [] = ⊥
Told bytes (s ∷ stubs) (s' ∷ stubs') =
    (s'.link.sent ≡ s.link.sent ++ bytes)
    × (s'.link.socket ≡ s.link.socket)
    × Told bytes stubs stubs'

Told-append :
    (xs ys : List ℕ) (a b c : List ClientStub) → Told xs a b → Told ys b c → Told (xs ++ ys) a c
Told-append xs ys [] [] [] h k = tt
Told-append xs ys (s ∷ a) (s1 ∷ b) (s2 ∷ c) h k = (
  k.0 ∙ ap (λ t. t ++ ys) h.0 ∙ append_assoc s.link.sent xs ys,
  k.1 ∙ h.1,
  Told-append xs ys a b c h.2 k.2,
)
Told-append xs ys [] [] (s2 ∷ c) h k = absurd k
Told-append xs ys [] (s1 ∷ b) c h k = absurd h
Told-append xs ys (s ∷ a) [] c h k = absurd h
Told-append xs ys (s ∷ a) (s1 ∷ b) [] h k = absurd k

Told-nil : (stubs : List ClientStub) → Told [] stubs stubs
Told-nil [] = tt
Told-nil (s ∷ stubs) = (sym (append-nil s.link.sent), refl, Told-nil stubs)

-- What one request leaves of a stub.
abbrev TellsOne : ℕ → ReplicationRequest → ClientStub → ClientStub → Type 0
TellsOne n q s s' =
    (s'.link.sent ≡ s.link.sent ++ encode (request_fields q))
    × (s'.link.socket ≡ s.link.socket)
    × Carrying n s'

replicate_to-Carrying :
    (m : Machine) (f : LaptopFactory) (q : ReplicationRequest) (n : ℕ) (s : ClientStub)
    (dials : List Dial)
    → Carrying (suc n) s
    → Returns (replicate_to m f q s dials) (λ r. TellsOne n q s r.0 × (r.1 ≡ dials))
unfolding replicate_to
replicate_to-Carrying m f q n s dials c = connected c.answers c.carried c.enough
  where
    connected :
        (answers : List (List ℕ))
        → Carries Request.size Order.size s.link.sends s.link.recvs answers
        → length answers ≡ suc n
        → Returns (replicate_to m f q s dials) (λ r. TellsOne n q s r.0 × (r.1 ≡ dials))
    connected [] h e = absurd (omega arith)
    connected (answer ∷ answers) (exchange {sends' = sends} {recvs' = recvs} out into more) e =
        Returns-if _ s.link.socket.valid _ _
          (λ t. rw (start_replication-taken m q s.link sends recvs answer out into) (
            (
              refl,
              refl,
              record { valid = c.valid; answers = answers; carried = more; enough = omega arith },
            ),
            refl,
          ))
          (λ t. absurd (false≢true (sym t ∙ c.valid)))

replicate_all-Carrying :
    (m : Machine) (f : LaptopFactory) (q : ReplicationRequest) (n : ℕ) (stubs : List ClientStub)
    (dials : List Dial)
    → All (Carrying (suc n)) stubs
    → Returns
        (replicate_all m f q stubs dials)
        (λ r. Told (encode (request_fields q)) stubs r.0 × All (Carrying n) r.0 × (r.1 ≡ dials))
unfolding replicate_all
replicate_all-Carrying m f q n [] dials c = (tt, tt, refl)
replicate_all-Carrying m f q n (s ∷ stubs) dials c =
    Returns-bind _ (replicate_to m f q s dials) _ (replicate_to-Carrying m f q n s dials c.0)
      (λ (s1, rest) (one, same).
        Returns-bind _ (replicate_all m f q stubs rest) _
          (replicate_all-Carrying m f q n stubs rest c.1)
          (λ (stubs1, rest1) (told, carry, same1).
            ((one.0, one.1, told), (one.2, carry), same1 ∙ same)))

-- The factory after an order of its own, but for the stubs.
abbrev pub placed : LaptopFactory → AdminRequest → LaptopFactory
placed f req = record f {
  last_index = get_idx f.server_storage;
  committed_index = get_idx f.server_storage;
  server_storage = place_order f.server_storage req.ops.arg1 req.ops.arg2;
  fulfilled = (req.promise, req.customer) ∷ f.fulfilled;
}

-- What an order does on a primary: it is placed, and every stub is told.
pub admin_order-Carrying :
    (m : Machine) (f : LaptopFactory) (req : AdminRequest) (n : ℕ) (dials : List Dial)
    → IsPrimary f
    → All (Carrying (suc n)) f.stubs
    → Returns (admin_order m f req dials) (λ r.
      (r.0 ≡ record (placed f req) { stubs = r.0.stubs })
      × Told (encode (request_fields (next_request m f req))) f.stubs r.0.stubs
      × All (Carrying n) r.0.stubs
      × (r.1 ≡ dials))
unfolding admin_order
admin_order-Carrying m f req n dials p c = rw (follows_of_IsPrimary f p) (
    Returns-bind _ (replicate_all m _ (next_request m f req) f.stubs dials) _
      (replicate_all-Carrying m _ (next_request m f req) n f.stubs dials c)
      (λ (stubs, rest) (told, carry, same). (refl, told, carry, same)))

-- So many rounds of LaptopFactory::ProductionAdminThread.
unfoldable pub admin_rounds :
    Machine → (left : ℕ) → LaptopFactory → List Dial → Outcome (LaptopFactory × List Dial)
unfolding admin_round
admin_rounds m zero f dials = done (f, dials)
admin_rounds m (suc left) f dials = do
  (f1, rest) ← admin_round m f dials
  admin_rounds m left f1 rest

-- The factory after orders of its own, but for the queue and the stubs.
unfoldable pub placed_all : LaptopFactory → List AdminRequest → LaptopFactory
placed_all f [] = f
placed_all f (req ∷ reqs) = placed_all (placed f req) reqs

-- The requests that go out for them, each with the indices at its turn, and their bytes.
unfoldable pub requests_of : Machine → LaptopFactory → List AdminRequest → List ReplicationRequest
requests_of m f [] = []
requests_of m f (req ∷ reqs) = next_request m f req ∷ requests_of m (placed f req) reqs

unfoldable pub wire : List ReplicationRequest → List ℕ
wire [] = []
wire (q ∷ qs) = encode (request_fields q) ++ wire qs

placed_all-frame :
    (f : LaptopFactory) (reqs queue : List AdminRequest) (stubs stubs' : List ClientStub)
    → record (placed_all (record f { erq = queue; stubs = stubs }) reqs) {
      erq = [];
      stubs = stubs';
    }
      ≡ record (placed_all f reqs) { erq = []; stubs = stubs' }
unfolding placed_all
placed_all-frame f [] queue stubs stubs' = refl
placed_all-frame f (req ∷ reqs) queue stubs stubs' =
    placed_all-frame (placed f req) reqs queue stubs stubs'

requests_of-frame :
    (m : Machine) (f : LaptopFactory) (reqs queue : List AdminRequest) (stubs : List ClientStub)
    → requests_of m (record f { erq = queue; stubs = stubs }) reqs ≡ requests_of m f reqs
unfolding requests_of
requests_of-frame m f [] queue stubs = refl
requests_of-frame m f (req ∷ reqs) queue stubs =
    ap (◌∷◌ (next_request m f req)) (requests_of-frame m (placed f req) reqs queue stubs)

-- With an order at the front of the queue, a round is the placing of that order.
pub admin_round-front :
    (m : Machine) (f : LaptopFactory) (req : AdminRequest) (rest : List AdminRequest)
    (dials : List Dial)
    → f.erq ≡ req ∷ rest
    → req.type ≡ pos 1
    → admin_round m f dials ≡ admin_order m (record f { erq = rest }) req dials
unfolding admin_round
admin_round-front m f req rest dials queue order =
    rw (queue, (eq_int_iff req.type (pos 1)).1 order) refl

-- What the admin leaves behind once it has worked through the queue.
pub record Worked (m : Machine) (f : LaptopFactory) (reqs : List AdminRequest) (f' : LaptopFactory)
    : Type 0 where
  pub state : f' ≡ record (placed_all f reqs) { erq = []; stubs = f'.stubs }
  pub told : Told (wire (requests_of m f reqs)) f.stubs f'.stubs

-- A primary with orders in its queue, to every stub of which the kernel carries as many requests as
-- there are orders: the admin's rounds return with the queue empty, every order placed in turn, and
-- the requests for them sent to every stub in turn.
pub admin_rounds-Worked :
    (m : Machine) (f : LaptopFactory) (reqs : List AdminRequest) (dials : List Dial)
    → f.erq ≡ reqs
    → All (λ req. req.type ≡ pos 1) reqs
    → IsPrimary f
    → All (Carrying (length reqs)) f.stubs
    → Returns (admin_rounds m (length reqs) f dials) (λ r. Worked m f reqs r.0)
unfolding admin_rounds placed_all requests_of wire
admin_rounds-Worked m f [] dials queue orders p c = record {
  state = ap (λ q. record f { erq = q }) queue;
  told = Told-nil f.stubs;
}
admin_rounds-Worked m f (req ∷ reqs) dials queue (order, orders) p c =
    rw (admin_round-front m f req reqs dials queue order) (
      Returns-bind _ (admin_order m (record f { erq = reqs }) req dials) _
        (admin_order-Carrying m (record f { erq = reqs }) req (length reqs) dials
          (record { named = p.named; known = p.known }) c)
        (λ (f1, rest) (same, told, carry, samed).
          let g : LaptopFactory = record (placed f req) { erq = reqs; stubs = f1.stubs } in
          subst
            (λ x. Returns (admin_rounds m (length reqs) x rest) (λ r. Worked m f (req ∷ reqs) r.0))
            (sym same)
            (Returns-mono (admin_rounds m (length reqs) g rest)
              (admin_rounds-Worked m g reqs rest refl orders
                (record { named = p.named; known = p.known }) carry)
              (λ (f2, rest2) w. record {
                state = w.state ∙ placed_all-frame (placed f req) reqs reqs f1.stubs f2.stubs;
                told =
                    Told-append (encode (request_fields (next_request m f req))) _ f.stubs f1.stubs
                      f2.stubs told
                      (subst (λ qs. Told (wire qs) f1.stubs f2.stubs)
                        (requests_of-frame m (placed f req) reqs reqs f1.stubs) w.told);
              }))))
