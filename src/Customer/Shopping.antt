-- ===== src/Customer/Shopping.antt =====
-- A customer and the engineer who serves it, each over a kernel that carries the other's messages.
use Prim.Native.String.{String}
use pa.Prelude.{
  ℕ, zero, suc, ◌+◌, ◌≡◌, ◌≢◌, refl, sym, ap, ◌∙◌, subst, true, List, [], ◌∷◌, ◌++◌, map,
  append_assoc, append-nil, All, length, some, arith, ℤ, pos, minus_one, eq_int_iff, IsInt,
}
use pa.Machine.{Machine}
use pa.Messages.Fields.{encode, int_size}
use pa.Messages.Order
use pa.Messages.Order.{LaptopOrder}
use pa.Messages.Info
use pa.Messages.Info.{LaptopInfo}
use pa.Messages.Request.{ReplicationRequest}
use pa.Messages.RoundTrip.{order_fields, info_fields, Fits}
use pa.Storage.Latest.{place_orders}
use pa.Socket.{Link, Chunk, Outcome, done, ◌>>=◌, Returns, Returns-bind, Returns-mono}
use pa.Socket.Receiving.{stream}
use pa.Socket.Healthy.{take_sends, take_chunks, stream-taken, Carries, exchange}
use pa.Stub.Client.{ClientStub, Dial}
use pa.Stub.Healthy.{Connects, exchanged}
use pa.Timer.{ClientTimer}
use pa.Factory.{LaptopFactory}
use pa.Factory.Engineer.{Engineer, Phase}
use pa.Factory.Serving.{laptop_for}
use pa.Factory.Replication.{IsPrimary}
use pa.Factory.Rounds.{Carrying}
use pa.Factory.Turn.{serves, turn, turn-Turned}
use pa.Customer.{thread_body}
use pa.Customer.Session.{asked, Served, thread_body-Served}

-- So many turns.
unfoldable pub turns :
    Machine
    → ReplicationRequest
    → (left : ℕ) → LaptopFactory
    → Engineer
    → List Dial
    → Outcome (LaptopFactory × Engineer × List Dial)
turns m unset zero f e dials = done (f, e, dials)
turns m unset (suc left) f e dials = do
  (f1, e1, rest) ← turn m unset f e dials
  turns m unset left f1 e1 rest

-- The laptops as they stand on the wire.
abbrev pub bytes_of : List LaptopInfo → List ℕ
bytes_of [] = []
bytes_of (l ∷ ls) = encode (info_fields l) ++ bytes_of ls

module _ (customer engineer : ℤ) where
  abbrev pub nth_order : ℕ → LaptopOrder
  nth_order i = Order.set_order customer (pos i) (pos 1)

  -- The operations and the laptops of the orders from number `i` on.
  unfoldable pub operations : (left i : ℕ) → List (ℤ × ℤ)
  operations zero i = []
  operations (suc left) i = (customer, pos i) ∷ operations left (i + 1)

  unfoldable pub laptops : (left i : ℕ) → List LaptopInfo
  laptops zero i = []
  laptops (suc left) i = laptop_for (nth_order i) engineer ∷ laptops left (i + 1)

  length-laptops : (left i : ℕ) → length (laptops left i) ≡ left
  unfolding laptops
  length-laptops zero i = refl
  length-laptops (suc left) i = ap suc (length-laptops left (i + 1))

  -- The kernel brings the engineer these orders and carries a laptop for each.
  pub data Ordered : List ℤ → List Chunk → (left i : ℕ) → Type 0 where
    quiet : {sends : List ℤ} {recvs : List Chunk} {i : ℕ} → Ordered sends recvs 0 i
    ordered :
        {sends sends' : List ℤ} {recvs recvs' : List Chunk} {left i : ℕ}
        → Fits (order_fields (nth_order i))
        → take_chunks recvs Order.size ≡ some (encode (order_fields (nth_order i)), recvs')
        → take_sends sends Info.size ≡ some sends'
        → Ordered sends' recvs' left (i + 1)
        → Ordered sends recvs (suc left) i

  known_valid : (i : ℕ) → customer ≢ minus_one → Order.is_valid (nth_order i) ≡ true
  unfolding Order.is_valid
  known_valid i known = ground (arith, known, eq_int_iff customer minus_one)

  -- What the turns leave behind: the orders stored in turn and the laptops sent in turn.
  pub record Sold (left i : ℕ) (f : LaptopFactory) (l : Link) (f' : LaptopFactory) (e' : Engineer)
      : Type 0 where
    pub storage : f'.server_storage ≡ place_orders f.server_storage (operations left i)
    pub queue : f'.erq ≡ []
    pub values : f'.fulfilled ≡ f.fulfilled
    pub still_serves : e'.phase ≡ Phase.serving
    pub sent : e'.link.sent ≡ l.sent ++ bytes_of (laptops left i)
    pub socket : e'.link.socket ≡ l.socket

  pub turns-Sold :
      (m : Machine) (unset : ReplicationRequest) (left i : ℕ) (f : LaptopFactory) (l : Link)
      (dials : List Dial)
      → customer ≢ minus_one
      → Ordered l.sends l.recvs left i
      → f.erq ≡ []
      → IsPrimary f
      → All (Carrying left) f.stubs
      → Returns (turns m unset left f (serves engineer l) dials) (λ r. Sold left i f l r.0 r.1)
  unfolding turns operations laptops place_orders
  turns-Sold m unset zero i f l dials known o queue p c = record {
    storage = refl;
    queue = queue;
    values = refl;
    still_serves = refl;
    sent = sym (append-nil l.sent);
    socket = refl;
  }
  turns-Sold m unset (suc left) i f l dials known
        (ordered {sends' = sends} {recvs' = recvs} fit into out more) queue p c =
      Returns-bind _ (turn m unset f (serves engineer l) dials) _
        (turn-Turned m unset f engineer l (nth_order i) left dials sends recvs fit
          (known_valid i known) refl into out queue p c)
        (λ (f1, e1, rest) (t, same, samed). rw same (
          Returns-mono (turns m unset left f1 (serves engineer (exchanged l sends recvs _)) rest)
            (turns-Sold m unset left (i + 1) f1 (exchanged l sends recvs _) rest known more t.queue
              t.primary t.carrying)
            (λ r s. record {
              storage = s.storage ∙ ap (λ x. place_orders x (operations left (i + 1))) t.storage;
              queue = s.queue;
              values = s.values ∙ t.values;
              still_serves = s.still_serves;
              sent = s.sent ∙ append_assoc l.sent _ _;
              socket = s.socket;
            })))

  Ordered-stream :
      (sends : List ℤ) (recvs : List Chunk) (left i : ℕ)
      → Ordered sends recvs left i
      → (rest : List ℕ) × (stream recvs ≡ asked customer (laptops left i) i ++ rest)
  unfolding laptops asked
  Ordered-stream sends recvs zero i o = (stream recvs, refl)
  Ordered-stream sends recvs (suc left) i
        (ordered {sends' = sends'} {recvs' = recvs'} fit into out more) =
      let (rest, same) = Ordered-stream sends' recvs' left (i + 1) more in
      (
        rest,
        (stream-taken recvs recvs' Order.size _ into).1
            ∙ ap (◌++◌ (encode (order_fields (nth_order i)))) same
            ∙ sym (
                append_assoc (encode (order_fields (nth_order i)))
                  (asked customer (laptops left (i + 1)) (i + 1)) rest),
      )

  Ordered-Fits :
      (sends : List ℤ) (recvs : List Chunk) (left i : ℕ)
      → IsInt engineer
      → Ordered sends recvs left i
      → All (λ x. Fits (info_fields x)) (laptops left i)
  unfolding laptops
  Ordered-Fits sends recvs zero i named o = tt
  Ordered-Fits sends recvs (suc left) i named
        (ordered {sends' = sends'} {recvs' = recvs'} fit into out more) =
      (
        (fit.0, (fit.1.0, (fit.1.1.0, (named, (omega arith, tt))))),
        Ordered-Fits sends' recvs' left (i + 1) named more,
      )

Carries-stream :
    (sends : List ℤ) (recvs : List Chunk) (ls : List LaptopInfo)
    → Carries Order.size Info.size sends recvs (map (λ x. encode (info_fields x)) ls)
    → (rest : List ℕ) × (stream recvs ≡ bytes_of ls ++ rest)
Carries-stream sends recvs [] c = (stream recvs, refl)
Carries-stream sends recvs (x ∷ ls) (exchange {sends' = sends'} {recvs' = recvs'} out into more) =
    let (rest, same) = Carries-stream sends' recvs' ls more in
    (
      rest,
      (stream-taken recvs recvs' Info.size _ into).1
          ∙ ap (◌++◌ (encode (info_fields x))) same
          ∙ sym (append_assoc (encode (info_fields x)) _ rest),
    )

-- What a customer of type 1 and the engineer who serves it leave behind.
pub record Dealt (customer engineer : ℤ) (orders : ℕ) (l : Link) (d : Dial) : Type 0 where
  pub heard_orders :
      (rest : List ℕ) × (stream l.recvs
        ≡ asked customer (laptops customer engineer orders 0) 0 ++ rest)
  pub heard_laptops :
      (rest : List ℕ) × (stream d.recvs ≡ bytes_of (laptops customer engineer orders 0) ++ rest)

-- A customer of type 1 with a number of orders and the engineer of a primary who serves it, over
-- connections that carry to each what the other sends, with stubs that carry a request for each
-- order: both sides return. The orders are stored in turn, the queue is empty, and each laptop has
-- been sent, with the engineer's number; the customer has sent its name and the orders, and prints a
-- line for each of those laptops, in order, counting each. The engineer's stream starts with the
-- orders that the customer sent, and the customer's with the laptops that the engineer sent.
pub shopping-Dealt :
    (ms mc : Machine) (unset : ReplicationRequest) (f : LaptopFactory) (engineer : ℤ) (l : Link)
    (dials : List Dial) (clock : ℕ → ℕ × ℕ) (timer : ClientTimer) (stub : ClientStub) (ip : String)
    (port customer : ℤ) (orders : ℕ) (d : Dial) (rest : List Dial) (sends : List ℤ)
    → customer ≢ minus_one
    → IsInt engineer
    → f.erq ≡ []
    → IsPrimary f
    → All (Carrying orders) f.stubs
    → Ordered customer engineer l.sends l.recvs orders 0
    → Connects stub.link d
    → take_sends d.sends int_size ≡ some sends
    → Carries Order.size Info.size sends d.recvs
        (map (λ x. encode (info_fields x)) (laptops customer engineer orders 0))
    → Dealt customer engineer orders l d
      × Returns
          (turns ms unset orders f (serves engineer l) dials)
          (λ r. Sold customer engineer orders 0 f l r.0 r.1)
      × Returns
          (thread_body mc clock timer stub ip port customer (pos orders) (pos 1) (d ∷ rest))
          (Served mc customer (laptops customer engineer orders 0) timer d)
shopping-Dealt ms mc unset f engineer l dials clock timer stub ip port customer orders d rest sends
      known named queue p c heard connects out carries =
    (
      record {
        heard_orders = Ordered-stream customer engineer l.sends l.recvs orders 0 heard;
        heard_laptops = Carries-stream sends d.recvs (laptops customer engineer orders 0) carries;
      },
      turns-Sold customer engineer ms unset orders 0 f l dials known heard queue p c,
      subst
          (λ n.
            Returns (thread_body mc clock timer stub ip port customer (pos n) (pos 1) (d ∷ rest))
              (Served mc customer (laptops customer engineer orders 0) timer d))
          (length-laptops customer engineer orders 0)
          (thread_body-Served mc clock timer stub ip port customer
            (laptops customer engineer orders 0) d rest sends connects out carries
            (Ordered-Fits customer engineer l.sends l.recvs orders 0 named heard)),
    )
