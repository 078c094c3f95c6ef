-- ===== src/Customer/Session.antt =====
-- A customer's thread from its connection to its last line, over a kernel that carries its messages.
use Prim.Native.String.{String}
use pa.Prelude.{
  ℕ, ◌+◌, ◌≡◌, refl, sym, ap, ◌∙◌, List, [], ◌∷◌, ◌++◌, map, append_assoc, append-nil, All, length,
  some, arith, ℤ, pos, to_word,
}
use pa.Machine.{Machine}
use pa.Messages.Fields.{encode, int_size}
use pa.Messages.Order
use pa.Messages.Order.{LaptopOrder}
use pa.Messages.Info
use pa.Messages.Info.{LaptopInfo}
use pa.Messages.RoundTrip.{order_fields, info_fields, Fits}
use pa.Socket.{Socket, Link, Chunk, done, Returns, Returns-mono}
use pa.Socket.Healthy.{take_sends, take_chunks, Carries, exchange, after_send}
use pa.Stub.Client.{ClientStub, Dial}
use pa.Stub.Healthy.{
  Connects, dialled, init-Connects, exchanged, order-taken, send_identification-taken,
}
use pa.Timer.{ClientTimer, start, end_and_merge}
use pa.Customer.{report, Run, print, begin, finish, order_laptop, rounds, stub_service, thread_body}

-- The orders from number `i` on, as they stand on the wire: one for each laptop that comes back.
unfoldable pub asked : (id : ℤ) → List LaptopInfo → ℕ → List ℕ
asked id [] i = []
asked id (laptop ∷ laptops) i =
    encode (order_fields (Order.set_order id (pos i) (pos 1))) ++ asked id laptops (i + 1)

module _ (m : Machine) (id : ℤ) (clock : ℕ → ℕ × ℕ) where
  -- What the loop leaves behind after these laptops.
  pub record Bought (laptops : List LaptopInfo) (i : ℕ) (r r' : Run Link) : Type 0 where
    pub lines : r'.lines ≡ r.lines ++ map (report id) laptops
    pub counted : r'.timer.op_count ≡ r.timer.op_count + length laptops
    pub sent : r'.service_state.sent ≡ r.service_state.sent ++ asked id laptops i
    pub socket : r'.service_state.socket ≡ r.service_state.socket

  order_laptop-taken :
      (laptop : LaptopInfo) (i : ℕ) (r : Run Link) (sends : List ℤ) (recvs : List Chunk)
      → Fits (info_fields laptop)
      → take_sends r.service_state.sends Order.size ≡ some sends
      → take_chunks r.service_state.recvs Info.size ≡ some (encode (info_fields laptop), recvs)
      → order_laptop (stub_service m) id (pos 1) clock i r
        ≡ done (
            print (report id laptop) (record r {
              service_state =
                  exchanged r.service_state sends recvs
                    (encode (order_fields (Order.set_order id (pos i) (pos 1))));
            }))
  unfolding order_laptop
  order_laptop-taken laptop i r sends recvs fit out into =
      rw
        (order-taken m (Order.set_order id (pos i) (pos 1)) laptop r.service_state sends recvs fit
          out into)
        refl

  Bought-step :
      (laptop : LaptopInfo) (laptops : List LaptopInfo) (i : ℕ) (r r' : Run Link) (sends : List ℤ)
      (recvs : List Chunk)
      → Bought laptops
          (i + 1)
          (finish (clock i) (
            print (report id laptop) (record (begin (clock i) r) {
              service_state =
                  exchanged r.service_state sends recvs
                    (encode (order_fields (Order.set_order id (pos i) (pos 1))));
            })))
          r'
      → Bought (laptop ∷ laptops) i r r'
  unfolding asked start end_and_merge
  Bought-step laptop laptops i r r' sends recvs b = record {
    lines = b.lines ∙ append_assoc r.lines (report id laptop ∷ []) (map (report id) laptops);
    counted = omega (arith, b.counted);
    sent =
        b.sent
        ∙ append_assoc r.service_state.sent
            (encode (order_fields (Order.set_order id (pos i) (pos 1)))) (asked id laptops (i + 1));
    socket = b.socket;
  }

  rounds-Bought :
      (laptops : List LaptopInfo) (i : ℕ) (r : Run Link)
      → Carries Order.size Info.size r.service_state.sends r.service_state.recvs
          (map (λ x. encode (info_fields x)) laptops)
      → All (λ x. Fits (info_fields x)) laptops
      → Returns (rounds (stub_service m) id (pos 1) clock (length laptops) i r) (Bought laptops i r)
  unfolding rounds asked start end_and_merge
  rounds-Bought [] i r c fits = record {
    lines = sym (append-nil r.lines);
    counted = omega arith;
    sent = sym (append-nil r.service_state.sent);
    socket = refl;
  }
  rounds-Bought (laptop ∷ laptops) i r (exchange {sends' = sends} {recvs' = recvs} out into more)
        (fit, fits) =
      rw (order_laptop-taken laptop i (begin (clock i) r) sends recvs fit out into) (
        Returns-mono (rounds (stub_service m) id (pos 1) clock (length laptops) (i + 1) _)
          (rounds-Bought laptops (i + 1) _ more fits)
          (λ r' b. Bought-step laptop laptops i r r' sends recvs b))

-- What a customer of type 1 leaves behind: a line for each laptop in order, each order counted, and
-- on the wire its name and one order after the other.
pub record Served (m : Machine) (id : ℤ) (laptops : List LaptopInfo) (timer : ClientTimer)
    (d : Dial) (r : Run Link) : Type 0 where
  pub lines : r.lines ≡ map (report id) laptops
  pub counted : r.timer.op_count ≡ timer.op_count + length laptops
  pub sent : r.service_state.sent ≡ m.host.store (to_word (pos 1)) ++ asked id laptops 0
  pub connected : r.service_state.socket.fd ≡ d.fd

-- A customer of type 1 whose attempt to connect succeeds, and for whom the kernel carries its name
-- and then an exchange for each of its orders: the thread returns, has sent its name and each order
-- once, from 0 on, and prints a line for each laptop that comes back, in order, counting each.
pub thread_body-Served :
    (m : Machine) (clock : ℕ → ℕ × ℕ) (timer : ClientTimer) (stub : ClientStub) (ip : String)
    (port id : ℤ) (laptops : List LaptopInfo) (d : Dial) (rest : List Dial) (sends : List ℤ)
    → Connects stub.link d
    → take_sends d.sends int_size ≡ some sends
    → Carries Order.size Info.size sends d.recvs (map (λ x. encode (info_fields x)) laptops)
    → All (λ x. Fits (info_fields x)) laptops
    → Returns
        (thread_body m clock timer stub ip port id (pos (length laptops)) (pos 1) (d ∷ rest))
        (Served m id laptops timer d)
unfolding thread_body
thread_body-Served m clock timer stub ip port id laptops d rest sends c out carries fits =
    rw
      (
        init-Connects stub ip port d rest c,
        send_identification-taken m (pos 1) (dialled stub.link d) sends out,
      )
      (Returns-mono (rounds (stub_service m) id (pos 1) clock (length laptops) 0 _)
        (rounds-Bought m id clock laptops 0
          (record {
            service_state = after_send (dialled stub.link d) sends (m.host.store (to_word (pos 1)));
            timer = timer;
            lines = [];
          })
          carries fits)
        (λ r' b. record {
          lines = b.lines;
          counted = b.counted;
          sent = b.sent;
          connected = ap (λ (s : Socket). s.fd) b.socket;
        }))
