-- ===== src/Factory/Departure.antt =====
-- An engineer's thread when the customer goes away, or asks for what there is not.
use mathlib.Core.Bool.{false≢true}
use pa.Prelude.{
  ℕ, ◌<◌, ◌≡◌, ◌≢◌, refl, sym, ap, ◌∙◌, true, false, List, ◌++◌, length, ℤ, pos, minus_one, eq_int,
  eq_int_iff,
}
use pa.Machine.{Machine}
use pa.Messages.Fields.{encode}
use pa.Messages.Order
use pa.Messages.Order.{LaptopOrder}
use pa.Messages.RoundTrip.{order_fields, Fits}
use pa.Socket.{Returns, Returns-bind, Returns-if}
use pa.Socket.Receiving.{stream, RecvsDocumented, Ends}
use pa.Stub.Server.{receive_order_request}
use pa.Stub.Receives.{After, receive_order_request_lem, receive_order_request-Lost}
use pa.Factory.{LaptopFactory}
use pa.Factory.Engineer.{Engineer, ended, serving_round}

new_invalid : {order : LaptopOrder} → order ≡ Order.new → Order.is_valid order ≡ false
unfolding Order.is_valid
new_invalid same = ap Order.is_valid same

-- A customer's connection that ends before a whole order ends the thread with its socket closed:
-- the factory is as it was and nothing is sent.
pub serving_round-Lost :
    (m : Machine) (f : LaptopFactory) (e : Engineer)
    → RecvsDocumented e.link.recvs Order.size
    → Ends e.link.recvs
    → length (stream e.link.recvs) < Order.size
    → Returns (serving_round m f e) (λ r.
      (r.0 ≡ f)
      × (r.1.phase ≡ ended)
      × (r.1.link.socket.fd ≡ minus_one)
      × (r.1.link.sent ≡ e.link.sent))
unfolding serving_round
serving_round-Lost m f e rd ends short =
    Returns-bind _ (receive_order_request m e.link) _
      (receive_order_request-Lost m e.link rd ends short)
      (λ (order, l) h.
        Returns-if _ (Order.is_valid order) _ _
          (λ t. absurd (false≢true (sym (new_invalid h.0) ∙ t))) (λ t. (refl, refl, refl, h.2)))

-- An order of any type but 1, 2 and 3 is read and left at that: the factory is as it was, nothing is
-- sent, and the thread goes on with what comes next.
pub serving_round-undefined :
    (m : Machine) (f : LaptopFactory) (e : Engineer) (o : LaptopOrder) (rest : List ℕ)
    → Fits (order_fields o)
    → Order.is_valid o ≡ true
    → o.laptop_type ≢ pos 1
    → o.laptop_type ≢ pos 2
    → o.laptop_type ≢ pos 3
    → stream e.link.recvs ≡ encode (order_fields o) ++ rest
    → RecvsDocumented e.link.recvs Order.size
    → Returns
        (serving_round m f e)
        (λ r. (r.0 ≡ f) × (r.1.phase ≡ e.phase) × After e.link rest r.1.link)
unfolding serving_round
serving_round-undefined m f e o rest fits valid not1 not2 not3 arrives rd =
    Returns-bind _ (receive_order_request m e.link) _
      (receive_order_request_lem m o e.link rest fits arrives rd)
      (λ (order, l) (same, a).
        Returns-if _ (Order.is_valid order) _ _
          (λ t.
            Returns-if _ _ _ _ (λ t1. differ order same (pos 1) not1 t1)
              (λ t1.
                Returns-if _ _ _ _ (λ t2. differ order same (pos 2) not2 t2)
                  (λ t2.
                    Returns-if _ _ _ _ (λ t3. differ order same (pos 3) not3 t3)
                      (λ t3. (refl, refl, a)))))
          (λ t. absurd (false≢true (sym t ∙ ap Order.is_valid same ∙ valid))))
  where
    differ :
        {A : Type 0} (order : LaptopOrder)
        → order ≡ o
        → (t : ℤ) → o.laptop_type ≢ t
        → eq_int order.laptop_type t ≡ true
        → A
    differ order same t differs h = absurd (
        differs (
          sym (ap (λ (x : LaptopOrder). x.laptop_type) same)
          ∙ (eq_int_iff order.laptop_type t).0 h))
