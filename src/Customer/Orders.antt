-- ===== src/Customer/Orders.antt =====
-- A customer who orders regular laptops.
use pa.Prelude.{
  ℕ, zero, suc, ◌+◌, ◌≡◌, refl, sym, ap, ◌∙◌, List, [], ◌∷◌, ◌++◌, append_assoc, append-nil, arith,
  ℤ, pos,
}
use pa.Messages.Order
use pa.Messages.Order.{LaptopOrder}
use pa.Messages.Info.{LaptopInfo}
use pa.Socket.{Returns, Returns-bind, Returns-mono}
use pa.Timer.{ClientTimer, start, end_and_merge}
use pa.Customer.{Service, Run, Line, report, begin, finish, order_laptop, rounds}

module _ {S : Type 0} (service : Service S) (answer : LaptopOrder → LaptopInfo) (P : S → Type 0)
    (answers : (o : LaptopOrder) (s : S)
      → P s
      → Returns (service.order o s) (λ r. (r.0 ≡ answer o) × P r.1))
    (customer_id : ℤ) (clock : ℕ → ℕ × ℕ) where
  -- What is printed for the orders from `i` on.
  pub reports : (left i : ℕ) → List Line
  reports zero i = []
  reports (suc left) i =
      report customer_id (answer (Order.set_order customer_id (pos i) (pos 1)))
      ∷ reports left (i + 1)

  -- The line for order `i`.
  line_of : ℕ → Line
  line_of i = report customer_id (answer (Order.set_order customer_id (pos i) (pos 1)))

  order_laptop_lem :
      (i : ℕ) (r : Run S)
      → P r.service_state
      → Returns (order_laptop service customer_id (pos 1) clock i r) (λ r1.
        (r1.lines ≡ r.lines ++ (line_of i ∷ [])) × (r1.timer ≡ r.timer) × P r1.service_state)
  unfolding order_laptop line_of
  order_laptop_lem i r p =
      Returns-bind _ (service.order (Order.set_order customer_id (pos i) (pos 1)) r.service_state) _
        (answers (Order.set_order customer_id (pos i) (pos 1)) r.service_state p)
        (λ (laptop, s) (same, q). (ap (λ x. r.lines ++ (report customer_id x ∷ [])) same, refl, q))

  -- A customer of type 1 places each of its orders once, in order, whatever laptops come back, prints
  -- a line for each, and counts each in its timer.
  pub rounds-reports :
      (left i : ℕ) (r : Run S)
      → P r.service_state
      → Returns (rounds service customer_id (pos 1) clock left i r) (λ r'.
        (r'.lines ≡ r.lines ++ reports left i)
        × (r'.timer.op_count ≡ r.timer.op_count + left)
        × P r'.service_state)
  unfolding rounds reports line_of start end_and_merge
  rounds-reports zero i r p = (sym (append-nil r.lines), omega arith, p)
  rounds-reports (suc left) i r p =
      Returns-bind _ (order_laptop service customer_id (pos 1) clock i (begin (clock i) r)) _
        (order_laptop_lem i (begin (clock i) r) p)
        (λ r1 (printed, timed, q).
          let r2 = finish (clock i) r1 in
          Returns-mono (rounds service customer_id (pos 1) clock left (i + 1) r2)
            (rounds-reports left (i + 1) r2 q)
            (λ r' h. (
              h.0
                  ∙ ap (λ ls. ls ++ reports left (i + 1)) printed
                  ∙ append_assoc r.lines (line_of i ∷ []) (reports left (i + 1)),
              omega (arith, h.1, ap (λ (t : ClientTimer). t.op_count) timed),
              h.2,
            )))
