-- ===== src/Customer/Listing.antt =====
-- Customers who read: one record for type 2, and one after the other for type 3.
use Prim.Native.String.{String}
use pa.Prelude.{
  ℕ, ◌+◌, ◌≡◌, refl, sym, ◌∙◌, Bool-cases, inl, inr, List, [], ◌∷◌, ◌++◌, map, append_assoc,
  append-nil, All, length, some, if◌then◌else◌, arith, ℤ, pos, minus_one, eq_int, to_word,
}
use pa.Machine.{Machine}
use pa.Messages.Fields.{encode, int_size}
use pa.Messages.Order
use pa.Messages.Record
use pa.Messages.Record.{CustomerRecord}
use pa.Messages.RoundTrip.{order_fields, record_fields, Fits}
use pa.Socket.{Link, Chunk, Returns, Returns-mono}
use pa.Socket.Healthy.{take_sends, take_chunks, Carries, exchange, after_send}
use pa.Stub.Client.{ClientStub, Dial}
use pa.Stub.Healthy.{Connects, dialled, init-Connects, read_record-taken, send_identification-taken}
use pa.Timer.{ClientTimer, start, end_and_merge}
use pa.Customer.{
  Line, record_read, invalid_record, last_order, Run, rounds, read_one, stub_service, thread_body,
}

-- The records before the first that is not set.
unfoldable pub known : List CustomerRecord → List CustomerRecord
known [] = []
known (r ∷ records) = if eq_int r.customer_id minus_one then [] else r ∷ known records

-- The complaint about the first that is not set, where there is one.
unfoldable pub complaint : ℤ → List CustomerRecord → List Line
complaint id [] = []
complaint id (r ∷ records) =
    if eq_int r.customer_id minus_one then invalid_record id ∷ [] else complaint id records

abbrev pub record_line : CustomerRecord → Line
record_line r = record_read r.customer_id r.last_order

module _ (m : Machine) (id : ℤ) (clock : ℕ → ℕ × ℕ) where
  pub record Listed (records : List CustomerRecord) (r r' : Run Link) : Type 0 where
    pub lines : r'.lines ≡ r.lines ++ (map record_line (known records) ++ complaint id records)
    pub counted : r'.timer.op_count ≡ r.timer.op_count + length (known records)

  rounds-Listed :
      (records : List CustomerRecord) (i : ℕ) (r : Run Link)
      → Carries Order.size Record.size r.service_state.sends r.service_state.recvs
          (map (λ x. encode (record_fields x)) records)
      → All (λ x. Fits (record_fields x)) records
      → Returns (rounds (stub_service m) id (pos 3) clock (length records) i r) (Listed records r)
  unfolding rounds known complaint start end_and_merge Record.is_valid
  rounds-Listed [] i r c fits = record { lines = sym (append-nil r.lines); counted = omega arith }
  rounds-Listed (x ∷ records) i r (exchange {sends' = sends} {recvs' = recvs} out into more)
        (fit, fits) =
      rw
        (read_record-taken m (Order.set_order (pos i) minus_one (pos 3)) x r.service_state sends
          recvs fit out into)
        (elim (Bool-cases (eq_int x.customer_id minus_one)) [
          | inl unset ↦
              rw (unset, Record.is_valid)
                (record { lines = rw (unset, known, complaint) refl; counted = ground arith })
          | inr set ↦
              rw (set, Record.is_valid)
                (Returns-mono (rounds (stub_service m) id (pos 3) clock (length records) (i + 1) _)
                  (rounds-Listed records (i + 1) _ more fits)
                  (λ r' b. record {
                    lines =
                        rw (set, known, complaint)
                          (b.lines
                            ∙ append_assoc r.lines (record_line x ∷ [])
                                (map record_line (known records) ++ complaint id records));
                    counted = rw (set, known) (omega (arith, b.counted));
                  }))
        ])

-- A customer of type 3 whose attempt to connect succeeds, and for whom the kernel carries its name
-- and an exchange for each number from 0 on: the thread returns and prints each record up to the
-- first that is not set, complains of that one if there is one, and counts the records that it printed.
pub thread_body-Listed :
    (m : Machine) (clock : ℕ → ℕ × ℕ) (timer : ClientTimer) (stub : ClientStub) (ip : String)
    (port id : ℤ) (records : List CustomerRecord) (d : Dial) (rest : List Dial) (sends : List ℤ)
    → Connects stub.link d
    → take_sends d.sends int_size ≡ some sends
    → Carries Order.size Record.size sends d.recvs (map (λ x. encode (record_fields x)) records)
    → All (λ x. Fits (record_fields x)) records
    → Returns
        (thread_body m clock timer stub ip port id (pos (length records)) (pos 3) (d ∷ rest))
        (λ r.
          (r.lines ≡ map record_line (known records) ++ complaint id records)
          × (r.timer.op_count ≡ timer.op_count + length (known records)))
unfolding thread_body
thread_body-Listed m clock timer stub ip port id records d rest sends c out carries fits =
    rw
      (
        init-Connects stub ip port d rest c,
        send_identification-taken m (pos 1) (dialled stub.link d) sends out,
      )
      (Returns-mono (rounds (stub_service m) id (pos 3) clock (length records) 0 _)
        (rounds-Listed m id clock records 0
          (record {
            service_state = after_send (dialled stub.link d) sends (m.host.store (to_word (pos 1)));
            timer = timer;
            lines = [];
          })
          carries fits)
        (λ r' b. (b.lines, b.counted)))

-- A customer of type 2 whose attempt to connect succeeds, and for whom the kernel carries its name
-- and one exchange: the thread returns, has sent its name and one request for its own number, and
-- prints the one line for the record that comes back; it counts nothing.
pub thread_body-reads :
    (m : Machine) (clock : ℕ → ℕ × ℕ) (timer : ClientTimer) (stub : ClientStub) (ip : String)
    (port id orders : ℤ) (answer : CustomerRecord) (d : Dial) (rest : List Dial)
    (sends left : List ℤ) (recvs : List Chunk)
    → Connects stub.link d
    → take_sends d.sends int_size ≡ some sends
    → take_sends sends Order.size ≡ some left
    → take_chunks d.recvs Record.size ≡ some (encode (record_fields answer), recvs)
    → Fits (record_fields answer)
    → Returns (thread_body m clock timer stub ip port id orders (pos 2) (d ∷ rest)) (λ r.
      (r.lines
        ≡ (if eq_int answer.customer_id minus_one
            then invalid_record id
            else last_order answer.last_order)
          ∷ [])
      × (r.timer ≡ timer)
      × (r.service_state.sent
          ≡ m.host.store (to_word (pos 1))
            ++ encode (order_fields (Order.set_order id minus_one (pos 2)))))
unfolding thread_body read_one Record.is_valid
thread_body-reads m clock timer stub ip port id orders answer d rest sends left recvs c out asks
      into fit =
    rw
      (
        init-Connects stub ip port d rest c,
        send_identification-taken m (pos 1) (dialled stub.link d) sends out,
        read_record-taken m (Order.set_order id minus_one (pos 2)) answer
            (after_send (dialled stub.link d) sends (m.host.store (to_word (pos 1)))) left recvs fit
            asks into,
      )
      (elim (Bool-cases (eq_int answer.customer_id minus_one)) [
        | inl unset ↦ rw (unset, Record.is_valid) (refl, refl, refl)
        | inr set ↦ rw (set, Record.is_valid) (refl, refl, refl)
      ])
