-- ===== src/Factory/Serving.antt =====
-- An engineer's thread serving a customer.
use mathlib.Core.Bool.{false≢true}
use pa.Prelude.{
  ℕ, ◌≤◌, ◌≡◌, refl, sym, ap, ◌∙◌, subst, ◌⊎◌, inl, inr, Bool, true, false, List, [], ◌∷◌, ◌++◌,
  length, arith, ℤ, pos, eq_int, eq_int_iff,
}
use pa.Machine.{Machine, buffer, length-buffer}
use pa.Messages.Fields.{encode}
use pa.Messages.Order
use pa.Messages.Order.{LaptopOrder}
use pa.Messages.Info
use pa.Messages.Info.{LaptopInfo}
use pa.Messages.Record
use pa.Messages.Record.{CustomerRecord}
use pa.Messages.RoundTrip.{order_fields, record_fields, record-wire, record-length, Fits}
use pa.Storage.{order_op, read_record}
use pa.Socket.{Link, done, ◌>>=◌, send, Returns, Returns-bind, Returns-if, Returns-mono}
use pa.Socket.Sending.{SendResult}
use pa.Socket.Receiving.{stream, RecvsDocumented}
use pa.Stub.Server.{receive_order_request, return_record}
use pa.Stub.Receives.{After, receive_order_request_lem}
use pa.Stub.Exchanges.{CanSend, send_message, CanSend-After}
use pa.Factory.{LaptopFactory, AdminRequest}
use pa.Factory.Engineer.{Engineer, waiting, serving_round}

-- The laptop that an engineer makes from an order.
abbrev pub laptop_for : LaptopOrder → ℤ → LaptopInfo
laptop_for o id = Info.set_info o.customer_id o.order_number o.laptop_type id (pos 1)

-- The request that goes to the admin for it.
abbrev pub request_of : LaptopOrder → ℤ → AdminRequest
request_of o id = record {
  type = pos 1;
  ops = order_op o.customer_id o.order_number;
  customer = Record.new;
  promise = id;
}

valid_is :
    {order o : LaptopOrder} → order ≡ o → Order.is_valid o ≡ true → Order.is_valid order ≡ true
valid_is same valid = ap Order.is_valid same ∙ valid

type_is :
    {order o : LaptopOrder}
    → order ≡ o
    → (t : ℤ) → o.laptop_type ≡ t
    → eq_int order.laptop_type t ≡ true
type_is same t e = (eq_int_iff _ t).1 (ap (λ (x : LaptopOrder). x.laptop_type) same ∙ e)

-- An order of a regular laptop goes to the end of the queue of the admin, and the thread waits with
-- the laptop.
pub serving_round-regular :
    (m : Machine) (f : LaptopFactory) (e : Engineer) (o : LaptopOrder) (rest : List ℕ)
    → Fits (order_fields o)
    → Order.is_valid o ≡ true
    → o.laptop_type ≡ pos 1
    → stream e.link.recvs ≡ encode (order_fields o) ++ rest
    → RecvsDocumented e.link.recvs Order.size
    → Returns (serving_round m f e) (λ r.
      (r.0 ≡ record f { erq = f.erq ++ (request_of o e.id ∷ []) })
      × (r.1.id ≡ e.id)
      × (r.1.phase ≡ waiting (laptop_for o e.id))
      × After e.link rest r.1.link)
unfolding serving_round
serving_round-regular m f e o rest fits valid regular arrives rd =
    Returns-bind _ (receive_order_request m e.link) _
      (receive_order_request_lem m o e.link rest fits arrives rd)
      (λ (order, l) (same, a).
        Returns-if _ _ _ _
          (λ t.
            Returns-if _ _ _ _
              (λ t2. (
                ap (λ x. record f { erq = f.erq ++ (request_of x e.id ∷ []) }) same,
                refl,
                ap (λ x. waiting (laptop_for x e.id)) same,
                a,
              ))
              (λ t2. absurd (false≢true (sym t2 ∙ type_is same (pos 1) regular))))
          (λ t. absurd (false≢true (sym t ∙ valid_is same valid))))

-- The answer to a read went out, or the socket was lost.
abbrev pub Answered : CustomerRecord → Link → Link → Type 0
Answered record' l l' =
    ((l'.sent ≡ l.sent ++ encode (record_fields record')) × (l'.socket ≡ l.socket))
    ⊎ (l'.socket.valid ≡ false)

return_record_lem :
    (m : Machine) (r : CustomerRecord) (l : Link)
    → CanSend l Record.size
    → Returns (return_record m r l) (λ x. Answered r l x.1)
unfolding return_record
return_record_lem m r l c =
    Returns-mono (send l _ Record.size)
      (send_message l _ _ Record.size
        (omega (arith, record-length m.host r (buffer m 32) fits, fits))
        (record-wire m.host r (buffer m 32) fits) c)
      answered
  where
    fits : Record.size ≤ length (buffer m 32)
    fits = omega (arith, length-buffer m 32)

    answered : (x : Bool × Link) → SendResult l (encode (record_fields r)) x → Answered r l x.1
    answered (true, l1) h = inl (h.0, h.1)
    answered (false, l1) h = inr h.0

reads_one {ℓ} : {A : Type ℓ} (t : ℤ) → (t ≡ pos 2) ⊎ (t ≡ pos 3) → eq_int t (pos 1) ≡ true → A
reads_one t kind e = absurd (ground (arith, eq_int_iff t (pos 1)))

reads_other {ℓ} :
    {A : Type ℓ} (t : ℤ)
    → (t ≡ pos 2) ⊎ (t ≡ pos 3)
    → eq_int t (pos 2) ≡ false
    → eq_int t (pos 3) ≡ false
    → A
reads_other t kind e2 e3 = absurd (ground (arith, eq_int_iff t (pos 2), eq_int_iff t (pos 3)))

-- A request for a record, of type 2 or 3, is answered at once with the customer's number and the
-- latest order in the storage, and changes nothing in the factory.
pub serving_round-read :
    (m : Machine) (f : LaptopFactory) (e : Engineer) (o : LaptopOrder) (rest : List ℕ)
    → Fits (order_fields o)
    → Order.is_valid o ≡ true
    → (o.laptop_type ≡ pos 2) ⊎ (o.laptop_type ≡ pos 3)
    → stream e.link.recvs ≡ encode (order_fields o) ++ rest
    → RecvsDocumented e.link.recvs Order.size
    → CanSend e.link Record.size
    → Returns (serving_round m f e) (λ r.
      (r.0 ≡ f)
      × (r.1.phase ≡ e.phase)
      × Answered
          (Record.make o.customer_id (read_record f.server_storage o.customer_id))
          e.link
          r.1.link)
unfolding serving_round
serving_round-read m f e o rest fits valid reads arrives rd cs =
    Returns-bind _ (receive_order_request m e.link) _
      (receive_order_request_lem m o e.link rest fits arrives rd)
      (λ (order, l) (same, a).
        let kind : (order.laptop_type ≡ pos 2) ⊎ (order.laptop_type ≡ pos 3) =
          subst (λ (x : LaptopOrder). (x.laptop_type ≡ pos 2) ⊎ (x.laptop_type ≡ pos 3)) (sym same)
            reads in
        Returns-if _ _ _ _
          (λ t.
            Returns-if _ _ _ _ (λ t1. reads_one order.laptop_type kind t1)
              (λ t1.
                Returns-if _ _ _ _ (λ t2. answer order l same a)
                  (λ t2.
                    Returns-if _ _ _ _ (λ t3. answer order l same a)
                      (λ t3. reads_other order.laptop_type kind t2 t3))))
          (λ t. absurd (false≢true (sym t ∙ valid_is same valid))))
  where
    found : LaptopOrder → CustomerRecord
    found x = Record.make x.customer_id (read_record f.server_storage x.customer_id)

    moved :
        (l l1 : Link) → After e.link rest l → Answered (found o) l l1 → Answered (found o) e.link l1
    moved l l1 a (inl h) =
        inl (h.0 ∙ ap (λ b. b ++ encode (record_fields (found o))) a.same_sent, h.1 ∙ a.same_socket)
    moved l l1 a (inr h) = inr h

    answer :
        (order : LaptopOrder) (l : Link)
        → order ≡ o
        → After e.link rest l
        → Returns {A = LaptopFactory × Engineer}
            (return_record m (found order) l >>= λ (ok, l1). done (f, record e { link = l1 }))
            (λ r. (r.0 ≡ f) × (r.1.phase ≡ e.phase) × Answered (found o) e.link r.1.link)
    answer order l same a =
        Returns-bind _ (return_record m (found order) l) _
          (return_record_lem m (found order) l (CanSend-After e.link l rest Record.size a cs))
          (λ (ok, l1) h. (refl, refl, moved l l1 a (subst (λ x. Answered (found x) l l1) same h)))
