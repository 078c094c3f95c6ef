-- ===== src/Factory/Delivery.antt =====
-- From a customer's order to the laptop: the engineer, the admin and the engineer again.
use pa.Prelude.{
  ℕ, ◌≤◌, ◌≡◌, refl, sym, ap, ◌∙◌, subst, ◌⊎◌, inl, inr, Bool, true, false, some, List, [], ◌∷◌,
  ◌++◌, length, arith, ℤ, pos, eq_int_iff,
}
use pa.Machine.{Machine, buffer, length-buffer}
use pa.Messages.Fields.{encode}
use pa.Messages.Order
use pa.Messages.Order.{LaptopOrder}
use pa.Messages.Info
use pa.Messages.Info.{LaptopInfo}
use pa.Messages.Record
use pa.Messages.Record.{CustomerRecord}
use pa.Messages.Request.{ReplicationRequest}
use pa.Messages.RoundTrip.{order_fields, info_fields, info-wire, info-length, Fits}
use pa.Storage.{place_order}
use pa.Socket.{Link, send, Returns, Returns-bind, Returns-mono}
use pa.Socket.Sending.{SendResult}
use pa.Socket.Receiving.{stream, RecvsDocumented}
use pa.Stub.Server.{send_laptop}
use pa.Stub.Receives.{After}
use pa.Stub.Client.{Dial}
use pa.Stub.Exchanges.{CanSend, send_message, CanSend-After}
use pa.Factory.{LaptopFactory, AdminRequest, admin_round}
use pa.Factory.Engineer.{Engineer, Phase, waiting, take_promise, deliver_laptop, engineer_step}
use pa.Factory.Serving.{laptop_for, request_of, serving_round-regular}
use pa.Factory.Replication.{IsPrimary, AllReady, Placed, admin_order-Placed}

-- The laptop's description went out, or the socket was lost.
abbrev pub Handed : LaptopInfo → Link → Link → Type 0
Handed laptop l l' =
    ((l'.sent ≡ l.sent ++ encode (info_fields laptop)) × (l'.socket ≡ l.socket))
    ⊎ (l'.socket.valid ≡ false)

send_laptop_lem :
    (m : Machine) (laptop : LaptopInfo) (l : Link)
    → CanSend l Info.size
    → Returns (send_laptop m laptop l) (λ x. Handed laptop l x.1)
unfolding send_laptop
send_laptop_lem m laptop l c =
    Returns-mono (send l _ Info.size)
      (send_message l _ _ Info.size
        (omega (arith, info-length m.host laptop (buffer m 32) fits, fits))
        (info-wire m.host laptop (buffer m 32) fits) c)
      handed
  where
    fits : Info.size ≤ length (buffer m 32)
    fits = omega (arith, length-buffer m 32)

    handed : (x : Bool × Link) → SendResult l (encode (info_fields laptop)) x → Handed laptop l x.1
    handed (true, l1) h = inl (h.0, h.1)
    handed (false, l1) h = inr h.0

-- The promise that was fulfilled last is the one that its engineer fetches.
take_promise-fulfilled :
    (id : ℤ) (v : CustomerRecord) (others : List (ℤ × CustomerRecord))
    → take_promise id ((id, v) ∷ others) ≡ some (v, others)
unfolding take_promise
take_promise-fulfilled id v others = rw (take_promise, (eq_int_iff id id).1 refl) refl

deliver_laptop_lem :
    (m : Machine) (f : LaptopFactory) (e : Engineer) (laptop : LaptopInfo) (v : CustomerRecord)
    (others : List (ℤ × CustomerRecord))
    → take_promise e.id f.fulfilled ≡ some (v, others)
    → CanSend e.link Info.size
    → Returns (deliver_laptop m f e laptop) (λ r.
      (r.0 ≡ record f { fulfilled = others })
      × (r.1.phase ≡ Phase.serving)
      × Handed laptop e.link r.1.link)
unfolding deliver_laptop
deliver_laptop_lem m f e laptop v others found c =
    rw (found, deliver_laptop)
      (Returns-bind _ (send_laptop m laptop e.link) _ (send_laptop_lem m laptop e.link c)
        (λ (ok, l) h. (refl, refl, h)))

-- An engineer who waits for a promise that has a value takes it, and hands the laptop over.
waiting_step :
    (m : Machine) (unset : ReplicationRequest) (f : LaptopFactory) (e : Engineer)
    (laptop : LaptopInfo) (v : CustomerRecord) (others : List (ℤ × CustomerRecord))
    → e.phase ≡ waiting laptop
    → f.fulfilled ≡ (e.id, v) ∷ others
    → CanSend e.link Info.size
    → Returns (engineer_step m unset f e) (λ r.
      (r.0 ≡ record f { fulfilled = others })
      × (r.1.phase ≡ Phase.serving)
      × Handed laptop e.link r.1.link)
unfolding engineer_step
waiting_step m unset f e laptop v others waits told c =
    rw (waits, engineer_step)
      (deliver_laptop_lem m f e laptop v others
        (ap (take_promise e.id) told ∙ take_promise-fulfilled e.id v others) c)

-- A round of the admin with an order at the front of the queue places that order.
admin_round-Placed :
    (m : Machine) (f : LaptopFactory) (req : AdminRequest) (rest : List AdminRequest)
    (dials : List Dial)
    → f.erq ≡ req ∷ rest
    → req.type ≡ pos 1
    → IsPrimary f
    → AllReady f.stubs
    → length f.stubs ≤ length dials
    → Returns (admin_round m f dials) (λ r. Placed m (record f { erq = rest }) req r.0)
unfolding admin_round
admin_round-Placed m f req rest dials queued order p ready enough =
    rw (queued, (eq_int_iff req.type (pos 1)).1 order)
      (admin_order-Placed m (record f { erq = rest }) req dials
        (record { named = p.named; known = p.known }) ready enough)

-- A thread that serves takes up an order of a regular laptop.
serving_step :
    (m : Machine) (unset : ReplicationRequest) (f : LaptopFactory) (e : Engineer) (o : LaptopOrder)
    (rest : List ℕ)
    → e.phase ≡ Phase.serving
    → Fits (order_fields o)
    → Order.is_valid o ≡ true
    → o.laptop_type ≡ pos 1
    → stream e.link.recvs ≡ encode (order_fields o) ++ rest
    → RecvsDocumented e.link.recvs Order.size
    → Returns (engineer_step m unset f e) (λ r.
      (r.0 ≡ record f { erq = f.erq ++ (request_of o e.id ∷ []) })
      × (r.1.id ≡ e.id)
      × (r.1.phase ≡ waiting (laptop_for o e.id))
      × After e.link rest r.1.link)
unfolding engineer_step
serving_step m unset f e o rest serves fits valid regular arrives rd =
    rw (serves, engineer_step) (serving_round-regular m f e o rest fits valid regular arrives rd)

-- What a customer's order leaves behind: it is stored, queue and promises are as before, the thread
-- serves on, and the laptop made for the order is on its way or the customer's socket is lost.
pub record Delivered (f : LaptopFactory) (e : Engineer) (o : LaptopOrder) (f' : LaptopFactory)
    (e' : Engineer) : Type 0 where
  pub stored : f'.server_storage ≡ place_order f.server_storage o.customer_id o.order_number
  pub queue : f'.erq ≡ []
  pub promises : f'.fulfilled ≡ f.fulfilled
  pub serves : e'.phase ≡ Phase.serving
  pub handed :
      ((e'.link.sent ≡ e.link.sent ++ encode (info_fields (laptop_for o e.id)))
        × (e'.link.socket ≡ e.link.socket))
      ⊎ (e'.link.socket.valid ≡ false)

Handed-After :
    (laptop : LaptopInfo) (l l1 l2 : Link) (rest : List ℕ)
    → After l rest l1
    → Handed laptop l1 l2
    → Handed laptop l l2
Handed-After laptop l l1 l2 rest a (inl h) =
    inl (h.0 ∙ ap (λ b. b ++ encode (info_fields laptop)) a.same_sent, h.1 ∙ a.same_socket)
Handed-After laptop l l1 l2 rest a (inr h) = inr h

-- The admin's round and the engineer's next step, once the order is in the queue.
queued_order :
    (m : Machine) (unset : ReplicationRequest) (f : LaptopFactory) (e e1 : Engineer)
    (o : LaptopOrder) (rest : List ℕ) (dials : List Dial)
    → CanSend e.link Info.size
    → IsPrimary f
    → AllReady f.stubs
    → length f.stubs ≤ length dials
    → e1.id ≡ e.id
    → e1.phase ≡ waiting (laptop_for o e.id)
    → After e.link rest e1.link
    → Returns
        (admin_round m (record f { erq = request_of o e.id ∷ [] }) dials)
        (λ r2. Returns (engineer_step m unset r2.0 e1) (λ r3. Delivered f e o r3.0 r3.1))
queued_order m unset f e e1 o rest dials c p ready enough same waits a =
    Returns-mono (admin_round m (record f { erq = request_of o e.id ∷ [] }) dials)
      (admin_round-Placed m _ (request_of o e.id) [] dials refl refl
        (record { named = p.named; known = p.known }) ready enough)
      (λ (f2, rest2) placed.
        Returns-mono (engineer_step m unset f2 e1)
          (waiting_step m unset f2 e1 (laptop_for o e.id) Record.new f.fulfilled waits
            (placed.told ∙ ap (λ i. (i, Record.new) ∷ f.fulfilled) (sym same))
            (CanSend-After e.link e1.link rest Info.size a c))
          (λ (f3, e3) (taken, serves, h). record {
            stored = ap (λ x. x.server_storage) taken ∙ placed.stored;
            queue = ap (λ x. x.erq) taken ∙ placed.queue;
            promises = ap (λ x. x.fulfilled) taken;
            serves = serves;
            handed = Handed-After (laptop_for o e.id) e.link e1.link e3.link rest a h;
          }))

-- An order of a regular laptop that reaches a thread of a primary with an empty queue, followed by a
-- round of the admin and the thread's next step: all three return, with the order stored and the
-- laptop made for it sent to the customer, or the customer's socket lost.
pub order-Delivered :
    (m : Machine) (unset : ReplicationRequest) (f : LaptopFactory) (e : Engineer) (o : LaptopOrder)
    (rest : List ℕ) (dials : List Dial)
    → e.phase ≡ Phase.serving
    → Fits (order_fields o)
    → Order.is_valid o ≡ true
    → o.laptop_type ≡ pos 1
    → stream e.link.recvs ≡ encode (order_fields o) ++ rest
    → RecvsDocumented e.link.recvs Order.size
    → CanSend e.link Info.size
    → f.erq ≡ []
    → IsPrimary f
    → AllReady f.stubs
    → length f.stubs ≤ length dials
    → Returns (engineer_step m unset f e) (λ r1.
      Returns
        (admin_round m r1.0 dials)
        (λ r2. Returns (engineer_step m unset r2.0 r1.1) (λ r3. Delivered f e o r3.0 r3.1)))
order-Delivered m unset f e o rest dials serves fits valid regular arrives rd c empty p ready
      enough =
    Returns-mono (engineer_step m unset f e)
      (serving_step m unset f e o rest serves fits valid regular arrives rd)
      (λ (f1, e1) (made, same, waits, a).
        subst
          (λ g.
            Returns (admin_round m g dials)
              (λ r2. Returns (engineer_step m unset r2.0 e1) (λ r3. Delivered f e o r3.0 r3.1)))
          (sym (made ∙ ap (λ q. record f { erq = q ++ (request_of o e.id ∷ []) }) empty))
          (queued_order m unset f e e1 o rest dials c p ready enough same waits a))
