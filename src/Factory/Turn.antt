-- ===== src/Factory/Turn.antt =====
-- One order of a customer on a primary with nothing else to do, over a kernel that carries the
-- messages: the engineer queues it, the admin places it, the engineer sends the laptop.
use pa.Prelude.{
  ℕ, suc, ◌≡◌, refl, sym, ap, ◌∙◌, true, List, [], ◌∷◌, ◌++◌, All, some, ℤ, pos, eq_int_iff,
}
use pa.Machine.{Machine}
use pa.Messages.Fields.{encode}
use pa.Messages.Order
use pa.Messages.Order.{LaptopOrder}
use pa.Messages.Info
use pa.Messages.Info.{LaptopInfo}
use pa.Messages.Record
use pa.Messages.Record.{CustomerRecord}
use pa.Messages.Request.{ReplicationRequest}
use pa.Messages.RoundTrip.{order_fields, info_fields, Fits}
use pa.Storage.{place_order}
use pa.Socket.{Link, Chunk, Outcome, done, ◌>>=◌, Returns, Returns-bind}
use pa.Socket.Healthy.{take_sends, take_chunks}
use pa.Stub.Client.{Dial}
use pa.Stub.Healthy.{exchanged}
use pa.Stub.Answers.{receive_order_request-taken, send_laptop-taken}
use pa.Factory.{LaptopFactory, AdminRequest, admin_order, admin_round}
use pa.Factory.Engineer.{
  Engineer, serving, waiting, take_promise, serving_round, deliver_laptop, create_regular_laptop,
  engineer_step,
}
use pa.Factory.Serving.{request_of, laptop_for}
use pa.Factory.Replication.{IsPrimary}
use pa.Factory.Rounds.{Carrying, admin_round-front, admin_order-Carrying}

-- A thread that serves, and one that waits.
abbrev pub serves : ℤ → Link → Engineer
serves id l = record { id = id; link = l; phase = serving }

abbrev waits_with : ℤ → Link → LaptopInfo → Engineer
waits_with id l laptop = record { id = id; link = l; phase = waiting laptop }

-- A step of the engineer, a round of the admin, and a step of the engineer.
unfoldable pub turn :
    Machine
    → ReplicationRequest
    → LaptopFactory
    → Engineer
    → List Dial
    → Outcome (LaptopFactory × Engineer × List Dial)
turn m unset f e dials = do
  (f1, e1) ← engineer_step m unset f e
  (f2, rest) ← admin_round m f1 dials
  (f3, e3) ← engineer_step m unset f2 e1
  done (f3, e3, rest)

serving_round-taken :
    (m : Machine) (f : LaptopFactory) (id : ℤ) (l : Link) (o : LaptopOrder) (recvs : List Chunk)
    → Fits (order_fields o)
    → Order.is_valid o ≡ true
    → o.laptop_type ≡ pos 1
    → take_chunks l.recvs Order.size ≡ some (encode (order_fields o), recvs)
    → serving_round m f (serves id l)
      ≡ done (
        record f { erq = f.erq ++ (request_of o id ∷ []) },
        waits_with id (record l { recvs = recvs }) (laptop_for o id),
      )
unfolding serving_round create_regular_laptop
serving_round-taken m f id l o recvs fits valid regular into =
    rw (receive_order_request-taken m o l recvs fits into)
      (rw valid (rw ((eq_int_iff o.laptop_type (pos 1)).1 regular) refl))

take_promise-first :
    (id : ℤ) (v : CustomerRecord) (others : List (ℤ × CustomerRecord))
    → take_promise id ((id, v) ∷ others) ≡ some (v, others)
unfolding take_promise
take_promise-first id v others = rw ((eq_int_iff id id).1 refl, take_promise) refl

deliver_laptop-taken :
    (m : Machine) (f : LaptopFactory) (id : ℤ) (l : Link) (laptop : LaptopInfo) (v : CustomerRecord)
    (others : List (ℤ × CustomerRecord)) (sends : List ℤ)
    → f.fulfilled ≡ (id, v) ∷ others
    → take_sends l.sends Info.size ≡ some sends
    → deliver_laptop m f (waits_with id l laptop) laptop
      ≡ done (
        record f { fulfilled = others },
        serves id (record l { sends = sends; sent = l.sent ++ encode (info_fields laptop) }),
      )
unfolding deliver_laptop
deliver_laptop-taken m f id l laptop v others sends fulfilled out =
    rw (ap (take_promise id) fulfilled ∙ take_promise-first id v others, deliver_laptop)
      (rw (send_laptop-taken m laptop l sends out) refl)

-- What a turn leaves behind: the order stored and the laptop sent, and all else ready for the next.
pub record Turned (f : LaptopFactory) (o : LaptopOrder) (n : ℕ) (f' : LaptopFactory) : Type 0 where
  pub storage : f'.server_storage ≡ place_order f.server_storage o.customer_id o.order_number
  pub queue : f'.erq ≡ []
  pub values : f'.fulfilled ≡ f.fulfilled
  pub primary : IsPrimary f'
  pub carrying : All (Carrying n) f'.stubs

pub turn-Turned :
    (m : Machine) (unset : ReplicationRequest) (f : LaptopFactory) (id : ℤ) (l : Link)
    (o : LaptopOrder) (n : ℕ) (dials : List Dial) (sends : List ℤ) (recvs : List Chunk)
    → Fits (order_fields o)
    → Order.is_valid o ≡ true
    → o.laptop_type ≡ pos 1
    → take_chunks l.recvs Order.size ≡ some (encode (order_fields o), recvs)
    → take_sends l.sends Info.size ≡ some sends
    → f.erq ≡ []
    → IsPrimary f
    → All (Carrying (suc n)) f.stubs
    → Returns (turn m unset f (serves id l) dials) (λ r.
      Turned f o n r.0
      × (r.1 ≡ serves id (exchanged l sends recvs (encode (info_fields (laptop_for o id)))))
      × (r.2 ≡ dials))
unfolding turn engineer_step
turn-Turned m unset f id l o n dials sends recvs fits valid regular into out queue p c =
    rw (serving_round-taken m f id l o recvs fits valid regular into) (
      rw (admin_round-front m f1 req [] dials (ap (λ q. q ++ (req ∷ [])) queue) refl) (
        Returns-bind _ (admin_order m (record f1 { erq = [] }) req dials) _
          (admin_order-Carrying m (record f1 { erq = [] }) req n dials
            (record { named = p.named; known = p.known }) c)
          (λ (f2, rest) (same, told, carry, samed).
            rw
              (deliver_laptop-taken m f2 id (record l { recvs = recvs }) (laptop_for o id)
                Record.new f.fulfilled sends (ap (λ x. x.fulfilled) same) out)
              (
                record {
                  storage = ap (λ x. x.server_storage) same;
                  queue = ap (λ x. x.erq) same;
                  values = refl;
                  primary = record {
                    named =
                        ap (λ x. x.primary_id) same ∙ p.named ∙ sym (ap (λ x. x.factory_id) same);
                    known = λ e. p.known (sym (ap (λ x. x.primary_id) same) ∙ e);
                  };
                  carrying = carry;
                },
                refl,
                samed,
              ))))
  where
    req : AdminRequest
    req = request_of o id

    f1 : LaptopFactory
    f1 = record f { erq = f.erq ++ (req ∷ []) }
