-- ===== src/Factory/Deeds.antt =====
-- What one step of an engineer does to the queue, the values and the storage of its factory.
use pa.Prelude.{
  ◌≡◌, ◌∙◌, refl, sym, ap, subst, inl, inr, Option-cases, some, List, [], ◌∷◌, ◌++◌, append-nil,
  arith, ℕ, ℤ, pos, eq_int,
}
use pa.Machine.{Machine}
use pa.Messages.Order
use pa.Messages.Order.{LaptopOrder}
use pa.Messages.Info.{LaptopInfo}
use pa.Messages.Record.{CustomerRecord}
use pa.Messages.Request.{MapOp, ReplicationRequest}
use pa.Storage.{order_op, place_order}
use pa.Storage.Latest.{IsReplay, place_order-IsReplay}
use pa.Socket.{Link, Outcome, done, ◌>>=◌}
use pa.Socket.Whenever.{Whenever, Whenever-bind, Whenever-then, Whenever-if}
use pa.Stub.Server.{
  receive_order_request, receive_replication_request, receive_status_info, send_replication_result,
  return_record, send_laptop, destroy,
}
use pa.Factory.{AdminRequest, LaptopFactory}
use pa.Factory.Serving.{request_of}
use pa.Factory.Engineer.{
  Engineer, Phase, starting, replica, serving, waiting, idling, ended, take_promise,
  create_regular_laptop, identify, get_customer_record, acknowledgement, phase_of, apply_request,
  replica_round, serving_round, deliver_laptop, engineer_step,
}

-- 1 for a thread that waits for a promise.
abbrev pub waits : Phase → ℕ
waits (waiting laptop) = 1
waits _ = 0

-- The operation that a laptop was ordered with.
abbrev pub asked : LaptopInfo → MapOp
asked laptop = order_op laptop.customer_id laptop.order_number

-- The log only grows, and the map goes with it.
pub record Grown (f f' : LaptopFactory) : Type 0 where
  pub added : List MapOp
  pub log : f'.server_storage.state_machine_log ≡ f.server_storage.state_machine_log ++ added
  pub replay : IsReplay f.server_storage → IsReplay f'.server_storage

pub Grown-refl : (f f' : LaptopFactory) → f'.server_storage ≡ f.server_storage → Grown f f'
Grown-refl f f' same = record {
  added = [];
  log = ap (λ s. s.state_machine_log) same ∙ sym (append-nil f.server_storage.state_machine_log);
  replay = λ h. subst IsReplay (sym same) h;
}

pub Grown-place :
    (f f' : LaptopFactory) (c n : ℤ)
    → f'.server_storage ≡ place_order f.server_storage c n
    → Grown f f'
unfolding place_order
Grown-place f f' c n same = record {
  added = order_op c n ∷ [];
  log = ap (λ s. s.state_machine_log) same;
  replay = λ h. subst IsReplay (sym same) (place_order-IsReplay f.server_storage c n h);
}

-- What happens to the promises: nothing, a new one is queued with a request for the laptop, or the
-- value of one is taken.
pub data Deed (f : LaptopFactory) (e : Engineer) (f' : LaptopFactory) (e' : Engineer) : Type 0 where
  quiet :
      f'.erq ≡ f.erq
      → f'.fulfilled ≡ f.fulfilled
      → waits e.phase ≡ 0
      → waits e'.phase ≡ 0
      → Deed f e f' e'
  asks :
      (laptop : LaptopInfo) (req : AdminRequest)
      → f'.erq ≡ f.erq ++ (req ∷ [])
      → f'.fulfilled ≡ f.fulfilled
      → waits e.phase ≡ 0
      → e'.phase ≡ waiting laptop
      → req.promise ≡ e.id
      → req.type ≡ pos 1
      → req.ops ≡ asked laptop
      → Deed f e f' e'
  gets :
      (laptop : LaptopInfo) (value : CustomerRecord)
      → f'.erq ≡ f.erq
      → take_promise e.id f.fulfilled ≡ some (value, f'.fulfilled)
      → e.phase ≡ waiting laptop
      → waits e'.phase ≡ 0
      → Deed f e f' e'

pub record Steps (f : LaptopFactory) (e : Engineer) (f' : LaptopFactory) (e' : Engineer)
    : Type 0 where
  pub same_id : e'.id ≡ e.id
  pub grown : Grown f f'
  pub deed : Deed f e f' e'

waits-phase_of : (status : ℤ) → waits (phase_of status) ≡ 0
waits-phase_of status = ground arith

module _ (m : Machine) (f : LaptopFactory) (e : Engineer) where
  abbrev StepsBoth : LaptopFactory × Engineer → Type 0
  StepsBoth r = Steps f e r.0 r.1

  applied :
      (req : ReplicationRequest) (l : Link)
      → e.phase ≡ replica
      → Steps f e (apply_request f req) (record e { link = l })
  unfolding apply_request
  applied req l phase = record {
    same_id = refl;
    grown = Grown-place _ _ req.operation.arg1 req.operation.arg2 refl;
    deed = quiet refl refl (ap waits phase) (ap waits phase);
  }

  replica_round-Steps :
      (unset : ReplicationRequest)
      → e.phase ≡ replica
      → Whenever (replica_round m unset f e) StepsBoth
  unfolding replica_round
  replica_round-Steps unset phase =
      Whenever-then StepsBoth (receive_replication_request m unset e.link) _ (λ (req, l).
        Whenever-if StepsBoth l.socket.valid _ _
          (λ t.
            Whenever-then StepsBoth (send_replication_result m (acknowledgement req) l) _
              (λ (ok, l1). applied req l1 phase))
          (λ t. record {
            same_id = refl;
            grown = Grown-refl _ _ refl;
            deed = quiet refl refl (ap waits phase) refl;
          }))

  -- The factory and the thread as they were, but for the link.
  relinked : (l : Link) → waits e.phase ≡ 0 → Steps f e f (record e { link = l })
  relinked l calm = record {
    same_id = refl;
    grown = Grown-refl f f refl;
    deed = quiet refl refl calm calm;
  }

  gone : (l : Link) → e.phase ≡ serving → Steps f e f (record e { link = destroy l; phase = ended })
  gone l phase = record {
    same_id = refl;
    grown = Grown-refl _ _ refl;
    deed = quiet refl refl (ap waits phase) refl;
  }

  queues :
      (order : LaptopOrder) (l : Link)
      → e.phase ≡ serving
      → StepsBoth (
          let made = create_regular_laptop f order e.id in
          (made.0, record e { link = l; phase = waiting made.1 }))
  unfolding create_regular_laptop
  queues order l phase = record {
    same_id = refl;
    grown = Grown-refl _ _ refl;
    deed = asks _ (request_of order e.id) refl refl (ap waits phase) refl refl refl refl;
  }

  serving_round-Steps : e.phase ≡ serving → Whenever (serving_round m f e) StepsBoth
  unfolding serving_round
  serving_round-Steps phase =
      Whenever-then StepsBoth (receive_order_request m e.link) _ (λ (order, l).
        Whenever-if StepsBoth (Order.is_valid order) _ _
          (λ t.
            Whenever-if StepsBoth (eq_int order.laptop_type (pos 1)) _ _
              (λ t1. queues order l phase)
              (λ t1.
                Whenever-if StepsBoth (eq_int order.laptop_type (pos 2)) _ _ (λ t2. answers order l)
                  (λ t2.
                    Whenever-if StepsBoth (eq_int order.laptop_type (pos 3)) _ _
                      (λ t3. answers order l) (λ t3. relinked l (ap waits phase)))))
          (λ t. gone l phase))
    where
      answers :
          (order : LaptopOrder) (l : Link)
          → Whenever
              (return_record m (get_customer_record f order) l >>= λ (ok, l1).
                done (f, record e { link = l1 }))
              StepsBoth
      answers order l =
          Whenever-then StepsBoth (return_record m (get_customer_record f order) l) _
            (λ (ok, l1). relinked l1 (ap waits phase))

  deliver_laptop-Steps :
      (laptop : LaptopInfo)
      → e.phase ≡ waiting laptop
      → Whenever (deliver_laptop m f e laptop) StepsBoth
  unfolding deliver_laptop
  deliver_laptop-Steps laptop phase = elim (Option-cases (take_promise e.id f.fulfilled)) [
    | inl no_value ↦ rw (no_value, deliver_laptop) tt
    | inr ((value, rest), here) ↦
        rw (here, deliver_laptop)
          (Whenever-then StepsBoth (send_laptop m laptop e.link) _ (λ (ok, l). record {
            same_id = refl;
            grown = Grown-refl _ _ refl;
            deed = gets laptop value refl here phase refl;
          }))
  ]

  identify-Steps : e.phase ≡ starting → Whenever (identify m e) (λ e'. Steps f e f e')
  unfolding identify
  identify-Steps phase =
      Whenever-then (λ e'. Steps f e f e') (receive_status_info m e.link) _
        (λ (status, l). record {
          same_id = refl;
          grown = Grown-refl f f refl;
          deed = quiet refl refl (ap waits phase) (waits-phase_of status);
        })

  abbrev pub at_phase : ReplicationRequest → Phase → Outcome (LaptopFactory × Engineer)
  at_phase unset p = elim p [
    | starting ↦ identify m e >>= λ e1. done (f, e1)
    | replica ↦ replica_round m unset f e
    | serving ↦ serving_round m f e
    | waiting laptop ↦ deliver_laptop m f e laptop
    | idling ↦ done (f, e)
    | ended ↦ done (f, e)
  ]

  at_phase-Steps :
      (unset : ReplicationRequest) (p : Phase) → e.phase ≡ p → Whenever (at_phase unset p) StepsBoth
  at_phase-Steps unset starting same =
      Whenever-bind StepsBoth (identify m e) _ (identify-Steps same) (λ e1 k. k)
  at_phase-Steps unset replica same = replica_round-Steps unset same
  at_phase-Steps unset serving same = serving_round-Steps same
  at_phase-Steps unset (waiting laptop) same = deliver_laptop-Steps laptop same
  at_phase-Steps unset idling same = relinked e.link (ap waits same)
  at_phase-Steps unset ended same = relinked e.link (ap waits same)

  -- Whatever the step is.
  pub engineer_step-Steps :
      (unset : ReplicationRequest) → Whenever (engineer_step m unset f e) StepsBoth
  unfolding engineer_step
  engineer_step-Steps unset = at_phase-Steps unset e.phase refl
