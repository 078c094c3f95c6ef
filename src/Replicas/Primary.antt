-- ===== src/Replicas/Primary.antt =====
-- What the steps of a primary do to its storage, and to the request in its admin's hands.
use pa.Prelude.{◌≡◌, ◌≢◌, refl, ap, List, [], ◌∷◌, inl, inr, Option-cases, pos, eq_int}
use pa.Machine.{Machine}
use pa.Messages.Request.{ReplicationRequest}
use pa.Storage.{order_op, place_order}
use pa.Socket.{Link, Outcome, done, blocked, ◌>>=◌}
use pa.Socket.Whenever.{Whenever, Whenever-then, Whenever-if}
use pa.Messages.Order
use pa.Messages.Order.{LaptopOrder}
use pa.Messages.Info.{LaptopInfo}
use pa.Factory.Deeds.{at_phase}
use pa.Factory.Chores.{under_way}
use pa.Stub.Server.{receive_order_request, return_record, send_laptop}
use pa.Factory.{LaptopFactory, AdminRequest, admin_read}
use pa.Factory.Admin.{
  Admin, Place, ready, popped, connected, indexed, sending, sent, placed, committed, pop, choose,
  step_at, admin_step,
}
use pa.Factory.Engineer.{
  Engineer, Phase, starting, replica, serving, waiting, idling, ended, take_promise,
  create_regular_laptop, identify, get_customer_record, serving_round, deliver_laptop,
  engineer_step,
}
use pa.Factory.Replication.{IsPrimary, follows_of_IsPrimary}

-- The storage and the primary are as they were.
pub record Steady (f f' : LaptopFactory) : Type 0 where
  pub storage : f'.server_storage ≡ f.server_storage
  pub primary : f'.primary_id ≡ f.primary_id
  pub factory : f'.factory_id ≡ f.factory_id

-- Three kinds of step: nothing is under way before and after, a request gets under way, and an
-- operation enters the log.
pub data Kind (f f' : LaptopFactory) (p p' : Place) : Type 0 where
  calm : Steady f f' → under_way p ≡ [] → under_way p' ≡ [] → Kind f f' p p'
  begins :
      (req : AdminRequest) (q : ReplicationRequest)
      → Steady f f'
      → under_way p ≡ []
      → p' ≡ sending req q
      → q.operation ≡ order_op req.ops.arg1 req.ops.arg2
      → Kind f f' p p'
  stores :
      (req : AdminRequest)
      → p ≡ sent req
      → under_way p' ≡ []
      → f'.primary_id ≡ f.primary_id
      → f'.factory_id ≡ f.factory_id
      → f'.server_storage ≡ place_order f.server_storage req.ops.arg1 req.ops.arg2
      → Kind f f' p p'

steady :
    {f f' : LaptopFactory}
    → f'.server_storage ≡ f.server_storage
    → f'.primary_id ≡ f.primary_id
    → f'.factory_id ≡ f.factory_id
    → Steady f f'
steady storage primary factory = record { storage = storage; primary = primary; factory = factory }

-- What one step of the admin does.
module _ (m : Machine) (f : LaptopFactory) (a : Admin) where
  pop-Kind : under_way a.place ≡ [] → Whenever (pop f a.dials) (λ r. Kind f r.0 a.place r.1.place)
  unfolding pop
  pop-Kind none = elim f.erq as (λ q. Whenever (of_queue q) (λ r. Kind f r.0 a.place r.1.place)) [
    | [] ↦ tt
    | req ∷ rest ↦ calm (steady refl refl refl) none refl
  ]
    where
      of_queue : List AdminRequest → Outcome (LaptopFactory × Admin)
      of_queue q = elim q [
        | [] ↦ blocked
        | req ∷ rest ↦
            done (record f { erq = rest }, record { place = popped req; dials = a.dials })
      ]

  choose-Kind :
      (req : AdminRequest)
      → IsPrimary f
      → under_way a.place ≡ []
      → Whenever (choose m f req a.dials) (λ r. Kind f r.0 a.place r.1.place)
  unfolding choose admin_read
  choose-Kind req p none = rw (follows_of_IsPrimary f p) (
      Whenever-if _ (eq_int req.type (pos 1)) _ _ (λ t. calm (steady refl refl refl) none refl)
        (λ t. calm (steady refl refl refl) none refl))

  step_at-Kind :
      (p : Place)
      → a.place ≡ p
      → ((req : AdminRequest) (q : ReplicationRequest) → p ≢ sending req q)
      → IsPrimary f
      → Whenever (step_at m f a p) (λ r. Kind f r.0 a.place r.1.place)
  unfolding step_at
  step_at-Kind ready e alone p = pop-Kind (ap under_way e)
  step_at-Kind (popped req) e alone p = choose-Kind req p (ap under_way e)
  step_at-Kind (connected req) e alone p = calm (steady refl refl refl) (ap under_way e) refl
  step_at-Kind (indexed req) e alone p =
      begins req _ (steady refl refl refl) (ap under_way e) refl refl
  step_at-Kind (sending req q) e alone p = absurd (alone req q refl)
  step_at-Kind (sent req) e alone p = stores req e refl refl refl refl
  step_at-Kind (placed req) e alone p = calm (steady refl refl refl) (ap under_way e) refl
  step_at-Kind (committed req) e alone p = calm (steady refl refl refl) (ap under_way e) refl

-- A step of a primary's admin, but for the loop over the stubs.
pub admin_step-Kind :
    (m : Machine) (f : LaptopFactory) (a : Admin)
    → ((req : AdminRequest) (q : ReplicationRequest) → a.place ≢ sending req q)
    → IsPrimary f
    → Whenever (admin_step m f a) (λ r. Kind f r.0 a.place r.1.place)
unfolding admin_step
admin_step-Kind m f a alone p = step_at-Kind m f a a.place refl alone p

module _ (m : Machine) (f : LaptopFactory) (e : Engineer) where
  abbrev SteadyBoth : LaptopFactory × Engineer → Type 0
  SteadyBoth r = Steady f r.0

  serving_round-Steady : Whenever (serving_round m f e) SteadyBoth
  unfolding serving_round create_regular_laptop get_customer_record
  serving_round-Steady = Whenever-then SteadyBoth (receive_order_request m e.link) _ (λ (order, l).
      Whenever-if SteadyBoth (Order.is_valid order) _ _
        (λ t.
          Whenever-if SteadyBoth (eq_int order.laptop_type (pos 1)) _ _
            (λ t1. steady refl refl refl)
            (λ t1.
              Whenever-if SteadyBoth (eq_int order.laptop_type (pos 2)) _ _ (λ t2. answers order l)
                (λ t2.
                  Whenever-if SteadyBoth (eq_int order.laptop_type (pos 3)) _ _
                    (λ t3. answers order l) (λ t3. steady refl refl refl))))
        (λ t. steady refl refl refl))
    where
      answers :
          (order : LaptopOrder) (l : Link)
          → Whenever
              (return_record m (get_customer_record f order) l >>= λ (ok, l1).
                done (f, record e { link = l1 }))
              SteadyBoth
      answers order l =
          Whenever-then SteadyBoth (return_record m (get_customer_record f order) l) _
            (λ (ok, l1). steady refl refl refl)

  deliver_laptop-Steady : (laptop : LaptopInfo) → Whenever (deliver_laptop m f e laptop) SteadyBoth
  unfolding deliver_laptop
  deliver_laptop-Steady laptop = elim (Option-cases (take_promise e.id f.fulfilled)) [
    | inl no_value ↦ rw (no_value, deliver_laptop) tt
    | inr ((value, rest), here) ↦
        rw (here, deliver_laptop)
          (Whenever-then SteadyBoth (send_laptop m laptop e.link) _
            (λ (ok, l). steady refl refl refl))
  ]

  at_phase-Steady :
      (unset : ReplicationRequest) (p : Phase)
      → p ≢ replica
      → Whenever (at_phase m f e unset p) SteadyBoth
  at_phase-Steady unset starting other =
      Whenever-then SteadyBoth (identify m e) _ (λ e1. steady refl refl refl)
  at_phase-Steady unset replica other = absurd (other refl)
  at_phase-Steady unset serving other = serving_round-Steady
  at_phase-Steady unset (waiting laptop) other = deliver_laptop-Steady laptop
  at_phase-Steady unset idling other = steady refl refl refl
  at_phase-Steady unset ended other = steady refl refl refl

  -- A step of an engineer that does not follow another server.
  pub engineer_step-Steady :
      (unset : ReplicationRequest)
      → e.phase ≢ replica
      → Whenever (engineer_step m unset f e) SteadyBoth
  unfolding engineer_step
  engineer_step-Steady unset other = at_phase-Steady unset e.phase other
