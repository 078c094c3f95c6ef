-- ===== src/Factory/Chores.antt =====
-- What one step of the admin does to the queue, the values and the storage of its factory.
use pa.Prelude.{
  ◌≡◌, refl, sym, ap, Bool, false, if◌then◌else◌, not, ◌||◌, List, [], ◌∷◌, ◌++◌, pos, minus_one,
  eq_int,
}
use pa.Machine.{Machine}
use pa.Messages.Record.{CustomerRecord}
use pa.Messages.Request.{MapOp, ReplicationRequest}
use pa.Storage.{order_op, place_order}
use pa.Socket.{Outcome, done, blocked}
use pa.Socket.Whenever.{Whenever, Whenever-bind, Whenever-then, Whenever-if}
use pa.Stub.Client.{Dial}
use pa.Factory.{
  AdminRequest, LaptopFactory, start_connection, connect_peers, replicate_all, admin_read,
}
use pa.Factory.Admin.{
  Admin, Place, ready, popped, connected, indexed, sending, sent, placed, committed, pop, choose,
  tell, step_at, admin_step,
}
use pa.Factory.Deeds.{Grown, Grown-refl, Grown-place}

-- The request in the admin's hands: before its order is in the log, and after.
abbrev pub to_place : Place → List AdminRequest
to_place ready = []
to_place (popped req) = req ∷ []
to_place (connected req) = req ∷ []
to_place (indexed req) = req ∷ []
to_place (sending req request) = req ∷ []
to_place (sent req) = req ∷ []
to_place (placed req) = []
to_place (committed req) = []

abbrev pub in_log : Place → List AdminRequest
in_log (placed req) = req ∷ []
in_log (committed req) = req ∷ []
in_log _ = []

-- The operation that is being replicated, and is not in the primary's log yet.
abbrev pub under_way : Place → List MapOp
under_way (sending req q) = order_op req.ops.arg1 req.ops.arg2 ∷ []
under_way (sent req) = order_op req.ops.arg1 req.ops.arg2 ∷ []
under_way _ = []

abbrev pub Hands : Admin → List AdminRequest → List AdminRequest → Type 0
Hands a before after = (to_place a.place ≡ before) × (in_log a.place ≡ after)

abbrev pub SameQueues : LaptopFactory → LaptopFactory → Type 0
SameQueues f f' = (f'.erq ≡ f.erq) × (f'.fulfilled ≡ f.fulfilled)

-- What happens to the requests: one is taken, none changes its place, the order of one enters the
-- log, or a promise gets its value, after the order or for a read.
pub data Chore (f : LaptopFactory) (a : Admin) (f' : LaptopFactory) (a' : Admin) : Type 0 where
  takes :
      (req : AdminRequest)
      → f.erq ≡ req ∷ f'.erq
      → f'.fulfilled ≡ f.fulfilled
      → Hands a [] []
      → Hands a' (req ∷ []) []
      → Chore f a f' a'
  works : SameQueues f f' → Hands a' (to_place a.place) (in_log a.place) → Chore f a f' a'
  places :
      (req : AdminRequest)
      → SameQueues f f'
      → Hands a (req ∷ []) []
      → Hands a' [] (req ∷ [])
      → f'.server_storage.state_machine_log
        ≡ f.server_storage.state_machine_log ++ (order_op req.ops.arg1 req.ops.arg2 ∷ [])
      → Chore f a f' a'
  fulfils :
      (req : AdminRequest) (value : CustomerRecord)
      → f'.erq ≡ f.erq
      → f'.fulfilled ≡ (req.promise, value) ∷ f.fulfilled
      → Hands a [] (req ∷ [])
      → Hands a' [] []
      → Chore f a f' a'
  reads :
      (req : AdminRequest) (value : CustomerRecord)
      → f'.erq ≡ f.erq
      → f'.fulfilled ≡ (req.promise, value) ∷ f.fulfilled
      → Hands a (req ∷ []) []
      → Hands a' [] []
      → eq_int req.type (pos 1) ≡ false
      → Chore f a f' a'

pub record Chores (f : LaptopFactory) (a : Admin) (f' : LaptopFactory) (a' : Admin) : Type 0 where
  pub grown : Grown f f'
  pub chore : Chore f a f' a'

module _ (m : Machine) (f : LaptopFactory) (a : Admin) where
  abbrev ChoresBoth : LaptopFactory × Admin → Type 0
  ChoresBoth r = Chores f a r.0 r.1

  -- The factory changes in other parts only, and the request stays where it is.
  same_request :
      (f' : LaptopFactory) (a' : Admin)
      → SameQueues f f'
      → f'.server_storage ≡ f.server_storage
      → Hands a' (to_place a.place) (in_log a.place)
      → Chores f a f' a'
  same_request f' a' same storage hands = record {
    grown = Grown-refl f f' storage;
    chore = works same hands;
  }

  pop-Chores : a.place ≡ ready → Whenever (pop f a.dials) ChoresBoth
  unfolding pop
  pop-Chores place = at_queue f.erq refl
    where
      of_queue : List AdminRequest → Outcome (LaptopFactory × Admin)
      of_queue q = elim q [
        | [] ↦ blocked
        | req ∷ rest ↦
            done (record f { erq = rest }, record { place = popped req; dials = a.dials })
      ]

      at_queue : (q : List AdminRequest) → f.erq ≡ q → Whenever (of_queue q) ChoresBoth
      at_queue [] queue = tt
      at_queue (req ∷ rest) queue = record {
        grown = Grown-refl _ _ refl;
        chore = takes req queue refl (ap to_place place, ap in_log place) (refl, refl);
      }

  start_connection-same :
      (dials : List Dial)
      → Whenever
          (start_connection m f dials)
          (λ r. SameQueues f r.0 × (r.0.server_storage ≡ f.server_storage))
  unfolding start_connection
  start_connection-same dials =
      Whenever-then _ (connect_peers m f.peer_list f.stubs dials) _ (λ r. ((refl, refl), refl))

  choose-Chores :
      (req : AdminRequest) → a.place ≡ popped req → Whenever (choose m f req a.dials) ChoresBoth
  unfolding choose admin_read
  choose-Chores req place =
      Whenever-if ChoresBoth (eq_int req.type (pos 1)) _ _
        (λ t.
          Whenever-bind ChoresBoth
            (if follows then start_connection m f a.dials else done (f, a.dials)) _
            (Whenever-if _ follows (start_connection m f a.dials) (done (f, a.dials))
              (λ u. start_connection-same a.dials) (λ u. ((refl, refl), refl)))
            (λ (f1, rest) (same, storage).
              same_request f1 _ same storage (sym (ap to_place place), sym (ap in_log place))))
        (λ t. record {
          grown = Grown-refl _ _ refl;
          chore = reads req _ refl refl (ap to_place place, ap in_log place) (refl, refl) t;
        })
    where
      follows : Bool
      follows = not (eq_int f.factory_id f.primary_id) || eq_int f.primary_id minus_one

  tell-Chores :
      (req : AdminRequest) (request : ReplicationRequest)
      → a.place ≡ sending req request
      → Whenever (tell m f req request a.dials) ChoresBoth
  unfolding tell
  tell-Chores req request place =
      Whenever-then ChoresBoth (replicate_all m f request f.stubs a.dials) _ (λ (stubs, rest).
        same_request _ _ (refl, refl) refl (sym (ap to_place place), sym (ap in_log place)))

  at_place-Chores : (p : Place) → a.place ≡ p → Whenever (step_at m f a p) ChoresBoth
  unfolding place_order step_at
  at_place-Chores ready place = pop-Chores place
  at_place-Chores (popped req) place = choose-Chores req place
  at_place-Chores (connected req) place =
      same_request _ _ (refl, refl) refl (sym (ap to_place place), sym (ap in_log place))
  at_place-Chores (indexed req) place =
      same_request f _ (refl, refl) refl (sym (ap to_place place), sym (ap in_log place))
  at_place-Chores (sending req request) place = tell-Chores req request place
  at_place-Chores (sent req) place = record {
    grown = Grown-place _ _ req.ops.arg1 req.ops.arg2 refl;
    chore = places req (refl, refl) (ap to_place place, ap in_log place) (refl, refl) refl;
  }
  at_place-Chores (placed req) place =
      same_request _ _ (refl, refl) refl (sym (ap to_place place), sym (ap in_log place))
  at_place-Chores (committed req) place = record {
    grown = Grown-refl _ _ refl;
    chore = fulfils req req.customer refl refl (ap to_place place, ap in_log place) (refl, refl);
  }

  -- Whatever the step is.
  pub admin_step-Chores : Whenever (admin_step m f a) ChoresBoth
  unfolding admin_step
  admin_step-Chores = at_place-Chores a.place refl
