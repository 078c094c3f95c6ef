-- ===== src/Factory/Admin.antt =====
-- LaptopFactory::ProductionAdminThread of ServerThread.cpp in small steps. The thread holds the
-- queue's mutex only while it takes a request, so engineers may run between any two of the steps.
use pa.Prelude.{not, ◌||◌, if◌then◌else◌, List, [], ◌∷◌, pos, minus_one, eq_int}
use pa.Machine.{Machine}
use pa.Messages.Request.{ReplicationRequest}
use pa.Storage.{place_order, get_idx}
use pa.Socket.{Outcome, done, blocked, ◌>>=◌}
use pa.Stub.Client.{Dial}
use pa.Factory.{
  AdminRequest, LaptopFactory, start_connection, replicate_all, request_for, fulfil, admin_read,
}

-- Where the thread stands with the request that it has taken.
pub data Place : Type 0 where
  ready : Place
  popped connected indexed sent placed committed : AdminRequest → Place
  sending : AdminRequest → ReplicationRequest → Place

pub record Admin : Type 0 where
  pub place : Place
  pub dials : List Dial

-- `erq.front()` and `erq.pop()`, once the queue is not empty.
unfoldable pub pop : LaptopFactory → List Dial → Outcome (LaptopFactory × Admin)
pop f dials = elim f.erq [
  | [] ↦ blocked
  | req ∷ rest ↦ done (record f { erq = rest }, record { place = popped req; dials = dials })
]

-- The test for the type of the request, and `startConnection` where it is due.
unfoldable pub choose :
    Machine → LaptopFactory → AdminRequest → List Dial → Outcome (LaptopFactory × Admin)
unfolding start_connection admin_read
choose m f req dials =
    let follows = not (eq_int f.factory_id f.primary_id) || eq_int f.primary_id minus_one in
    let connect = do
      (f1, rest) ← if follows then start_connection m f dials else done (f, dials)
      done (f1, record { place = connected req; dials = rest })
    in if eq_int req.type (pos 1)
      then connect
      else done (admin_read f req, record { place = ready; dials = dials })

-- `startReplication` of the request.
unfoldable pub tell :
    Machine
    → LaptopFactory
    → AdminRequest
    → ReplicationRequest
    → List Dial
    → Outcome (LaptopFactory × Admin)
tell m f req request dials = do
  (stubs, rest) ← replicate_all m f request f.stubs dials
  done (record f { stubs = stubs }, record { place = sent req; dials = rest })

-- The step from a place, and the next step of the thread.
unfoldable pub step_at : Machine → LaptopFactory → Admin → Place → Outcome (LaptopFactory × Admin)
unfolding pop choose tell
step_at m f a p =
    let next : Place → Admin = λ p'. record a { place = p' } in
    elim p [
      | ready ↦ pop f a.dials
      | popped req ↦ choose m f req a.dials
      | connected req ↦
          done (record f { last_index = get_idx f.server_storage }, next (indexed req))
      | indexed req ↦ done (f, next (sending req (request_for m f req.ops)))
      | sending req request ↦ tell m f req request a.dials
      | sent req ↦ done (
        record f { server_storage = place_order f.server_storage req.ops.arg1 req.ops.arg2 },
        next (placed req),
      )
      | placed req ↦ done (record f { committed_index = f.last_index }, next (committed req))
      | committed req ↦ done (fulfil req.promise req.customer f, next ready)
    ]

unfoldable pub admin_step : Machine → LaptopFactory → Admin → Outcome (LaptopFactory × Admin)
unfolding step_at
admin_step m f a = step_at m f a a.place
