-- ===== src/Tests/Running.antt =====
-- A server of one factory without peers, with one customer who orders a laptop.
use pa.Prelude.{◌+◌, ◌≡◌, refl, List, [], ◌∷◌, ℤ, pos, from_word, ◌⊎◌, some, replicate}
use pa.Messages.Fields.{get_field, put_field, encode, network}
use pa.Messages.Info
use pa.Messages.Info.{LaptopInfo}
use pa.Messages.Order
use pa.Socket.{Link, got, recv, send}
use pa.Socket.Healthy.{after_send}
use pa.Messages.RoundTrip.{info_fields}
use pa.Messages.Record.{CustomerRecord}
use pa.Storage.{get_idx, place_order, order_op, read_record}
use pa.Storage.Latest.{latest, or_minus_one}
use pa.Factory.Deeds.{waits}
use pa.Factory.Backing.{Logged}
use pa.Stub.Server.{receive_status_info, receive_order_request, send_laptop}
use pa.Buffer.{write}
use pa.Threads.{moved}
use pa.Factory.{LaptopFactory, AdminRequest, start, request_for, replicate_all}
use pa.Factory.Engineer.{Engineer, Phase, take_promise, engineer_step}
use pa.Factory.Serving.{request_of, laptop_for}
use pa.Factory.Admin.{Admin, Place, admin_step}
use pa.Factory.System.{System, Boots, engineer, admin, Reach, boot, later, Run, ends, goes_on}
use pa.Factory.Counts.{queued, handled, Placed, Reach-Placed}
use pa.Factory.Durable.{Reach-reads, delivered-Logged, waiting-pending}
use pa.Tests.Data.{big, link_with, an_order, a_request}

abbrev customer_link : Link
customer_link =
    link_with
      (got (0 ∷ 0 ∷ 0 ∷ 1 ∷ []) ∷ got (0 ∷ 0 ∷ 0 ∷ 3 ∷ 0 ∷ 1 ∷ 17 ∷ 112 ∷ 0 ∷ 0 ∷ 0 ∷ 1 ∷ []) ∷ [])

abbrev booted : System
booted = record {
  factory = start (pos 1) [];
  admin = record { place = Place.ready; dials = [] };
  engineers = λ i. record { id = pos i; link = customer_link; phase = Phase.starting };
}

booted-Boots : Boots (pos 1) [] booted
booted-Boots = record { factory = refl; admin = refl; ids = λ i. refl; phases = λ i. refl }

abbrev serving_now : Engineer
serving_now = record {
  id = pos 0;
  link = record customer_link {
    recvs = got (0 ∷ 0 ∷ 0 ∷ 3 ∷ 0 ∷ 1 ∷ 17 ∷ 112 ∷ 0 ∷ 0 ∷ 0 ∷ 1 ∷ []) ∷ [];
  };
  phase = Phase.serving;
}

-- The laptop that engineer 0 waits with, and the engineer once its order is in the queue.
abbrev laptop : LaptopInfo
laptop = laptop_for an_order (pos 0)

abbrev asking : Engineer
asking = record {
  id = pos 0;
  link = record customer_link { recvs = [] };
  phase = Phase.waiting laptop;
}

abbrev req : AdminRequest
req = request_of an_order (pos 0)

abbrev asked_for : LaptopFactory
asked_for = record (start (pos 1) []) { erq = req ∷ [] }

-- The factory as the admin works: its own primary, then with the order, and with the value.
abbrev leading : LaptopFactory
leading = record (start (pos 1) []) { primary_id = pos 1 }

abbrev stored : LaptopFactory
stored = record leading {
  server_storage = record {
    customer_record = (pos 3, pos 70000) ∷ [];
    state_machine_log = req.ops ∷ [];
  };
}

abbrev made : LaptopFactory
made = record stored { fulfilled = (pos 0, req.customer) ∷ [] }

abbrev admin_at : Place → Admin
admin_at place = record { place = place; dials = [] }

abbrev named : System
named = record booted { engineers = moved booted.engineers 0 serving_now }

abbrev ordered : System
ordered = record {
  factory = asked_for;
  admin = admin_at Place.ready;
  engineers = moved named.engineers 0 asking;
}

ordered_Reach : Reach ordered
unfolding engineer_step receive_status_info recv from_word write receive_order_request
    Order.unmarshal get_field
ordered_Reach =
    later (later (boot booted-Boots) (engineer 0 big a_request {e = serving_now} refl))
      (engineer 0 big a_request {f = asked_for} {e = asking} refl)

reach_on : {s t : System} → Reach s → Run s t → Reach t
reach_on r ends = r
reach_on r (goes_on step run) = reach_on (later r step) run

abbrev placed_now : System
placed_now = record ordered { factory = made }

placed_Run : Run ordered placed_now
unfolding admin_step get_idx from_word replicate_all place_order
placed_Run = goes_on (admin big {f = start (pos 1) []} {a = admin_at (Place.popped req)} refl) (
    goes_on (admin big {f = leading} {a = admin_at (Place.connected req)} refl) (
      goes_on (admin big {f = leading} {a = admin_at (Place.indexed req)} refl) (
        goes_on
          (admin big {f = leading}
            {a = admin_at (Place.sending req (request_for big leading req.ops))} refl)
          (goes_on (admin big {f = leading} {a = admin_at (Place.sent req)} refl) (
            goes_on (admin big {f = stored} {a = admin_at (Place.placed req)} refl) (
              goes_on (admin big {f = stored} {a = admin_at (Place.committed req)} refl)
                (goes_on (admin big {f = made} {a = admin_at Place.ready} refl) ends)))))))

placed_Reach : Reach placed_now
placed_Reach = reach_on ordered_Reach placed_Run

Reach-Placed_example : Placed placed_now
Reach-Placed_example = Reach-Placed placed_Reach

Reach-reads_example :
    read_record stored.server_storage (pos 3) ≡ or_minus_one (latest (pos 3) (req.ops ∷ []))
Reach-reads_example = Reach-reads placed_Reach (pos 3)

-- The engineer once the laptop has gone out.
abbrev delivered : Engineer
delivered = record {
  id = pos 0;
  link = after_send asking.link (replicate 20 (pos 1)) (encode (info_fields laptop));
  phase = Phase.serving;
}

delivered-Logged_example :
    (waits delivered.phase ≡ 0)
    × Logged (order_op (pos 3) (pos 70000)) stored.server_storage.state_machine_log
unfolding engineer_step send_laptop send Info.marshal put_field write encode network
delivered-Logged_example =
    delivered-Logged {s = placed_now} 0 laptop big a_request {f = stored} {e = delivered}
      placed_Reach refl refl ends

waiting-pending_example :
    ((value : CustomerRecord) × (others : List (ℤ × CustomerRecord)) × (take_promise
          (pos 0)
          (ordered.factory.fulfilled)
        ≡ some (value, others)))
    ⊎ (queued (pos 0) (req ∷ []) + handled (pos 0) (admin_at Place.ready) ≡ 1)
waiting-pending_example = waiting-pending 0 laptop ordered_Reach refl
