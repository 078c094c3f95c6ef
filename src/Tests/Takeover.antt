-- ===== src/Tests/Takeover.antt =====
-- Threads that serve customers, and factories that take over.
use pa.Prelude.{
  ◌-◌, ◌≡◌, refl, [], ◌∷◌, arith, from_word, pos, minus_one, last_of, to_word, if◌then◌else◌, ◌==◌,
}
use pa.Messages.Fields.{encode, network}
use pa.Messages.Order
use pa.Messages.Order.{LaptopOrder}
use pa.Storage.{new, place_order}
use pa.Socket.{Link, got, Returns}
use pa.Socket.Receiving.{stream}
use pa.Factory.{LaptopFactory, start, start_connection, admin_round}
use pa.Factory.Engineer.{Engineer, Phase, serving_round, engineer_step, ended}
use pa.Factory.Delivery.{Delivered, order-Delivered}
use pa.Tests.Data.{a_request, little, big, link_with, an_order}
use pa.Tests.Servers.{primary_IsPrimary, stubs_ready, peers, primary, dials}
use pa.Factory.Departure.{serving_round-Lost}
use pa.Factory.Takeover.{
  entries, Extended, BackupIndices, start_connection-Extended, takeover-committed,
}

-- A customer's connection that brings `an_order`.
abbrev order_link : Link
order_link = link_with (got (0 ∷ 0 ∷ 0 ∷ 3 ∷ 0 ∷ 1 ∷ []) ∷ got (17 ∷ 112 ∷ 0 ∷ 0 ∷ 0 ∷ 1 ∷ []) ∷ [])

abbrev customer_thread : Engineer
customer_thread = record { id = pos 0; link = order_link; phase = Phase.serving }

order-Delivered_example : Returns (engineer_step big a_request primary customer_thread) (λ r1.
    Returns (admin_round big r1.0 dials) (λ r2.
      Returns
        (engineer_step big a_request r2.0 r1.1)
        (λ r3. Delivered primary customer_thread an_order r3.0 r3.1)))
unfolding stream encode network to_word from_word Order.is_valid
order-Delivered_example =
    order-Delivered big a_request primary customer_thread an_order [] dials refl (omega arith) refl
      refl refl (omega arith) (record { documented = omega arith; answered = omega arith }) refl
      primary_IsPrimary stubs_ready (omega arith)

-- A customer who goes away in the middle of an order.
abbrev cut_thread : Engineer
cut_thread = record {
  id = pos 0;
  link = link_with (got (0 ∷ 0 ∷ 0 ∷ 3 ∷ 0 ∷ []) ∷ got [] ∷ []);
  phase = Phase.serving;
}

serving_round-Lost_example : Returns (serving_round big primary cut_thread) (λ r.
    (r.0 ≡ primary) × (r.1.phase ≡ ended) × (r.1.link.socket.fd ≡ minus_one) × (r.1.link.sent ≡ []))
unfolding stream
serving_round-Lost_example =
    serving_round-Lost big primary cut_thread (omega arith) tt (omega arith)

-- A backup that has applied two orders, and takes over.
abbrev grown_backup : LaptopFactory
grown_backup = record (start (pos 2) peers) {
  primary_id = pos 1;
  last_index = pos 1;
  committed_index = pos 0;
  server_storage =
      place_order (place_order (place_order new (pos 1) (pos 0)) (pos 2) (pos 0)) (pos 1) (pos 1);
}

grown_BackupIndices : BackupIndices grown_backup
unfolding place_order
grown_BackupIndices = record { last = refl; committed = refl }

start_connection-Extended_example : Returns (start_connection little primary dials) (λ r.
    Extended little peers primary.stubs r.0.stubs
    × (r.0.primary_id ≡ pos 1)
    × (r.0.factory_id ≡ pos 1)
    × (r.0.server_storage ≡ new)
    × (r.0.committed_index ≡ minus_one))
start_connection-Extended_example =
    start_connection-Extended little primary dials (omega arith, omega arith, tt)

takeover-committed_example : Returns (start_connection little grown_backup dials) (λ r.
    r.0.committed_index
    ≡ (if entries grown_backup == 2 then minus_one else last_of (entries grown_backup - 1)))
unfolding place_order
takeover-committed_example =
    takeover-committed little grown_backup dials grown_BackupIndices (omega arith)
      (omega arith, omega arith, tt)
