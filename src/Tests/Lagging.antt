-- ===== src/Tests/Lagging.antt =====
-- A new primary over a peer that lacks an order.
use pa.Prelude.{◌≡◌, refl, [], ◌∷◌, ◌++◌, arith, pos, to_word, from_word}
use pa.Messages.Fields.{encode, network}
use pa.Storage.{place_order, get_idx, order_op}
use pa.Socket.{got, Returns}
use pa.Socket.Healthy.{take_sends, take_chunks}
use pa.Factory.{LaptopFactory}
use pa.Factory.Serving.{request_of}
use pa.Factory.Engineer.{Engineer, Phase, identify}
use pa.Factory.Rounds.{admin_rounds, requests_of, Worked}
use pa.Factory.Relay.{Hears, hears, replica_rounds}
use pa.Factory.Election.{elected}
use pa.Replicas.Within.{Prefix}
use pa.Replicas.Lagging.{log_of_factory, ops_of, lagging-Diverges}
use pa.Tests.Data.{little, an_order, a_request}
use pa.Tests.Cluster.{
  waiting_orders, requests_chunks, hearing, backup, follower, reached_dial, fresh_stub,
  follower_Reached, fresh_Carrying,
}

-- A follower that has stored an order which the backup has not.
abbrev ahead : LaptopFactory
ahead = record follower { server_storage = place_order follower.server_storage (pos 9) (pos 0) }

-- A thread of the backup to which it connects.
abbrev lagging_thread : Engineer
lagging_thread = record {
  id = pos 0;
  link = record hearing.link {
    recvs =
        got (2 ∷ 0 ∷ 0 ∷ 0 ∷ [])
        ∷ requests_chunks (requests_of little (elected ahead (fresh_stub ∷ [])) waiting_orders);
  };
  phase = Phase.starting;
}

lagging-Diverges_example : Returns (admin_rounds little 2 ahead (reached_dial ∷ [])) (λ p.
    Worked little (elected ahead (fresh_stub ∷ [])) waiting_orders p.0
    × Returns (identify little lagging_thread) (λ e1.
      (e1.phase ≡ Phase.replica)
      × Returns (replica_rounds little a_request 2 backup e1) (λ b.
        (log_of_factory p.0 ≡ log_of_factory ahead ++ ops_of waiting_orders)
        × (log_of_factory b.0 ≡ ops_of waiting_orders)
        × (b.0.primary_id ≡ p.0.factory_id)
        × ¬ Prefix (log_of_factory b.0) (log_of_factory p.0))))
unfolding take_sends take_chunks encode network to_word requests_of place_order get_idx from_word
lagging-Diverges_example =
    lagging-Diverges little little ahead backup (request_of an_order (pos 0)) _ a_request
      lagging_thread _ (order_op (pos 9) (pos 0)) [] refl (refl, (refl, tt)) refl (λ e. cc)
      follower_Reached (fresh_Carrying, tt) refl (λ e. cc) refl refl refl
      (hears (omega arith) refl refl (hears (omega arith) refl refl Hears.silent))
