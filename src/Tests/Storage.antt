-- ===== src/Tests/Storage.antt =====
-- A storage with a few orders.
use pa.Prelude.{◌≡◌, refl, List, [], ◌∷◌, arith, ℤ, pos, minus_one}
use pa.Storage.{new, place_order, read_record, get_idx}
use pa.Storage.Latest.{latest, or_minus_one, log_of, place_orders, place_orders_lem, get_idx_lem}

abbrev orders : List (ℤ × ℤ)
orders = (pos 3, pos 0) ∷ (pos 5, pos 0) ∷ (pos 3, pos 1) ∷ []

place_orders_lem_example :
    ((place_orders new orders).state_machine_log ≡ log_of orders)
    × (read_record (place_orders new orders) (pos 3)
        ≡ or_minus_one (latest (pos 3) (log_of orders)))
place_orders_lem_example = place_orders_lem orders (pos 3)

latest_order : or_minus_one (latest (pos 3) (log_of orders)) ≡ pos 1
unfolding latest log_of
latest_order = refl

no_order : read_record (place_orders new orders) (pos 4) ≡ minus_one
unfolding place_orders place_order read_record
no_order = refl

get_idx_lem_example : get_idx new ≡ minus_one
get_idx_lem_example = get_idx_lem new (omega arith)
