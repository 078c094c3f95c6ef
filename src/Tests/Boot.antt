-- ===== src/Tests/Boot.antt =====
-- A server with one peer, to which two customers connect.
use Prim.Native.String.{String}
use pa.Prelude.{◌≡◌, refl, some, List, [], ◌∷◌, length, ℤ, pos, minus_one}
use pa.Socket.{got}
use pa.Factory.{LaptopFactory}
use pa.Factory.Engineer.{Engineer}
use pa.Factory.System.{Boots}
use pa.Main.Server.{Arrival, server_main}
use pa.Main.Boot.{Accepts, running, server_main-Boots}
use pa.Tests.Data.{slow_sends}

-- A reader of the one number that the arguments have.
abbrev reads_one : String → ℤ
reads_one text = pos 1

abbrev arrival_at : ℤ → Arrival
arrival_at fd = record {
  fd = fd;
  setsockopt = pos 0;
  sends = slow_sends;
  recvs = got (0 ∷ 0 ∷ 0 ∷ 1 ∷ []) ∷ [];
}

-- The third `accept` fails.
abbrev arrivals : List Arrival
arrivals = arrival_at (pos 4) ∷ arrival_at (pos 5) ∷ arrival_at minus_one ∷ arrival_at (pos 6) ∷ []

server_main-Boots_example :
    (f : LaptopFactory) × (engineers : List Engineer) × (server_main reads_one
        (pos 7)
        ("server" ∷ "1" ∷ "1" ∷ "1" ∷ "1" ∷ "10.0.0.2" ∷ "1" ∷ [])
        (pos 3)
        (pos 0)
        arrivals
      ≡ some (f, engineers))
    × Accepts 0 arrivals engineers
    × Boots (pos 1) f.peer_list (running f engineers [])
    × (length f.peer_list ≡ 1)
server_main-Boots_example =
    server_main-Boots reads_one (pos 7) (pos 3) (pos 0) "server" "1" "1" "1"
      ("1" ∷ "10.0.0.2" ∷ "1" ∷ []) arrivals [] 1 refl refl refl refl
