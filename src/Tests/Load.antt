-- ===== src/Tests/Load.antt =====
-- A client with two customers who place two orders each.
use Prim.Native.Nat.{Ordering}
use Prim.Native.String.{String, compare}
use pa.Prelude.{◌-◌, ◌*◌, refl, [], ◌∷◌, arith, ℤ, pos, to_word}
use pa.Messages.Fields.{encode, network}
use pa.Socket.{Returns}
use pa.Socket.Healthy.{take_sends, take_chunks, silent, exchange}
use pa.Main.Client.{Meeting, client_main}
use pa.Main.Load.{WellMet, Printed, client_main-Printed}
use pa.Tests.Data.{little, a_laptop}
use pa.Tests.Customers.{shop, times}

-- A reader of the two numbers that the arguments have.
abbrev reads_digit : String → ℤ
reads_digit text = elim (compare text "1") [ Ordering.eq ↦ pos 1 | _ ↦ pos 2 ]

abbrev met : Meeting
met = record { clock = times; dials = shop ∷ []; junk = 5 }

met_well : WellMet little 2 met
unfolding take_sends take_chunks encode network to_word
met_well = record {
  dial = shop;
  others = [];
  dialled = refl;
  connects = record { fresh = refl; opened = refl; reached = refl };
  sends = _;
  named = refl;
  laptops = a_laptop ∷ a_laptop ∷ [];
  enough = refl;
  fits = (omega arith, (omega arith, tt));
  carried = exchange refl refl (exchange refl refl silent);
}

client_main-Printed_example :
    Returns
      (client_main reads_digit little 7 100 900
        ("client" ∷ "10.0.0.1" ∷ "2" ∷ "2" ∷ "2" ∷ "1" ∷ [])
        (met ∷ met ∷ []))
      (Printed (2 * 2) (900 - 100))
client_main-Printed_example =
    client_main-Printed reads_digit little 7 100 900 "client" "10.0.0.1" "2" "2" "2" "1" []
      (met ∷ met ∷ []) 2 refl refl refl (met_well, (met_well, tt))
