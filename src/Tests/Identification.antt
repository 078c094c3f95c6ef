-- ===== src/Tests/Identification.antt =====
-- Two servers that name themselves to a thread, one from a machine of the other byte order.
use pa.Prelude.{ℕ, ◌≡◌, refl, inl, List, [], ◌∷◌, arith, pos, to_word}
use pa.Host.Orders.{little_host}
use pa.Socket.{got, Returns}
use pa.Socket.Receiving.{stream}
use pa.Factory.Engineer.{Engineer, Phase, idling, identify}
use pa.Factory.Identification.{identify-Opposite}
use pa.Tests.Data.{big, link_with}

-- A thread whose other side sends `bytes` in two pieces, then an 8.
abbrev thread : List ℕ → Engineer
thread bytes = record {
  id = pos 0;
  link = link_with (got (0 ∷ []) ∷ got bytes ∷ got (8 ∷ []) ∷ []);
  phase = Phase.starting;
}

abbrev other_thread : Engineer
other_thread = record {
  id = pos 0;
  link = link_with (got (2 ∷ 0 ∷ []) ∷ got (0 ∷ 0 ∷ []) ∷ got (8 ∷ []) ∷ []);
  phase = Phase.starting;
}

identify-Opposite_example :
    Returns (identify big other_thread) (λ e. (e.phase ≡ idling) × (stream e.link.recvs ≡ 8 ∷ []))
unfolding stream to_word
identify-Opposite_example =
    identify-Opposite big little_host 2 other_thread (8 ∷ []) (inl (refl, refl)) (omega arith)
      (omega arith) refl (omega arith)
