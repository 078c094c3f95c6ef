-- ===== src/Stub/Identification.antt =====
-- The number by which a connection names itself: `SendIdentification` copies it to the wire as
-- memory holds it, and `ReceiveStatusInfo` copies it back.
use pa.Prelude.{
  ℕ, zero, suc, ◌*◌, ◌≤◌, ◌^◌, ◌≡◌, refl, sym, ap, ap₂, ◌∙◌, List, ◌++◌, length, take, drop,
  take-append, arith, ℤ, pos, IsInt, to_word, to_word-lt, from_word, from_word-to_word,
}
use pa.Host.{Host}
use pa.Host.Orders.{little_host, big_host}
use pa.Machine.{Machine, buffer, length-buffer}
use pa.Buffer.{read, write, write_front}
use pa.Messages.Fields.{int_size}
use pa.Socket.{Link, Returns, Returns-bind, recv}
use pa.Socket.Receiving.{stream, RecvsDocumented, recv-Took}
use pa.Stub.Server.{receive_status_info}

-- The number that a host reads where another has stored one.
abbrev pub reads_as : Host → Host → ℤ → ℤ
reads_as sender receiver n = from_word (receiver.load (sender.store (to_word n)))

-- What arrives is what the receiver's memory makes of the sender's bytes.
pub receive_status_info_lem :
    (m : Machine) (sender : Host) (n : ℤ) (l : Link) (rest : List ℕ)
    → stream l.recvs ≡ sender.store (to_word n) ++ rest
    → RecvsDocumented l.recvs int_size
    → Returns
        (receive_status_info m l)
        (λ r. (r.0 ≡ reads_as sender m.host n) × (stream r.1.recvs ≡ rest))
unfolding receive_status_info
receive_status_info_lem m sender n l rest arrives rd =
    Returns-bind _ (recv l int_size) _ (recv-Took l int_size bytes rest four arrives rd)
      (λ (ok, got, l1) t. (rw (t.0, t.1) (ap (λ b. from_word (m.host.load b)) front), t.2))
  where
    bytes : List ℕ
    bytes = sender.store (to_word n)

    four : length bytes ≡ 4
    four = sender.length-store (to_word n)

    front : read (write (buffer m 32) 0 bytes) 0 int_size ≡ bytes
    front =
        ap₂ take (sym four)
          (write_front (buffer m 32) bytes (omega (arith, four, length-buffer m 32)))
        ∙ take-append bytes (drop (length bytes) (buffer m 32))

-- On machines of the same byte order the number arrives.
pub reads_as_same : (h : Host) (n : ℤ) → IsInt n → reads_as h h n ≡ n
reads_as_same h n fits =
    ap from_word (h.load-store (to_word n) (to_word-lt n)) ∙ from_word-to_word n fits

-- Between machines of different byte orders neither code arrives: both name no branch of the
-- receiving thread.
pub reads_as_other :
    (n : ℕ)
    → 1 ≤ n
    → n ≤ 2
    → (reads_as little_host big_host (pos n) ≡ pos (n * 2 ^ 24))
      × (reads_as big_host little_host (pos n) ≡ pos (n * 2 ^ 24))
unfolding to_word from_word
reads_as_other zero lo hi = absurd (omega arith)
reads_as_other (suc zero) lo hi = (refl, refl)
reads_as_other (suc (suc zero)) lo hi = (refl, refl)
reads_as_other (suc (suc (suc n))) lo hi = absurd (omega arith)
