-- ===== src/Factory/Identification.antt =====
-- The branch that a thread takes by the number that the other side names itself with.
use pa.Prelude.{
  ℕ, ◌*◌, ◌^◌, ◌≤◌, ◌≡◌, ap, ◌∙◌, ◌⊎◌, inl, inr, List, ◌++◌, zero, suc, refl, arith, ℤ, pos, IsInt,
  to_word,
}
use pa.Host.{Host}
use pa.Host.Orders.{little_host, big_host}
use pa.Machine.{Machine}
use pa.Messages.Fields.{int_size}
use pa.Socket.{Returns, Returns-bind, Returns-mono}
use pa.Socket.Receiving.{stream, RecvsDocumented}
use pa.Stub.Server.{receive_status_info}
use pa.Stub.Identification.{reads_as, reads_as_same, reads_as_other, receive_status_info_lem}
use pa.Factory.Engineer.{Engineer, idling, phase_of, identify}

identify_lem :
    (m : Machine) (sender : Host) (n : ℤ) (e : Engineer) (rest : List ℕ)
    → stream e.link.recvs ≡ sender.store (to_word n) ++ rest
    → RecvsDocumented e.link.recvs int_size
    → Returns
        (identify m e)
        (λ e'. (e'.phase ≡ phase_of (reads_as sender m.host n)) × (stream e'.link.recvs ≡ rest))
unfolding identify
identify_lem m sender n e rest arrives rd =
    Returns-bind _ (receive_status_info m e.link) _
      (receive_status_info_lem m sender n e.link rest arrives rd)
      (λ (status, l) h. (ap phase_of h.0, h.1))

-- From a machine of the same byte order the number that the other side sends decides the branch, and
-- what follows the number stays to be received.
pub identify_same :
    (m : Machine) (n : ℤ) (e : Engineer) (rest : List ℕ)
    → IsInt n
    → stream e.link.recvs ≡ m.host.store (to_word n) ++ rest
    → RecvsDocumented e.link.recvs int_size
    → Returns (identify m e) (λ e'. (e'.phase ≡ phase_of n) × (stream e'.link.recvs ≡ rest))
identify_same m n e rest fits arrives rd =
    Returns-mono (identify m e) (identify_lem m m.host n e rest arrives rd)
      (λ e' h. (h.0 ∙ ap phase_of (reads_as_same m.host n fits), h.1))

-- One machine holds the low byte first and the other the high byte first.
abbrev pub Opposite : Host → Host → Type 0
Opposite a b = ((a ≡ little_host) × (b ≡ big_host)) ⊎ ((a ≡ big_host) × (b ≡ little_host))

idles : (n : ℕ) → 1 ≤ n → n ≤ 2 → phase_of (pos (n * 2 ^ 24)) ≡ idling
idles zero lo hi = absurd (omega arith)
idles (suc zero) lo hi = refl
idles (suc (suc zero)) lo hi = refl
idles (suc (suc (suc n))) lo hi = absurd (omega arith)

reads_as-Opposite :
    (a b : Host) (n : ℕ) → Opposite a b → 1 ≤ n → n ≤ 2 → reads_as a b (pos n) ≡ pos (n * 2 ^ 24)
reads_as-Opposite a b n (inl h) lo hi = rw (h.0, h.1) (reads_as_other n lo hi).0
reads_as-Opposite a b n (inr h) lo hi = rw (h.0, h.1) (reads_as_other n lo hi).1

-- From a machine of the opposite byte order neither the number of a customer nor that of a server is
-- understood: the thread takes no branch, and leaves what follows unread.
pub identify-Opposite :
    (m : Machine) (sender : Host) (n : ℕ) (e : Engineer) (rest : List ℕ)
    → Opposite sender m.host
    → 1 ≤ n
    → n ≤ 2
    → stream e.link.recvs ≡ sender.store (to_word (pos n)) ++ rest
    → RecvsDocumented e.link.recvs int_size
    → Returns (identify m e) (λ e'. (e'.phase ≡ idling) × (stream e'.link.recvs ≡ rest))
identify-Opposite m sender n e rest opposite lo hi arrives rd =
    Returns-mono (identify m e) (identify_lem m sender (pos n) e rest arrives rd) (λ e' h.
      (h.0 ∙ ap phase_of (reads_as-Opposite sender m.host n opposite lo hi) ∙ idles n lo hi, h.1))
