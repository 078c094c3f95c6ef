-- ===== src/Main/Server.antt =====
-- ServerMain.cpp. `atoi` is the C library's.
use Prim.Native.String.{String}
use pa.Prelude.{
  ℕ, zero, suc, ◌+◌, ◌*◌, ◌/◌, ◌%◌, ◌≡◌, refl, ◌||◌, not, Option, none, some, List, [], ◌∷◌, map,
  length, ◌==◌, if◌then◌else◌, arith, ℤ, pos, eq_int, eq_int_iff,
}
use pa.Socket
use pa.Socket.{Socket, Chunk, accept, listen}
use pa.Factory.{Peer, LaptopFactory, start}
use pa.Factory.Engineer.{Engineer, starting}

pub record Config : Type 0 where
  pub local_port : ℤ
  pub factory : LaptopFactory

-- One connection that arrives: the results of `accept` and `setsockopt`, and what the kernel will
-- answer on the new descriptor.
pub record Arrival : Type 0 where
  pub fd : ℤ
  pub setsockopt : ℤ
  pub sends : List ℤ
  pub recvs : List Chunk

-- The loop `while ((new_socket = socket.Accept()))`: it ends when `accept` fails.
unfoldable pub accept_all : Socket → ℕ → List Arrival → List Engineer
unfolding accept
accept_all s count [] = []
accept_all s count (a ∷ arrivals) =
    let others = accept_all s (count + 1) arrivals in
    elim (accept s a.fd a.setsockopt) [
      | none ↦ []
      | some socket ↦
          record {
            id = pos count;
            link = record { socket = socket; sends = a.sends; recvs = a.recvs; sent = [] };
            phase = starting;
          }
          ∷ others
    ]

abbrev pub count_from : ℕ → ℕ → List ℤ
count_from start zero = []
count_from start (suc n) = pos start ∷ count_from (start + 1) n

-- The engineers are numbered in the order in which they came, so no two share a number.
pub id-accept_all :
    (s : Socket) (count : ℕ) (arrivals : List Arrival)
    → map (λ e. e.id) (accept_all s count arrivals)
      ≡ count_from count (length (accept_all s count arrivals))
unfolding accept_all
id-accept_all s count [] = refl
id-accept_all s count (a ∷ arrivals) = ground (arith, id-accept_all s (count + 1) arrivals)

module _ (atoi : String → ℤ) where
  -- The loop over the arguments behind the first four, three at a time.
  unfoldable pub peers_of : List String → List Peer
  peers_of (id ∷ ip ∷ port ∷ rest) =
      record { server_id = atoi id; ip_addr = ip; port = atoi port } ∷ peers_of rest
  peers_of _ = []

  -- The arguments, the program's name first, up to the start of the threads.
  unfoldable pub config : List String → Option Config
  unfolding peers_of
  config (name ∷ port ∷ id ∷ count ∷ rest) =
      if not (eq_int (pos (length rest / 3)) (atoi count)) || not (length rest % 3 == 0)
      then none
      else some (record { local_port = atoi port; factory = start (atoi id) (peers_of rest) })
  config _ = none

  pub length-peers_of : (rest : List String) → length (peers_of rest) ≡ length rest / 3
  unfolding peers_of
  length-peers_of [] = refl
  length-peers_of (a ∷ []) = refl
  length-peers_of (a ∷ b ∷ []) = refl
  length-peers_of (a ∷ b ∷ c ∷ rest) = omega (arith, length-peers_of rest)

  -- A server that starts has as many peers as its third argument says and arguments for, three each,
  -- and its factory knows no primary and has no order.
  pub config-peers :
      (name port id count : String) (rest : List String) {c : Config}
      → config (name ∷ port ∷ id ∷ count ∷ rest) ≡ some c
      → (pos (length c.factory.peer_list) ≡ atoi count)
        × (length rest ≡ length c.factory.peer_list * 3)
        × (c.local_port ≡ atoi port)
        × (c.factory ≡ start (atoi id) c.factory.peer_list)
  unfolding config
  config-peers name port id count rest {c} e =
      ground (arith, length-peers_of rest, eq_int_iff (pos (length rest / 3)) (atoi count))

  -- `main` up to the end of its accept loop: the factory and the threads that it starts, given the
  -- results of `socket` and `bind`; without the arguments that it needs, or without a socket, it starts
  -- no engineer.
  unfoldable pub server_main :
      (junk : ℤ)
      → List String
      → (fd bound : ℤ) → List Arrival
      → Option (LaptopFactory × List Engineer)
  unfolding config listen accept_all
  server_main junk args fd bound arrivals = elim (config args) [
    | none ↦ none
    | some c ↦
        let opened = listen (Socket.new junk) fd bound in
        if opened.0 then some (c.factory, accept_all opened.1 0 arrivals) else none
  ]
