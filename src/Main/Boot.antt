-- ===== src/Main/Boot.antt =====
-- The running server that `main` of ServerMain.cpp starts.
use Prim.Native.String.{String}
use pa.Prelude.{
  ℕ, zero, suc, ◌+◌, ◌*◌, ◌/◌, ◌%◌, ◌≡◌, refl, sym, ap, ◌∙◌, subst, true, Option, none, some, List,
  [], ◌∷◌, length, get_or, arith, ℤ, pos, eq_int, eq_int_iff, is_nonneg, not, ◌||◌, ◌==◌, false,
  ◌⊎◌, inl, inr, Bool, Bool-cases, minus_one,
}
use pa.Socket
use pa.Socket.{Socket, listen, accept, adopt, nagle_on, is_nagle_on}
use pa.Stub.Client.{Dial}
use pa.Factory.{LaptopFactory, start}
use pa.Factory.Engineer.{Engineer, Phase}
use pa.Factory.Admin.{Place}
use pa.Factory.System.{System, Boots}
use pa.Main.Server.{Arrival, accept_all, config, peers_of, server_main, length-peers_of}

-- A thread for a connection that does not come: it waits for its first bytes for ever.
abbrev unborn : ℕ → Engineer
unborn i = record {
  id = pos i;
  link = record { socket = Socket.new (pos 0); sends = []; recvs = []; sent = [] };
  phase = Phase.starting;
}

-- The server with its admin, which will meet these attempts to connect.
abbrev pub running : LaptopFactory → List Engineer → List Dial → System
running f engineers dials = record {
  factory = f;
  admin = record { place = Place.ready; dials = dials };
  engineers = λ i. get_or engineers i (unborn i);
}

-- The threads carry the numbers from `count` on, and are at their start.
abbrev Named : ℕ → List Engineer → Type 0
Named count engineers =
    (i : ℕ)
    → ((get_or engineers i (unborn (count + i))).id ≡ pos (count + i))
      × ((get_or engineers i (unborn (count + i))).phase ≡ Phase.starting)

Named-cons :
    (count : ℕ) (e : Engineer) (engineers : List Engineer)
    → e.id ≡ pos count
    → e.phase ≡ Phase.starting
    → Named (count + 1) engineers
    → Named count (e ∷ engineers)
Named-cons count e engineers id phase h zero = (id ∙ ap pos (omega arith), phase)
Named-cons count e engineers id phase h (suc i) =
    subst
      (λ n.
        ((get_or engineers i (unborn n)).id ≡ pos n)
        × ((get_or engineers i (unborn n)).phase ≡ Phase.starting))
      (omega arith) (h i)

accept_all-Named :
    (s : Socket) (count : ℕ) (arrivals : List Arrival) → Named count (accept_all s count arrivals)
unfolding accept_all
accept_all-Named s count [] = λ i. (refl, refl)
accept_all-Named s count (a ∷ arrivals) =
    named_by (accept_all-Named s (count + 1) arrivals) (accept s a.fd a.setsockopt)
  where
    of_socket : Option Socket → List Engineer
    of_socket o = elim o [
      | none ↦ []
      | some socket ↦
          record {
            id = pos count;
            link = record { socket = socket; sends = a.sends; recvs = a.recvs; sent = [] };
            phase = Phase.starting;
          }
          ∷ accept_all s (count + 1) arrivals
    ]

    named_by :
        Named (count + 1) (accept_all s (count + 1) arrivals)
        → (o : Option Socket) → Named count (of_socket o)
    named_by others none = λ i. (refl, refl)
    named_by others (some socket) = Named-cons count _ _ refl refl others

-- The socket that the connection gets: one of its descriptor, or a closed one where `setsockopt`
-- fails.
abbrev pub Opened : Arrival → Socket → Type 0
Opened a s =
    ((is_nonneg a.setsockopt ≡ true) × (s.fd ≡ a.fd) × (s.valid ≡ true))
    ⊎ ((is_nonneg a.setsockopt ≡ false) × (s.fd ≡ minus_one) × (s.valid ≡ false))

-- The thread that stands for a connection: numbered, at its start, with nothing sent on the
-- connection's socket, over what the kernel has for it.
pub record Serves (count : ℕ) (a : Arrival) (e : Engineer) : Type 0 where
  pub id : e.id ≡ pos count
  pub opened : Opened a e.link.socket
  pub sends : e.link.sends ≡ a.sends
  pub recvs : e.link.recvs ≡ a.recvs
  pub sent : e.link.sent ≡ []
  pub phase : e.phase ≡ Phase.starting

-- A thread for each connection up to the first `accept` that fails, in the order in which they came.
pub data Accepts : ℕ → List Arrival → List Engineer → Type 0 where
  none_came : {count : ℕ} → Accepts count [] []
  failed :
      {count : ℕ} {a : Arrival} {arrivals : List Arrival}
      → is_nonneg a.fd ≡ false
      → Accepts count (a ∷ arrivals) []
  came :
      {count : ℕ} {a : Arrival} {arrivals : List Arrival} {e : Engineer} {engineers : List Engineer}
      → is_nonneg a.fd ≡ true
      → Serves count a e
      → Accepts (count + 1) arrivals engineers
      → Accepts count (a ∷ arrivals) (e ∷ engineers)

adopt-Opened : (a : Arrival) (on : Bool) → Opened a (adopt a.fd on a.setsockopt)
unfolding adopt nagle_on
adopt-Opened a on = elim (Bool-cases (is_nonneg a.setsockopt)) [
  | inl set ↦ inl (set, rw (adopt, nagle_on, set) refl, rw (adopt, nagle_on, set) refl)
  | inr unset ↦ inr (unset, rw (adopt, nagle_on, unset) refl, rw (adopt, nagle_on, unset) refl)
]

accept_all-Accepts :
    (s : Socket) (count : ℕ) (arrivals : List Arrival)
    → Accepts count arrivals (accept_all s count arrivals)
unfolding accept_all accept
accept_all-Accepts s count [] = Accepts.none_came
accept_all-Accepts s count (a ∷ arrivals) = elim (Bool-cases (is_nonneg a.fd)) [
  | inl takes ↦
      rw (takes, accept_all)
        (Accepts.came takes
          (record {
            id = refl;
            opened = adopt-Opened a (is_nagle_on s);
            sends = refl;
            recvs = refl;
            sent = refl;
            phase = refl;
          })
          (accept_all-Accepts s (count + 1) arrivals))
  | inr fails ↦ rw (fails, accept_all) (Accepts.failed fails)
]

-- `main` with an identity, a number of peers and three arguments for each, and a socket that it can
-- open and bind: it starts a server in its first state, with that identity and so many peers. It has
-- one engineer for each connection that comes before `accept` first fails, and no other, numbered as
-- they came, with the connection's descriptor, or with a closed socket where `setsockopt` failed.
pub server_main-Boots :
    (atoi : String → ℤ) (junk fd bound : ℤ) (name port id count : String) (rest : List String)
    (arrivals : List Arrival) (dials : List Dial) (peers : ℕ)
    → atoi count ≡ pos peers
    → length rest ≡ peers * 3
    → is_nonneg fd ≡ true
    → is_nonneg bound ≡ true
    → (f : LaptopFactory) × (engineers : List Engineer) × (server_main atoi junk
          (name ∷ port ∷ id ∷ count ∷ rest)
          fd
          bound
          arrivals
        ≡ some (f, engineers))
      × Accepts 0 arrivals engineers
      × Boots (atoi id) f.peer_list (running f engineers dials)
      × (length f.peer_list ≡ peers)
unfolding server_main
server_main-Boots atoi junk fd bound name port id count rest arrivals dials peers many three opened
      tied =
    (
      start (atoi id) (peers_of atoi rest),
      accept_all (listen (Socket.new junk) fd bound).1 0 arrivals,
      rw (counted, opened, tied, server_main, config, listen) refl,
      accept_all-Accepts (listen (Socket.new junk) fd bound).1 0 arrivals,
      record {
        factory = refl;
        admin = refl;
        ids =
            λ i. subst (λ n. (get_or engineers i (unborn n)).id ≡ pos n) (omega arith) (named i).0;
        phases = λ i.
            subst (λ n. (get_or engineers i (unborn n)).phase ≡ Phase.starting) (omega arith)
              (named i).1;
      },
      omega (arith, length-peers_of atoi rest, three),
    )
  where
    engineers : List Engineer
    engineers = accept_all (listen (Socket.new junk) fd bound).1 0 arrivals

    named : Named 0 engineers
    named = accept_all-Named (listen (Socket.new junk) fd bound).1 0 arrivals

    whole : length rest / 3 ≡ peers
    whole = omega (arith, three)

    counted :
        (not (eq_int (pos (length rest / 3)) (atoi count)) || not (length rest % 3 == 0)) ≡ false
    counted = ground (
      arith,
      three,
      (eq_int_iff (pos (length rest / 3)) (atoi count)).1 (ap pos whole ∙ sym many),
    )
