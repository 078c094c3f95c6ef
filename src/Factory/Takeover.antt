-- ===== src/Factory/Takeover.antt =====
-- A factory that becomes primary: `startConnection`, and the indices it goes on with.
use pa.Prelude.{
  ℕ, zero, suc, ◌+◌, ◌-◌, ◌≤◌, ◌<◌, ◌^◌, ◌≡◌, refl, sym, ap, ap₂, ◌∙◌, ◌⊎◌, inl, inr, Bool, true,
  false, List, [], ◌∷◌, ◌++◌, append_assoc, append-nil, length, length-append, take, drop,
  take-append, arith, ℤ, minus_one, last_of, ◌==◌, is_nonneg, inc, inc_pos, if◌then◌else◌, to_word,
}
use pa.Machine.{Machine, buffer, length-buffer}
use pa.Buffer.{write, write_front}
use pa.Messages.Fields.{int_size}
use pa.Socket.{Link, done, send, new, connect, Returns, Returns-bind, Returns-if, Returns-mono}
use pa.Socket.Sending.{SendsDocumented, SendResult}
use pa.Stub.Client.{ClientStub, Dial, is_valid, init, dial_socket, send_identification}
use pa.Stub.Exchanges.{CanSend, send_message}
use pa.Factory.{LaptopFactory, Peer, server_code, connect_peers, start_connection}

-- The bytes of a number as the machine holds them.
unfoldable pub raw : Machine → ℤ → List ℕ
raw m n = m.host.store (to_word n)

length-raw : (m : Machine) (n : ℤ) → length (raw m n) ≡ 4
unfolding raw
length-raw m n = m.host.length-store (to_word n)

-- `SendIdentification` sends the number as the machine holds it, or loses the socket.
pub send_identification_lem :
    (m : Machine) (n : ℤ) (l : Link)
    → CanSend l int_size
    → Returns
        (send_identification m n l)
        (λ l'. ((l'.sent ≡ l.sent ++ raw m n) × (l'.socket ≡ l.socket)) ⊎ (l'.socket.valid ≡ false))
unfolding send_identification raw
send_identification_lem m n l c =
    Returns-bind _ (send l buf int_size) _ (send_message l buf (raw m n) int_size room front c)
      named
  where
    buf : List ℕ
    buf = write (buffer m 256) 0 (m.host.store (to_word n))

    written : buf ≡ raw m n ++ drop (length (raw m n)) (buffer m 256)
    written =
        write_front (buffer m 256) (raw m n) (omega (arith, length-raw m n, length-buffer m 256))

    room : int_size ≤ length buf
    room = omega (
      arith,
      ap length written,
      length-append (raw m n) (drop (length (raw m n)) (buffer m 256)),
      length-raw m n,
    )

    front : take int_size buf ≡ raw m n
    front =
        ap₂ take (sym (length-raw m n)) written
        ∙ take-append (raw m n) (drop (length (raw m n)) (buffer m 256))

    named :
        (r : Bool × Link)
        → SendResult l (raw m n) r
        → ((r.1.sent ≡ l.sent ++ raw m n) × (r.1.socket ≡ l.socket)) ⊎ (r.1.socket.valid ≡ false)
    named (true, l1) h = inl (h.0, h.1)
    named (false, l1) h = inr h.0

-- There is an attempt for each peer, and the kernel will answer what naming oneself may take.
abbrev pub AllAnswered : List Peer → List Dial → Type 0
AllAnswered [] dials = Unit {0}
AllAnswered (p ∷ peers) [] = ⊥
AllAnswered (p ∷ peers) (d ∷ dials) =
    SendsDocumented d.sends int_size × (int_size ≤ length d.sends) × AllAnswered peers dials

-- A stub for the peer's address, which has named itself as a server or has lost its socket.
pub record Connected (m : Machine) (p : Peer) (s : ClientStub) : Type 0 where
  pub ip : s.ip ≡ p.ip_addr
  pub port : s.port ≡ p.port
  pub named : (s.link.sent ≡ raw m server_code) ⊎ (s.link.socket.valid ≡ false)

abbrev pub AllConnected : Machine → List Peer → List ClientStub → Type 0
AllConnected m [] [] = Unit
AllConnected m [] (s ∷ stubs) = ⊥
AllConnected m (p ∷ peers) [] = ⊥
AllConnected m (p ∷ peers) (s ∷ stubs) = Connected m p s × AllConnected m peers stubs

-- The new stubs stand behind the old ones.
abbrev pub Extended : Machine → List Peer → List ClientStub → List ClientStub → Type 0
Extended m peers stubs stubs' =
    (fresh : List ClientStub) × (stubs' ≡ stubs ++ fresh) × AllConnected m peers fresh

named_stub :
    (m : Machine) (s : ClientStub)
    → s.link.sent ≡ []
    → CanSend s.link int_size
    → Returns
        (if is_valid s then send_identification m server_code s.link else done s.link)
        (λ l. (l.sent ≡ raw m server_code) ⊎ (l.socket.valid ≡ false))
named_stub m s empty c =
    Returns-if _ (is_valid s) _ _
      (λ t.
        Returns-mono (send_identification m server_code s.link)
          (send_identification_lem m server_code s.link c) fresh)
      (λ t. inr t)
  where
    fresh :
        (l : Link)
        → ((l.sent ≡ s.link.sent ++ raw m server_code) × (l.socket ≡ s.link.socket))
          ⊎ (l.socket.valid ≡ false)
        → (l.sent ≡ raw m server_code) ⊎ (l.socket.valid ≡ false)
    fresh l (inl h) = inl (h.0 ∙ ap (λ b. b ++ raw m server_code) empty)
    fresh l (inr h) = inr h

connect_peers-Extended :
    (m : Machine) (peers : List Peer) (stubs : List ClientStub) (dials : List Dial)
    → AllAnswered peers dials
    → Returns (connect_peers m peers stubs dials) (λ r. Extended m peers stubs r.0)
unfolding connect_peers init dial_socket
connect_peers-Extended m [] stubs dials h = ([], sym (append-nil stubs), tt)
connect_peers-Extended m (p ∷ peers) stubs [] h = absurd h
connect_peers-Extended m (p ∷ peers) stubs (d ∷ dials) h =
    Returns-bind _ (if is_valid s then send_identification m server_code s.link else done s.link) _
      (named_stub m s refl (record { documented = h.0; answered = h.1 }))
      (λ l named.
        let s1 = record s { link = l } in
        Returns-mono (connect_peers m peers (stubs ++ (s1 ∷ [])) dials)
          (connect_peers-Extended m peers (stubs ++ (s1 ∷ [])) dials h.2)
          (λ r (fresh, e, all). (
            s1 ∷ fresh,
            e ∙ append_assoc stubs (s1 ∷ []) fresh,
            (record { ip = refl; port = refl; named = named }, all),
          )))
  where
    s : ClientStub
    s = record {
      ip = p.ip_addr;
      port = p.port;
      link = record {
        socket = (connect (new m.junk) d.fd d.result).1;
        sends = d.sends;
        recvs = d.recvs;
        sent = [];
      };
    }

-- The number of entries in the log.
abbrev pub entries : LaptopFactory → ℕ
entries f = length f.server_storage.state_machine_log

-- The committed index of a factory that takes over.
abbrev next_committed : ℤ → ℤ
next_committed c = if is_nonneg c then inc c else c

-- `startConnection` makes the factory its own primary, keeps its stubs and its storage, and adds a
-- stub for every peer.
pub start_connection-Extended :
    (m : Machine) (f : LaptopFactory) (dials : List Dial)
    → AllAnswered f.peer_list dials
    → Returns (start_connection m f dials) (λ r.
      Extended m f.peer_list f.stubs r.0.stubs
      × (r.0.primary_id ≡ f.factory_id)
      × (r.0.factory_id ≡ f.factory_id)
      × (r.0.server_storage ≡ f.server_storage)
      × (r.0.committed_index ≡ next_committed f.committed_index))
unfolding start_connection
start_connection-Extended m f dials h =
    Returns-bind _ (connect_peers m f.peer_list f.stubs dials) _
      (connect_peers-Extended m f.peer_list f.stubs dials h)
      (λ (stubs, rest) x. (x, refl, refl, refl, refl))

length-AllConnected :
    (m : Machine) (peers : List Peer) (stubs : List ClientStub)
    → AllConnected m peers stubs
    → length stubs ≡ length peers
length-AllConnected m [] [] h = refl
length-AllConnected m [] (s ∷ stubs) h = absurd h
length-AllConnected m (p ∷ peers) [] h = absurd h
length-AllConnected m (p ∷ peers) (s ∷ stubs) h = ap suc (length-AllConnected m peers stubs h.1)

-- Nothing removes the stubs of an earlier term: each takeover adds as many as there are peers.
pub length-start_connection :
    (m : Machine) (f : LaptopFactory) (dials : List Dial)
    → AllAnswered f.peer_list dials
    → Returns
        (start_connection m f dials)
        (λ r. length r.0.stubs ≡ length f.stubs + length f.peer_list)
length-start_connection m f dials h =
    Returns-mono (start_connection m f dials) (start_connection-Extended m f dials h) (λ r x.
      let (fresh, e, all) = x.0 in
      ap length e
      ∙ length-append f.stubs fresh
      ∙ ap (λ k. length f.stubs + k) (length-AllConnected m f.peer_list fresh all))

-- The indices of a primary between two orders, and of a backup between two requests.
pub record PrimaryIndices (f : LaptopFactory) : Type 0 where
  pub last : f.last_index ≡ last_of (entries f - 1)
  pub committed : f.committed_index ≡ last_of (entries f - 1)

pub record BackupIndices (f : LaptopFactory) : Type 0 where
  pub last : f.last_index ≡ last_of (entries f - 1)
  pub committed : f.committed_index ≡ last_of (entries f - 2)

takeover_committed :
    (n : ℕ)
    → n < 2 ^ 31
    → next_committed (last_of (n - 2)) ≡ (if n == 2 then minus_one else last_of (n - 1))
takeover_committed zero h = refl
takeover_committed (suc zero) h = refl
takeover_committed (suc (suc zero)) h = refl
takeover_committed (suc (suc (suc n))) h =
    let e : suc (suc (suc n)) - 2 ≡ suc n = omega arith in
    let e' : suc (suc (suc n)) - 1 ≡ suc (suc n) = omega arith in
    rw (e, e') (ground (arith, inc_pos n))

-- A backup that takes over goes on with the committed index that a primary has after as many orders,
-- except after exactly two: there it keeps -1, and a primary has 0.
pub takeover-committed :
    (m : Machine) (f : LaptopFactory) (dials : List Dial)
    → BackupIndices f
    → entries f < 2 ^ 31
    → AllAnswered f.peer_list dials
    → Returns
        (start_connection m f dials)
        (λ r. r.0.committed_index ≡ (if entries f == 2 then minus_one else last_of (entries f - 1)))
takeover-committed m f dials b small h =
    Returns-mono (start_connection m f dials) (start_connection-Extended m f dials h)
      (λ r x. x.4 ∙ ap next_committed b.committed ∙ takeover_committed (entries f) small)
