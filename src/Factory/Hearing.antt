-- ===== src/Factory/Hearing.antt =====
-- A thread from the start of its connection: a server names itself, and sends its requests.
use pa.Prelude.{
  ℕ, ◌≡◌, ◌≢◌, refl, sym, ap, ap₂, ◌∙◌, true, List, ◌∷◌, ◌++◌, All, length, take, drop, take-append,
  some, arith, ℤ, pos, minus_one, IsInt, to_word, from_word,
}
use pa.Machine.{Machine, buffer, length-buffer}
use pa.Buffer.{read, write, write_front}
use pa.Messages.Fields.{int_size}
use pa.Messages.Request.{ReplicationRequest}
use pa.Socket.{Link, Chunk, done, Returns, Returns-mono}
use pa.Socket.Healthy.{take_chunks, recv-taken}
use pa.Stub.Client.{ClientStub, Dial}
use pa.Stub.Server.{receive_status_info}
use pa.Stub.Identification.{reads_as_same}
use pa.Factory.{LaptopFactory, AdminRequest, server_code}
use pa.Factory.Engineer.{Engineer, Phase, phase_of, identify}
use pa.Factory.Rounds.{Carrying, requests_of, admin_rounds, Worked}
use pa.Factory.Relay.{Hears, replica_rounds, InStep, queue-InStep}
use pa.Factory.Election.{Reached, Follows, elected, elected-IsPrimary, admin_rounds-elected}

receive_status_info-taken :
    (m : Machine) (n : ℤ) (l : Link) (recvs : List Chunk)
    → IsInt n
    → take_chunks l.recvs int_size ≡ some (m.host.store (to_word n), recvs)
    → receive_status_info m l ≡ done (n, record l { recvs = recvs })
unfolding receive_status_info
receive_status_info-taken m n l recvs fits into = rw (recv-taken l int_size bytes recvs into) (
    ap (λ x. done (x, record l { recvs = recvs }))
      (ap (λ b. from_word (m.host.load b)) front ∙ reads_as_same m.host n fits))
  where
    bytes : List ℕ
    bytes = m.host.store (to_word n)

    four : length bytes ≡ 4
    four = m.host.length-store (to_word n)

    front : read (write (buffer m 32) 0 bytes) 0 int_size ≡ bytes
    front =
        ap₂ take (sym four)
          (write_front (buffer m 32) bytes (omega (arith, four, length-buffer m 32)))
        ∙ take-append bytes (drop (length bytes) (buffer m 32))

pub identify-taken :
    (m : Machine) (n : ℤ) (e : Engineer) (recvs : List Chunk)
    → IsInt n
    → take_chunks e.link.recvs int_size ≡ some (m.host.store (to_word n), recvs)
    → identify m e ≡ done (record e { link = record e.link { recvs = recvs }; phase = phase_of n })
unfolding identify
identify-taken m n e recvs fits into =
    rw (receive_status_info-taken m n e.link recvs fits into) refl

-- A follower with orders in its queue takes over, on machines of the same byte order, while a thread
-- of another factory with the same storage hears its name and its requests: all calls return, the
-- thread is in the branch for servers, and the other factory ends with the storage and the last index
-- of the new primary and knows it as primary.
pub election-InStep :
    (mp mb : Machine) (f g : LaptopFactory) (req : AdminRequest) (reqs : List AdminRequest)
    {dials rest : List Dial} {fresh : List ClientStub} (unset : ReplicationRequest) (e : Engineer)
    (recvs : List Chunk)
    → f.erq ≡ req ∷ reqs
    → All (λ x. x.type ≡ pos 1) (req ∷ reqs)
    → Follows f
    → f.factory_id ≢ minus_one
    → Reached mp f.peer_list dials fresh rest
    → All (Carrying (length (req ∷ reqs))) (f.stubs ++ fresh)
    → g.server_storage ≡ f.server_storage
    → mp.host ≡ mb.host
    → e.link.socket.valid ≡ true
    → take_chunks e.link.recvs int_size ≡ some (mp.host.store (to_word server_code), recvs)
    → Hears e.link.sends recvs (requests_of mp (elected f fresh) (req ∷ reqs))
    → Returns (admin_rounds mp (length (req ∷ reqs)) f dials) (λ p.
      Worked mp (elected f fresh) (req ∷ reqs) p.0
      × Returns (identify mb e) (λ e1.
        (e1.phase ≡ Phase.replica)
        × Returns
            (replica_rounds mb unset (length (requests_of mp (elected f fresh) (req ∷ reqs))) g e1)
            (λ b. InStep p.0 b.0)))
election-InStep mp mb f g req reqs {dials} {rest} {fresh} unset e recvs queue orders follows
      named_well r c same hosts valid into heard =
    let e1 : Engineer = record e {
      link = record e.link { recvs = recvs };
      phase = Phase.replica;
    } in
    rw (admin_rounds-elected mp f req reqs queue orders.0 follows named_well r) (
      Returns-mono (admin_rounds mp (length (req ∷ reqs)) (elected f fresh) rest)
        (queue-InStep mp mb (elected f fresh) g req reqs rest unset e1 queue orders
          (elected-IsPrimary f fresh named_well) c same valid heard)
        (λ p (w, b). (
          w,
          rw
              (identify-taken mb server_code e recvs (omega arith)
                (into ∙ ap (λ h. some (h.store (to_word server_code), recvs)) hosts))
              (refl, b),
        )))
