-- ===== src/Lib.antt =====
-- A replicated laptop factory: servers that take orders of customers and replicate them to their
-- peers (ServerMain.cpp, ServerThread.h, ServerThread.cpp, ServerStub.h, ServerStub.cpp,
-- ServerStorage.h, ServerStorage.cpp, RWLock.h), customers that place and read orders over a
-- connection (ClientMain.cpp, ClientThread.h, ClientThread.cpp, ClientStub.h, ClientStub.cpp,
-- ClientTimer.h, ClientTimer.cpp), and what both stand on: messages (Messages.h, Messages.cpp) and
-- sockets (Socket.h, Socket.cpp, ClientSocket.h, ClientSocket.cpp, ServerSocket.h,
-- ServerSocket.cpp).
--
-- How the parts interact. A connection starts with a number: 1 for a customer, 2 for a server. An
-- engineer's thread reads it and serves the one or follows the other. An order of a customer goes
-- through a queue to the admin thread, which makes the server primary if it is not, sends the
-- operation to every peer, stores it and fulfils the promise for which the engineer waits. A
-- server on the other side of that connection stores the operation and acknowledges it.
--
-- The files.
--   Prelude: names of the library passed on, Boolean tests, lists and `int`s. `to_word` and
--     `from_word` are the conversions of a 32-bit `int` to its word and back.
--   Host, Machine, Buffer: a machine's byte order with `htonl` and `ntohl` as a record of
--     operations and laws that Host/Orders fills for little and big endian; what uninitialised
--     memory holds; a `char` buffer and `memcpy`.
--   Messages: the classes of Messages.h as records, `Marshal` and `Unmarshal` field by field at
--     their offsets (Messages/Order, Info, Record, Request); the format (Messages/Fields), what
--     arrives (Messages/RoundTrip, Messages/Transport).
--   Storage: class ServerStorage; what its reads answer (Storage/Latest); its calls by
--     several threads under the lock (Storage/Shared), what each access does and the lock guards
--     (Storage/Accesses, Storage/Guarded) and the calls as if one at a time (Storage/Atomic).
--   Socket: classes Socket, ClientSocket and ServerSocket; what `Send` and `Recv` do
--     (Socket/Sending, Socket/Receiving), a socket over its life (Socket/Lifetime), a kernel that
--     carries whole messages (Socket/Healthy), what holds of a result if a call gives one
--     (Socket/Whenever), and what a call has done whatever the kernel answers (Socket/Parts).
--   Stub: ServerStub (Stub/Server) and ClientStub (Stub/Client); what they receive, exchange and
--     name themselves with (Stub/Receives, Stub/Exchanges, Stub/Reading, Stub/Identification), and
--     each call as an equation where the kernel carries the messages (Stub/Healthy, Stub/Answers);
--     startReplication in its two calls (Stub/Halves).
--   Factory: class LaptopFactory with the work of the admin thread; the engineer's thread as a
--     state machine (Factory/Engineer); the two branches of that thread (Factory/Serving,
--     Factory/Departure, Factory/Replica) and the choice between them (Factory/Identification); an
--     order up to its laptop (Factory/Delivery); the primary (Factory/Replication), a takeover
--     (Factory/Takeover), primary and backup side by side (Factory/Consistency, Factory/History);
--     many rounds of a primary (Factory/Rounds), of a backup that hears them (Factory/Relay), of a
--     factory that takes over (Factory/Election) and of one that hears of it (Factory/Hearing);
--     one order of a customer from the engineer to the admin and back (Factory/Turn). A running
--     server: the admin in small steps (Factory/Admin), the admin and the engineers as a step
--     relation (Factory/System), what a step of either does (Factory/Deeds, Factory/Chores), the
--     places of a promise (Factory/Counts), what backs a promise (Factory/Backing, Factory/Upkeep,
--     Factory/Sound) and what follows for orders and reads (Factory/Durable).
--   Replicas: a primary with the servers that it replicates to as a step relation, with the bytes
--     under way between them, where customers, the admin, the loop of startReplication and the
--     followers take their steps in any order and connections may be lost at any of them; what a
--     follower's round and the primary's calls do (Replicas/Heard, Replicas/Asked), what the steps
--     of the primary keep (Replicas/Primary), what is known of one follower (Replicas/Within) and
--     kept by its steps (Replicas/Follows, Replicas/Talks) and the admin's (Replicas/Stages), the
--     invariant (Replicas/Invariant), a follower that takes the place of a primary that has stopped
--     (Replicas/Succession, Replicas/Inheritance), what follows (Replicas/Agreement), also for a
--     promise that is fulfilled (Replicas/Promises), the loop of startReplication, its end
--     (Replicas/Progress) and its length (Replicas/Bound), and a peer that a new primary finds
--     behind (Replicas/Lagging).
--   Threads, RwLock: class ReadWriteLock as a step relation over any number of threads; its
--     invariant (RwLock/Exclusion), its progress (RwLock/Progress) and who unlocks what
--     (RwLock/Ownership).
--   Timer, Customer, Main: class ClientTimer, ClientThreadClass::ThreadBody, and the two `main`
--     functions (Main/Server, Main/Client); customers over a connection that carries their
--     messages (Customer/Session, Customer/Listing), a customer and its engineer together
--     (Customer/Shopping), the timers merged and in bounds (Timer/Merged, Timer/Bounds,
--     Customer/Timing), the statistics of a whole client (Main/Load), and the running server that
--     `main` starts (Main/Boot).
--   Tests: a witness for each theorem with a condition, and small runs.
--
-- How the state corresponds. The kernel is what the program cannot decide: a `Link` carries the
-- results of the coming `send` calls, the chunks that the coming `recv` calls bring, and the bytes
-- sent so far. A call that finds no more results is `blocked`, a failed `assert` is `aborted`;
-- `Returns o P` says that `o` returned, with a result in `P`. `Dial` carries the results of
-- `socket` and `connect` for an attempt to connect, `Arrival` those of `accept`, `Meeting` what a
-- thread of a client meets. What the kernel documents of these results (`SendsDocumented`,
-- `RecvsDocumented`: no call takes or brings more than it was asked for) is a condition where a
-- theorem needs it. `std::map` is an association list. A promise is named by the engineer who
-- waits for it, since an engineer waits for one at a time. `atoi` is a parameter.
--
-- Loops. The loops of `Send` and `Recv` are recursion on the coming results of the kernel: one
-- result for each byte is enough, since each call makes progress or fails. The other loops are
-- recursion on the lists they run over, or on the rounds that are left. The endless loops of the
-- threads are given by their rounds.
--
-- Bounds. Every `int` on the wire is 32 bits wide, with its wrap written out; `getIdx` narrows the
-- size of the log, which is exact up to 2 ^ 31 entries. Identifiers that a process only passes on
-- are unbounded integers until they meet the wire.
--
-- Not modelled. In a running server the steps of an engineer are atomic, up to where it waits for
-- a promise, and so are those of the admin: it takes a request, tests its type and connects, takes
-- the index, makes the request, sends it to the peers, stores the order, commits, and fulfils the
-- promise. In `Replicas`, where the sending is split into its calls, the followers have one
-- engineer's thread each, their other threads take no orders, each peer is behind one stub, and a
-- primary is succeeded while it replicates nothing, by a follower that it had not lost, over such as
-- it had not lost either or as are not reached. The
-- operations on the storage are atomic there, as their lock makes them (Storage/Atomic), except
-- `get_log` and `getIdx`, which do not take it. The unlocked accesses of several threads to the
-- indices of a factory have no defined meaning in C++; the steps give them one. Times are whole
-- nanoseconds, where the program has floating point. What is printed for diagnosis, the assignment
-- operators, which copy every field, the memory of the smart pointers and the usage texts are left
-- out, and so are the build files and what the build generates.
mod Prelude
pub mod Host
mod Buffer
pub mod Machine
pub mod Messages
pub mod Storage
pub mod Socket
pub mod Stub
pub mod Factory
mod Threads
pub mod Replicas
pub mod RwLock
pub mod Timer
pub mod Customer
pub mod Main
mod Tests
