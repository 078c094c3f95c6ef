-- ===== src/Factory/Durable.antt =====
-- What holds of the storage and of the promises in every state of a running server.
use pa.Prelude.{ℕ, ◌+◌, ◌≡◌, ap, subst, ◌⊎◌, inl, inr, some, List, arith, ℤ, pos}
use pa.Messages.Info.{LaptopInfo}
use pa.Messages.Record.{CustomerRecord}
use pa.Storage.Latest.{latest, or_minus_one, read_record_of_IsReplay}
use pa.Storage.{read_record}
use pa.Machine.{Machine}
use pa.Messages.Request.{MapOp, ReplicationRequest}
use pa.Socket.{done}
use pa.Socket.Whenever.{Whenever-done}
use pa.Threads.{moved, zero_or_pos}
use pa.Factory.{LaptopFactory}
use pa.Factory.Engineer.{Engineer, waiting, take_promise, engineer_step}
use pa.Factory.Admin.{admin_step}
use pa.Factory.Deeds.{Deed, quiet, asks, gets, waits, asked, Steps, engineer_step-Steps}
use pa.Factory.Chores.{admin_step-Chores}
use pa.Factory.System.{System, Step, engineer, admin, Reach, Run, ends, goes_on}
use pa.Factory.Counts.{queued, valued, handled, Reach-Placed, take_promise_of_valued}
use pa.Factory.Sound.{Reach-Sound}
use pa.Factory.Backing.{Logged, All-taken, Grown-log}

-- In every state that a server comes to, a read answers with the number of the customer's latest
-- order in the log, and with -1 where there is none.
pub Reach-reads :
    {s : System}
    → Reach s
    → (customer : ℤ)
    → read_record s.factory.server_storage customer
      ≡ or_minus_one (latest customer s.factory.server_storage.state_machine_log)
Reach-reads {s} r customer =
    read_record_of_IsReplay s.factory.server_storage customer (Reach-Sound r).replay

Step-Logged :
    {s t : System} (op : MapOp)
    → Step s t
    → Logged op s.factory.server_storage.state_machine_log
    → Logged op t.factory.server_storage.state_machine_log
Step-Logged {s} op (engineer i m unset {f} {e} taken) h =
    Grown-log (pos i) op s.factory f
      (Whenever-done _ (engineer_step m unset s.factory (s.engineers i))
        (engineer_step-Steps m s.factory (s.engineers i) unset) taken).grown
      h
Step-Logged {s} op (admin m {f} {a} taken) h =
    Grown-log (pos 0) op s.factory f
      (Whenever-done _ (admin_step m s.factory s.admin) (admin_step-Chores m s.factory s.admin)
        taken).grown
      h

Run-Logged :
    {s t : System} (op : MapOp)
    → Run s t
    → Logged op s.factory.server_storage.state_machine_log
    → Logged op t.factory.server_storage.state_machine_log
Run-Logged op ends h = h
Run-Logged op (goes_on step run) h = Run-Logged op run (Step-Logged op step h)

-- In a server that runs, with its admin and engineers taking their steps in any order, a step of an
-- engineer that waits with a laptop: the engineer waits no more, the laptop's order is in the log, and
-- it stays there whatever steps follow.
pub delivered-Logged :
    {s t : System} (i : ℕ) (laptop : LaptopInfo) (m : Machine) (unset : ReplicationRequest)
    {f : LaptopFactory} {e : Engineer}
    → Reach s
    → (s.engineers i).phase ≡ waiting laptop
    → engineer_step m unset s.factory (s.engineers i) ≡ done (f, e)
    → Run (record s { factory = f; engineers = moved s.engineers i e }) t
    → (waits e.phase ≡ 0) × Logged (asked laptop) t.factory.server_storage.state_machine_log
delivered-Logged {s} {t} i laptop m unset {f} {e} r now taken run =
    ((ended k.deed).0, Run-Logged (asked laptop) run (ended k.deed).1)
  where
    k : Steps s.factory (s.engineers i) f e
    k =
        Whenever-done _ (engineer_step m unset s.factory (s.engineers i))
          (engineer_step-Steps m s.factory (s.engineers i) unset) taken

    ended :
        Deed s.factory (s.engineers i) f e
        → (waits e.phase ≡ 0) × Logged (asked laptop) f.server_storage.state_machine_log
    ended (quiet erq fulfilled calm calm') = absurd (omega (arith, ap waits now, calm))
    ended (asks made req erq fulfilled calm phase promise type ops) =
        absurd (omega (arith, ap waits now, calm))
    ended (gets made value erq found phase calm') = (
      calm',
      Grown-log (pos i) (asked laptop) s.factory f k.grown (
          All-taken (pos i) s.factory.fulfilled f.fulfilled value
            (subst (λ id. take_promise id s.factory.fulfilled ≡ some (value, f.fulfilled))
              ((Reach-Placed r).ids i) found)
            ((Reach-Sound r).backed i laptop now).values),
    )

-- No wait is in vain: while an engineer waits, either the value of its promise is there to be taken,
-- or one request for it is in the queue or in the hands of the admin.
pub waiting-pending :
    {s : System} (i : ℕ) (laptop : LaptopInfo)
    → Reach s
    → (s.engineers i).phase ≡ waiting laptop
    → ((value : CustomerRecord) × (others : List (ℤ × CustomerRecord)) × (take_promise
            (pos i)
            s.factory.fulfilled
          ≡ some (value, others)))
      ⊎ (queued (pos i) s.factory.erq + handled (pos i) s.admin ≡ 1)
waiting-pending {s} i laptop r now = elim (zero_or_pos (valued (pos i) s.factory.fulfilled)) [
  | inl none_here ↦ inr (omega (arith, (Reach-Placed r).one_place i, ap waits now))
  | inr here ↦ inl (take_promise_of_valued (pos i) s.factory.fulfilled (λ z. absurd (omega arith)))
]
