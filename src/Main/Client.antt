-- ===== src/Main/Client.antt =====
-- ClientMain.cpp. `atoi` is the C library's.
use Prim.Native.String.{String}
use pa.Prelude.{
  ℕ, zero, suc, ◌+◌, ◌≡◌, Option, none, some, List, [], ◌∷◌, if◌then◌else◌, ℤ, pos, eq_int,
  pos_part, arith,
}
use pa.Machine.{Machine}
use pa.Socket.{Outcome, done, blocked, ◌>>=◌}
use pa.Stub.Client.{Dial, make}
use pa.Timer.{ClientTimer, Stats, new, start, stop, merge, print_stats}
use pa.Customer.{thread_body}

-- The arguments of one `ThreadBody`.
pub record Job : Type 0 where
  pub ip : String
  pub port : ℤ
  pub id : ℤ
  pub orders : ℤ
  pub type : ℤ

-- The threads from customer `i` on.
unfoldable pub jobs_from : String → ℤ → ℤ → ℤ → (left i : ℕ) → List Job
jobs_from ip port orders type zero i = []
jobs_from ip port orders type (suc left) i =
    record { ip = ip; port = port; id = pos i; orders = orders; type = type }
    ∷ jobs_from ip port orders type left (i + 1)

-- The threads that `main` starts for its six arguments or more. For type 2 there is one, and its
-- customer is the number given for the customers.
unfoldable pub job_list : (atoi : String → ℤ) → (ip port customers orders type : String) → List Job
unfolding jobs_from
job_list atoi ip port customers orders type =
    if eq_int (atoi type) (pos 2)
    then record {
      ip = ip;
      port = atoi port;
      id = atoi customers;
      orders = atoi orders;
      type = atoi type;
    }
      ∷ []
    else jobs_from ip (atoi port) (atoi orders) (atoi type) (pos_part (atoi customers)) 0

-- The timers of the threads, merged into that of `main`.
unfoldable pub merge_all : ClientTimer → List ClientTimer → ClientTimer
merge_all t [] = t
merge_all t (u ∷ timers) = merge_all (merge t u) timers

-- What a thread meets: the times of its rounds, its attempts to connect, and what the memory of its
-- timer held.
pub record Meeting : Type 0 where
  pub clock : ℕ → ℕ × ℕ
  pub dials : List Dial
  pub junk : ℕ

-- The threads up to their end, with their timers. No two share anything, so one runs after the other.
unfoldable pub run_jobs : Machine → List Job → List Meeting → Outcome (List ClientTimer)
unfolding thread_body
run_jobs m [] meetings = done []
run_jobs m (job ∷ others) [] = blocked
run_jobs m (job ∷ others) (x ∷ meetings) = do
  r ←
      thread_body m x.clock (new x.junk) (make m.junk) job.ip job.port job.id job.orders job.type
        x.dials
  timers ← run_jobs m others meetings
  done (r.timer ∷ timers)

-- `main`, the program's name first among its arguments: the statistics that it prints, where it prints
-- them.
unfoldable pub client_main :
    (atoi : String → ℤ)
    → Machine
    → (junk : ℕ) → (began ended : ℕ) → List String
    → List Meeting
    → Outcome (Option Stats)
unfolding job_list run_jobs merge_all start stop print_stats
client_main atoi m junk began ended (name ∷ ip ∷ port ∷ customers ∷ orders ∷ type ∷ more) meetings =
    do
      timers ← run_jobs m (job_list atoi ip port customers orders type) meetings
      let timer = stop (start (new junk) began) ended
      if eq_int (atoi type) (pos 2)
          then done none
          else done (some (print_stats (merge_all timer timers)))
client_main atoi m junk began ended args meetings = done none

abbrev pub sum_counts : List ClientTimer → ℕ
sum_counts [] = 0
sum_counts (t ∷ timers) = t.op_count + sum_counts timers

-- No operation of any thread is lost or counted twice.
pub op_count-merge_all :
    (t : ClientTimer) (timers : List ClientTimer)
    → (merge_all t timers).op_count ≡ t.op_count + sum_counts timers
unfolding merge_all merge
op_count-merge_all t [] = omega arith
op_count-merge_all t (u ∷ timers) = omega (arith, op_count-merge_all (merge t u) timers)
