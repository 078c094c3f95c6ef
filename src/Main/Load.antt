-- ===== src/Main/Load.antt =====
-- The statistics of a client whose customers are all served.
use Prim.Native.String.{String}
use native.Mathlib.Nat.{suc-mul}
use pa.Prelude.{
  ℕ, zero, suc, ◌+◌, ◌-◌, ◌*◌, ◌^◌, ◌≤◌, ◌≡◌, refl, ap₂, subst, Option, some, List, [], ◌∷◌, map,
  All, length, arith, ℤ, pos,
}
use pa.Machine.{Machine}
use pa.Messages.Fields.{encode, int_size}
use pa.Messages.Order
use pa.Messages.Info
use pa.Messages.Info.{LaptopInfo}
use pa.Messages.RoundTrip.{info_fields, Fits}
use pa.Socket.{Returns, Returns-bind, Returns-mono}
use pa.Socket.Healthy.{take_sends, Carries}
use pa.Stub.Client.{Dial, make}
use pa.Stub.Healthy.{Connects}
use pa.Timer.{ClientTimer, Stats, new, start, stop, merge, print_stats}
use pa.Timer.Bounds.{Bounded, new-Bounded, start-Bounded, stop-Bounded, merge-Bounded}
use pa.Customer.Timing.{thread_body-Bounded}
use pa.Socket.Whenever.{Whenever, Whenever-bind, Returns-and}
use pa.Customer.{thread_body}
use pa.Customer.Session.{thread_body-Served}
use pa.Main.Client.{
  Job, Meeting, jobs_from, job_list, run_jobs, merge_all, client_main, sum_counts,
  op_count-merge_all,
}

-- A thread whose first attempt to connect succeeds, and for which the kernel carries its name and an
-- exchange for each of so many orders.
pub record WellMet (m : Machine) (orders : ℕ) (x : Meeting) : Type 0 where
  pub dial : Dial
  pub others : List Dial
  pub dialled : x.dials ≡ dial ∷ others
  pub connects : Connects (make m.junk).link dial
  pub sends : List ℤ
  pub named : take_sends dial.sends int_size ≡ some sends
  pub laptops : List LaptopInfo
  pub enough : length laptops ≡ orders
  pub fits : All (λ l. Fits (info_fields l)) laptops
  pub carried :
      Carries Order.size Info.size sends dial.recvs (map (λ l. encode (info_fields l)) laptops)

thread_body-counts :
    (m : Machine) (orders : ℕ) (ip : String) (port id : ℤ) (x : Meeting)
    → WellMet m orders x
    → Returns
        (thread_body m x.clock (new x.junk) (make m.junk) ip port id (pos orders) (pos 1) x.dials)
        (λ r. r.timer.op_count ≡ orders)
thread_body-counts m orders ip port id x w = rw (w.dialled) (
    subst
      (λ n.
        Returns
          (thread_body m x.clock (new x.junk) (make m.junk) ip port id (pos n) (pos 1)
            (w.dial ∷ w.others))
          (λ r. r.timer.op_count ≡ n))
      w.enough
      (Returns-mono
        (thread_body m x.clock (new x.junk) (make m.junk) ip port id (pos (length w.laptops))
          (pos 1) (w.dial ∷ w.others))
        (thread_body-Served m x.clock (new x.junk) (make m.junk) ip port id w.laptops w.dial
          w.others w.sends w.connects w.named w.carried w.fits)
        (λ r s. omega (arith, s.counted))))

run_jobs-counts :
    (m : Machine) (ip : String) (port : ℤ) (orders left i : ℕ) (meetings : List Meeting)
    → length meetings ≡ left
    → All (WellMet m orders) meetings
    → Returns
        (run_jobs m (jobs_from ip port (pos orders) (pos 1) left i) meetings)
        (λ timers. sum_counts timers ≡ left * orders)
unfolding run_jobs jobs_from
run_jobs-counts m ip port orders zero i meetings e w = omega arith
run_jobs-counts m ip port orders (suc left) i [] e w = absurd (omega arith)
run_jobs-counts m ip port orders (suc left) i (x ∷ meetings) e (w, ws) =
    Returns-bind _
      (thread_body m x.clock (new x.junk) (make m.junk) ip port (pos i) (pos orders) (pos 1)
        x.dials)
      _ (thread_body-counts m orders ip port (pos i) x w)
      (λ r counted.
        Returns-bind _ (run_jobs m (jobs_from ip port (pos orders) (pos 1) left (i + 1)) meetings) _
          (run_jobs-counts m ip port orders left (i + 1) meetings (omega arith) ws)
          (λ timers rest. omega (arith, counted, rest, suc-mul left orders)))

elapsed-merge_all :
    (t : ClientTimer) (timers : List ClientTimer)
    → (merge_all t timers).elapsed_time ≡ t.elapsed_time
unfolding merge_all merge
elapsed-merge_all t [] = refl
elapsed-merge_all t (u ∷ timers) = elapsed-merge_all (merge t u) timers

run_jobs-Bounded :
    (m : Machine) (jobs : List Job) (meetings : List Meeting)
    → Whenever (run_jobs m jobs meetings) (All Bounded)
unfolding run_jobs
run_jobs-Bounded m [] meetings = tt
run_jobs-Bounded m (job ∷ jobs) [] = tt
run_jobs-Bounded m (job ∷ jobs) (x ∷ meetings) =
    Whenever-bind (All Bounded)
      (thread_body m x.clock (new x.junk) (make m.junk) job.ip job.port job.id job.orders job.type
        x.dials)
      _
      (thread_body-Bounded m x.clock (new x.junk) (make m.junk) job.ip job.port job.id job.orders
        job.type x.dials (new-Bounded x.junk))
      (λ r h.
        Whenever-bind (All Bounded) (run_jobs m jobs meetings) _ (run_jobs-Bounded m jobs meetings)
          (λ timers hs. (h, hs)))

merge_all-Bounded :
    (t : ClientTimer) (timers : List ClientTimer)
    → Bounded t
    → All Bounded timers
    → Bounded (merge_all t timers)
unfolding merge_all
merge_all-Bounded t [] h hs = h
merge_all-Bounded t (u ∷ timers) h hs =
    merge_all-Bounded (merge t u) timers (merge-Bounded t u h hs.0) hs.1

-- Statistics of so many operations in so much time, with an average between its two bounds.
pub record Printed (operations time : ℕ) (o : Option Stats) : Type 0 where
  pub stats : Stats
  pub shown : o ≡ some stats
  pub rate : stats.rate ≡ record { over = operations * 10 ^ 9; under = time }
  pub count : stats.average.under ≡ operations
  pub low : stats.least * operations ≤ stats.average.over
  pub high : stats.average.over ≤ stats.greatest * operations

print_stats-Printed :
    (t : ClientTimer) (operations time : ℕ)
    → Bounded t
    → t.op_count ≡ operations
    → t.elapsed_time ≡ time
    → Printed operations time (some (print_stats t))
unfolding print_stats
print_stats-Printed t operations time h counted timed = record {
  stats = print_stats t;
  shown = refl;
  rate = ap₂ (λ n d. record { over = n * 10 ^ 9; under = d }) counted timed;
  count = counted;
  low = subst (λ n. t.min * n ≤ t.sum) counted h.low;
  high = subst (λ n. t.sum ≤ t.max * n) counted h.high;
}

-- A client of type 1 whose customers are all served: `main` returns and prints statistics of as many
-- operations as there are customers times orders for each, over the time from its start to its end,
-- with an average between the least and the greatest duration that it prints.
pub client_main-Printed :
    (atoi : String → ℤ) (m : Machine) (junk began ended : ℕ)
    (name ip port customers orders type : String) (more : List String) (meetings : List Meeting)
    (each : ℕ)
    → atoi customers ≡ pos (length meetings)
    → atoi orders ≡ pos each
    → atoi type ≡ pos 1
    → All (WellMet m each) meetings
    → Returns
        (client_main atoi m junk began ended
          (name ∷ ip ∷ port ∷ customers ∷ orders ∷ type ∷ more)
          meetings)
        (Printed (length meetings * each) (ended - began))
unfolding client_main job_list start stop
client_main-Printed atoi m junk began ended name ip port customers orders type more meetings each
      many each_is regular w =
    rw (many, each_is, regular)
      (Returns-bind _ (run_jobs m jobs meetings) _
        (Returns-and _ _ (run_jobs m jobs meetings)
          (run_jobs-counts m ip (atoi port) each (length meetings) 0 meetings refl w)
          (run_jobs-Bounded m jobs meetings))
        (λ timers (total, bounded).
          print_stats-Printed (merge_all timer timers) (length meetings * each) (ended - began)
            (merge_all-Bounded timer timers
              (stop-Bounded (start (new junk) began) ended
                (start-Bounded (new junk) began (new-Bounded junk)))
              bounded)
            (omega (arith, op_count-merge_all timer timers, total))
            (elapsed-merge_all timer timers)))
  where
    jobs : List Job
    jobs = jobs_from ip (atoi port) (pos each) (pos 1) (length meetings) 0

    timer : ClientTimer
    timer = stop (start (new junk) began) ended
