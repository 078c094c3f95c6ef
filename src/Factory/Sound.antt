-- ===== src/Factory/Sound.antt =====
-- An invariant of a running server: the storage is the replay of its log, and what backs a promise.
use pa.Prelude.{ℕ, ◌+◌, ◌≡◌, refl, sym, ap, ◌∙◌, subst, inl, inr, List, All, arith, ℤ, pos}
use pa.Messages.Info.{LaptopInfo}
use pa.Storage.Latest.{IsReplay, new-IsReplay}
use pa.Socket.Whenever.{Whenever-done}
use pa.Threads.{moved, moved-cases}
use pa.Factory.{Peer, LaptopFactory}
use pa.Factory.Engineer.{Engineer, Phase, waiting, engineer_step}
use pa.Factory.Admin.{Admin, admin_step}
use pa.Factory.Deeds.{Deed, quiet, asks, gets, waits, asked, Steps, engineer_step-Steps}
use pa.Factory.Chores.{Chore, takes, works, places, fulfils, reads, to_place, admin_step-Chores}
use pa.Factory.System.{System, Step, engineer, admin, Boots, Reach, boot, later}
use pa.Factory.Counts.{pending, handled, Placed, Reach-Placed}
use pa.Factory.Backing.{Backed, All-snoc}
use pa.Factory.Upkeep.{Chore-Backed, Deed-Backed, new-Backed}

-- Every request that waits is an order, the map agrees with the log, and every promise is backed.
pub record Sound (s : System) : Type 0 where
  pub queue : All (λ req. req.type ≡ pos 1) s.factory.erq
  pub hands : All (λ req. req.type ≡ pos 1) (to_place s.admin.place)
  pub replay : IsReplay s.factory.server_storage
  pub backed :
      (i : ℕ) (laptop : LaptopInfo)
      → (s.engineers i).phase ≡ waiting laptop
      → Backed (pos i) (asked laptop) s.factory s.admin

Deed-queue :
    (f f' : LaptopFactory) (e e' : Engineer)
    → Deed f e f' e'
    → All (λ req. req.type ≡ pos 1) f.erq
    → All (λ req. req.type ≡ pos 1) f'.erq
Deed-queue f f' e e' (quiet erq fulfilled calm calm') h =
    subst (All (λ req. req.type ≡ pos 1)) (sym erq) h
Deed-queue f f' e e' (asks laptop req erq fulfilled calm phase promise type ops) h =
    subst (All (λ req. req.type ≡ pos 1)) (sym erq) (All-snoc _ f.erq req h type)
Deed-queue f f' e e' (gets laptop value erq taken phase calm') h =
    subst (All (λ req. req.type ≡ pos 1)) (sym erq) h

Chore-queues :
    (f f' : LaptopFactory) (a a' : Admin)
    → Chore f a f' a'
    → All (λ req. req.type ≡ pos 1) f.erq
    → All (λ req. req.type ≡ pos 1) (to_place a.place)
    → All (λ req. req.type ≡ pos 1) f'.erq × All (λ req. req.type ≡ pos 1) (to_place a'.place)
Chore-queues f f' a a' (takes req erq fulfilled h h') q t =
    let split = subst (All (λ req. req.type ≡ pos 1)) erq q in
    (split.1, subst (All (λ req. req.type ≡ pos 1)) (sym h'.0) (split.0, tt))
Chore-queues f f' a a' (works same h') q t = (
  subst (All (λ req. req.type ≡ pos 1)) (sym same.0) q,
  subst (All (λ req. req.type ≡ pos 1)) (sym h'.0) t,
)
Chore-queues f f' a a' (places req same h h' log) q t = (
  subst (All (λ req. req.type ≡ pos 1)) (sym same.0) q,
  subst (All (λ req. req.type ≡ pos 1)) (sym h'.0) tt,
)
Chore-queues f f' a a' (fulfils req value erq fulfilled h h') q t = (
  subst (All (λ req. req.type ≡ pos 1)) (sym erq) q,
  subst (All (λ req. req.type ≡ pos 1)) (sym h'.0) tt,
)
Chore-queues f f' a a' (reads req value erq fulfilled h h' read) q t = (
  subst (All (λ req. req.type ≡ pos 1)) (sym erq) q,
  subst (All (λ req. req.type ≡ pos 1)) (sym h'.0) tt,
)

-- The engineer that steps is backed if it waits now.
Deed-mine :
    (a : Admin) (f f' : LaptopFactory) (e e' : Engineer) (laptop : LaptopInfo)
    → Deed f e f' e'
    → pending e.id f + handled e.id a ≡ waits e.phase
    → e'.phase ≡ waiting laptop
    → Backed e.id (asked laptop) f' a
Deed-mine a f f' e e' laptop (quiet erq fulfilled calm calm') count now =
    absurd (omega (arith, ap waits now, calm'))
Deed-mine a f f' e e' laptop (asks made req erq fulfilled calm phase promise type ops) count now =
    new-Backed e.id (asked laptop) f f' a req (count ∙ calm) erq fulfilled (ops ∙ same)
  where
    laptop_of : Phase → LaptopInfo
    laptop_of (waiting l) = l
    laptop_of _ = laptop

    same : asked made ≡ asked laptop
    same = ap (λ p. asked (laptop_of p)) (sym phase ∙ now)
Deed-mine a f f' e e' laptop (gets made value erq taken phase calm') count now =
    absurd (omega (arith, ap waits now, calm'))

pos_inj : {i j : ℕ} → pos i ≡ pos j → i ≡ j
pos_inj h = ground arith

Step-Sound : {s t : System} → Placed s → Sound s → Step s t → Sound t
Step-Sound {s} p h (engineer i m unset {f} {e} taken) = record {
  queue = Deed-queue s.factory f (s.engineers i) e k.deed h.queue;
  hands = h.hands;
  replay = k.grown.replay h.replay;
  backed = backs;
}
  where
    k : Steps s.factory (s.engineers i) f e
    k =
        Whenever-done _ (engineer_step m unset s.factory (s.engineers i))
          (engineer_step-Steps m s.factory (s.engineers i) unset) taken

    backs :
        (j : ℕ) (laptop : LaptopInfo)
        → (moved s.engineers i e j).phase ≡ waiting laptop
        → Backed (pos j) (asked laptop) f s.admin
    backs j laptop now = elim (moved-cases s.engineers i e j) [
      | inl (same, here) ↦
          subst (λ id. Backed id (asked laptop) f s.admin) (p.ids i ∙ ap pos same)
            (Deed-mine s.admin s.factory f (s.engineers i) e laptop k.deed
              (subst (λ id. pending id s.factory + handled id s.admin ≡ waits (s.engineers i).phase)
                (sym (p.ids i)) (p.one_place i))
              (ap (λ x. x.phase) (sym here) ∙ now))
      | inr (other, there) ↦
          Deed-Backed (pos j) (asked laptop) s.factory f s.admin (s.engineers i) e
            (λ same. other (pos_inj (sym (p.ids i) ∙ same))) k.grown k.deed
            (h.backed j laptop (ap (λ x. x.phase) (sym there) ∙ now))
    ]
Step-Sound {s} p h (admin m {f} {a} taken) =
    let k =
      Whenever-done _ (admin_step m s.factory s.admin) (admin_step-Chores m s.factory s.admin)
        taken in
    let queues = Chore-queues s.factory f s.admin a k.chore h.queue h.hands in
    record {
      queue = queues.0;
      hands = queues.1;
      replay = k.grown.replay h.replay;
      backed = λ j laptop now.
          Chore-Backed (pos j) (asked laptop) s.factory f s.admin a h.hands refl k.grown k.chore
            (h.backed j laptop now);
    }

boot-Sound : {factory_id : ℤ} {peers : List Peer} {s : System} → Boots factory_id peers s → Sound s
boot-Sound {factory_id} {peers} b = record {
  queue = subst (λ f. All (λ req. req.type ≡ pos 1) f.erq) (sym b.factory) tt;
  hands = subst (λ p. All (λ req. req.type ≡ pos 1) (to_place p)) (sym b.admin) tt;
  replay = subst (λ f. IsReplay f.server_storage) (sym b.factory) new-IsReplay;
  backed = λ i laptop now. absurd (ground (arith, ap waits (sym (b.phases i) ∙ now)));
}

pub Reach-Sound : {s : System} → Reach s → Sound s
Reach-Sound (boot b) = boot-Sound b
Reach-Sound (later r step) = Step-Sound (Reach-Placed r) (Reach-Sound r) step
