-- ===== src/Factory/Counts.antt =====
-- Every promise has one place: its request waits in the queue or is in the admin's hands, or its value
-- waits to be fetched.
use pa.Prelude.{
  ℕ, ◌+◌, ◌≡◌, ◌≢◌, refl, ap, ◌∙◌, subst, inl, inr, Bool-cases, true, Option-cases, some, List, [],
  ◌∷◌, ◌++◌, arith, ℤ, pos, eq_int, eq_int_iff, if◌then◌else◌, ◌==◌,
}
use pa.Messages.Record.{CustomerRecord}
use pa.Socket.Whenever.{Whenever-done}
use pa.Threads.{moved, moved-cases}
use pa.Factory.{Peer, AdminRequest, LaptopFactory}
use pa.Factory.Engineer.{Engineer, take_promise, engineer_step}
use pa.Factory.Admin.{Admin, admin_step}
use pa.Factory.Deeds.{Deed, quiet, asks, gets, waits, Steps, engineer_step-Steps}
use pa.Factory.Chores.{
  Chore, takes, works, places, fulfils, reads, to_place, in_log, admin_step-Chores,
}
use pa.Factory.System.{System, Step, engineer, admin, Boots, Reach, boot, later}

-- How many requests carry the promise, and how many values of it wait.
unfoldable pub queued : ℤ → List AdminRequest → ℕ
queued owner [] = 0
queued owner (req ∷ erq) = (if eq_int req.promise owner then 1 else 0) + queued owner erq

unfoldable pub valued : ℤ → List (ℤ × CustomerRecord) → ℕ
valued owner [] = 0
valued owner ((id, value) ∷ fulfilled) = (if eq_int id owner then 1 else 0) + valued owner fulfilled

-- The promise's places in a factory, and in the admin's hands.
abbrev pub pending : ℤ → LaptopFactory → ℕ
pending owner f = queued owner f.erq + valued owner f.fulfilled

abbrev pub handled : ℤ → Admin → ℕ
handled owner a = queued owner (to_place a.place) + queued owner (in_log a.place)

queued-append :
    (owner : ℤ) (erq : List AdminRequest) (req : AdminRequest)
    → queued owner (erq ++ (req ∷ []))
      ≡ queued owner erq + (if eq_int req.promise owner then 1 else 0)
unfolding queued
queued-append owner [] req = omega arith
queued-append owner (r ∷ erq) req = omega (arith, queued-append owner erq req)

valued-take_promise :
    (owner id : ℤ) (fulfilled others : List (ℤ × CustomerRecord)) (v : CustomerRecord)
    → take_promise id fulfilled ≡ some (v, others)
    → valued owner fulfilled ≡ valued owner others + (if eq_int id owner then 1 else 0)
unfolding valued take_promise
valued-take_promise owner id [] others v e = cc
valued-take_promise owner id ((i, value) ∷ fulfilled) others v e =
    elim (Option-cases (take_promise id fulfilled)) [
      | inl no_value ↦ ground (arith, eq_int_iff i id)
      | inr ((found, rest), here) ↦
          ground (arith, eq_int_iff i id, valued-take_promise owner id fulfilled rest found here)
    ]

-- Where a value waits, it can be taken.
pub take_promise_of_valued :
    (owner : ℤ) (fulfilled : List (ℤ × CustomerRecord))
    → valued owner fulfilled ≢ 0
    → (v : CustomerRecord) × (others : List (ℤ × CustomerRecord)) × (take_promise owner fulfilled
        ≡ some (v, others))
unfolding valued take_promise
take_promise_of_valued owner [] h = absurd (h refl)
take_promise_of_valued owner ((i, value) ∷ fulfilled) h = elim (Bool-cases (eq_int i owner)) [
  | inl mine ↦ (value, fulfilled, rw (mine, take_promise) refl)
  | inr other ↦
      let (v, others, found) =
        take_promise_of_valued owner fulfilled (λ e. h (rw (other, e) refl)) in
      (v, (i, value) ∷ others, rw (other, take_promise, found) refl)
]

-- A step of an engineer changes the places of its own promise with its wait, and no other.
pending-Steps :
    (owner : ℤ) (f f' : LaptopFactory) (e e' : Engineer)
    → Deed f e f' e'
    → (if eq_int e.id owner then waits e.phase else 0) + pending owner f'
      ≡ (if eq_int e.id owner then waits e'.phase else 0) + pending owner f
pending-Steps owner f f' e e' (quiet erq fulfilled calm calm') =
    rw (erq, fulfilled, calm, calm') refl
pending-Steps owner f f' e e' (asks laptop req erq fulfilled calm phase promise type ops) =
    rw (erq, fulfilled, calm, ap waits phase, queued-append owner f.erq req, promise) (ground arith)
pending-Steps owner f f' e e' (gets laptop value erq taken phase calm') =
    rw
      (
        erq,
        calm',
        ap waits phase,
        valued-take_promise owner e.id f.fulfilled f'.fulfilled value taken,
      )
      (ground arith)

-- A step of the admin changes the places of no promise.
pending-Chore :
    (owner : ℤ) (f f' : LaptopFactory) (a a' : Admin)
    → Chore f a f' a'
    → pending owner f' + handled owner a' ≡ pending owner f + handled owner a
unfolding queued valued
pending-Chore owner f f' a a' (takes req erq fulfilled h h') =
    rw (erq, fulfilled, h.0, h.1, h'.0, h'.1) (omega arith)
pending-Chore owner f f' a a' (works same h') = rw (same.0, same.1, h'.0, h'.1) refl
pending-Chore owner f f' a a' (places req same h h' log) =
    rw (same.0, same.1, h.0, h.1, h'.0, h'.1) (omega arith)
pending-Chore owner f f' a a' (fulfils req value erq fulfilled h h') =
    rw (erq, fulfilled, h.0, h.1, h'.0, h'.1) (omega arith)
pending-Chore owner f f' a a' (reads req value erq fulfilled h h' read) =
    rw (erq, fulfilled, h.0, h.1, h'.0, h'.1) (omega arith)

-- The numbers stay, and the promise of every engineer has one place while the engineer waits for it
-- and none while it does not.
pub record Placed (s : System) : Type 0 where
  pub ids : (i : ℕ) → (s.engineers i).id ≡ pos i
  pub one_place :
      (i : ℕ) → pending (pos i) s.factory + handled (pos i) s.admin ≡ waits (s.engineers i).phase

is_same : {i j : ℕ} → i == j ≡ true → i ≡ j
is_same h = ground arith

places_moved :
    (at : ℕ → Engineer) (i : ℕ) (e : Engineer) (j before after hand : ℕ)
    → (if i == j then waits (at i).phase else 0) + after
      ≡ (if i == j then waits e.phase else 0) + before
    → before + hand ≡ waits (at j).phase
    → after + hand ≡ waits (moved at i e j).phase
places_moved at i e j before after hand change h = elim (Bool-cases (i == j)) [
  | inl same ↦ rw same (ground (arith, same, ap (λ k. waits (at k).phase) (is_same same)))
  | inr other ↦ rw other (ground (arith, other))
]

Step-Placed : {s t : System} → Placed s → Step s t → Placed t
Step-Placed {s} p (engineer i m unset {f} {e} taken) = record {
  ids = same_ids;
  one_place = places_of;
}
  where
    k : Steps s.factory (s.engineers i) f e
    k =
        Whenever-done _ (engineer_step m unset s.factory (s.engineers i))
          (engineer_step-Steps m s.factory (s.engineers i) unset) taken

    same_ids : (j : ℕ) → (moved s.engineers i e j).id ≡ pos j
    same_ids j = elim (moved-cases s.engineers i e j) [
      | inl (same, here) ↦ ap (λ x. x.id) here ∙ k.same_id ∙ p.ids i ∙ ap pos same
      | inr (other, there) ↦ ap (λ x. x.id) there ∙ p.ids j
    ]

    changed :
        (j : ℕ)
        → (if i == j then waits (s.engineers i).phase else 0) + pending (pos j) f
          ≡ (if i == j then waits e.phase else 0) + pending (pos j) s.factory
    changed j =
        subst
          (λ id.
            (if eq_int id (pos j) then waits (s.engineers i).phase else 0) + pending (pos j) f
            ≡ (if eq_int id (pos j) then waits e.phase else 0) + pending (pos j) s.factory)
          (p.ids i) (pending-Steps (pos j) s.factory f (s.engineers i) e k.deed)

    places_of :
        (j : ℕ)
        → pending (pos j) f + handled (pos j) s.admin ≡ waits (moved s.engineers i e j).phase
    places_of j =
        places_moved s.engineers i e j (pending (pos j) s.factory) (pending (pos j) f)
          (handled (pos j) s.admin) (changed j) (p.one_place j)
Step-Placed {s} p (admin m {f} {a} taken) =
    let k =
      Whenever-done _ (admin_step m s.factory s.admin) (admin_step-Chores m s.factory s.admin)
        taken in
    record {
      ids = p.ids;
      one_place = λ j. pending-Chore (pos j) s.factory f s.admin a k.chore ∙ p.one_place j;
    }

boot-Placed :
    {factory_id : ℤ} {peers : List Peer} {s : System} → Boots factory_id peers s → Placed s
unfolding queued valued
boot-Placed b = record { ids = b.ids; one_place = λ i. rw (b.factory, b.admin, b.phases i) refl }

-- In every state that a server comes to, whatever the order of the steps: each engineer has its own
-- number, and its promise has one place while it waits and none while it does not.
pub Reach-Placed : {s : System} → Reach s → Placed s
Reach-Placed (boot b) = boot-Placed b
Reach-Placed (later r step) = Step-Placed (Reach-Placed r) step
