-- ===== src/Factory/Backing.antt =====
-- What backs a promise: its requests ask for one operation, and what is past the log has it in the log.
use pa.Prelude.{
  ◌≡◌, sym, ap, ◌∙◌, subst, inl, inr, Bool-cases, Option-cases, some, List, [], ◌∷◌, ◌++◌,
  append_assoc, All, arith, ℤ, eq_int, eq_int_iff,
}
use pa.Messages.Record.{CustomerRecord}
use pa.Messages.Request.{MapOp}
use pa.Factory.{AdminRequest, LaptopFactory}
use pa.Factory.Engineer.{take_promise}
use pa.Factory.Admin.{Admin}
use pa.Factory.Deeds.{Grown}
use pa.Factory.Chores.{to_place, in_log}
use pa.Factory.Counts.{queued, valued}

-- The operation stands in the log.
pub record Logged (op : MapOp) (log : List MapOp) : Type 0 where
  pub before : List MapOp
  pub after : List MapOp
  pub split : log ≡ before ++ (op ∷ after)

pub Logged-append : {op : MapOp} (log added : List MapOp) → Logged op log → Logged op (log ++ added)
Logged-append {op} log added h = record {
  before = h.before;
  after = h.after ++ added;
  split = ap (λ x. x ++ added) h.split ∙ append_assoc h.before (op ∷ h.after) added;
}

-- Every request with the promise asks for the operation.
abbrev pub AskFor : ℤ → MapOp → List AdminRequest → Type 0
AskFor owner op = All (λ req. req.promise ≡ owner → req.ops ≡ op)

-- Where a request with the promise, or a value of it, is here, the operation is in the log.
abbrev pub LoggedFor : ℤ → MapOp → List MapOp → List AdminRequest → Type 0
LoggedFor owner op log = All (λ req. req.promise ≡ owner → Logged op log)

abbrev pub ValuedFor : ℤ → MapOp → List MapOp → List (ℤ × CustomerRecord) → Type 0
ValuedFor owner op log = All (λ v. v.0 ≡ owner → Logged op log)

pub record Backed (owner : ℤ) (op : MapOp) (f : LaptopFactory) (a : Admin) : Type 0 where
  pub queue : AskFor owner op f.erq
  pub hands : AskFor owner op (to_place a.place)
  pub done_with : LoggedFor owner op f.server_storage.state_machine_log (in_log a.place)
  pub values : ValuedFor owner op f.server_storage.state_machine_log f.fulfilled

pub All-map {ℓ κ} :
    {A : Type ℓ} {P Q : A → Type κ} (xs : List A) → ((x : A) → P x → Q x) → All P xs → All Q xs
All-map [] g h = tt
All-map (x ∷ xs) g h = (g x h.0, All-map xs g h.1)

pub All-snoc {ℓ κ} :
    {A : Type ℓ} (P : A → Type κ) (xs : List A) (x : A) → All P xs → P x → All P (xs ++ (x ∷ []))
All-snoc P [] x h p = (p, tt)
All-snoc P (y ∷ xs) x h p = (h.0, All-snoc P xs x h.1 p)

-- Where the count is zero, no request has the promise.
pub none_of_queued {κ} :
    (owner : ℤ) (P : AdminRequest → Type κ) (erq : List AdminRequest)
    → queued owner erq ≡ 0
    → All (λ req. req.promise ≡ owner → P req) erq
unfolding queued
none_of_queued owner P [] h = tt
none_of_queued owner P (req ∷ erq) h = (
  λ e. absurd (ground (arith, (eq_int_iff req.promise owner).1 e)),
  none_of_queued owner P erq (omega arith),
)

pub none_of_valued {κ} :
    (owner : ℤ) (P : ℤ × CustomerRecord → Type κ) (fulfilled : List (ℤ × CustomerRecord))
    → valued owner fulfilled ≡ 0
    → All (λ v. v.0 ≡ owner → P v) fulfilled
unfolding valued
none_of_valued owner P [] h = tt
none_of_valued owner P ((id, value) ∷ fulfilled) h = (
  λ e. absurd (ground (arith, (eq_int_iff id owner).1 e)),
  none_of_valued owner P fulfilled (omega arith),
)

-- The values that are left were there.
pub All-take_promise {κ} :
    (P : ℤ × CustomerRecord → Type κ) (id : ℤ) (fulfilled others : List (ℤ × CustomerRecord))
    (v : CustomerRecord)
    → take_promise id fulfilled ≡ some (v, others)
    → All P fulfilled
    → All P others
unfolding take_promise
All-take_promise P id [] others v e h = absurd (ground arith)
All-take_promise P id ((i, value) ∷ fulfilled) others v e h = elim (Bool-cases (eq_int i id)) [
  | inl mine ↦ subst (All P) (ground (arith, mine)) h.1
  | inr other ↦ elim (Option-cases (take_promise id fulfilled)) [
    | inl no_value ↦ absurd (ground (arith, other, no_value))
    | inr ((found, rest), here) ↦
        let same : (i, value) ∷ rest ≡ others = ground (arith, other, here) in
        subst (All P) same (h.0, All-take_promise P id fulfilled rest found here h.1)
  ]
]

pub All-taken {κ} :
    {Q : Type κ} (id : ℤ) (fulfilled others : List (ℤ × CustomerRecord)) (v : CustomerRecord)
    → take_promise id fulfilled ≡ some (v, others)
    → All (λ w. w.0 ≡ id → Q) fulfilled
    → Q
unfolding take_promise
All-taken id [] others v e h = absurd (ground arith)
All-taken id ((i, value) ∷ fulfilled) others v e h = elim (Bool-cases (eq_int i id)) [
  | inl mine ↦ h.0 ((eq_int_iff i id).0 mine)
  | inr other ↦ elim (Option-cases (take_promise id fulfilled)) [
    | inl no_value ↦ absurd (ground (arith, other, no_value))
    | inr ((found, rest), here) ↦ All-taken id fulfilled rest found here h.1
  ]
]

module _ (owner : ℤ) (op : MapOp) (f f' : LaptopFactory) where
  pub Grown-log :
      Grown f f'
      → Logged op f.server_storage.state_machine_log
      → Logged op f'.server_storage.state_machine_log
  Grown-log g h =
      subst (Logged op) (sym g.log) (Logged-append f.server_storage.state_machine_log g.added h)

  pub Grown-values :
      Grown f f'
      → ValuedFor owner op f.server_storage.state_machine_log f.fulfilled
      → ValuedFor owner op f'.server_storage.state_machine_log f.fulfilled
  Grown-values g h = All-map f.fulfilled (λ v k e. Grown-log g (k e)) h

  pub Grown-done :
      (reqs : List AdminRequest)
      → Grown f f'
      → LoggedFor owner op f.server_storage.state_machine_log reqs
      → LoggedFor owner op f'.server_storage.state_machine_log reqs
  Grown-done reqs g h = All-map reqs (λ req k e. Grown-log g (k e)) h
