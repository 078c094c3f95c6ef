-- ===== src/Socket/Whenever.antt =====
-- What holds of the result of a call that may also wait or fail.
use pa.Prelude.{◌≡◌, refl, subst, Bool, true, false, if◌then◌else◌}
use pa.Socket.{Outcome, done, blocked, aborted, ◌>>=◌, Returns}

-- If the call returns, its result satisfies `P`.
abbrev pub Whenever {ℓ} : {A : Type ℓ} → Outcome A → (A → Type 0) → Type 0
Whenever (done a) P = P a
Whenever blocked P = Unit
Whenever aborted P = Unit

pub Whenever-mono {ℓ} :
    {A : Type ℓ} {P Q : A → Type 0} (o : Outcome A)
    → Whenever o P
    → ((a : A) → P a → Q a)
    → Whenever o Q
Whenever-mono (done a) h f = f a h
Whenever-mono blocked h f = tt
Whenever-mono aborted h f = tt

pub Whenever-bind {ℓ κ} :
    {A : Type ℓ} {B : Type κ} {P : A → Type 0} (Q : B → Type 0) (o : Outcome A) (f : A → Outcome B)
    → Whenever o P
    → ((a : A) → P a → Whenever (f a) Q)
    → Whenever (o >>= f) Q
Whenever-bind Q (done a) f h k = k a h
Whenever-bind Q blocked f h k = tt
Whenever-bind Q aborted f h k = tt

-- The same where the first call does not matter.
pub Whenever-then {ℓ κ} :
    {A : Type ℓ} {B : Type κ} (Q : B → Type 0) (o : Outcome A) (f : A → Outcome B)
    → ((a : A) → Whenever (f a) Q)
    → Whenever (o >>= f) Q
Whenever-then Q (done a) f k = k a
Whenever-then Q blocked f k = tt
Whenever-then Q aborted f k = tt

pub Whenever-if {ℓ} :
    {A : Type ℓ} (Q : A → Type 0) (b : Bool) (x y : Outcome A)
    → (b ≡ true → Whenever x Q)
    → (b ≡ false → Whenever y Q)
    → Whenever (if b then x else y) Q
Whenever-if Q true x y hx hy = hx refl
Whenever-if Q false x y hx hy = hy refl

pub Whenever-done {ℓ} :
    {A : Type ℓ} (P : A → Type 0) (o : Outcome A) {a : A} → Whenever o P → o ≡ done a → P a
Whenever-done P o h e = subst (λ o. Whenever o P) e h

-- Of a call that returns, both.
pub Returns-and {ℓ} :
    {A : Type ℓ} (P Q : A → Type 0) (o : Outcome A)
    → Returns o P
    → Whenever o Q
    → Returns o (λ a. P a × Q a)
Returns-and P Q (done a) h k = (h, k)
Returns-and P Q blocked h k = absurd h
Returns-and P Q aborted h k = absurd h
