-- ===== src/RwLock/Progress.antt =====
-- The lock does not deadlock.
use pa.Prelude.{
  ℕ, ◌-◌, ◌≤◌, ◌<◌, ◌≡◌, ◌≢◌, refl, ap, sym, subst, ◌⊎◌, inl, inr, Option, none, some, arith,
}
use pa.Threads.{tally, of_tally, zero_or_pos, weight-le-tally}
use pa.RwLock.{
  ReadWriteLock, Place, outside, entering, first, entered, reading, leaving, last, left, writing,
  Move, count_first, count_other, shut_out, read_start, read_unlock, discount_last, discount_other,
  let_in, read_end, write_unlock, System, Reach,
}
use pa.RwLock.Exclusion.{Inv, Reach-Inv, held, at_first, inside, at_last, is_writing, guarded}

-- Thread `i`, standing at `p`, can move.
abbrev pub CanMove : ℕ → ReadWriteLock → Place → Type 0
CanMove i l p = (l' : ReadWriteLock) × (p' : Place) × Move i l p l' p'

-- One of the first `n` threads is inside the lock's calls and can move.
abbrev pub SomeoneMoves : ℕ → System → Type 0
SomeoneMoves n s = (j : ℕ) × (j < n) × (s.at j ≢ outside) × CanMove j s.lock (s.at j)

enter : (i : ℕ) (l : ReadWriteLock) → CanMove i l entering
enter i l = elim (zero_or_pos l.read_cnt) [
  | inl e ↦ (_, _, count_first (omega arith))
  | inr e ↦ (_, _, count_other (omega arith))
]

leave : (i : ℕ) (l : ReadWriteLock) → CanMove i l leaving
leave i l = elim (zero_or_pos (l.read_cnt - 1)) [
  | inl e ↦ (_, _, discount_last e)
  | inr e ↦ (_, _, discount_other (omega arith))
]

-- From a place that holds `readMtx`, but for `first` and `last`, nothing keeps a thread.
guarded-CanMove : (i : ℕ) (l : ReadWriteLock) (p : Place) → 1 ≤ guarded p → CanMove i l p
guarded-CanMove i l entering h = enter i l
guarded-CanMove i l entered h = (_, _, read_start)
guarded-CanMove i l leaving h = leave i l
guarded-CanMove i l left h = (_, _, read_end)
guarded-CanMove i l outside h = absurd (omega arith)
guarded-CanMove i l first h = absurd (omega arith)
guarded-CanMove i l reading h = absurd (omega arith)
guarded-CanMove i l last h = absurd (omega arith)
guarded-CanMove i l writing h = absurd (omega arith)

at_last-CanMove : (i : ℕ) (l : ReadWriteLock) (p : Place) → 1 ≤ at_last p → CanMove i l p
at_last-CanMove i l last h = (_, _, let_in)
at_last-CanMove i l _ h = absurd (omega arith)

is_writing-CanMove : (i : ℕ) (l : ReadWriteLock) (p : Place) → 1 ≤ is_writing p → CanMove i l p
is_writing-CanMove i l writing h = (_, _, write_unlock)
is_writing-CanMove i l _ h = absurd (omega arith)

is_first : (p : Place) → 1 ≤ at_first p → p ≡ first
is_first first h = refl
is_first _ h = absurd (omega arith)

empty_of_held : (o : Option ℕ) → held o ≡ 0 → o ≡ none
empty_of_held none h = refl
empty_of_held (some i) h = absurd (omega arith)

-- Where a weight that lets a thread move occurs, someone moves.
push :
    (n : ℕ) (s : System) (weight : Place → ℕ)
    → weight outside ≡ 0
    → ((i : ℕ) (l : ReadWriteLock) (p : Place) → 1 ≤ weight p → CanMove i l p)
    → 1 ≤ tally weight n s.at
    → SomeoneMoves n s
push n s weight quiet moves some_do =
    let (j, lt, counts) = of_tally weight n s.at some_do in
    (j, lt, (λ e. omega (arith, counts, ap weight e, quiet)), moves j s.lock (s.at j) counts)

-- Without a reader inside, `writeMtx` is free or someone moves who will free it.
past_write :
    (n : ℕ) (s : System)
    → Inv n s.lock s.at
    → tally inside n s.at ≡ 0
    → (s.lock.write_mtx ≡ none) ⊎ SomeoneMoves n s
past_write n s v alone = elim (zero_or_pos (held s.lock.write_mtx)) [
  | inl e ↦ inl (empty_of_held s.lock.write_mtx e)
  | inr e ↦ elim (zero_or_pos (tally is_writing n s.at)) [
    | inr w ↦ inr (push n s is_writing refl is_writing-CanMove w)
    | inl w ↦ inr (push n s at_last refl at_last-CanMove (ground (arith, v.write_held)))
  ]
]

-- A thread that is about to take `writeMtx` for the readers, or someone else.
first_moves :
    (n : ℕ) (s : System) → Inv n s.lock s.at → (i : ℕ) → i < n → s.at i ≡ first → SomeoneMoves n s
first_moves n s v i lt e =
    elim (past_write n s v
      (v.alone (omega (arith, ap at_first e, weight-le-tally at_first n s.at i lt)))) [
        | inl h ↦ (i, lt, ground arith, subst (λ p. CanMove i s.lock p) (sym e) (_, _, shut_out h))
        | inr m ↦ m
      ]

-- `readMtx` is free or someone moves.
past_read : (n : ℕ) (s : System) → Inv n s.lock s.at → (s.lock.read_mtx ≡ none) ⊎ SomeoneMoves n s
past_read n s v = elim (zero_or_pos (held s.lock.read_mtx)) [
  | inl e ↦ inl (empty_of_held s.lock.read_mtx e)
  | inr e ↦ elim (zero_or_pos (tally guarded n s.at)) [
    | inr g ↦ inr (push n s guarded refl guarded-CanMove g)
    | inl g ↦ elim (zero_or_pos (tally at_last n s.at)) [
      | inr k ↦ inr (push n s at_last refl at_last-CanMove k)
      | inl k ↦
          let (j, lt, counts) = of_tally at_first n s.at (omega (arith, v.read_held)) in
          inr (first_moves n s v j lt (is_first (s.at j) counts))
    ]
  ]
]

-- In every reachable state in which a thread is inside a call of the lock or between a lock and its
-- unlock, one such thread can move.
pub no_deadlock :
    {n : ℕ} {s : System} → Reach n s → (i : ℕ) → i < n → s.at i ≢ outside → SomeoneMoves n s
no_deadlock {n} {s} r i lt within = standing (s.at i) refl
  where
    stays : (p : Place) → s.at i ≡ p → CanMove i s.lock p → SomeoneMoves n s
    stays p e m = (i, lt, within, subst (λ p. CanMove i s.lock p) (sym e) m)

    standing : (p : Place) → s.at i ≡ p → SomeoneMoves n s
    standing outside e = absurd (within e)
    standing entering e = stays entering e (enter i s.lock)
    standing first e = first_moves n s (Reach-Inv r) i lt e
    standing entered e = stays entered e (_, _, read_start)
    standing reading e = elim (past_read n s (Reach-Inv r)) [
      | inl h ↦ stays reading e (_, _, read_unlock h)
      | inr m ↦ m
    ]
    standing leaving e = stays leaving e (leave i s.lock)
    standing last e = stays last e (_, _, let_in)
    standing left e = stays left e (_, _, read_end)
    standing writing e = stays writing e (_, _, write_unlock)
