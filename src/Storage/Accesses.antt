-- ===== src/Storage/Accesses.antt =====
-- What is known of a thread in a call of ServerStorage, and what each access makes of it.
use pa.Prelude.{
  ◌≡◌, ◌≢◌, ◌⊎◌, refl, sym, ap, ◌∙◌, subst, Bool, true, false, Option, none, some, inl, inr, ℤ,
}
use mathlib.Core.Bool.{true≢false}
use pa.RwLock.{Place, reading, writing}
use pa.Storage.{ServerStorage, lookup, place_order}
use pa.Storage.Latest.{IsReplay, place_order-IsReplay, latest, or_minus_one}
use pa.Storage.Shared.{
  Work, free, stored, order, pushed, ask, counted, answered, push, assign, count, get, Do,
  calls_order, calls_read, pushes, assigns, counts, gets, unlocking, Takes, write_locks,
  write_unlocks, read_locks, read_unlocks, returns,
}

-- The two accesses of an order together.
assign-push : (s : ServerStorage) (c n : ℤ) → assign (push s c n) c n ≡ place_order s c n
unfolding place_order
assign-push s c n = refl

-- Half an order has been stored.
abbrev pub half : Work → Bool
half (pushed c n) = true
half _ = false

-- What is known of a thread: half an order is one assignment away from a whole one, and what a reader
-- has found is there.
abbrev pub Good : ServerStorage → Place → Work → Type 0
Good s p free = Unit
Good s p stored = Unit
Good s p (order c n) = Unit
Good s p (pushed c n) = (p ≡ writing) × IsReplay (assign s c n)
Good s p (ask c) = Unit
Good s p (counted c) = (p ≡ reading) × ((n : ℤ) × (lookup c s.customer_record ≡ some n))
Good s p (answered c n) = p ≡ reading → n ≡ or_minus_one (latest c s.state_machine_log)

-- The storage may change while a thread neither reads nor writes.
pub Good-away :
    (s t : ServerStorage) (p : Place) (w : Work)
    → p ≢ writing
    → p ≢ reading
    → Good s p w
    → Good t p w
Good-away s t p free w r h = tt
Good-away s t p stored w r h = tt
Good-away s t p (order c n) w r h = tt
Good-away s t p (pushed c n) w r h = absurd (w h.0)
Good-away s t p (ask c) w r h = tt
Good-away s t p (counted c) w r h = absurd (r h.0)
Good-away s t p (answered c n) w r h = λ e. absurd (r e)

-- A thread that has stored half an order writes.
pub writing_of_half :
    (s : ServerStorage) (p : Place) (w : Work) → Good s p w → half w ≡ true → p ≡ writing
writing_of_half s p (pushed c n) h e = h.0
writing_of_half s p free h e = cc
writing_of_half s p stored h e = cc
writing_of_half s p (order c n) h e = cc
writing_of_half s p (ask c) h e = cc
writing_of_half s p (counted c) h e = cc
writing_of_half s p (answered c n) h e = cc

-- What one access leaves behind.
pub record Done (s : ServerStorage) (p : Place) (w : Work) (t : ServerStorage) (w' : Work)
    : Type 0 where
  pub good : Good t p w'
  pub touched : (t ≡ s) ⊎ (p ≡ writing)
  pub whole : half w' ≡ false → ((t ≡ s) × (half w ≡ false)) ⊎ IsReplay t

counts-Good :
    (s : ServerStorage) (c : ℤ) (o : Option ℤ)
    → IsReplay s
    → lookup c s.customer_record ≡ o
    → Good s reading (count c o) × (half (count c o) ≡ false)
counts-Good s c none r e = ((λ p. ap or_minus_one (sym e ∙ r c)), refl)
counts-Good s c (some k) r e = ((refl, (k, e)), refl)

gets-Done :
    (s : ServerStorage) (c k : ℤ) (o : Option ℤ)
    → IsReplay s
    → lookup c s.customer_record ≡ o
    → o ≡ some k
    → Done s reading (counted c) (get s c o).0 (answered c (get s c o).1)
gets-Done s c k none r e there = cc
gets-Done s c k (some m) r e there = record {
  good = λ p. ap or_minus_one (sym e ∙ r c);
  touched = inl refl;
  whole = λ f. inl (refl, refl);
}

pub Do-Done :
    {s t : ServerStorage} {p : Place} {w w' : Work}
    → Do s p w t w'
    → Good s p w
    → ((p ≡ reading) ⊎ (p ≡ writing) → half w ≡ false → IsReplay s)
    → Done s p w t w'
Do-Done (calls_order c k) g ready = record {
  good = tt;
  touched = inl refl;
  whole = λ f. inl (refl, refl);
}
Do-Done (calls_read c) g ready = record {
  good = tt;
  touched = inl refl;
  whole = λ f. inl (refl, refl);
}
Do-Done {s} (pushes c k) g ready = record {
  good = (
    refl,
    subst IsReplay (sym (assign-push s c k)) (place_order-IsReplay s c k (ready (inr refl) refl)),
  );
  touched = inr refl;
  whole = λ f. absurd (true≢false f);
}
Do-Done (assigns c k) g ready = record { good = tt; touched = inr refl; whole = λ f. inr g.1 }
Do-Done {s} (counts c) g ready =
    let found = counts-Good s c (lookup c s.customer_record) (ready (inl refl) refl) refl in
    record { good = found.0; touched = inl refl; whole = λ f. inl (refl, refl) }
Do-Done {s} (gets c) g ready =
    gets-Done s c g.1.0 (lookup c s.customer_record) (ready (inl refl) refl) refl g.1.1

pub Takes-Good :
    (s : ServerStorage) {p p' : Place} {w w' : Work}
    → Takes p w p' w'
    → Good s p' w' × (half w ≡ false)
Takes-Good s (write_locks c k) = (tt, refl)
Takes-Good s write_unlocks = (tt, refl)
Takes-Good s (read_locks c p' t) = (tt, refl)
Takes-Good s (read_unlocks c k p' t) = ((λ e. absurd (true≢false (sym t ∙ ap unlocking e))), refl)
Takes-Good s (returns c k e) = (tt, refl)
