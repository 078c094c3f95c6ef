-- ===== src/Timer/Merged.antt =====
-- The statistics of several timers together.
use pa.Prelude.{
  ℕ, ◌+◌, ◌-◌, ◌≤◌, ◌≡◌, refl, sym, ap, ap₂, ◌∙◌, length-append, List, [], ◌∷◌, ◌++◌, length, arith,
  ltb, if◌then◌else◌,
}
use pa.Timer.{ClientTimer, new, longest, start, end_and_merge, merge}

-- The rounds that a thread measures, each with the times of its start and its end.
unfoldable pub measure : ClientTimer → List (ℕ × ℕ) → ClientTimer
unfolding start end_and_merge
measure t [] = t
measure t ((begin, finish) ∷ rounds) = measure (end_and_merge (start t begin) finish) rounds

-- Two timers show the same statistics.
pub record SameStats (t u : ClientTimer) : Type 0 where
  pub sum : t.sum ≡ u.sum
  pub count : t.op_count ≡ u.op_count
  pub min : t.min ≡ u.min
  pub max : t.max ≡ u.max

-- The statistics of a list of durations, added to those of a timer.
abbrev total : List (ℕ × ℕ) → ℕ
total [] = 0
total ((begin, finish) ∷ rounds) = (finish - begin) + total rounds

abbrev smaller : ℕ → ℕ → ℕ
smaller a b = if ltb b a then b else a

abbrev larger : ℕ → ℕ → ℕ
larger a b = if ltb a b then b else a

abbrev least : ℕ → List (ℕ × ℕ) → ℕ
least a [] = a
least a ((begin, finish) ∷ rounds) = least (smaller a (finish - begin)) rounds

abbrev greatest : ℕ → List (ℕ × ℕ) → ℕ
greatest a [] = a
greatest a ((begin, finish) ∷ rounds) = greatest (larger a (finish - begin)) rounds

least-smaller :
    (a b : ℕ) (rounds : List (ℕ × ℕ)) → least (smaller a b) rounds ≡ smaller a (least b rounds)
least-smaller a b [] = refl
least-smaller a b ((begin, finish) ∷ rounds) =
    rw (← least-smaller a (smaller b (finish - begin)) rounds)
      (ap (λ k. least k rounds) (ground arith))

greatest-larger :
    (a b : ℕ) (rounds : List (ℕ × ℕ)) → greatest (larger a b) rounds ≡ larger a (greatest b rounds)
greatest-larger a b [] = refl
greatest-larger a b ((begin, finish) ∷ rounds) =
    rw (← greatest-larger a (larger b (finish - begin)) rounds)
      (ap (λ k. greatest k rounds) (ground arith))

-- What a timer holds after its rounds.
pub record Holds (t : ClientTimer) (rounds : List (ℕ × ℕ)) (u : ClientTimer) : Type 0 where
  pub sum : u.sum ≡ t.sum + total rounds
  pub count : u.op_count ≡ t.op_count + length rounds
  pub min : u.min ≡ least t.min rounds
  pub max : u.max ≡ greatest t.max rounds

pub measure-Holds : (t : ClientTimer) (rounds : List (ℕ × ℕ)) → Holds t rounds (measure t rounds)
unfolding measure
measure-Holds t [] = ground arith
measure-Holds t ((begin, finish) ∷ rounds) =
    let h = measure-Holds (end_and_merge (start t begin) finish) rounds in
    record { sum = omega (arith, h.sum); count = omega (arith, h.count); min = h.min; max = h.max }

total-append : (xs ys : List (ℕ × ℕ)) → total (xs ++ ys) ≡ total xs + total ys
total-append [] ys = omega arith
total-append ((begin, finish) ∷ xs) ys = omega (arith, total-append xs ys)

least-append : (a : ℕ) (xs ys : List (ℕ × ℕ)) → least a (xs ++ ys) ≡ least (least a xs) ys
least-append a [] ys = refl
least-append a ((begin, finish) ∷ xs) ys = least-append (smaller a (finish - begin)) xs ys

greatest-append :
    (a : ℕ) (xs ys : List (ℕ × ℕ)) → greatest a (xs ++ ys) ≡ greatest (greatest a xs) ys
greatest-append a [] ys = refl
greatest-append a ((begin, finish) ∷ xs) ys = greatest-append (larger a (finish - begin)) xs ys

least-le : (a : ℕ) (xs : List (ℕ × ℕ)) → least a xs ≤ a
least-le a [] = omega arith
least-le a ((begin, finish) ∷ xs) = ground (arith, least-le (smaller a (finish - begin)) xs)

least_both :
    (xs ys : List (ℕ × ℕ))
    → smaller (least longest xs) (least longest ys) ≡ least longest (xs ++ ys)
least_both xs ys =
    sym (least-smaller (least longest xs) longest ys)
    ∙ ap (λ a. least a ys) (capped (least longest xs) longest (least-le longest xs))
    ∙ sym (least-append longest xs ys)
  where
    capped : (a b : ℕ) → a ≤ b → smaller a b ≡ a
    capped a b h = ground arith

greatest_both :
    (xs ys : List (ℕ × ℕ)) → larger (greatest 0 xs) (greatest 0 ys) ≡ greatest 0 (xs ++ ys)
greatest_both xs ys =
    sym (greatest-larger (greatest 0 xs) 0 ys)
    ∙ ap (λ a. greatest a ys) (raised (greatest 0 xs))
    ∙ sym (greatest-append 0 xs ys)
  where
    raised : (a : ℕ) → larger a 0 ≡ a
    raised a = ground arith

-- Merging the timer of one thread into another gives the statistics that one thread with the rounds
-- of both would have: their number, sum, least and greatest.
pub merge-measure :
    (j k l : ℕ) (xs ys : List (ℕ × ℕ))
    → SameStats (merge (measure (new j) xs) (measure (new k) ys)) (measure (new l) (xs ++ ys))
unfolding merge
merge-measure j k l xs ys =
    let t = measure-Holds (new j) xs in
    let u = measure-Holds (new k) ys in
    let v = measure-Holds (new l) (xs ++ ys) in
    record {
      sum = omega (arith, t.sum, u.sum, v.sum, total-append xs ys);
      count = omega (arith, t.count, u.count, v.count, length-append xs ys);
      min = ap₂ smaller t.min u.min ∙ least_both xs ys ∙ sym v.min;
      max = ap₂ larger t.max u.max ∙ greatest_both xs ys ∙ sym v.max;
    }
