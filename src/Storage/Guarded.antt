-- ===== src/Storage/Guarded.antt =====
-- What the lock of ServerStorage guards while several threads are in its calls: no thread reads, or
-- begins an order, over half an order.
use pa.Prelude.{
  ℕ, ◌<◌, ◌≡◌, ◌≢◌, ◌⊎◌, refl, sym, ap, ◌∙◌, subst, false, Bool-cases, inl, inr, ◌==◌, arith,
}
use pa.Threads.{moved, moved-cases}
use pa.RwLock
use pa.RwLock.{
  ReadWriteLock, Place, outside, entering, first, entered, reading, leaving, last, left, writing,
  Move,
}
use pa.RwLock.Exclusion.{write_exclusion}
use pa.Storage.{ServerStorage}
use pa.Storage.Latest.{IsReplay}
use pa.Storage.Shared.{Work, Takes, Shared, Step, does, locks, Reach, start, later}
use pa.Storage.Accesses.{half, Good, Done, Good-away, writing_of_half, Do-Done, Takes-Good}

pub record Sound (n : ℕ) (s : Shared) : Type 0 where
  pub lock : RwLock.Reach n s.lock
  pub good : (i : ℕ) → i < n → Good s.storage (s.lock.at i) (s.works i)
  pub whole : ((i : ℕ) → i < n → half (s.works i) ≡ false) → IsReplay s.storage

module _ {n : ℕ} {s : Shared} (h : Sound n s) (i : ℕ) (lt : i < n) where
  -- No other thread has stored half an order while this one reads or writes.
  no_half :
      (s.lock.at i ≡ reading) ⊎ (s.lock.at i ≡ writing)
      → (j : ℕ) → j < n
      → j ≢ i
      → half (s.works j) ≡ false
  no_half place j ltj other = elim (Bool-cases (half (s.works j))) [
    | inr f ↦ f
    | inl t ↦
        let writes = writing_of_half s.storage (s.lock.at j) (s.works j) (h.good j ltj) t in
        let alone = write_exclusion h.lock j i ltj lt other writes in
        elim place [ inl r ↦ absurd (alone.0 r) | inr w ↦ absurd (alone.1 w) ]
  ]

  whole_here :
      (s.lock.at i ≡ reading) ⊎ (s.lock.at i ≡ writing)
      → half (s.works i) ≡ false
      → IsReplay s.storage
  whole_here place clear = h.whole (λ j ltj. elim (Bool-cases (j == i)) [
    | inl same ↦ subst (λ k. half (s.works k) ≡ false) (sym (ground arith)) clear
    | inr other ↦ no_half place j ltj (ground arith)
  ])

  -- The invariant behind one access.
  does-Sound :
      {t : ServerStorage} {w' : Work}
      → Done s.storage (s.lock.at i) (s.works i) t w'
      → Sound n (record s { storage = t; works = moved s.works i w' })
  does-Sound {t} {w'} d = record {
    lock = h.lock;
    good = λ j ltj. elim (moved-cases s.works i w' j) [
      | inl (same, here) ↦
          subst (Good t (s.lock.at j)) (sym here) (subst (λ k. Good t (s.lock.at k) w') same d.good)
      | inr (other, here) ↦ subst (Good t (s.lock.at j)) (sym here) (elim d.touched [
        | inl same ↦ subst (λ x. Good x (s.lock.at j) (s.works j)) (sym same) (h.good j ltj)
        | inr writes ↦
            let alone = write_exclusion h.lock i j lt ltj other writes in
            Good-away s.storage t (s.lock.at j) (s.works j) alone.1 alone.0 (h.good j ltj)
      ])
    ];
    whole = λ clear. elim (d.whole (here_clear clear)) [
      | inr r ↦ r
      | inl (same, before) ↦ subst IsReplay (sym same) (
          h.whole (λ j ltj. elim (moved-cases s.works i w' j) [
            | inl (e, here) ↦ subst (λ k. half (s.works k) ≡ false) e before
            | inr (other, here) ↦ ap half (sym here) ∙ clear j ltj
          ]))
    ];
  }
    where
      here_clear : ((j : ℕ) → j < n → half (moved s.works i w' j) ≡ false) → half w' ≡ false
      here_clear clear = elim (moved-cases s.works i w' i) [
        | inl (same, here) ↦ ap half (sym here) ∙ clear i lt
        | inr (other, here) ↦ absurd (other refl)
      ]

  -- The invariant behind a step of the lock.
  locks-Sound :
      {l : ReadWriteLock} {p : Place} {w' : Work}
      → Move i s.lock.lock (s.lock.at i) l p
      → Takes (s.lock.at i) (s.works i) p w'
      → Sound n (record s {
        lock = record { lock = l; at = moved s.lock.at i p };
        works = moved s.works i w';
      })
  locks-Sound {l} {p} {w'} m takes = record {
    lock = RwLock.later h.lock (RwLock.step i lt m);
    good = λ j ltj. elim (Bool-cases (i == j)) [
      | inl same ↦ rw same (Takes-Good s.storage takes).0
      | inr other ↦ rw other (h.good j ltj)
    ];
    whole = λ clear. h.whole (λ j ltj. elim (moved-cases s.works i w' j) [
      | inl (e, here) ↦ subst (λ k. half (s.works k) ≡ false) e (Takes-Good s.storage takes).1
      | inr (other, here) ↦ ap half (sym here) ∙ clear j ltj
    ]);
  }

Step-Sound : {n : ℕ} {s t : Shared} → Step n s t → Sound n s → Sound n t
Step-Sound {n} {s} (does i lt d) h = does-Sound h i lt (Do-Done d (h.good i lt) (whole_here h i lt))
Step-Sound {n} {s} (locks i lt m takes) h = locks-Sound h i lt m takes

pub Reach-Sound : {n : ℕ} {s0 s : Shared} → Reach n s0 s → Sound n s
Reach-Sound {n} {s0} (start b) = record {
  lock = subst (RwLock.Reach n) (sym b.lock) RwLock.start;
  good = λ i lt. subst (Good s0.storage (s0.lock.at i)) (sym (b.works i)) tt;
  whole = λ clear. b.storage;
}
Reach-Sound (later r step) = Step-Sound step (Reach-Sound r)

pub Reach-replay : {n : ℕ} {s0 s : Shared} → Reach n s0 s → IsReplay s0.storage
Reach-replay (start b) = b.storage
Reach-replay (later r step) = Reach-replay r
