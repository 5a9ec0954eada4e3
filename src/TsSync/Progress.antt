-- ===== src/TsSync/Progress.antt =====
-- When the loop of `DoReceive` of CaliceTsDataCollector.cc returns.
use eudaq_ahcal.Base.{
  ℕ, zero, suc, ◌+◌, ◌≤◌, ◌<◌, List, [], ◌∷◌, ◌≡◌, refl, subst, arith, true, ◌||◌, none,
  if◌then◌else◌, Bool-cases, Option-cases, inl, inr, ltb, length, All,
}
use eudaq_ahcal.TsSync.{
  Tags, Side, Collector, earlier, join_side, shifted, turn, turn_on, build_timestamp, waiting,
  lacks_one, is_empty,
}
use eudaq_ahcal.TsSync.Overlap.{turn_on-split, Joins, build-Joins}

module _ {E : Type 0} where
  pub join_side-All :
      (P : E → Type 0) (b e tb te : ℕ) (ev : E) (q : List E) (s : Side E)
      → s.que ≡ ev ∷ q
      → All P s.que
      → All P (join_side b e tb te ev q s).1.que
  unfolding join_side
  join_side-All P b e tb te ev q s p h = elim (Bool-cases (ltb b te)) [
    | inl now ↦ let both : All P (ev ∷ q) = subst (All P) p h in rw now (both.1)
    | inr later ↦ elim (Bool-cases (ltb tb s.ts_end_last)) [
      | inl again ↦ rw (later, again) h
      | inr alone ↦ rw (later, alone) h
    ]
  ]

  -- A block pops its front exactly if that begins before the joined end.
  pub join_side-length :
      (b e tb te : ℕ) (ev : E) (q : List E) (s : Side E)
      → s.que ≡ ev ∷ q
      → length (join_side b e tb te ev q s).1.que + (if ltb b te then 1 else 0) ≡ length s.que
  unfolding join_side
  join_side-length b e tb te ev q s p = elim (Bool-cases (ltb b te)) [
    | inl now ↦ rw (p, now) (omega arith)
    | inr later ↦ elim (Bool-cases (ltb tb s.ts_end_last)) [
      | inl again ↦ rw (later, again) (omega arith)
      | inr alone ↦ rw (later, alone) (omega arith)
    ]
  ]

pub one_popped :
    (bb eb bc ec lb lc mb mc : ℕ)
    → bb < eb
    → bc < ec
    → lb + (if ltb bb (earlier eb ec) then 1 else 0) ≡ mb
    → lc + (if ltb bc (earlier eb ec) then 1 else 0) ≡ mc
    → lc + lb < mc + mb
one_popped bb eb bc ec lb lc mb mc wb wc pb pc = ground arith

module _ {E : Type 0} (t : Tags E) where
  -- The window of every queued event ends after it begins, on the scale that the loop compares.
  pub record HasWindows (c : Collector E) : Type 0 where
    pub bif_windows : All (λ e. t.timestamp_begin e < t.timestamp_end e) c.bif.que
    pub cal_windows :
        All
          (λ e.
            shifted t c.ts_offset_cal2bif (t.timestamp_begin e)
            < shifted t c.ts_offset_cal2bif (t.timestamp_end e))
          c.cal.que

  turn-HasWindows :
      (e : E) (q : List E) (f : E) (r : List E) (c : Collector E)
      → c.cal.que ≡ e ∷ q
      → c.bif.que ≡ f ∷ r
      → HasWindows c
      → HasWindows (turn t e q f r c).1
  unfolding turn
  turn-HasWindows e q f r c pc pb w = record {
    bif_windows = join_side-All _ _ _ _ _ f r c.bif pb w.bif_windows;
    cal_windows = join_side-All _ _ _ _ _ e q c.cal pc w.cal_windows;
  }

  turn-waiting :
      (e : E) (q : List E) (f : E) (r : List E) (c : Collector E)
      → c.cal.que ≡ e ∷ q
      → c.bif.que ≡ f ∷ r
      → HasWindows c
      → waiting (turn t e q f r c).1 < waiting c
  unfolding turn
  turn-waiting e q f r c pc pb w =
      let front_bif : All (λ e. t.timestamp_begin e < t.timestamp_end e) (f ∷ r) =
        subst (All (λ e. t.timestamp_begin e < t.timestamp_end e)) pb w.bif_windows in
      let front_cal : All
          (λ e.
            shifted t c.ts_offset_cal2bif (t.timestamp_begin e)
            < shifted t c.ts_offset_cal2bif (t.timestamp_end e))
          (e ∷ q) =
        subst
          (All (λ e.
            shifted t c.ts_offset_cal2bif (t.timestamp_begin e)
            < shifted t c.ts_offset_cal2bif (t.timestamp_end e)))
          pc w.cal_windows in
      one_popped _ _ _ _ _ _ _ _ (front_bif.0) (front_cal.0) (join_side-length _ _ _ _ f r c.bif pb)
        (join_side-length _ _ _ _ e q c.cal pc)

  turn_on_lacks :
      (qc qb : List E) (c : Collector E)
      → turn_on t qc qb c ≡ none
      → (is_empty qc || is_empty qb) ≡ true
  turn_on_lacks [] qb c p = refl
  turn_on_lacks (e ∷ q) [] c p = refl
  turn_on_lacks (e ∷ q) (f ∷ r) c p = absurd (cc)

  none_waiting : (qc qb : List E) → length qc + length qb ≤ 0 → (is_empty qc || is_empty qb) ≡ true
  none_waiting [] qb h = refl
  none_waiting (e ∷ q) qb h = absurd (omega (arith, h))

  build_lacks :
      (turns : ℕ) (c : Collector E)
      → HasWindows c
      → waiting c ≤ turns
      → lacks_one (build_timestamp t turns c).1 ≡ true
  unfolding build_timestamp
  build_lacks zero c w h = none_waiting c.cal.que c.bif.que h
  build_lacks (suc turns) c w h = elim (Option-cases (turn_on t c.cal.que c.bif.que c)) [
    | inl p ↦ rw (build_timestamp, p) (turn_on_lacks c.cal.que c.bif.que c p)
    | inr (step, p) ↦
        let (e, q, f, r, pc, pb, now) = turn_on-split t c.cal.que c.bif.que c step p in
        let fewer : waiting step.1 < waiting c =
          subst (λ x. waiting x.1 < waiting c) now (turn-waiting e q f r c pc pb w) in
        rw (build_timestamp, p)
          (build_lacks turns step.1
            (subst (λ x. HasWindows x.1) now (turn-HasWindows e q f r c pc pb w))
            (omega (arith, fewer, h)))
  ]

  -- If the window of every queued event ends after it begins, the loop of `DoReceive` returns after at
  -- most as many turns as events are queued: one queue is then empty, what was taken from either queue
  -- is a front part of it and was written in its order, and the written events are numbered
  -- consecutively.
  pub build_timestamp-Joins :
      (turns : ℕ) (c : Collector E)
      → HasWindows c
      → waiting c ≤ turns
      → (lacks_one (build_timestamp t turns c).1 ≡ true)
        × Joins c (build_timestamp t turns c).0 (build_timestamp t turns c).1
  build_timestamp-Joins turns c w h = (build_lacks turns c w h, build-Joins t turns c)
