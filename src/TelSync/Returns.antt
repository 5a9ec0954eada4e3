-- ===== src/TelSync/Returns.antt =====
-- When the loop of `DoReceive` of CaliceTelDataCollector.cc returns.
use eudaq_ahcal.Base.{
  ℕ, zero, suc, ◌+◌, ◌^◌, ◌≤◌, ◌<◌, List, [], ◌∷◌, ◌++◌, ◌≡◌, refl, sym, subst, arith, Option, none,
  some, Option-cases, inl, inr, length, All,
}
use eudaq_ahcal.Base.Words.{sub64, mul64}
use eudaq_ahcal.TsSync.Progress.{join_side-All, join_side-length, one_popped}
use eudaq_ahcal.TelSync.{Tags, Collector, Sync, finish, turn}
use eudaq_ahcal.TelSync.Loop.{turn_on, build}
use eudaq_ahcal.TelSync.Splits.{Keeps, build-Keeps, turn_on-split}

module _ {E : Type 0} (t : Tags E) where
  abbrev pub waiting : Collector E → ℕ
  waiting c = length c.cal.que + length c.bif.que

  abbrev pub HasBifWindow : E → Type 0
  HasBifWindow e = t.timestamp_begin e < t.timestamp_end e

  abbrev pub HasCalWindow : ℕ → E → Type 0
  HasCalWindow offset e =
      sub64 (mul64 (t.timestamp_begin e) (2 ^ 5)) offset
      < sub64 (mul64 (t.timestamp_end e) (2 ^ 5)) offset

  -- The window of every event of the BIF and of the AHCAL ends after it begins, on the scale that the
  -- loop compares.
  pub record HasWindows (c : Collector E) : Type 0 where
    pub bif_windows : All HasBifWindow c.bif.que
    pub cal_windows : All (HasCalWindow c.ts_offset_cal2bif) c.cal.que

  finish-HasWindows :
      (tr : Option ℕ) (subs : List (Option E)) (times : ℕ × ℕ) (c : Collector E)
      → HasWindows c
      → HasWindows (finish t tr subs times c).1
  unfolding finish
  finish-HasWindows none subs times c w = w
  finish-HasWindows (some tg) subs times c w = record {
    bif_windows = w.bif_windows;
    cal_windows = w.cal_windows;
  }

  finish-waiting :
      (tr : Option ℕ) (subs : List (Option E)) (times : ℕ × ℕ) (c : Collector E)
      → waiting (finish t tr subs times c).1 ≡ waiting c
  unfolding finish
  finish-waiting none subs times c = refl
  finish-waiting (some tg) subs times c = refl

  turn-HasWindows :
      (e : E) (q : List E) (f : E) (r : List E) (c : Collector E)
      → c.cal.que ≡ e ∷ q
      → c.bif.que ≡ f ∷ r
      → HasWindows c
      → HasWindows (turn t e q f r c).1
  unfolding turn
  turn-HasWindows e q f r c pc pb w = finish-HasWindows _ _ _ _ (record {
    bif_windows = join_side-All HasBifWindow _ _ _ _ f r c.bif pb w.bif_windows;
    cal_windows =
        join_side-All (HasCalWindow c.ts_offset_cal2bif) _ _ _ _ e q c.cal pc w.cal_windows;
  })

  turn-waiting :
      (e : E) (q : List E) (f : E) (r : List E) (c : Collector E)
      → c.cal.que ≡ e ∷ q
      → c.bif.que ≡ f ∷ r
      → HasWindows c
      → waiting (turn t e q f r c).1 < waiting c
  unfolding turn
  turn-waiting e q f r c pc pb w =
      let front_bif : All HasBifWindow (f ∷ r) = subst (All HasBifWindow) pb w.bif_windows in
      let front_cal : All (HasCalWindow c.ts_offset_cal2bif) (e ∷ q) =
        subst (All (HasCalWindow c.ts_offset_cal2bif)) pc w.cal_windows in
      subst (λ n. n < waiting c) (sym (finish-waiting _ _ _ _))
        (one_popped _ _ _ _ _ _ _ _ (front_bif.0) (front_cal.0)
          (join_side-length _ _ _ _ f r c.bif pb) (join_side-length _ _ _ _ e q c.cal pc))

  none_waiting :
      (qc qb qt : List E) (c : Collector E)
      → length qc + length qb ≤ 0
      → turn_on t qc qb qt c ≡ none
  none_waiting [] qb qt c h = refl
  none_waiting (e ∷ q) qb qt c h = absurd (omega (arith, h))

  -- The condition of the loop does not hold.
  abbrev pub HasStopped : Collector E → Type 0
  HasStopped c = turn_on t c.cal.que c.bif.que c.que_tel c ≡ none

  build-HasStopped :
      (turns : ℕ) (c : Collector E)
      → HasWindows c
      → waiting c ≤ turns
      → HasStopped (build t turns c).1
  unfolding build
  build-HasStopped zero c w h = none_waiting c.cal.que c.bif.que c.que_tel c h
  build-HasStopped (suc turns) c w h =
      elim (Option-cases (turn_on t c.cal.que c.bif.que c.que_tel c)) [
        | inl p ↦ subst (λ x. HasStopped x.1) (sym (build_stopped p)) p
        | inr (step, p) ↦
            let (e, q, f, r, pc, pb, now) =
              turn_on-split t c.cal.que c.bif.que c.que_tel c step p in
            let fewer : waiting step.1 < waiting c =
              subst (λ x. waiting x.1 < waiting c) now (turn-waiting e q f r c pc pb w) in
            subst (λ x. HasStopped x.1) (sym (build_step step p))
              (build-HasStopped turns step.1
                (subst (λ x. HasWindows x.1) now (turn-HasWindows e q f r c pc pb w))
                (omega (arith, fewer, h)))
      ]
    where
      build_stopped : HasStopped c → build t (suc turns) c ≡ ([], c)
      build_stopped p = rw (build, p) refl

      build_step :
          (step : List (Sync E) × Collector E)
          → turn_on t c.cal.que c.bif.que c.que_tel c ≡ some step
          → build t (suc turns) c ≡ (step.0 ++ (build t turns step.1).0, (build t turns step.1).1)
      build_step step p = rw (build, p) refl

  -- If the window of every queued event of the AHCAL and of the BIF ends after it begins, the loop of
  -- `DoReceive` stops after at most as many turns as these queues have events; what was taken from the
  -- queue of the AHCAL and from that of the telescope is a front part of it, and each event of it is a
  -- sub-event of a written event, in the order of the queue.
  pub build-returns :
      (turns : ℕ) (c : Collector E)
      → HasWindows c
      → waiting c ≤ turns
      → HasStopped (build t turns c).1 × Keeps c (build t turns c).0 (build t turns c).1
  build-returns turns c w h = (build-HasStopped turns c w h, build-Keeps t turns c)
