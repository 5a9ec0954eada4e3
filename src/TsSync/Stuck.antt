-- ===== src/TsSync/Stuck.antt =====
-- When the loop of `DoReceive` of CaliceTsDataCollector.cc does not return.
use eudaq_ahcal.Base.{
  ℕ, zero, suc, List, ◌∷◌, ◌≡◌, refl, ap, ◌∙◌, false, some, Bool-cases, inl, inr, ltb, length,
}
use eudaq_ahcal.TsSync.{
  Tags, Side, Collector, earlier, join_side, shifted, turn, turn_on, build_timestamp, lacks_one,
}

module _ {E : Type 0} (t : Tags E) where
  -- Neither front begins before the earlier of their ends.
  pub record IsStuck (c : Collector E) : Type 0 where
    pub front_cal : E
    pub rest_cal : List E
    pub front_bif : E
    pub rest_bif : List E
    pub cal_que : c.cal.que ≡ front_cal ∷ rest_cal
    pub bif_que : c.bif.que ≡ front_bif ∷ rest_bif
    pub bif_late :
        ltb (t.timestamp_begin front_bif) (
          earlier
            (t.timestamp_end front_bif)
            (shifted t c.ts_offset_cal2bif (t.timestamp_end front_cal)))
        ≡ false
    pub cal_late :
        ltb (shifted t c.ts_offset_cal2bif (t.timestamp_begin front_cal)) (
          earlier
            (t.timestamp_end front_bif)
            (shifted t c.ts_offset_cal2bif (t.timestamp_end front_cal)))
        ≡ false

  join_side_late :
      (b e tb te : ℕ) (ev : E) (q : List E) (s : Side E)
      → ltb b te ≡ false
      → (join_side b e tb te ev q s).1 ≡ s
  unfolding join_side
  join_side_late b e tb te ev q s late = elim (Bool-cases (ltb tb s.ts_end_last)) [
    | inl again ↦ rw (late, again) refl
    | inr alone ↦ rw (late, alone) refl
  ]

  turn-IsStuck :
      (c : Collector E) (h : IsStuck c)
      → IsStuck (turn t h.front_cal h.rest_cal h.front_bif h.rest_bif c).1
  unfolding turn
  turn-IsStuck c h = record {
    front_cal = h.front_cal;
    rest_cal = h.rest_cal;
    front_bif = h.front_bif;
    rest_bif = h.rest_bif;
    cal_que = ap (λ s. s.que) (join_side_late _ _ _ _ _ _ c.cal h.cal_late) ∙ h.cal_que;
    bif_que = ap (λ s. s.que) (join_side_late _ _ _ _ _ _ c.bif h.bif_late) ∙ h.bif_que;
    bif_late = h.bif_late;
    cal_late = h.cal_late;
  }

  turn_on_fronts :
      (qc qb : List E) (c : Collector E) (e : E) (q : List E) (f : E) (r : List E)
      → qc ≡ e ∷ q
      → qb ≡ f ∷ r
      → turn_on t qc qb c ≡ some (turn t e q f r c)
  turn_on_fronts qc qb c e q f r pc pb = rw (pc, pb) refl

  -- If neither front begins before the earlier of the two ends, as two fronts of one empty window, the
  -- loop of `DoReceive` never returns: each of any number of turns writes one more event, and neither
  -- queue is empty afterwards.
  pub build_timestamp_repeats :
      (turns : ℕ) (c : Collector E)
      → IsStuck c
      → (length (build_timestamp t turns c).0 ≡ turns)
        × (lacks_one (build_timestamp t turns c).1 ≡ false)
  unfolding build_timestamp
  build_timestamp_repeats zero c h = (refl, rw (h.cal_que, h.bif_que) refl)
  build_timestamp_repeats (suc turns) c h =
      let c' = (turn t h.front_cal h.rest_cal h.front_bif h.rest_bif c).1 in
      let rest = build_timestamp_repeats turns c' (turn-IsStuck c h) in
      rw
        (
          build_timestamp,
          turn_on_fronts c.cal.que c.bif.que c h.front_cal h.rest_cal h.front_bif h.rest_bif
              h.cal_que h.bif_que,
        )
        (ap suc rest.0, rest.1)
