-- ===== src/TelSync/Splits.antt =====
-- What the loop of `DoReceive` of CaliceTelDataCollector.cc takes from the queues of the AHCAL and of
-- the telescope.
use mathlib.Core.List.{append_assoc}
use eudaq_ahcal.Base.{
  ℕ, zero, suc, List, [], ◌∷◌, ◌++◌, ◌≡◌, refl, sym, ap, subst, ◌∙◌, Bool, true, false, Option,
  none, some, ◌==◌, Bool-cases, Option-cases, inl, inr, ltb, leb,
}
use eudaq_ahcal.Base.Words.{add32}
use eudaq_ahcal.TsSync.{Side, join_side}
use eudaq_ahcal.TsSync.Overlap.{Splits, done, takes, Splits-trans, skips_all}
use eudaq_ahcal.TelSync.{Tags, Collector, Sync, trigger_after, catch_up, match_tel, finish, turn}
use eudaq_ahcal.TelSync.Loop.{turn_on, back, build}

module _ {E : Type 0} where
  abbrev pub subs_of : List (Sync E) → List (Option E)
  subs_of [] = []
  subs_of (s ∷ ss) = s.subs ++ subs_of ss

  abbrev pub tels_of : List (Sync E) → List (Option E)
  tels_of [] = []
  tels_of (s ∷ ss) = s.sub_tel ++ tels_of ss

  subs_of-append : (xs ys : List (Sync E)) → subs_of (xs ++ ys) ≡ subs_of xs ++ subs_of ys
  subs_of-append [] ys = refl
  subs_of-append (s ∷ xs) ys =
      ap (λ l. s.subs ++ l) (subs_of-append xs ys) ∙ sym (append_assoc s.subs _ _)

  tels_of-append : (xs ys : List (Sync E)) → tels_of (xs ++ ys) ≡ tels_of xs ++ tels_of ys
  tels_of-append [] ys = refl
  tels_of-append (s ∷ xs) ys =
      ap (λ l. s.sub_tel ++ l) (tels_of-append xs ys) ∙ sym (append_assoc s.sub_tel _ _)

  -- What the written events took from the queues of the AHCAL and of the telescope between two states.
  pub record Keeps (c : Collector E) (ss : List (Sync E)) (c' : Collector E) : Type 0 where
    pub cal_kept : Splits c.cal.que (subs_of ss) c'.cal.que
    pub tel_kept : Splits c.que_tel (tels_of ss) c'.que_tel

  Keeps-trans :
      (c c' c'' : Collector E) (ss ss' : List (Sync E))
      → Keeps c ss c'
      → Keeps c' ss' c''
      → Keeps c (ss ++ ss') c''
  Keeps-trans c c' c'' ss ss' g h = record {
    cal_kept =
        subst (λ l. Splits c.cal.que l c''.cal.que) (sym (subs_of-append ss ss'))
          (Splits-trans g.cal_kept h.cal_kept);
    tel_kept =
        subst (λ l. Splits c.que_tel l c''.que_tel) (sym (tels_of-append ss ss'))
          (Splits-trans g.tel_kept h.tel_kept);
  }

module _ {E : Type 0} (t : Tags E) where
  catch_up-Splits :
      (tg : ℕ) (q : List E) (last : Option E) (n : ℕ)
      → Splits q (tels_of (catch_up t tg q last n).written) (catch_up t tg q last n).rest
  unfolding catch_up
  catch_up-Splits tg [] last n = done
  catch_up-Splits tg (e ∷ q) last n = elim (Bool-cases (ltb (t.event_n e) tg)) [
    | inl lower ↦ rw lower (takes e (catch_up-Splits tg q (some e) (add32 n 1)))
    | inr other ↦ rw other done
  ]

  match_tel-Splits :
      (tg : ℕ) (q : List E) (last : Option E)
      → Splits q (match_tel t tg q last).0 (match_tel t tg q last).1
  unfolding match_tel
  match_tel-Splits tg [] last = skips_all _ _
  match_tel-Splits tg (e ∷ q) last = elim (Bool-cases (t.event_n e == tg)) [
    | inl same ↦ rw same (takes e done)
    | inr other ↦ rw other (skips_all _ _)
  ]

  finish-tel :
      (tr : Option ℕ) (subs : List (Option E)) (times : ℕ × ℕ) (c : Collector E)
      → Splits c.que_tel (tels_of (finish t tr subs times c).0) (finish t tr subs times c).1.que_tel
  unfolding finish
  finish-tel none subs times c = done
  finish-tel (some tg) subs times c =
      let r = catch_up t tg c.que_tel c.ev_last_tel c.ev_n in
      let m = match_tel t tg r.rest r.last in
      subst (λ l. Splits c.que_tel l m.1) (sym (tels_of-append r.written _))
        (Splits-trans (catch_up-Splits tg c.que_tel c.ev_last_tel c.ev_n)
          (Splits-trans (match_tel-Splits tg r.rest r.last) done))

  finish_writes :
      (tg : ℕ) (subs : List (Option E)) (times : ℕ × ℕ) (c : Collector E) (q q' : List E)
      → Splits q subs q'
      → Splits q (subs_of (finish t (some tg) subs times c).0) q'
  unfolding finish
  finish_writes tg subs times c q q' h =
      let r = catch_up t tg c.que_tel c.ev_last_tel c.ev_n in
      subst (λ l. Splits q l q') (sym (subs_of-append r.written _))
        (Splits-trans (skips_all q (subs_of r.written)) (Splits-trans h done))

  -- A fresh event of the AHCAL sets the trigger number.
  fresh_cal :
      (fresh : Bool) (of_bif : List (Option E)) (times : ℕ × ℕ) (c : Collector E) (e : E)
      (q : List E)
      → Splits
          (e ∷ q)
          (subs_of
            (finish t
              (trigger_after t fresh of_bif (some e ∷ []))
              (of_bif ++ some e ∷ [])
              times
              c).0)
          q
  fresh_cal true of_bif times c e q =
      finish_writes (t.trigger_n e) _ times c (e ∷ q) q
        (Splits-trans (skips_all _ of_bif) (takes e done))
  fresh_cal false of_bif times c e q =
      finish_writes (t.trigger_n e) _ times c (e ∷ q) q
        (Splits-trans (skips_all _ of_bif) (takes e done))

  cal-Splits :
      (b n tb te : ℕ) (e : E) (q : List E) (s : Side E) (fresh : Bool) (of_bif : List (Option E))
      (times : ℕ × ℕ) (c : Collector E)
      → s.que ≡ e ∷ q
      → Splits s.que
          (subs_of
            (finish t
              (trigger_after t fresh of_bif (join_side b n tb te e q s).0)
              (of_bif ++ (join_side b n tb te e q s).0)
              times
              c).0)
          (join_side b n tb te e q s).1.que
  unfolding join_side
  cal-Splits b n tb te e q s fresh of_bif times c p = elim (Bool-cases (ltb b te)) [
    | inl now ↦ rw (p, now) (fresh_cal fresh of_bif times c e q)
    | inr later ↦ elim (Bool-cases (ltb tb s.ts_end_last)) [
      | inl again ↦ rw (later, again) (skips_all _ _)
      | inr alone ↦ rw (later, alone) (skips_all _ _)
    ]
  ]

  pub finish-cal :
      (tr : Option ℕ) (subs : List (Option E)) (times : ℕ × ℕ) (c : Collector E)
      → (finish t tr subs times c).1.cal ≡ c.cal
  unfolding finish
  finish-cal none subs times c = refl
  finish-cal (some tg) subs times c = refl

  turn-Keeps :
      (e : E) (q : List E) (f : E) (r : List E) (c : Collector E)
      → c.cal.que ≡ e ∷ q
      → Keeps c (turn t e q f r c).0 (turn t e q f r c).1
  unfolding turn
  turn-Keeps e q f r c p = record {
    cal_kept =
        subst (λ s. Splits c.cal.que (subs_of (turn t e q f r c).0) s.que)
          (sym (finish-cal _ _ _ _)) (cal-Splits _ _ _ _ e q c.cal _ _ _ _ p);
    tel_kept = finish-tel _ _ _ _;
  }

  pub turn_on-split :
      (qc qb qt : List E) (c : Collector E) (step : List (Sync E) × Collector E)
      → turn_on t qc qb qt c ≡ some step
      → (e : E) × (q : List E) × (f : E) × (r : List E) × (qc ≡ e ∷ q)
        × (qb ≡ f ∷ r)
        × (turn t e q f r c ≡ step)
  turn_on-split [] qb qt c step p = absurd (cc)
  turn_on-split (e ∷ q) [] qt c step p = absurd (cc)
  turn_on-split (e ∷ q) (f ∷ r) [] c step p = absurd (cc)
  turn_on-split (e ∷ q) (f ∷ r) (g ∷ s) c step p =
      elim (Bool-cases (leb (t.trigger_n e) (t.event_n (back t g s)))) [
        | inl on ↦ (e, q, f, r, refl, refl, cc (p, on))
        | inr off ↦ absurd (cc (p, off))
      ]

  pub build-Keeps : (turns : ℕ) (c : Collector E) → Keeps c (build t turns c).0 (build t turns c).1
  unfolding build
  build-Keeps zero c = record { cal_kept = done; tel_kept = done }
  build-Keeps (suc turns) c = elim (Option-cases (turn_on t c.cal.que c.bif.que c.que_tel c)) [
    | inl p ↦ rw (build, p) (record { cal_kept = done; tel_kept = done })
    | inr (step, p) ↦
        let (e, q, f, r, pc, pb, now) = turn_on-split c.cal.que c.bif.que c.que_tel c step p in
        let one : Keeps c step.0 step.1 =
          subst (λ x. Keeps c x.0 x.1) now (turn-Keeps e q f r c pc) in
        rw (build, p) (Keeps-trans c step.1 _ step.0 _ one (build-Keeps turns step.1))
  ]
