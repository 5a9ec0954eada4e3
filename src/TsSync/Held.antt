-- ===== src/TsSync/Held.antt =====
-- The last joined events of CaliceTsDataCollector.cc, null pointers at first and kept between runs.
use Prim.Native.String.{String}
use text.Mathlib.Text.{◌==◌ as str_eq}
use eudaq_ahcal.Base.{
  ℕ, zero, suc, List, [], ◌∷◌, ◌≡◌, refl, subst, arith, Bool, true, false, ◌||◌, Option, none, some,
  ◌==◌, Bool-cases, Option-cases, inl, inr, ltb, All, All-append,
}
use eudaq_ahcal.TsSync.{
  Tags, Side, Collector, Sync, Received, thrown, wrote, do_start_run, join_side, turn, turn_on,
  build_timestamp, lacks_one, push_from, with_offset, find_offset, synchronise, do_receive,
}
use eudaq_ahcal.TsSync.Overlap.{turn_on-split}

module _ {E : Type 0} where
  abbrev pub is_some : Option E → Bool
  is_some none = false
  is_some (some e) = true

  -- A side without a last event has the end 0.
  abbrev pub HoldsLast : Side E → Type 0
  HoldsLast s = (is_some s.ev_last || s.ts_end_last == 0) ≡ true

  pub record IsHeld (c : Collector E) : Type 0 where
    pub holds_cal : HoldsLast c.cal
    pub holds_bif : HoldsLast c.bif

  abbrev pub AreReal : List (Option E) → Type 0
  AreReal = All (λ o. is_some o ≡ true)

  abbrev pub AreWritten : List (Sync E) → Type 0
  AreWritten = All (λ s. AreReal s.subs)

  -- No written event has a null pointer among its sub-events, and the state is again one that holds.
  abbrev pub IsSafe : Received E → Type 0
  IsSafe (thrown c) = IsHeld c
  IsSafe (wrote ss c) = AreWritten ss × IsHeld c

  pub do_start_run-IsHeld : (c : Collector E) → IsHeld (do_start_run c)
  unfolding do_start_run
  do_start_run-IsHeld c = record { holds_cal = ground arith; holds_bif = ground arith }

  join_side-AreReal :
      (b e tb te : ℕ) (ev : E) (q : List E) (s : Side E)
      → HoldsLast s
      → AreReal (join_side b e tb te ev q s).0 × HoldsLast (join_side b e tb te ev q s).1
  unfolding join_side
  join_side-AreReal b e tb te ev q s h = elim (Bool-cases (ltb b te)) [
    | inl now ↦ rw now ((refl, tt), refl)
    | inr later ↦ elim (Bool-cases (ltb tb s.ts_end_last)) [
      | inl again ↦ rw (later, again) ((ground (arith, again, h), tt), h)
      | inr alone ↦ rw (later, alone) (tt, h)
    ]
  ]

  abbrev pub IsHeldIfAny : Option (Collector E) → Type 0
  IsHeldIfAny none = Unit {0}
  IsHeldIfAny (some c) = IsHeld c

  push_from-IsHeld :
      (name : String) (ev : E) (c : Collector E) → IsHeld c → IsHeldIfAny (push_from name ev c)
  push_from-IsHeld name ev c h = elim (Bool-cases (str_eq name "Producer.Calice1")) [
    | inl is_cal ↦ rw is_cal (record { holds_cal = h.holds_cal; holds_bif = h.holds_bif })
    | inr not_cal ↦ elim (Bool-cases (str_eq name "Producer.caliceahcalbifProducer")) [
      | inl is_bif ↦
          rw (not_cal, is_bif) (record { holds_cal = h.holds_cal; holds_bif = h.holds_bif })
      | inr unknown ↦ rw (not_cal, unknown) tt
    ]
  ]

module _ {E : Type 0} (t : Tags E) where
  turn-IsHeld :
      (e : E) (q : List E) (f : E) (r : List E) (c : Collector E)
      → IsHeld c
      → AreReal (turn t e q f r c).0.subs × IsHeld (turn t e q f r c).1
  unfolding turn
  turn-IsHeld e q f r c h =
      let of_bif = join_side-AreReal _ _ _ _ f r c.bif h.holds_bif in
      let of_cal = join_side-AreReal _ _ _ _ e q c.cal h.holds_cal in
      (All-append _ _ _ of_bif.0 of_cal.0, record { holds_cal = of_cal.1; holds_bif = of_bif.1 })

  build_timestamp-IsHeld :
      (turns : ℕ) (c : Collector E)
      → IsHeld c
      → AreWritten (build_timestamp t turns c).0 × IsHeld (build_timestamp t turns c).1
  unfolding build_timestamp
  build_timestamp-IsHeld zero c h = (tt, h)
  build_timestamp-IsHeld (suc turns) c h = elim (Option-cases (turn_on t c.cal.que c.bif.que c)) [
    | inl p ↦ rw (build_timestamp, p) (tt, h)
    | inr (step, p) ↦
        let (e, q, f, r, pc, pb, now) = turn_on-split t c.cal.que c.bif.que c step p in
        let one : AreReal step.0.subs × IsHeld step.1 =
          subst (λ x. AreReal x.0.subs × IsHeld x.1) now (turn-IsHeld e q f r c h) in
        let rest = build_timestamp-IsHeld turns step.1 one.1 in
        rw (build_timestamp, p) ((one.0, rest.0), rest.1)
  ]

  find_offset-IsHeld :
      (qc qb : List E) (c : Collector E) → IsHeld c → IsHeldIfAny (find_offset t qc qb c)
  find_offset-IsHeld [] qb c h = h
  find_offset-IsHeld (e ∷ q) [] c h = h
  find_offset-IsHeld (e ∷ q) (f ∷ r) c h = elim (Bool-cases (t.is_bore e)) [
    | inl bore ↦ rw bore (record { holds_cal = h.holds_cal; holds_bif = h.holds_bif })
    | inr other ↦ rw other tt
  ]

  with_offset-IsHeld : (c : Collector E) → IsHeld c → IsHeldIfAny (with_offset t c)
  with_offset-IsHeld c h = elim (Bool-cases c.offset_ts_done) [
    | inl found ↦ simp (found) h
    | inr first ↦ simp (first) (find_offset-IsHeld c.cal.que c.bif.que c h)
  ]

  synchronise-IsSafe : (turns : ℕ) (c : Collector E) → IsHeld c → IsSafe (synchronise t turns c)
  unfolding synchronise
  synchronise-IsSafe turns c h = elim (Bool-cases (lacks_one c)) [
    | inl early ↦ rw early (tt, h)
    | inr both ↦ elim (Option-cases (with_offset t c)) [
      | inl p ↦ rw (both, p) h
      | inr (c', p) ↦
          rw (both, p)
            (build_timestamp-IsHeld turns c' (subst IsHeldIfAny p (with_offset-IsHeld c h)))
    ]
  ]

  -- If a producer without a last joined event has 0 as the end of its last event, as after
  -- `DoStartRun`, then however many turns the loop of `DoReceive` takes, no event that it writes has a
  -- null pointer among its sub-events, and the condition holds again, also when it throws.
  pub do_receive-IsSafe :
      (turns : ℕ) (name : String) (ev : E) (c : Collector E)
      → IsHeld c
      → IsSafe (do_receive t turns name ev c)
  unfolding do_receive
  do_receive-IsSafe turns name ev c h = elim (Bool-cases (t.is_flag_fake ev)) [
    | inl fake ↦ rw fake (tt, h)
    | inr real ↦ elim (Bool-cases (t.is_flag_timestamp ev)) [
      | inr untimed ↦ rw (real, untimed) (tt, h)
      | inl timed ↦ elim (Option-cases (push_from name ev c)) [
        | inl p ↦ rw (real, timed, p) (tt, h)
        | inr (c', p) ↦
            rw (real, timed, p)
              (synchronise-IsSafe turns c' (subst IsHeldIfAny p (push_from-IsHeld name ev c h)))
      ]
    ]
  ]
