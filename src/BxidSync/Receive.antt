-- ===== src/BxidSync/Receive.antt =====
-- `DoReceive` of CaliceAhcalBifBxidDataCollector.cc: it returns, and leaves nothing to be joined.
use eudaq_ahcal.Base.{
  ℕ, zero, suc, ◌+◌, List, [], ◌∷◌, ◌++◌, ◌≡◌, refl, subst, ◌∙◌, arith, Bool, true, false, ◌&&◌,
  Option, none, some, Bool-cases, Option-cases, inl, inr,
}
use eudaq_ahcal.BxidSync.{
  Tags, Origin, ahcal, bif, hodoscope1, hodoscope2, desytable, Producer, Collector, Outcome, Front,
  waits, unreadable, stands, is_unreadable, front_of, front, is_empty, with_que, update,
}
use eudaq_ahcal.BxidSync.Loop.{
  turn_on, turn, build_event_bxid, add_outcome, waiting, lacks_one, receive_from,
}
use eudaq_ahcal.BxidSync.Returns.{has_active, build_returns}

module _ {E : Type 0} (t : Tags E) where
  -- A front waits only at the empty queue of an active producer.
  abbrev pub WaitsFor : Producer E → Front E → Type 0
  WaitsFor p waits = (is_empty p.que && p.active) ≡ true
  WaitsFor p _ = Unit {0}

  front-WaitsFor :
      (l a m : Bool) (off : ℕ) (q : List E)
      → WaitsFor
          (record { que = q; active = a; evt_mandatory = m; roc_offset = off })
          (front_of t l a off q)
  unfolding front_of
  front-WaitsFor l true m off [] = refl
  front-WaitsFor l false m off [] = tt
  front-WaitsFor l a m off (e ∷ q) = elim (Bool-cases (is_unreadable t l e)) [
    | inl u ↦ rw u tt
    | inr u ↦ rw u tt
  ]

  turn_on_lacks :
      (a b h k : Front E) (c : Collector E)
      → WaitsFor c.of_ahcal a
      → WaitsFor c.of_bif b
      → WaitsFor c.of_hodoscope1 h
      → WaitsFor c.of_hodoscope2 k
      → turn_on t a b h k c ≡ none
      → lacks_one c ≡ true
  turn_on_lacks waits b h k c pa pb ph pk e = ground arith
  turn_on_lacks (unreadable e' q) b h k c pa pb ph pk e = absurd (cc)
  turn_on_lacks (stands ar ax) waits h k c pa pb ph pk e = ground arith
  turn_on_lacks (stands ar ax) (unreadable e' q) h k c pa pb ph pk e = absurd (cc)
  turn_on_lacks (stands ar ax) (stands br bx) waits k c pa pb ph pk e = ground arith
  turn_on_lacks (stands ar ax) (stands br bx) (unreadable e' q) k c pa pb ph pk e = absurd (cc)
  turn_on_lacks (stands ar ax) (stands br bx) (stands hr hx) waits c pa pb ph pk e = ground arith
  turn_on_lacks (stands ar ax) (stands br bx) (stands hr hx) (unreadable e' q) c pa pb ph pk e =
      absurd (cc)
  turn_on_lacks (stands ar ax) (stands br bx) (stands hr hx) (stands kr kx) c pa pb ph pk e =
      absurd (cc)

  turn_lacks : (c : Collector E) → turn t c ≡ none → lacks_one c ≡ true
  unfolding turn
  turn_lacks c e =
      turn_on_lacks (front t false c.of_ahcal) (front t true c.of_bif)
        (front t false c.of_hodoscope1) (front t false c.of_hodoscope2) c
        (front-WaitsFor false c.of_ahcal.active c.of_ahcal.evt_mandatory c.of_ahcal.roc_offset
          c.of_ahcal.que)
        (front-WaitsFor true c.of_bif.active c.of_bif.evt_mandatory c.of_bif.roc_offset
          c.of_bif.que)
        (front-WaitsFor false c.of_hodoscope1.active c.of_hodoscope1.evt_mandatory
          c.of_hodoscope1.roc_offset c.of_hodoscope1.que)
        (front-WaitsFor false c.of_hodoscope2.active c.of_hodoscope2.evt_mandatory
          c.of_hodoscope2.roc_offset c.of_hodoscope2.que)
        e

  abbrev pub Exhausts : Option (List (Outcome E) × Collector E) → Type 0
  Exhausts none = Unit {0}
  Exhausts (some run) = lacks_one run.1 ≡ true

  add_outcome-Exhausts :
      (o : Outcome E) (r : Option (List (Outcome E) × Collector E))
      → Exhausts r
      → Exhausts (add_outcome o r)
  add_outcome-Exhausts o none h = tt
  add_outcome-Exhausts o (some run) h = h

  build-Exhausts : (fuel : ℕ) (c : Collector E) → Exhausts (build_event_bxid t fuel c)
  unfolding build_event_bxid
  build-Exhausts zero c = tt
  build-Exhausts (suc fuel) c = elim (Option-cases (turn t c)) [
    | inl e ↦ rw (Exhausts, e) (turn_lacks c e)
    | inr (step, e) ↦
        rw (Exhausts, e)
          (add_outcome-Exhausts step.0 (build_event_bxid t fuel step.1)
            (build-Exhausts fuel step.1))
  ]

  has_active-update :
      (o : Origin) (ev : E) (c : Collector E)
      → has_active t (update o (λ p. with_que (p.que ++ ev ∷ []) p) c) ≡ has_active t c
  has_active-update ahcal ev c = refl
  has_active-update bif ev c = refl
  has_active-update hodoscope1 ev c = refl
  has_active-update hodoscope2 ev c = refl
  has_active-update desytable ev c = refl

  -- If one of the AHCAL, the BIF and the hodoscopes is connected, receiving an event of any of the
  -- five producers returns, and afterwards the queue of a connected one is empty: nothing is left that
  -- could be joined before more comes in.
  pub receive_from-returns :
      (o : Origin) (ev : E) (c : Collector E)
      → has_active t c ≡ true
      → (run : List (Outcome E) × Collector E) × (receive_from t o ev c ≡ some run)
        × (lacks_one run.1 ≡ true)
  unfolding receive_from
  receive_from-returns o ev c busy = elim (Bool-cases (lacks_one c')) [
    | inl early ↦ (([], c'), rw early refl, early)
    | inr all ↦ elim (Option-cases (build_event_bxid t (waiting c' + 1) c')) [
      | inl e ↦
          absurd
            (build_returns t (waiting c' + 1) c' (has_active-update o ev c ∙ busy) (omega arith) e)
      | inr (run, e) ↦
          (run, rw (all, e) refl, subst Exhausts e (build-Exhausts (waiting c' + 1) c'))
    ]
  ]
    where
      c' : Collector E
      c' = update o (λ p. with_que (p.que ++ ev ∷ []) p) c
