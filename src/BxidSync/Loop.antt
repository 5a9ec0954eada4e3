-- ===== src/BxidSync/Loop.antt =====
-- `BuildEvent_bxid` and `DoReceive` of CaliceAhcalBifBxidDataCollector.cc.
use Prim.Native.String.{String}
use eudaq_ahcal.Base.{
  ℕ, zero, suc, ◌+◌, List, [], ◌∷◌, ◌++◌, Bool, true, false, ◌&&◌, ◌||◌, Option, none, some,
  if◌then◌else◌, length,
}
use eudaq_ahcal.BxidSync.{
  Tags, Origin, ahcal, bif, hodoscope1, hodoscope2, recognized, Producer, Collector, Outcome,
  discarded, Front, waits, unreadable, stands, with_que, update, is_empty, front, join,
}

module _ {E : Type 0} where
  -- A popped front of the producer `o`.
  abbrev pub discard : Origin → E → List E → Collector E → Outcome E × Collector E
  discard o e q c = (discarded o e, update o (with_que q) c)

  -- The four fronts are looked at in this order; the first that waits ends the loop, the first that
  -- cannot be read is popped.
  abbrev pub turn_on :
      Tags E
      → Front E
      → Front E
      → Front E
      → Front E
      → Collector E
      → Option (Outcome E × Collector E)
  turn_on t waits b h k c = none
  turn_on t (unreadable e q) b h k c = some (discard ahcal e q c)
  turn_on t (stands ar ax) waits h k c = none
  turn_on t (stands ar ax) (unreadable e q) h k c = some (discard bif e q c)
  turn_on t (stands ar ax) (stands br bx) waits k c = none
  turn_on t (stands ar ax) (stands br bx) (unreadable e q) k c = some (discard hodoscope1 e q c)
  turn_on t (stands ar ax) (stands br bx) (stands hr hx) waits c = none
  turn_on t (stands ar ax) (stands br bx) (stands hr hx) (unreadable e q) c =
      some (discard hodoscope2 e q c)
  turn_on t (stands ar ax) (stands br bx) (stands hr hx) (stands kr kx) c =
      some (join t (ar, ax) (br, bx) (hr, hx) (kr, kx) c)

  -- One turn of the loop; none is its return.
  unfoldable pub turn : Tags E → Collector E → Option (Outcome E × Collector E)
  turn t c =
      turn_on t (front t false c.of_ahcal) (front t true c.of_bif) (front t false c.of_hodoscope1)
        (front t false c.of_hodoscope2) c

  abbrev pub add_outcome :
      Outcome E → Option (List (Outcome E) × Collector E) → Option (List (Outcome E) × Collector E)
  add_outcome o none = none
  add_outcome o (some (os, c)) = some (o ∷ os, c)

  -- The loop, `fuel` turns of it; none stands for one that has not returned.
  unfoldable pub build_event_bxid :
      Tags E → ℕ → Collector E → Option (List (Outcome E) × Collector E)
  build_event_bxid t zero c = none
  build_event_bxid t (suc fuel) c = elim (turn t c) [
    | none ↦ some ([], c)
    | some step ↦ add_outcome step.0 (build_event_bxid t fuel step.1)
  ]

  -- The events in the four queues that the loop looks at.
  abbrev pub waiting : Collector E → ℕ
  waiting c =
      length c.of_ahcal.que
      + length c.of_bif.que
      + length c.of_hodoscope1.que
      + length c.of_hodoscope2.que

  abbrev pub lacks : Producer E → Bool
  lacks p = is_empty p.que && p.active

  abbrev pub lacks_one : Collector E → Bool
  lacks_one c = lacks c.of_ahcal || lacks c.of_bif || lacks c.of_hodoscope1 || lacks c.of_hodoscope2

  -- `DoReceive` of a known producer, and of any connection.
  unfoldable pub receive_from :
      Tags E → Origin → E → Collector E → Option (List (Outcome E) × Collector E)
  receive_from t o ev c =
      let c' = update o (λ p. with_que (p.que ++ ev ∷ []) p) c in
      if lacks_one c' then some ([], c') else build_event_bxid t (waiting c' + 1) c'

  unfoldable pub do_receive :
      Tags E → String → E → Collector E → Option (List (Outcome E) × Collector E)
  do_receive t name ev c =
      if t.is_flag_fake ev
      then some ([], c)
      else elim (recognized name) [ none ↦ some ([], c) | some o ↦ receive_from t o ev c ]
