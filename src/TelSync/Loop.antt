-- ===== src/TelSync/Loop.antt =====
-- `DoReceive` of CaliceTelDataCollector.cc. Its loop is a function of the number of turns.
use Prim.Native.String.{String}
use text.Mathlib.Text.{◌==◌ as str_eq}
use eudaq_ahcal.Base.{
  ℕ, zero, suc, ◌^◌, List, [], ◌∷◌, ◌++◌, Bool, true, false, not, ◌||◌, Option, none, some,
  if◌then◌else◌, leb, length,
}
use eudaq_ahcal.Base.Words.{add32, sub32, sub64, mul64, slt}
use eudaq_ahcal.TsSync.{is_empty, push}
use eudaq_ahcal.TelSync.{Tags, Collector, Sync, turn}

-- An exception, or the events written in the turns of the loop, with the state.
pub data Received (E : Type 0) (S : Type 0) : Type 0 where
  thrown : S → Received E S
  wrote : List (Sync E) → S → Received E S

module _ {E : Type 0} (t : Tags E) where
  abbrev pub back : E → List E → E
  back e [] = e
  back e (f ∷ q) = back f q

  -- The condition of the loop, on the three queues, and a turn.
  abbrev pub turn_on : List E → List E → List E → Collector E → Option (List (Sync E) × Collector E)
  turn_on [] q_bif q_tel c = none
  turn_on (e ∷ q) [] q_tel c = none
  turn_on (e ∷ q) (f ∷ r) [] c = none
  turn_on (e ∷ q) (f ∷ r) (g ∷ s) c =
      if leb (t.trigger_n e) (t.event_n (back g s)) then some (turn t e q f r c) else none

  -- The events written in the first `turns` turns, and the state after them.
  unfoldable pub build : ℕ → Collector E → List (Sync E) × Collector E
  build zero c = ([], c)
  build (suc turns) c = elim (turn_on c.cal.que c.bif.que c.que_tel c) [
    | none ↦ ([], c)
    | some step ↦ let run = build turns step.1 in (step.0 ++ run.0, run.1)
  ]

  -- The three blocks for an event of a known producer; a full queue is cleared instead,
  -- and the event is dropped.
  abbrev pub take_cal : E → Collector E → Bool × Collector E
  take_cal ev c =
      if leb 100000 (length c.cal.que)
      then (false, record c { cal = record (c.cal) { que = [] } })
      else (
        true,
        record c {
          cal =
              push
                (if slt 0 c.shift_tgn_cal
                  then t.set_trigger_n (add32 (t.trigger_n ev) c.shift_tgn_cal) ev
                  else ev)
                c.cal;
        },
      )

  abbrev pub take_bif : E → Collector E → Bool × Collector E
  take_bif ev c =
      if leb 10000 (length c.bif.que)
      then (false, record c { bif = record (c.bif) { que = [] } })
      else (true, record c { bif = push ev c.bif })

  abbrev pub take_tel : E → Collector E → Bool × Collector E
  take_tel ev c = if leb 10000 (length c.que_tel) then (false, record c { que_tel = [] }) else (
    true,
    record c {
      que_tel =
          c.que_tel
          ++ (if slt c.shift_tgn_cal 0
              then t.set_event_n (sub32 (t.event_n ev) c.shift_tgn_cal) ev
              else ev)
            ∷ [];
    },
  )

  -- `con_name`: whether the event was taken, and the state.
  abbrev pub take_from : String → E → Collector E → Bool × Collector E
  take_from name ev c =
      if str_eq name "Producer.Calice1"
      then take_cal ev c
      else if str_eq name "Producer.caliceahcalbifProducer"
      then take_bif ev c
      else if str_eq name "Producer.ni"
      then take_tel ev c
      else (false, c)

  -- The offset of the two clocks, from the first events; none is the exception.
  abbrev pub find_offset : List E → List E → List E → Collector E → Option (Collector E)
  find_offset [] q_bif q_tel c = some c
  find_offset (e ∷ q) [] q_tel c = some c
  find_offset (e ∷ q) (f ∷ r) [] c = some c
  find_offset (e ∷ q) (f ∷ r) (g ∷ s) c =
      if not (t.is_bore e) || not (t.is_bore f) || not (t.is_bore g)
      then none
      else some (record c {
        ts_offset_cal2bif =
            sub64 (sub64 (mul64 (t.first_roc_start e) (2 ^ 5)) (t.first_roc_start f)) 120;
        offset_ts_done = true;
      })

  abbrev pub with_offset : Collector E → Option (Collector E)
  with_offset c = if c.offset_ts_done then some c else find_offset c.cal.que c.bif.que c.que_tel c

  unfoldable pub synchronise : ℕ → Collector E → Received E (Collector E)
  synchronise turns c =
      if is_empty c.cal.que || is_empty c.bif.que || is_empty c.que_tel
      then wrote [] c
      else elim (with_offset c) [
        | none ↦ thrown c
        | some c' ↦ let run = build turns c' in wrote run.0 run.1
      ]

  unfoldable pub do_receive : ℕ → String → E → Collector E → Received E (Collector E)
  do_receive turns name ev c =
      if t.is_flag_fake ev || not c.accept_ev || not (t.run_matches ev)
      then wrote [] c
      else let taken = take_from name ev c in
        if taken.0 then synchronise turns taken.1 else wrote [] taken.1
