-- ===== src/ScReader/BuildValidated/Matched.antt =====
-- Every trigger of a readout cycle gets its event, with the packets of its crossing.
use eudaq_ahcal.Base.{
  ℕ, ◌≤◌, List, [], ◌∷◌, ◌++◌, ◌≡◌, refl, ap, ◌∙◌, arith, Bool, true, false, none, ◌==◌,
  if◌then◌else◌, map, Bool-cases, inl, inr, All,
}
use eudaq_ahcal.Base.Words.{slt, int_rank}
use eudaq_ahcal.Base.IntMap.{IntMap, lookup}
use eudaq_ahcal.ScReader.State.{Settings, LdaTimeData, Infodata, Reader}
use eudaq_ahcal.ScReader.Build.{Event}
use eudaq_ahcal.ScReader.Crossings.{Crossings}
use eudaq_ahcal.ScReader.BuildValidated.{
  Trigger, all_crossings, cycle_triggers_of, insert_trigger, trigger_bxids, trigger_crossing,
}
use eudaq_ahcal.ScReader.BuildValidated.Cycle.{emptied, process_cycle}
use eudaq_ahcal.ScReader.BuildValidated.Table.{
  cells_at, extend, lookup-all_crossings, KeysAreInts, BxidsAreInts, all_crossings-KeysAreInts,
}
use eudaq_ahcal.ScReader.BuildValidated.Crossed.{Seen, seen, expected_of, expected, KeepsAll}
use eudaq_ahcal.ScReader.BuildValidated.Iterate.{Agrees, IsRising, IsCrossing, for_triggers-seen}

insert_trigger-IsRising :
    (n : ℕ) (t : Trigger) (ts : List Trigger)
    → n ≤ int_rank t.trigger_bxid
    → IsRising n ts
    → IsRising n (insert_trigger t ts)
unfolding insert_trigger
insert_trigger-IsRising n t [] le up = (le, tt)
insert_trigger-IsRising n t (u ∷ us) le up = elim (Bool-cases (slt t.trigger_bxid u.trigger_bxid)) [
  | inl l ↦ rw l (le, (ground (arith, l), up.1))
  | inr l ↦
      rw l (up.0, insert_trigger-IsRising (int_rank u.trigger_bxid) t us (ground (arith, l)) up.1)
]

insert_trigger-All :
    (t : Trigger) (ts : List Trigger)
    → IsCrossing t
    → All IsCrossing ts
    → All IsCrossing (insert_trigger t ts)
unfolding insert_trigger
insert_trigger-All t [] ht h = (ht, tt)
insert_trigger-All t (u ∷ us) ht h = elim (Bool-cases (slt t.trigger_bxid u.trigger_bxid)) [
  | inl l ↦ rw l (ht, h)
  | inr l ↦ rw l (h.0, insert_trigger-All t us ht h.1)
]

trigger_bxids-AreCrossings :
    (c : Settings) (start : ℕ) (ids tss : List ℕ) (ts : List Trigger)
    → All IsCrossing ts × IsRising 0 ts
    → let triggers = trigger_bxids c start ids tss ts in
      All IsCrossing triggers × IsRising 0 triggers
unfolding trigger_bxids trigger_crossing
trigger_bxids-AreCrossings c start [] tss ts h = h
trigger_bxids-AreCrossings c start (id ∷ ids) [] ts h = h
trigger_bxids-AreCrossings c start (id ∷ ids) (x ∷ tss) ts h =
    let bxid = trigger_crossing c start x in
    let t : Trigger = record { trigger_bxid = bxid; trigger_raw_trig_id = id; trigger_ts = x } in
    elim (Bool-cases (slt 65535 bxid)) [
      | inl high ↦ rw high (trigger_bxids-AreCrossings c start ids tss ts h)
      | inr low ↦ rw low (
          trigger_bxids-AreCrossings c start ids tss (insert_trigger t ts) (
            insert_trigger-All t ts (omega arith, low) h.0,
            insert_trigger-IsRising 0 t ts (omega arith) h.1,
          ))
    ]

cycle_triggers_of-AreCrossings :
    (c : Settings) (d : LdaTimeData)
    → All IsCrossing (cycle_triggers_of c d) × IsRising 0 (cycle_triggers_of c d)
unfolding cycle_triggers_of
cycle_triggers_of-AreCrossings c d = elim (Bool-cases (d.ts_start == 0)) [
  | inl zero_start ↦ rw zero_start (tt, tt)
  | inr start ↦
      rw start (trigger_bxids-AreCrossings c d.ts_start d.trigger_ids d.ts_triggers [] (tt, tt))
]

-- The event wanted for a trigger of a cycle with these packets.
abbrev pub wanted : Settings → List Infodata → Trigger → Seen
wanted c cells t = expected_of c t (extend none (cells_at t.trigger_bxid cells))

map-wanted :
    (c : Settings) (cells : List Infodata) (table : Crossings) (ts : List Trigger)
    → ((b : ℕ) → lookup int_rank b table ≡ extend none (cells_at b cells))
    → map (expected c table) ts ≡ map (wanted c cells) ts
map-wanted c cells table [] h = refl
map-wanted c cells table (t ∷ ts) h =
    ap (λ o. expected_of c t o ∷ map (expected c table) ts) (h t.trigger_bxid)
    ∙ ap (λ l. wanted c cells t ∷ l) (map-wanted c cells table ts h)

-- The packets that are in the map for the processed cycle.
abbrev pub cells_of_cycle : ℕ → ℕ → List Infodata → List Infodata
cells_of_cycle roc a cells = if a == roc then cells else []

-- When dummies are inserted and events need no hits, `buildValidatedBXIDEvents` queues for a readout cycle,
-- besides the dummies, exactly one event for each trigger that it takes, in the order of their crossings: an
-- event with all packets of the crossing and the corrected number of the trigger or, if the crossing has
-- none, an empty event with the raw number. (The BXIDs of the packets are `int`s.)
pub process_cycle-seen :
    (c : Settings) (roc : ℕ) (d : LdaTimeData) (a : ℕ) (cells : List Infodata)
    (m : IntMap (List Infodata)) (queue : List Event) (r : Reader)
    → KeepsAll c
    → BxidsAreInts cells
    → seen (process_cycle c roc d a cells m (queue, r)).0
      ≡ seen queue ++ map (wanted c (cells_of_cycle roc a cells)) (cycle_triggers_of c d)
unfolding process_cycle lookup
process_cycle-seen c roc d a cells m queue r k ints =
    let triggers = cycle_triggers_of c d in
    let good = cycle_triggers_of-AreCrossings c d in
    let taken = if a == roc then emptied cells else cells in
    let st : List Event × Reader = (queue, record r { lda_asic_data = (a, taken) ∷ m }) in
    let table = if a == roc then all_crossings cells [] else [] in
    for_triggers-seen c roc d triggers triggers table table st 0 k good.0 good.1
      (table-KeysAreInts (a == roc)) (agrees table triggers)
    ∙ ap (λ l. seen queue ++ l)
        (map-wanted c (cells_of_cycle roc a cells) table triggers (lookup-table (a == roc)))
  where
    table-KeysAreInts : (b : Bool) → KeysAreInts (if b then all_crossings cells [] else [])
    table-KeysAreInts true = all_crossings-KeysAreInts cells [] ints tt
    table-KeysAreInts false = tt

    agrees : (table : Crossings) (ts : List Trigger) → Agrees table table ts
    agrees table [] = tt
    agrees table (t ∷ ts) = (refl, agrees table ts)

    lookup-table :
        (b : Bool) (i : ℕ)
        → lookup int_rank i (if b then all_crossings cells [] else [])
          ≡ extend none (cells_at i (if b then cells else []))
    lookup-table true i = lookup-all_crossings i cells []
    lookup-table false i = refl
