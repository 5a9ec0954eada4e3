-- ===== src/ScReader/BuildValidated.antt =====
-- `ScReader::buildValidatedBXIDEvents`: one event for each trigger, by the bunch crossing in which it came.
-- The iterator over the crossings is the list that is left of them; beyond its end, where the code must
-- not read, there are no packets. A packet whose content was moved away is empty.
pub mod Cycle
pub mod Ends
pub mod Table
pub mod Crossed
pub mod Iterate
pub mod Matched
pub mod Repeats
use Prim.Native.Nat.{bit_or}
use eudaq_ahcal.Base.{
  ℕ, zero, suc, ◌+◌, ◌-◌, ◌*◌, ◌%◌, ◌^◌, List, [], ◌∷◌, ◌++◌, map, Bool, true, false, not, ◌&&◌,
  ◌||◌, Option, none, some, ltb, ◌==◌, if◌then◌else◌, length,
}
use eudaq_ahcal.Base.Words.{add32, sub64, sdiv64, from_int, minus_one, slt, int_rank}
use eudaq_ahcal.Base.IntMap.{IntMap, adjust}
use eudaq_ahcal.ScReader.State.{
  Settings, EventNumbering, LdaTimeData, Infodata, RunTimeStatistics, Reader,
}
use eudaq_ahcal.ScReader.Build.{Event, prepare_eudaq_raw_packet, halves, add_packets}
use eudaq_ahcal.ScReader.Crossings.{
  Crossings, add_crossing, behind_full_cell, set_crossing_times, ldats, stopping_bxid_data,
}

-- A trigger of the multimap `triggerBxids`.
pub record Trigger : Type 0 where
  pub trigger_bxid : ℕ
  pub trigger_raw_trig_id : ℕ
  pub trigger_ts : ℕ

-- `DAQ_ERRORS_...`.
abbrev pub incomplete : ℕ
incomplete = 0x0001

abbrev pub outside_acq : ℕ
outside_acq = 0x0002

abbrev pub multiple_triggers : ℕ
multiple_triggers = 0x0004

abbrev pub missed_dummy : ℕ
missed_dummy = 0x0008

abbrev pub missing_start : ℕ
missing_start = 0x0010

abbrev pub missing_stop : ℕ
missing_stop = 0x0020

abbrev pub or_if : Bool → ℕ → ℕ → ℕ
or_if b bit status = if b then bit_or status bit else status

abbrev pub int_max : ℕ
int_max = 2 ^ 31 - 1

-- The table of all packets of the cycle; empty ones are passed over.
unfoldable pub all_crossings : List Infodata → Crossings → Crossings
all_crossings [] bxids = bxids
all_crossings ([] ∷ cells) bxids = all_crossings cells bxids
all_crossings ((x ∷ xs) ∷ cells) bxids = all_crossings cells (add_crossing (x ∷ xs) bxids)

-- Equal keys stay in the order of insertion.
unfoldable pub insert_trigger : Trigger → List Trigger → List Trigger
insert_trigger t [] = t ∷ []
insert_trigger t (u ∷ us) =
    if slt t.trigger_bxid u.trigger_bxid then t ∷ u ∷ us else u ∷ insert_trigger t us

-- The division of an `int64_t`; the width is positive.
unfoldable pub trigger_crossing : Settings → ℕ → ℕ → ℕ
trigger_crossing c start_ts ts =
    sdiv64 (sub64 (sub64 ts start_ts) (from_int c.ahcalbxid0_offset)) c.ahcalbxid_width % 2 ^ 32

-- The triggers of a cycle but those with a crossing above 65535.
unfoldable pub trigger_bxids : Settings → ℕ → List ℕ → List ℕ → List Trigger → List Trigger
trigger_bxids c start_ts (id ∷ ids) (ts ∷ tss) ts_map =
    let bxid = trigger_crossing c start_ts ts in
    trigger_bxids c start_ts ids tss (
      if slt 65535 bxid
      then ts_map
      else insert_trigger
          (record { trigger_bxid = bxid; trigger_raw_trig_id = id; trigger_ts = ts }) ts_map)
trigger_bxids c start_ts _ _ ts_map = ts_map

unfoldable pub cycle_triggers_of : Settings → LdaTimeData → List Trigger
cycle_triggers_of c d =
    if d.ts_start == 0 then [] else trigger_bxids c d.ts_start d.trigger_ids d.ts_triggers []

abbrev pub count_multiplicity : ℕ → RunTimeStatistics → RunTimeStatistics
count_multiplicity n s = record s {
  trigger_multiplicity_in_bxid =
      adjust int_rank n 0 (λ m. add32 m 1) s.trigger_multiplicity_in_bxid;
}

unfoldable pub insert_missed_trigger : ℕ → ℕ → ℕ → ℕ → Reader → Event × Reader
insert_missed_trigger roc start_ts number error_status r =
    let (ev, r') =
      prepare_eudaq_raw_packet (record r { statistics = count_multiplicity 0 r.statistics }) in
    (
      record ev {
        tag_roc = some roc;
        tag_roc_start_ts = some start_ts;
        trigger_n = some (number, true);
        tag_dummy = some 1;
        tag_tb_timestamp = some r.timestamp_tb_campaign;
        tag_ldats = some (ldats start_ts);
        tag_daq_error_status = some error_status;
      },
      r',
    )

-- The loop that inserts a dummy for each trigger number that was missed, `fuel` of them at most.
unfoldable pub insert_missed_triggers : ℕ → ℕ → ℕ → ℕ → List Event × Reader → List Event × Reader
insert_missed_triggers zero roc start_ts number (queue, r) = (queue, r)
insert_missed_triggers (suc fuel) roc start_ts number (queue, r) =
    let next = add32 r.last_built_event_nr 1 in
    let (ev, r') =
      insert_missed_trigger roc start_ts next missed_dummy
        (record r { last_built_event_nr = next }) in
    let more = insert_missed_triggers fuel roc start_ts number (queue ++ ev ∷ [], r') in
    if slt next number then more else (queue, r)

-- Enough: one turn for each number up to `number`, and the last test.
abbrev pub missed_fuel : ℕ → Reader → ℕ
missed_fuel number r = int_rank number - int_rank r.last_built_event_nr + 1

-- `++_lastBuiltEventNr` is part of the call.
unfoldable pub insert_empty_event :
    Settings → ℕ → LdaTimeData → Trigger → ℕ → Reader → Event × Reader
insert_empty_event c roc d t error_status r =
    let counted = record r {
      last_built_event_nr = add32 r.last_built_event_nr 1;
      statistics =
          count_multiplicity 1
            (record (r.statistics) { triggers_empty = add32 r.statistics.triggers_empty 1 });
    } in
    let (ev, r') = prepare_eudaq_raw_packet counted in
    let status =
      or_if (ltb d.ts_stop t.trigger_ts || slt t.trigger_bxid 0) outside_acq (
        or_if (d.ts_start == 0) missing_start (or_if (d.ts_stop == 0) missing_stop error_status)) in
    (
      set_crossing_times c d.ts_start t.trigger_bxid (record ev {
        tag_roc = some roc;
        tag_roc_start_ts = some d.ts_start;
        tag_roc_stop_ts = some d.ts_stop;
        trigger_n = some (t.trigger_raw_trig_id, true);
        tag_dummy = some 0;
        tag_bxid = some t.trigger_bxid;
        cycledata_block = halves d.ts_start ++ halves d.ts_stop ++ halves t.trigger_ts;
        tag_tb_timestamp = some r.timestamp_tb_campaign;
        tag_ldats = some (ldats d.ts_start);
        tag_daq_error_status = some status;
        stopping_block = stopping_bxid_data r roc;
      }),
      r',
    )

-- The crossings before that of the trigger are left behind.
unfoldable pub kick_out : ℕ → Crossings → Crossings
kick_out bxid [] = []
kick_out bxid ((b, same) ∷ bxids) =
    let rest = kick_out bxid bxids in if slt b bxid then rest else (b, same) ∷ bxids

abbrev pub ahcal_bxid : Crossings → ℕ
ahcal_bxid [] = 1000000
ahcal_bxid ((b, same) ∷ bxids) = b

abbrev pub next_crossing : Crossings → Crossings
next_crossing [] = []
next_crossing (x ∷ bxids) = bxids

abbrev pub packets_here : Crossings → List Infodata
packets_here [] = []
packets_here ((b, same) ∷ bxids) = same

-- The packets of the current crossing moved away.
abbrev pub moved_away : Crossings → Crossings
moved_away [] = []
moved_away ((b, same) ∷ bxids) = (b, map (λ p. []) same) ∷ bxids

-- The following triggers of the same crossing.
unfoldable pub same_crossing : ℕ → List Trigger → List Trigger
same_crossing bxid [] = []
same_crossing bxid (t ∷ ts) =
    let rest = same_crossing bxid ts in if t.trigger_bxid == bxid then t ∷ rest else []

-- `triggerBxids.count(bxid)`.
unfoldable pub count_crossing : ℕ → List Trigger → ℕ
count_crossing bxid [] = 0
count_crossing bxid (t ∷ ts) = (if t.trigger_bxid == bxid then 1 else 0) + count_crossing bxid ts

unfoldable pub more_halves : List Trigger → List ℕ
more_halves [] = []
more_halves (t ∷ ts) = halves t.trigger_ts ++ more_halves ts
