-- ===== src/ScReader/BuildTrigid.antt =====
-- `ScReader::buildTRIGIDEvents`: one event for each trigger inside its acquisition.
pub mod Numbers
pub mod Dummies
use mathlib.Core.List.{reverse}
use eudaq_ahcal.Base.{
  ℕ, zero, suc, ◌+◌, ◌-◌, ◌*◌, ◌^◌, ◌%◌, List, [], ◌∷◌, ◌++◌, Bool, true, false, not, ◌||◌, Option,
  none, some, ltb, if◌then◌else◌, length,
}
use eudaq_ahcal.Base.Words.{add32, add64, sub64, slt, int_rank}
use eudaq_ahcal.Base.IntMap.{IntMap, lookup, erase}
use eudaq_ahcal.ScReader.State.{
  Settings, EventNumbering, by_triggerid, by_timestamp, LdaTimeData, Infodata, Reader,
}
use eudaq_ahcal.ScReader.Build.{
  Event, prepare_eudaq_raw_packet, insert_dummy_event, cycledata, add_packets,
}

-- 1000 milliseconds.
abbrev pub longest_acquisition : ℕ
longest_acquisition = 1000 * 40000

-- A trigger before the start or after the stop is left out, and every one of an acquisition that is
-- longer than a second.
abbrev pub outside : LdaTimeData → ℕ → Bool
outside d ts =
    ltb ts d.ts_start || ltb d.ts_stop ts || ltb longest_acquisition (sub64 d.ts_stop d.ts_start)

-- The loop that fills the trigger numbers up to `number` with dummies.
unfoldable pub insert_trigger_dummies : ℕ → ℕ → List Event × Reader → List Event × Reader
insert_trigger_dummies zero number (queue, r) = (queue, r)
insert_trigger_dummies (suc fuel) number (queue, r) =
    let next = add32 r.last_built_event_nr 1 in
    let counted = record r { last_built_event_nr = next } in
    let more =
      insert_trigger_dummies fuel number (insert_dummy_event next next true (queue, counted)) in
    if slt next number then more else (queue, counted)

-- The timestamp of the event, and whether the trigger number is a flag.
unfoldable pub number_event : Settings → EventNumbering → ℕ → ℕ → Event → Event
number_event c by_timestamp number ts ev = record ev {
  trigger_n = some (number, false);
  times = some (sub64 ts c.ahcalbxid_width, add64 ts c.ahcalbxid_width);
}
number_event c by_triggerid number ts ev = record ev {
  trigger_n = some (number, true);
  times =
      if c.ignore_lda_timestamps
      then none
      else some (sub64 ts c.ahcalbxid_width, add64 ts c.ahcalbxid_width);
}

unfoldable pub trigid_event :
    Settings → ℕ → LdaTimeData → List Infodata → ℕ → ℕ → Reader → Event × Reader
trigid_event c roc d cells number ts r =
    let (ev, r') = prepare_eudaq_raw_packet r in
    (
      record (number_event c c.event_numbering_preference number ts ev) {
        tag_roc = some roc;
        tag_roc_start_ts = some d.ts_start;
        packets = add_packets cells;
        cycledata_block = cycledata d;
      },
      r',
    )

unfoldable pub build_trigger :
    Settings → ℕ → LdaTimeData → List Infodata → ℕ → ℕ → List Event × Reader → List Event × Reader
build_trigger c roc d cells id ts (queue, r) =
    let number = add32 id c.lda_trigid_offset in
    let (queue', r') =
      if c.insert_dummy_packets
      then insert_trigger_dummies (int_rank number - int_rank r.last_built_event_nr + 1) number
          (queue, r)
      else (queue, r) in
    let (ev, r'') = trigid_event c roc d cells number ts r' in (queue' ++ ev ∷ [], r'')

-- The loop over the triggers, whose IDs and times stand in two vectors.
unfoldable pub build_triggers :
    Settings
    → ℕ
    → LdaTimeData
    → List Infodata
    → List ℕ
    → List ℕ
    → List Event × Reader
    → List Event × Reader
build_triggers c roc d cells (id ∷ ids) (ts ∷ tss) (queue, r) =
    let built =
      build_triggers c roc d cells ids tss (build_trigger c roc d cells id ts (queue, r)) in
    let left_out = build_triggers c roc d cells ids tss (queue, r) in
    if outside d ts then left_out else built
build_triggers c roc d cells _ _ (queue, r) = (queue, r)

-- One readout cycle: its triggers, if it has an entry, which is then erased.
unfoldable pub build_trigid :
    Settings → ℕ → List Infodata → Option LdaTimeData → List Event × Reader → List Event × Reader
build_trigid c roc cells none (queue, r) = (queue, r)
build_trigid c roc cells (some d) (queue, r) =
    let (queue', r') = build_triggers c roc d cells d.trigger_ids d.ts_triggers (queue, r) in
    (queue', record r' { lda_timestamp_data = erase int_rank roc r'.lda_timestamp_data })

unfoldable pub build_trigid_loop :
    Settings → ℕ → IntMap (List Infodata) → List Event × Reader → List Event × Reader
build_trigid_loop c kept [] (queue, r) = (queue, record r { lda_asic_data = [] })
build_trigid_loop c kept ((roc, cells) ∷ m) (queue, r) =
    let more =
      build_trigid_loop c kept m
        (build_trigid c roc cells (lookup int_rank roc r.lda_timestamp_data) (queue, r)) in
    if ltb kept (length ((roc, cells) ∷ m))
    then more
    else (queue, record r { lda_asic_data = (roc, cells) ∷ m })

unfoldable pub build_trigid_events : Settings → Bool → List Event → Reader → List Event × Reader
build_trigid_events c dump_all queue r =
    build_trigid_loop c (if dump_all then 0 else c.keep_buffered) r.lda_asic_data (queue, r)
