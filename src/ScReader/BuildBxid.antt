-- ===== src/ScReader/BuildBxid.antt =====
-- `ScReader::buildBXIDEvents`: one event for each bunch crossing with data. A packet has its BXID as
-- the second word, as `readAHCALData` makes it.
pub mod Sends
use eudaq_ahcal.Base.{
  ℕ, suc, ◌+◌, List, [], ◌∷◌, ◌++◌, Bool, true, false, Option, none, some, ltb, if◌then◌else◌,
  length,
}
use eudaq_ahcal.Base.Words.{add32, int_rank}
use eudaq_ahcal.Base.IntMap.{IntMap, lookup, erase}
use eudaq_ahcal.ScReader.State.{Settings, LdaTimeData, Infodata, Reader}
use eudaq_ahcal.ScReader.Build.{Event, prepare_eudaq_raw_packet, halves, add_packets}
use eudaq_ahcal.ScReader.Crossings.{
  Crossings, bxid_of, add_crossing, behind_full_cell, set_crossing_times,
}

-- The table of the packets, without those behind a full memory cell.
unfoldable pub complete_crossings : Reader → ℕ → List Infodata → Crossings → Crossings
complete_crossings r roc [] bxids = bxids
complete_crossings r roc (dit ∷ cells) bxids =
    complete_crossings r roc cells
      (if behind_full_cell r roc (bxid_of dit) then bxids else add_crossing dit bxids)

abbrev pub start_of : Option LdaTimeData → ℕ
start_of none = 0
start_of (some d) = d.ts_start

abbrev pub stop_of : Option LdaTimeData → ℕ
stop_of none = 0
stop_of (some d) = d.ts_stop

unfoldable pub trigger_halves : List ℕ → List ℕ
trigger_halves [] = []
trigger_halves (ts ∷ tss) = halves ts ++ trigger_halves tss

abbrev pub some_trigger_halves : List ℕ → List ℕ
some_trigger_halves [] = 0 ∷ 0 ∷ []
some_trigger_halves (ts ∷ tss) = trigger_halves (ts ∷ tss)

-- What is set if the map still has an entry of times for the cycle.
abbrev pub set_cycle : ℕ → ℕ → Option LdaTimeData → Event → Event
set_cycle start_ts stop_ts none ev = ev
set_cycle start_ts stop_ts (some d) ev = record ev {
  tag_roc_start_ts = some start_ts;
  cycledata_block = halves start_ts ++ halves stop_ts ++ some_trigger_halves d.ts_triggers;
}

abbrev pub count_bxid : Reader → Reader
count_bxid r = record r {
  last_built_event_nr = add32 r.last_built_event_nr 1;
  statistics = record (r.statistics) { built_bxids = add32 r.statistics.built_bxids 1 };
}

unfoldable pub crossing_event : Settings → ℕ → ℕ → ℕ → ℕ → List Infodata → Reader → Event × Reader
crossing_event c roc start_ts stop_ts bxid same r =
    let (ev, r') = prepare_eudaq_raw_packet (count_bxid r) in
    (
      set_crossing_times c start_ts bxid (
          set_cycle start_ts stop_ts (lookup int_rank roc r'.lda_timestamp_data)
            (record ev { tag_roc = some roc; tag_bxid = some bxid; packets = add_packets same })),
      r',
    )

-- The loop over the crossings.
unfoldable pub crossing_events :
    Settings → ℕ → ℕ → ℕ → Crossings → List Event × Reader → List Event × Reader
crossing_events c roc start_ts stop_ts [] (queue, r) = (queue, r)
crossing_events c roc start_ts stop_ts ((bxid, same) ∷ bxids) (queue, r) =
    let (ev, r') = crossing_event c roc start_ts stop_ts bxid same r in
    crossing_events c roc start_ts stop_ts bxids (queue ++ ev ∷ [], r')

-- One readout cycle. Its entry of times is erased before the events are built, and once more after.
unfoldable pub build_bxid : Settings → ℕ → List Infodata → List Event × Reader → List Event × Reader
build_bxid c roc cells (queue, r) =
    let d = lookup int_rank roc r.lda_timestamp_data in
    let (queue', r') =
      crossing_events c roc (start_of d) (stop_of d) (complete_crossings r roc cells [])
        (queue, record r { lda_timestamp_data = erase int_rank roc r.lda_timestamp_data }) in
    (queue', record r' { lda_timestamp_data = erase int_rank roc r'.lda_timestamp_data })

unfoldable pub build_bxid_loop :
    Settings → ℕ → IntMap (List Infodata) → List Event × Reader → List Event × Reader
build_bxid_loop c kept [] (queue, r) = (queue, record r { lda_asic_data = [] })
build_bxid_loop c kept ((roc, cells) ∷ m) (queue, r) =
    let more = build_bxid_loop c kept m (build_bxid c roc cells (queue, r)) in
    if ltb kept (length ((roc, cells) ∷ m))
    then more
    else (queue, record r { lda_asic_data = (roc, cells) ∷ m })

unfoldable pub build_bxid_events : Settings → Bool → List Event → Reader → List Event × Reader
build_bxid_events c dump_all queue r =
    build_bxid_loop c (if dump_all then 0 else c.keep_buffered) r.lda_asic_data (queue, r)
