-- ===== src/ScReader/BuildValidated/Cycle.antt =====
-- The loops of `ScReader::buildValidatedBXIDEvents` over the triggers and over the readout cycles.
use eudaq_ahcal.Base.{
  ℕ, zero, suc, ◌+◌, ◌%◌, ◌^◌, List, [], ◌∷◌, ◌++◌, map, Bool, true, not, ◌&&◌, Option, none, some,
  ltb, ◌==◌, if◌then◌else◌, length,
}
use eudaq_ahcal.Base.Words.{add32, sub64, from_int, slt, sle}
use eudaq_ahcal.Base.IntMap.{IntMap}
use eudaq_ahcal.ScReader.State.{Settings, LdaTimeData, Infodata, Reader}
use eudaq_ahcal.ScReader.Build.{Event, prepare_eudaq_raw_packet, halves, add_packets}
use eudaq_ahcal.ScReader.Crossings.{
  Crossings, behind_full_cell, set_crossing_times, ldats, stopping_bxid_data,
}
use eudaq_ahcal.ScReader.BuildValidated.{
  Trigger, incomplete, multiple_triggers, missing_start, missing_stop, or_if, int_max,
  all_crossings, cycle_triggers_of, count_multiplicity, insert_missed_triggers, missed_fuel,
  insert_empty_event, kick_out, ahcal_bxid, next_crossing, packets_here, moved_away, same_crossing,
  count_crossing, more_halves,
}

-- `TrigBxidTdc`: where in its crossing the trigger came.
abbrev pub trig_bxid_tdc : Settings → ℕ → ℕ → ℕ
trig_bxid_tdc c start_ts ts =
    sub64 (sub64 ts start_ts) (from_int c.ahcalbxid0_offset) % from_int c.ahcalbxid_width % 2 ^ 32

-- The event of a trigger with data; `same` are the further triggers of its crossing.
unfoldable pub matched_event :
    Settings
    → ℕ
    → LdaTimeData
    → Trigger
    → List Trigger
    → ℕ
    → List Infodata
    → Reader
    → Event × Reader
matched_event c roc d t same status cells r =
    let counted = record r {
      statistics =
          count_multiplicity (suc (length same))
            (record (r.statistics) { built_bxids = add32 r.statistics.built_bxids 1 });
    } in
    let (ev, r') = prepare_eudaq_raw_packet counted in
    (
      set_crossing_times c d.ts_start t.trigger_bxid (record ev {
        tag_dummy = if c.insert_dummy_packets then some 0 else none;
        tag_roc = some roc;
        tag_bxid = some t.trigger_bxid;
        tag_roc_start_ts = some d.ts_start;
        tag_trig_bxid_tdc = some (trig_bxid_tdc c d.ts_start t.trigger_ts);
        trigger_n = some (add32 t.trigger_raw_trig_id c.lda_trigid_offset, true);
        tag_daq_error_status = some status;
        tag_tb_timestamp = some r.timestamp_tb_campaign;
        tag_ldats = some (ldats t.trigger_ts);
        tag_raw_lda_trig_id = some t.trigger_raw_trig_id;
        cycledata_block =
            halves d.ts_start ++ halves d.ts_stop ++ halves t.trigger_ts ++ more_halves same;
        stopping_block = stopping_bxid_data r roc;
        flagged = some c.event_numbering_preference;
        packets = add_packets cells;
      }),
      r',
    )

-- What a trigger leaves: the iterator, the number of further triggers that are joined into its event,
-- the queue and the reader.
pub record Handled : Type 0 where
  pub iterator : Crossings
  pub joined : ℕ
  pub done_so_far : List Event × Reader

abbrev pub push : List Event → Event × Reader → List Event × Reader
push queue (ev, r) = (queue ++ ev ∷ [], r)

-- The dummies before a trigger.
unfoldable pub fill_missed :
    Settings → ℕ → LdaTimeData → Trigger → List Event × Reader → List Event × Reader
fill_missed c roc d t (queue, r) =
    let number = add32 t.trigger_raw_trig_id c.lda_trigid_offset in
    if c.insert_dummy_packets
    then insert_missed_triggers (missed_fuel number r) roc d.ts_start number (queue, r)
    else (queue, r)

abbrev pub cycle_status : LdaTimeData → ℕ
cycle_status d = or_if (d.ts_stop == 0) missing_stop (or_if (d.ts_start == 0) missing_start 0)

-- The packets are copied if a dummy or an event of the same crossing may follow, otherwise moved.
abbrev pub after_match : Settings → List Trigger → Crossings → Crossings
after_match c same its =
    if c.insert_dummy_packets
    then if ltb 0 (length same) then its else moved_away its
    else if ltb 0 (length same)
    then moved_away its
    else next_crossing (moved_away its)

-- A trigger whose crossing, or a later one, is at the iterator.
unfoldable pub handle_match :
    Settings
    → ℕ
    → LdaTimeData
    → List Trigger
    → Trigger
    → List Trigger
    → Crossings
    → List Event × Reader
    → Handled
handle_match c roc d all t ts its (queue, r) =
    let behind = behind_full_cell r roc (ahcal_bxid its) in
    let same = same_crossing t.trigger_bxid ts in
    let status =
      or_if (ltb 1 (count_crossing t.trigger_bxid all)) multiple_triggers
        (or_if behind incomplete (cycle_status d)) in
    if behind && not c.insert_dummy_packets
    then record { iterator = next_crossing its; joined = 0; done_so_far = (queue, r) }
    else record {
      iterator = after_match c same its;
      joined = if c.insert_dummy_packets then 0 else length same;
      done_so_far = push queue (matched_event c roc d t same status (packets_here its) r);
    }

-- The body of the loop over the triggers, once the dummies are in and the iterator is moved on.
unfoldable pub handle_trigger :
    Settings
    → ℕ
    → LdaTimeData
    → List Trigger
    → Trigger
    → List Trigger
    → Crossings
    → List Event × Reader
    → Handled
handle_trigger c roc d all t ts its (queue, r) =
    if slt t.trigger_bxid (ahcal_bxid its) && c.min_event_hits == 0
    then record {
      iterator = its;
      joined = 0;
      done_so_far = push queue (insert_empty_event c roc d t (cycle_status d) r);
    }
    else handle_match c roc d all t ts its (queue, r)

-- The loop over the triggers; `skip` of them are joined into an event that is built.
unfoldable pub for_triggers :
    Settings
    → ℕ
    → LdaTimeData
    → List Trigger
    → ℕ
    → List Trigger
    → Crossings
    → List Event × Reader
    → List Event × Reader
for_triggers c roc d all skip [] its st = st
for_triggers c roc d all (suc skip) (t ∷ ts) its st = for_triggers c roc d all skip ts its st
for_triggers c roc d all zero (t ∷ ts) its st =
    let h =
      handle_trigger c roc d all t ts (kick_out t.trigger_bxid its) (fill_missed c roc d t st) in
    for_triggers c roc d all h.joined ts h.iterator h.done_so_far

-- `while (begin()->first < roc) erase(begin())`, and with `<=`.
unfoldable pub erase_below {ℓ} : {V : Type ℓ} → ℕ → IntMap V → IntMap V
erase_below roc [] = []
erase_below roc ((k, v) ∷ m) =
    let rest = erase_below roc m in if slt k roc then rest else (k, v) ∷ m

unfoldable pub erase_up_to {ℓ} : {V : Type ℓ} → ℕ → IntMap V → IntMap V
erase_up_to roc [] = []
erase_up_to roc ((k, v) ∷ m) =
    let rest = erase_up_to roc m in if sle k roc then rest else (k, v) ∷ m

abbrev pub emptied : List Infodata → List Infodata
emptied cells = map (λ p. []) cells

-- The memory for processed readout cycles is cleared.
abbrev pub clear_processed : ℕ → List Event × Reader → List Event × Reader
clear_processed roc (queue, r) = (
  queue,
  record r {
    lda_asic_data = erase_below roc r.lda_asic_data;
    lda_timestamp_data = erase_up_to roc r.lda_timestamp_data;
  },
)

-- The readout cycle `roc`, the first one with times; the first one with packets is `a`, not before it.
unfoldable pub process_cycle :
    Settings
    → ℕ
    → LdaTimeData
    → ℕ
    → List Infodata
    → IntMap (List Infodata)
    → List Event × Reader
    → List Event × Reader
process_cycle c roc d a cells m (queue, r) =
    let triggers = cycle_triggers_of c d in
    let bxids = if a == roc then all_crossings cells [] else [] in
    let taken = if a == roc then emptied cells else cells in
    clear_processed roc (
      for_triggers c roc d triggers 0 triggers bxids
        (queue, record r { lda_asic_data = (a, taken) ∷ m }))

-- One turn of the loop over the readout cycles. Without times, packets are thrown away.
abbrev pub turn_on :
    Settings
    → IntMap (List Infodata)
    → IntMap LdaTimeData
    → List Event × Reader
    → List Event × Reader
turn_on c [] times (queue, r) = (queue, r)
turn_on c ((a, cells) ∷ m) [] (queue, r) =
    if slt a int_max
    then (queue, record r { lda_asic_data = m })
    else (queue, record r { lda_asic_data = (a, emptied cells) ∷ m })
turn_on c ((a, cells) ∷ m) ((roc, d) ∷ times) (queue, r) =
    if slt a roc
    then (queue, record r { lda_asic_data = m })
    else process_cycle c roc d a cells m (queue, r)

unfoldable pub validated_turn : Settings → List Event × Reader → List Event × Reader
validated_turn c (queue, r) = turn_on c r.lda_asic_data r.lda_timestamp_data (queue, r)

-- `fuel` turns of the loop; none stands for a loop that has not ended.
unfoldable pub build_validated_loop :
    ℕ → Settings → ℕ → List Event × Reader → Option (List Event × Reader)
build_validated_loop zero c kept st = none
build_validated_loop (suc fuel) c kept st =
    let more = build_validated_loop fuel c kept (validated_turn c st) in
    if ltb kept (length st.1.lda_asic_data) then more else some st

-- Enough: each turn erases an entry of one of the maps.
abbrev pub validated_fuel : Reader → ℕ
validated_fuel r = length r.lda_asic_data + length r.lda_timestamp_data + 1

unfoldable pub build_validated_bxid_events :
    Settings → Bool → List Event → Reader → Option (List Event × Reader)
build_validated_bxid_events c dump_all queue r =
    build_validated_loop (validated_fuel r) c (if dump_all then 0 else c.keep_buffered) (queue, r)
