-- ===== src/ScReader/Build.antt =====
-- `ScReader::buildROCEvents` and what the builders share: one event for each readout cycle.
pub mod Roc
use mathlib.Core.List.{reverse}
use eudaq_ahcal.Base.{
  ℕ, zero, suc, ◌+◌, ◌-◌, ◌*◌, ◌/◌, ◌%◌, ◌^◌, List, [], ◌∷◌, ◌++◌, Bool, true, false, not, ◌&&◌,
  ◌||◌, Option, none, some, ltb, ◌==◌, if◌then◌else◌, length,
}
use eudaq_ahcal.Base.Words.{add32, sub32, minus_one, slt, int_rank}
use eudaq_ahcal.Base.IntMap.{IntMap, lookup, erase}
use eudaq_ahcal.ScReader.State.{Settings, EventNumbering, LdaTimeData, Infodata, Reader}

-- What the code sets on a `eudaq::RawEvent`: tags, of which LDATS_Low and LDATS_High are one, numbers,
-- the flag bit for the numbering, and blocks. The blocks 0 to 2 are constant texts and the clock; the
-- blocks from 10 on are the ASIC packets. What is not set is `none`.
pub record Event : Type 0 where
  pub tag_roc : Option ℕ
  pub tag_roc_start_ts : Option ℕ
  pub tag_roc_stop_ts : Option ℕ
  pub tag_bxid : Option ℕ
  pub tag_dummy : Option ℕ
  pub tag_daq_error_status : Option ℕ
  pub tag_tb_timestamp : Option ℕ
  pub tag_ldats : Option (ℕ × ℕ)
  pub tag_trig_bxid_tdc : Option ℕ
  pub tag_raw_lda_trig_id : Option ℕ
  pub flagged : Option EventNumbering
  pub event_n : Option ℕ
  pub trigger_n : Option (ℕ × Bool)
  pub times : Option (ℕ × ℕ)
  pub slowcontrol_block : List ℕ
  pub led_block : List ℕ
  pub temperature_block : List ℕ
  pub cycledata_block : List ℕ
  pub stopping_block : List (ℕ × ℕ)
  pub hv_adj_block : List ℕ
  pub packets : List Infodata

unfoldable pub temperatures : List (ℕ × ℕ × ℕ) → List ℕ
temperatures [] = []
temperatures ((lda, port, value) ∷ rest) = lda ∷ port ∷ value ∷ temperatures rest

-- A new event with its empty blocks, and the information that waits, `appendOtherInfo` included, which
-- clears what it appends.
unfoldable pub prepare_eudaq_raw_packet : Reader → Event × Reader
prepare_eudaq_raw_packet r = (
  record {
    tag_roc = none;
    tag_roc_start_ts = none;
    tag_roc_stop_ts = none;
    tag_bxid = none;
    tag_dummy = none;
    tag_daq_error_status = none;
    tag_tb_timestamp = none;
    tag_ldats = none;
    tag_trig_bxid_tdc = none;
    tag_raw_lda_trig_id = none;
    flagged = none;
    event_n = none;
    trigger_n = none;
    times = none;
    slowcontrol_block = r.slowcontrol_data;
    led_block = r.led_info;
    temperature_block = temperatures r.vec_temp;
    cycledata_block = [];
    stopping_block = [];
    hv_adj_block = r.hv_adj_info;
    packets = [];
  },
  record r { slowcontrol_data = []; led_info = []; vec_temp = []; hv_adj_info = [] },
)

-- A number is set if it is greater than 0.
abbrev pub positive : ℕ → Option ℕ
positive n = if slt 0 n then some n else none

unfoldable pub insert_dummy_event : ℕ → ℕ → Bool → List Event × Reader → List Event × Reader
insert_dummy_event event_number triggerid flag (queue, r) =
    let (ev, r') = prepare_eudaq_raw_packet r in
    (
      queue
          ++ record ev {
            event_n = positive event_number;
            trigger_n = if slt 0 triggerid then some (triggerid, flag) else none;
            tag_dummy = some 1;
          }
            ∷ [],
      r',
    )

-- The loop that fills the numbers up to the next readout cycle with dummies, `fuel` of them at most.
unfoldable pub insert_dummies : ℕ → ℕ → List Event × Reader → List Event × Reader
insert_dummies zero roc (queue, r) = (queue, r)
insert_dummies (suc fuel) roc (queue, r) =
    let next = add32 r.last_built_event_nr 1 in
    let counted = record r { last_built_event_nr = next } in
    let more = insert_dummies fuel roc (insert_dummy_event next minus_one false (queue, counted)) in
    if slt next roc then more else (queue, counted)

-- Enough: one turn for each number from the next one to `roc`, and the last test.
abbrev pub dummy_fuel : ℕ → Reader → ℕ
dummy_fuel roc r = int_rank roc - int_rank r.last_built_event_nr + 1

abbrev pub halves : ℕ → List ℕ
halves ts = ts % 2 ^ 32 ∷ ts / 2 ^ 32 % 2 ^ 32 ∷ []

abbrev pub last_or_zero : List ℕ → ℕ
last_or_zero [] = 0
last_or_zero (t ∷ []) = t
last_or_zero (t ∷ u ∷ ts) = last_or_zero (u ∷ ts)

-- Start, stop and the last trigger.
unfoldable pub cycledata : LdaTimeData → List ℕ
cycledata d = halves d.ts_start ++ halves d.ts_stop ++ halves (last_or_zero d.ts_triggers)

-- Both times must be there for the event to get a timestamp.
unfoldable pub with_times : LdaTimeData → Event → Event
with_times d ev = record ev {
  tag_roc_start_ts = some d.ts_start;
  times =
      if not (d.ts_start == 0) && not (d.ts_stop == 0) then some (d.ts_start, d.ts_stop) else none;
  cycledata_block = cycledata d;
}

-- `_LDATimestampData.count(roc)`, if the timestamps are not to be ignored.
abbrev pub times_of : Settings → ℕ → Reader → Option LdaTimeData
times_of c roc r =
    if c.ignore_lda_timestamps then none else lookup int_rank roc r.lda_timestamp_data

-- The entry that is used is erased.
unfoldable pub set_times : ℕ → Option LdaTimeData → Event × Reader → Event × Reader
set_times roc none (ev, r) = (ev, r)
set_times roc (some d) (ev, r) =
    (with_times d ev, record r { lda_timestamp_data = erase int_rank roc r.lda_timestamp_data })

unfoldable pub add_times : Settings → ℕ → Event × Reader → Event × Reader
add_times c roc (ev, r) = set_times roc (times_of c roc r) (ev, r)

-- Empty packets are left out.
unfoldable pub add_packets : List Infodata → List Infodata
add_packets [] = []
add_packets ([] ∷ data_left) = add_packets data_left
add_packets ((x ∷ xs) ∷ data_left) = (x ∷ xs) ∷ add_packets data_left

unfoldable pub roc_event : Settings → ℕ → List Infodata → Reader → Event × Reader
roc_event c roc cells r =
    let (ev, r') = prepare_eudaq_raw_packet r in
    add_times c roc (record ev { tag_roc = some roc; packets = add_packets cells }, r')

-- One readout cycle: the dummies before it, and its event.
unfoldable pub build_roc : Settings → ℕ → List Infodata → List Event × Reader → List Event × Reader
build_roc c roc cells (queue, r) =
    let (queue', r') =
      if c.insert_dummy_packets
      then insert_dummies (dummy_fuel roc r) roc (queue, r)
      else (queue, r) in
    let (ev, r'') = roc_event c roc cells r' in (queue' ++ ev ∷ [], r'')

-- The loop over the buffered cycles, while there are more than are kept.
unfoldable pub build_roc_loop :
    Settings → ℕ → IntMap (List Infodata) → List Event × Reader → List Event × Reader
build_roc_loop c kept [] (queue, r) = (queue, record r { lda_asic_data = [] })
build_roc_loop c kept ((roc, cells) ∷ m) (queue, r) =
    let more = build_roc_loop c kept m (build_roc c roc cells (queue, r)) in
    if ltb kept (length ((roc, cells) ∷ m))
    then more
    else (queue, record r { lda_asic_data = (roc, cells) ∷ m })

unfoldable pub build_roc_events : Settings → Bool → List Event → Reader → List Event × Reader
build_roc_events c dump_all queue r =
    build_roc_loop c (if dump_all then 0 else c.keep_buffered) r.lda_asic_data (queue, r)
