-- ===== src/ScReader/Timestamp.antt =====
-- `ScReader::readLDATimestamp`: the start, stop and trigger records of the LDA.
pub mod Balance
pub mod Triggers
pub mod Frame
pub mod Ledger
pub mod Refused
pub mod Acquisition
use eudaq_ahcal.Base.{
  ℕ, ◌+◌, ◌-◌, ◌*◌, ◌%◌, ◌^◌, List, [], ◌∷◌, ◌++◌, Bool, true, false, not, ◌&&◌, ◌||◌, ◌==◌,
  if◌then◌else◌, get_or, drop,
}
use eudaq_ahcal.Base.Words.{add32, sub32, add64, sub64, slt, int_rank, from_int16}
use eudaq_ahcal.Base.IntMap.{adjust}
use eudaq_ahcal.ScReader.State.{
  Settings, LdaTimeData, no_time_data, RunTimeStatistics, Reader, size_lda_header,
}
use eudaq_ahcal.ScReader.Counter.{update_cnt_modulo}

abbrev pub tstype_start_acq : ℕ
tstype_start_acq = 0x01

abbrev pub tstype_stop_acq : ℕ
tstype_stop_acq = 0x02

abbrev pub tstype_trigid_inc : ℕ
tstype_trigid_inc = 0x10

-- The fields of the packet, at their offsets in the buffer.
abbrev pub byte : List ℕ → ℕ → ℕ
byte buf i = get_or buf i 0

abbrev pub ts_type : List ℕ → ℕ
ts_type buf = byte buf 14

unfoldable pub raw_trig_id : List ℕ → ℕ
raw_trig_id buf = byte buf 16 + byte buf 17 * 2 ^ 8

unfoldable pub timestamp : List ℕ → ℕ
timestamp buf =
    byte buf 18
    + byte buf 19 * 2 ^ 8
    + byte buf 20 * 2 ^ 16
    + byte buf 21 * 2 ^ 24
    + byte buf 22 * 2 ^ 32
    + byte buf 23 * 2 ^ 40

-- `buf.erase(buf.begin(), buf.begin() + length + e_sizeLdaHeader)`
abbrev pub erase_packet : Reader → List ℕ → List ℕ
erase_packet r buf = drop (r.length_of_packet + size_lda_header) buf

-- Changes `LDATimestamps[cycle]`, the reference `currentROCData`.
abbrev pub with_roc : ℕ → (LdaTimeData → LdaTimeData) → Reader → Reader
with_roc cycle f r = record r {
  lda_timestamp_data = adjust int_rank cycle no_time_data f r.lda_timestamp_data;
}

unfoldable pub start_statistics : ℕ → RunTimeStatistics → RunTimeStatistics
start_statistics ts s = record s {
  last_ts = ts;
  first_ts = if s.first_ts == 0 then ts else s.first_ts;
  previous_start_ts = ts;
  offtime =
      if s.previous_stop_ts == 0 then s.offtime else add64 s.offtime (sub64 ts s.previous_stop_ts);
  length_processing =
      if s.previous_stop_ts == 0
      then s.length_processing
      else s.length_processing ++ sub64 ts s.previous_stop_ts ∷ [];
  cycle_triggers = 0;
}

unfoldable pub count_acquisition : ℕ → RunTimeStatistics → RunTimeStatistics
count_acquisition on s = record s {
  ontime = add64 s.ontime on;
  length_acquisitions = s.length_acquisitions ++ on ∷ [];
  triggers_in_cycle_histogram =
      adjust int_rank s.cycle_triggers 0 (λ v. add32 v 1) s.triggers_in_cycle_histogram;
  cycles = add64 s.cycles 1;
}

unfoldable pub stop_statistics : ℕ → RunTimeStatistics → RunTimeStatistics
unfolding count_acquisition
stop_statistics ts s =
    let stopped = record s { last_ts = ts; previous_stop_ts = ts } in
    if s.previous_start_ts == 0
    then stopped
    else count_acquisition (sub64 ts s.previous_start_ts) stopped

-- A start inside an acquisition is only warned of: the statistics stay.
unfoldable pub start_acq : ℕ → List ℕ → Reader → Reader × List ℕ
start_acq cycle buf r =
    let s =
      if r.buffer_inside_acquisition
      then r.statistics
      else start_statistics (timestamp buf) r.statistics in
    (
      with_roc cycle (λ d. record d { ts_start = timestamp buf })
          (record r { statistics = s; buffer_inside_acquisition = true }),
      erase_packet r buf,
    )

-- So is a stop outside one.
unfoldable pub stop_acq : ℕ → List ℕ → Reader → Reader × List ℕ
stop_acq cycle buf r =
    let s =
      if r.buffer_inside_acquisition
      then stop_statistics (timestamp buf) r.statistics
      else r.statistics in
    (
      with_roc cycle (λ d. record d { ts_stop = timestamp buf })
          (record r { statistics = s; buffer_inside_acquisition = false }),
      erase_packet r buf,
    )

-- The `int16_t` distance of the received ID from the last one.
unfoldable pub trig_id_difference : List ℕ → ℕ → ℕ
trig_id_difference buf trig_id = from_int16 ((raw_trig_id buf + 2 ^ 16 - trig_id % 2 ^ 16) % 2 ^ 16)

-- The first trigger of a run sets the counter.
unfoldable pub learn_trig_id : List ℕ → Reader → Reader
learn_trig_id buf r =
    if r.trigid_not_known
    then record r { trigid_not_known = false; trig_id = sub32 (raw_trig_id buf) 1 }
    else r

unfoldable pub skip_triggers : ℕ → Reader → Reader
skip_triggers difference r = record r {
  trig_id = add32 r.trig_id difference;
  statistics = record s { triggers_lost = add32 s.triggers_lost (sub32 difference 1) };
}
  where
    open r use {statistics as s}

unfoldable pub record_trigger : ℕ → List ℕ → Reader → Reader
record_trigger cycle buf r =
    with_roc cycle
      (λ d. record d {
        trigger_ids = d.trigger_ids ++ r.trig_id ∷ [];
        ts_triggers = d.ts_triggers ++ timestamp buf ∷ [];
      })
      (record r {
        statistics =
            if r.buffer_inside_acquisition
            then record s {
              triggers_inside_roc = add32 s.triggers_inside_roc 1;
              cycle_triggers = add32 s.cycle_triggers 1;
            }
            else s;
      })
  where
    open r use {statistics as s}

unfoldable pub trigid_inc_known : Settings → ℕ → List ℕ → Reader → Reader × List ℕ
trigid_inc_known c cycle buf r =
    let difference = trig_id_difference buf r.trig_id in
    if difference == 1
    then (record_trigger cycle buf (record r { trig_id = add32 r.trig_id 1 }), erase_packet r buf)
    else if slt 1 difference && slt difference c.max_trigid_skip
    then (record_trigger cycle buf (skip_triggers difference r), erase_packet r buf)
    else (r, erase_packet r buf)

unfoldable pub trigid_inc : Settings → ℕ → List ℕ → Reader → Reader × List ℕ
trigid_inc c cycle buf r = trigid_inc_known c cycle buf (learn_trig_id buf r)

-- The readout cycle of the timestamps moves unless the jump is too large.
unfoldable pub advance_cycle_ts : Settings → ℕ → Reader → Reader
advance_cycle_ts c cycle r =
    let difference = sub32 cycle r.cycle_no_ts in
    if slt c.max_roc_jump difference || slt difference (sub32 0 c.max_roc_jump)
    then r
    else record r { cycle_no_ts = cycle }

unfoldable pub count_outside : List ℕ → Reader → Reader
count_outside buf r =
    if not r.buffer_inside_acquisition && ts_type buf == tstype_trigid_inc
    then record r {
      statistics = record s { triggers_outside_roc = add32 s.triggers_outside_roc 1 };
    }
    else r
  where
    open r use {statistics as s}

unfoldable pub handle_type : Settings → ℕ → List ℕ → Reader → Reader × List ℕ
handle_type c cycle buf r =
    if ts_type buf == tstype_start_acq
    then start_acq cycle buf r
    else if ts_type buf == tstype_stop_acq
    then stop_acq cycle buf r
    else if ts_type buf == tstype_trigid_inc
    then trigid_inc c cycle buf r
    else (r, erase_packet r buf)

unfoldable pub lda_cycle : List ℕ → Reader → ℕ
lda_cycle buf r = update_cnt_modulo r.cycle_no_ts (byte buf 4) 8 127

unfoldable pub is_acq_type : ℕ → Bool
is_acq_type t = t == tstype_start_acq || t == tstype_stop_acq || t == tstype_trigid_inc

unfoldable pub read_lda_timestamp : Settings → List ℕ → Reader → Reader × List ℕ
read_lda_timestamp c buf r =
    let cycle = lda_cycle buf r in
    let counted = count_outside buf r in
    if is_acq_type (ts_type buf)
    then handle_type c cycle buf (with_roc cycle (λ d. d) (advance_cycle_ts c cycle counted))
    else (counted, erase_packet counted buf)

-- The records of a run, one after the other; each in its own buffer.
unfoldable pub read_timestamps : Settings → List (List ℕ) → Reader → Reader
read_timestamps c [] r = r
read_timestamps c (buf ∷ bufs) r = read_timestamps c bufs (read_lda_timestamp c buf r).0
