-- ===== src/ScReader/Timestamp/Acquisition.antt =====
-- A start record and the stop record of the same readout cycle.
use mathlib.Core.Path.{ap₂}
use eudaq_ahcal.ScReader.Timestamp.Frame.{handle_type_cycle}
use eudaq_ahcal.Base.{ap, ℕ, List, ◌≡◌, ◌≢◌, arith, ◌==◌, true, false, inl, inr, ◌⊎◌, ◌∙◌}
use eudaq_ahcal.Base.Words.{add64, sub64, int_rank}
use eudaq_ahcal.Base.IntMap.{lookup, or_default, lookup-adjust}
use eudaq_ahcal.ScReader.Counter.{update_cnt_modulo}
use eudaq_ahcal.ScReader.State.{Settings, LdaTimeData, no_time_data, Reader}
use eudaq_ahcal.ScReader.Timestamp.{
  ts_type, byte, tstype_start_acq, tstype_stop_acq, start_acq, stop_acq, advance_cycle_ts,
  count_outside, handle_type, with_roc, lda_cycle, is_acq_type, read_lda_timestamp, timestamp,
  start_statistics, stop_statistics,
}

-- The entry of a readout cycle; a cycle that is not in the map has the default one.
abbrev pub entry : ℕ → Reader → LdaTimeData
entry k r = or_default no_time_data (lookup int_rank k r.lda_timestamp_data)

start_lem :
    (c : Settings) (buf : List ℕ) (r : Reader)
    → ts_type buf ≡ tstype_start_acq
    → r.buffer_inside_acquisition ≡ false
    → let r' = (read_lda_timestamp c buf r).0 in
      (entry (lda_cycle buf r) r' ≡ record (entry (lda_cycle buf r) r) { ts_start = timestamp buf })
      × (r'.buffer_inside_acquisition ≡ true)
      × (r'.statistics.previous_start_ts ≡ timestamp buf)
      × (r'.statistics.ontime ≡ r.statistics.ontime)
      × (r'.statistics.cycles ≡ r.statistics.cycles)
unfolding read_lda_timestamp handle_type start_acq advance_cycle_ts count_outside is_acq_type
    start_statistics
start_lem c buf r e out = grind (arith, lookup-adjust)

stop_lem :
    (c : Settings) (buf : List ℕ) (r : Reader)
    → ts_type buf ≡ tstype_stop_acq
    → r.buffer_inside_acquisition ≡ true
    → (r.statistics.previous_start_ts == 0) ≡ false
    → let r' = (read_lda_timestamp c buf r).0 in
      (entry (lda_cycle buf r) r' ≡ record (entry (lda_cycle buf r) r) { ts_stop = timestamp buf })
      × (r'.buffer_inside_acquisition ≡ false)
      × (r'.statistics.ontime
          ≡ add64 r.statistics.ontime (sub64 (timestamp buf) r.statistics.previous_start_ts))
      × (r'.statistics.cycles ≡ add64 r.statistics.cycles 1)
unfolding read_lda_timestamp handle_type stop_acq advance_cycle_ts count_outside is_acq_type
    stop_statistics
stop_lem c buf r e inside nonzero = grind (arith, lookup-adjust)

cycle_cases :
    (c : Settings) (buf : List ℕ) (r : Reader)
    → ((read_lda_timestamp c buf r).0.cycle_no_ts ≡ r.cycle_no_ts)
      ⊎ ((read_lda_timestamp c buf r).0.cycle_no_ts ≡ lda_cycle buf r)
unfolding read_lda_timestamp advance_cycle_ts count_outside
cycle_cases c buf r = ground (
  arith,
  handle_type_cycle c k buf (with_roc k (λ d. d) (advance_cycle_ts c k (count_outside buf r))),
)
  where
    k : ℕ
    k = lda_cycle buf r

update_cnt_modulo_again :
    (old b : ℕ)
    → update_cnt_modulo (update_cnt_modulo old b 8 127) b 8 127 ≡ update_cnt_modulo old b 8 127
unfolding update_cnt_modulo
update_cnt_modulo_again old b = ground arith

-- The stop record, if its header has the same cycle byte, belongs to the same readout cycle.
same_cycle :
    (c : Settings) (buf buf2 : List ℕ) (r : Reader)
    → byte buf2 4 ≡ byte buf 4
    → lda_cycle buf2 (read_lda_timestamp c buf r).0 ≡ lda_cycle buf r
unfolding lda_cycle
same_cycle c buf buf2 r e = elim (cycle_cases c buf r) [
  | inl s ↦ rw (s, e)
  | inr s ↦ rw (s, e, lda_cycle) (update_cnt_modulo_again r.cycle_no_ts (byte buf 4))
]

-- Outside an acquisition, a start record at a time that is not 0 and then a stop record with the same
-- cycle byte: the entry of the start's readout cycle has both times, the reader is outside again, and
-- the time between them is one more cycle of active time.
pub start_stop :
    (c : Settings) (buf buf2 : List ℕ) (r : Reader)
    → ts_type buf ≡ tstype_start_acq
    → ts_type buf2 ≡ tstype_stop_acq
    → byte buf2 4 ≡ byte buf 4
    → r.buffer_inside_acquisition ≡ false
    → timestamp buf ≢ 0
    → let r' = (read_lda_timestamp c buf2 (read_lda_timestamp c buf r).0).0 in
      (entry (lda_cycle buf r) r'
        ≡ record (entry (lda_cycle buf r) r) { ts_start = timestamp buf; ts_stop = timestamp buf2 })
      × (r'.buffer_inside_acquisition ≡ false)
      × (r'.statistics.ontime ≡ add64 r.statistics.ontime (sub64 (timestamp buf2) (timestamp buf)))
      × (r'.statistics.cycles ≡ add64 r.statistics.cycles 1)
start_stop c buf buf2 r e e2 b out nonzero =
    let s = start_lem c buf r e out in
    let t = stop_lem c buf2 (read_lda_timestamp c buf r).0 e2 s.1 (ground arith) in
    let k = same_cycle c buf buf2 r b in
    (
      ground (arith, s.0, rw k at t.0),
      t.1,
      t.2 ∙ ap₂ (λ a b. add64 a (sub64 (timestamp buf2) b)) s.3 s.2,
      t.3 ∙ ap (λ n. add64 n 1) s.4,
    )
