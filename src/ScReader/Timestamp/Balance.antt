-- ===== src/ScReader/Timestamp/Balance.antt =====
-- The statistics stay balanced while timestamp records are read.
use eudaq_ahcal.Base.{ℕ, List, [], ◌∷◌, arith, length-append}
use eudaq_ahcal.Base.Words.{sum64-append, sub64}
use eudaq_ahcal.ScReader.State.{Settings, RunTimeStatistics, Reader}
use eudaq_ahcal.ScReader.Statistics.Balance.{IsBalanced, total-adjust}
use eudaq_ahcal.ScReader.Timestamp.{
  start_statistics, count_acquisition, stop_statistics, start_acq, stop_acq, learn_trig_id,
  skip_triggers, record_trigger, trigid_inc_known, trigid_inc, advance_cycle_ts, count_outside,
  handle_type, read_lda_timestamp, timestamp, lda_cycle, with_roc,
}

start_statistics-IsBalanced :
    (ts : ℕ) (s : RunTimeStatistics) → IsBalanced s → IsBalanced (start_statistics ts s)
unfolding start_statistics
start_statistics-IsBalanced ts s v =
    ground (arith, sum64-append s.length_processing (sub64 ts s.previous_stop_ts ∷ []))

count_acquisition-IsBalanced :
    (on : ℕ) (s : RunTimeStatistics) → IsBalanced s → IsBalanced (count_acquisition on s)
unfolding count_acquisition
count_acquisition-IsBalanced on s v = omega (
  arith,
  sum64-append s.length_acquisitions (on ∷ []),
  length-append s.length_acquisitions (on ∷ []),
  total-adjust s.cycle_triggers 1 s.triggers_in_cycle_histogram,
)

stop_statistics-IsBalanced :
    (ts : ℕ) (s : RunTimeStatistics) → IsBalanced s → IsBalanced (stop_statistics ts s)
unfolding stop_statistics
stop_statistics-IsBalanced ts s v = ground (
  arith,
  count_acquisition-IsBalanced (sub64 ts s.previous_start_ts)
      (record s { last_ts = ts; previous_stop_ts = ts }) (omega arith),
)

handle_type-IsBalanced :
    (c : Settings) (cycle : ℕ) (buf : List ℕ) (r : Reader)
    → IsBalanced r.statistics
    → IsBalanced (handle_type c cycle buf r).0.statistics
unfolding handle_type start_acq stop_acq trigid_inc trigid_inc_known learn_trig_id skip_triggers
    record_trigger
handle_type-IsBalanced c cycle buf r v = ground (
  arith,
  start_statistics-IsBalanced (timestamp buf) r.statistics v,
  stop_statistics-IsBalanced (timestamp buf) r.statistics v,
)

count_outside-IsBalanced :
    (buf : List ℕ) (r : Reader)
    → IsBalanced r.statistics
    → IsBalanced (count_outside buf r).statistics
unfolding count_outside
count_outside-IsBalanced buf r v = ground arith

before_type-IsBalanced :
    (c : Settings) (cycle : ℕ) (buf : List ℕ) (r : Reader)
    → IsBalanced r.statistics
    → IsBalanced (advance_cycle_ts c cycle (count_outside buf r)).statistics
unfolding advance_cycle_ts count_outside
before_type-IsBalanced c cycle buf r v = ground arith

-- Reading a timestamp record, of any kind and in any state, keeps the statistics balanced.
pub read_lda_timestamp-IsBalanced :
    (c : Settings) (buf : List ℕ) (r : Reader)
    → IsBalanced r.statistics
    → IsBalanced (read_lda_timestamp c buf r).0.statistics
unfolding read_lda_timestamp
read_lda_timestamp-IsBalanced c buf r v = ground (
  arith,
  before_type-IsBalanced c cycle buf r v,
  count_outside-IsBalanced buf r v,
  handle_type-IsBalanced c cycle buf
      (with_roc cycle (λ d. d) (advance_cycle_ts c cycle (count_outside buf r))),
)
  where
    cycle : ℕ
    cycle = lda_cycle buf r
