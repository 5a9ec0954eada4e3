-- ===== src/ScReader/Start.antt =====
-- `ScReader::OnStart`: the state in which a run begins, and what holds from there on. The start
-- command that is sent to the hardware is not modelled.
use eudaq_ahcal.Base.{ℕ, List, [], ◌∷◌, true, false}
use eudaq_ahcal.Base.Words.{sub32, minus_one}
use eudaq_ahcal.ScReader.State.{
  Settings, EventBuildingMode, build_bxid_validated, triggerid, Reader, done,
}
use eudaq_ahcal.ScReader.Statistics.{clear}
use eudaq_ahcal.ScReader.Statistics.Balance.{IsBalanced, clear-IsBalanced}
use eudaq_ahcal.ScReader.Timestamp.{read_lda_timestamp, read_timestamps}
use eudaq_ahcal.ScReader.Timestamp.Balance.{read_lda_timestamp-IsBalanced}
use eudaq_ahcal.ScReader.Timestamp.Triggers.{AllPaired}
use eudaq_ahcal.ScReader.Timestamp.Frame.{read_lda_timestamp-AllPaired}

first_built : Settings → EventBuildingMode → ℕ
first_built c build_bxid_validated = sub32 c.generate_trigger_id_from 1
first_built c triggerid = sub32 c.generate_trigger_id_from 1
first_built c _ = minus_one

unfoldable pub on_start : Settings → ℕ → Reader → Reader
unfolding first_built
on_start c run_no r = record r {
  run_no = run_no;
  cycle_no = minus_one;
  cycle_no_ts = minus_one;
  trig_id = sub32 c.lda_trigid_starts_from 1;
  trigid_not_known = true;
  lda_asic_data = [];
  lda_timestamp_data = [];
  statistics = clear r.statistics;
  min_last_bxid_detector = [];
  min_last_bxid_asic = [];
  slowcontrol_data = [];
  led_info = [];
  unfinished_packet_state = done;
  last_built_event_nr = first_built c c.event_mode;
  buffer_inside_acquisition = false;
}

read_timestamps_keeps :
    (c : Settings) (bufs : List (List ℕ)) (r : Reader)
    → IsBalanced r.statistics
    → AllPaired r
    → IsBalanced (read_timestamps c bufs r).statistics × AllPaired (read_timestamps c bufs r)
unfolding read_timestamps
read_timestamps_keeps c [] r b p = (b, p)
read_timestamps_keeps c (buf ∷ bufs) r b p =
    read_timestamps_keeps c bufs (read_lda_timestamp c buf r).0
      (read_lda_timestamp-IsBalanced c buf r b) (read_lda_timestamp-AllPaired c buf r p)

-- After the start of a run and any timestamp records, the accumulated times are the sums of the
-- recorded ones, and every trigger of every readout cycle has an ID and a timestamp.
pub read_timestamps-on_start :
    (c : Settings) (run_no : ℕ) (bufs : List (List ℕ)) (r : Reader)
    → let r' = read_timestamps c bufs (on_start c run_no r) in
      IsBalanced r'.statistics × AllPaired r'
unfolding on_start
read_timestamps-on_start c run_no bufs r =
    read_timestamps_keeps c bufs (on_start c run_no r) (clear-IsBalanced r.statistics) tt
