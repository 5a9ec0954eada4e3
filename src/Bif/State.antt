-- ===== src/Bif/State.antt =====
-- The state of class caliceahcalbifProducer. What the class only prints is left out.
use eudaq_ahcal.Base.{ℕ, ◌*◌, ◌%◌, ◌^◌, List, Bool, Option}

pub data EventBuildingMode : Type 0 where
  roc triggers bxid : EventBuildingMode

pub data EventNumbering : Type 0 where
  triggernumber timestamp : EventNumbering

pub record Settings : Type 0 where
  pub event_building_mode : EventBuildingMode
  pub event_numbering_preference : EventNumbering
  pub count_roc_from : ℕ
  pub consecutive_trigger_ignore_period : ℕ
  pub first_bxid_offset_bins : ℕ
  pub bxid_length_bins : ℕ
  pub timestamp_tb_campaign : ℕ
  pub write_raw : Bool

-- What the code sets on a `eudaq::Event`. The blocks 0 to 5 are constant texts, the clock and empty;
-- `block` is block 6. A tag that is not set is `none`.
pub record Event : Type 0 where
  pub flag_timestamp : Bool
  pub flag_trigger : Bool
  pub timestamp_begin : ℕ
  pub timestamp_end : ℕ
  pub trigger_n : ℕ
  pub tag_roc : ℕ
  pub tag_roc_start_ts : ℕ
  pub tag_roc_stop_ts : Option ℕ
  pub tag_bxid : Option ℕ
  pub tag_tb_timestamp : Option ℕ
  pub block : List ℕ
  pub bore : Bool
  pub eore : Bool
  pub tag_first_roc_start_ts : Option ℕ
  pub tag_run_first_roc : Option ℕ
  pub tag_run_first_trigger_number : Option ℕ

pub record Stats : Type 0 where
  pub run_start_ts : ℕ
  pub run_stop_ts : ℕ
  pub on_time : ℕ
  pub triggers : ℕ

-- `raw_file` is what stands in the file of raw words.
pub record Producer : Type 0 where
  pub bore_sent : Bool
  pub word1_written_previously : Bool
  pub readout_cycle : ℕ
  pub last_trigger_time : ℕ
  pub acq_start_ts : ℕ
  pub acq_stop_ts : ℕ
  pub acq_start_cycle : ℕ
  pub trigger_id : ℕ
  pub cycle_data : List ℕ
  pub roc_started : Bool
  pub triggers_in_cycle : ℕ
  pub first_stutter_cycle : ℕ
  pub first_trigger : Bool
  pub first_trigger_number : ℕ
  pub stats : Stats
  pub raw_file : List ℕ
  pub deq_event : List Event

-- `x << 5` on `uint64_t`.
abbrev pub shift5 : ℕ → ℕ
shift5 x = x * 2 ^ 5 % 2 ^ 64
