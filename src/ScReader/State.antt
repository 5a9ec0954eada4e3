-- ===== src/ScReader/State.antt =====
-- The state of class ScReader and the settings of AHCALProducer that it asks for
-- (user/calice/AHCAL/module/include/ScReader.hh and AHCALProducer.hh).
use eudaq_ahcal.Base.{ℕ, List, [], Bool}
use eudaq_ahcal.Base.IntMap.{IntMap}

pub data EventBuildingMode : Type 0 where
  roc triggerid build_bxid_all build_bxid_validated : EventBuildingMode

pub data EventNumbering : Type 0 where
  by_triggerid by_timestamp : EventNumbering

-- An `int` that the code uses only as a truth value is a Bool.
pub record Settings : Type 0 where
  pub event_mode : EventBuildingMode
  pub event_numbering_preference : EventNumbering
  pub lda_trigid_offset : ℕ
  pub lda_trigid_starts_from : ℕ
  pub ahcalbxid0_offset : ℕ
  pub ahcalbxid_width : ℕ
  pub insert_dummy_packets : Bool
  pub debug_keep_buffered : Bool
  pub keep_buffered : ℕ
  pub generate_trigger_id_from : ℕ
  pub ignore_lda_timestamps : Bool
  pub max_trigid_skip : ℕ
  pub max_roc_jump : ℕ
  pub append_difid_to_chipid_bit_position : ℕ
  pub chipid_add_after_masking : ℕ
  pub chipid_add_before_masking : ℕ
  pub chipid_keep_bits : ℕ
  pub minimum_bxid : ℕ
  pub min_event_hits : ℕ

-- A trigger stands in two vectors of equal length: its ID and its timestamp.
pub record LdaTimeData : Type 0 where
  pub ts_start : ℕ
  pub ts_stop : ℕ
  pub trigger_ids : List ℕ
  pub ts_triggers : List ℕ

abbrev pub no_time_data : LdaTimeData
no_time_data = record { ts_start = 0; ts_stop = 0; trigger_ids = []; ts_triggers = [] }

pub record RunTimeStatistics : Type 0 where
  pub first_ts : ℕ
  pub last_ts : ℕ
  pub previous_start_ts : ℕ
  pub previous_stop_ts : ℕ
  pub ontime : ℕ
  pub offtime : ℕ
  pub cycles : ℕ
  pub cycle_triggers : ℕ
  pub triggers_inside_roc : ℕ
  pub triggers_outside_roc : ℕ
  pub triggers_lost : ℕ
  pub triggers_empty : ℕ
  pub built_bxids : ℕ
  pub length_acquisitions : List ℕ
  pub length_processing : List ℕ
  pub triggers_in_cycle_histogram : IntMap ℕ
  pub trigger_multiplicity_in_bxid : IntMap ℕ

pub data UnfinishedPacketStates : Type 0 where
  done temperature slowcontrol : UnfinishedPacketStates

-- One ASIC packet is the `vector<int>` that the source calls infodata.
abbrev pub Infodata : Type 0
Infodata = List ℕ

pub record Reader : Type 0 where
  pub unfinished_packet_state : UnfinishedPacketStates
  pub run_no : ℕ
  pub cycle_no : ℕ
  pub cycle_no_ts : ℕ
  pub trig_id : ℕ
  pub trigid_not_known : Bool
  pub length_of_packet : ℕ
  pub buffer_inside_acquisition : Bool
  pub vec_temp : List (ℕ × ℕ × ℕ)
  pub slowcontrol_data : List ℕ
  pub led_info : List ℕ
  pub hv_adj_info : List ℕ
  pub last_built_event_nr : ℕ
  pub lda_timestamp_data : IntMap LdaTimeData
  pub lda_asic_data : IntMap (List Infodata)
  pub min_last_bxid_detector : IntMap ℕ
  pub min_last_bxid_asic : IntMap (IntMap ℕ)
  pub timestamp_tb_campaign : ℕ
  pub statistics : RunTimeStatistics

abbrev pub size_lda_header : ℕ
size_lda_header = 10
