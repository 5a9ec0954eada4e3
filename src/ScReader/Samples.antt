-- ===== src/ScReader/Samples.antt =====
-- Settings and a reader's state for the tests.
use eudaq_ahcal.Base.{[], false}
use eudaq_ahcal.Base.Words.{minus_one}
use eudaq_ahcal.ScReader.State.{
  Settings, build_bxid_validated, by_timestamp, RunTimeStatistics, done, Reader,
}

abbrev pub settings : Settings
settings = record {
  event_mode = build_bxid_validated;
  event_numbering_preference = by_timestamp;
  lda_trigid_offset = 0;
  lda_trigid_starts_from = 0;
  ahcalbxid0_offset = 2115;
  ahcalbxid_width = 160;
  insert_dummy_packets = false;
  debug_keep_buffered = false;
  keep_buffered = 5;
  generate_trigger_id_from = 0;
  ignore_lda_timestamps = false;
  max_trigid_skip = 10;
  max_roc_jump = 20;
  append_difid_to_chipid_bit_position = minus_one;
  chipid_add_after_masking = 0;
  chipid_add_before_masking = 0;
  chipid_keep_bits = 8;
  minimum_bxid = 1;
  min_event_hits = 0;
}

abbrev pub no_statistics : RunTimeStatistics
no_statistics = record {
  first_ts = 0;
  last_ts = 0;
  previous_start_ts = 0;
  previous_stop_ts = 0;
  ontime = 0;
  offtime = 0;
  cycles = 0;
  cycle_triggers = 0;
  triggers_inside_roc = 0;
  triggers_outside_roc = 0;
  triggers_lost = 0;
  triggers_empty = 0;
  built_bxids = 0;
  length_acquisitions = [];
  length_processing = [];
  triggers_in_cycle_histogram = [];
  trigger_multiplicity_in_bxid = [];
}

-- In readout cycle 4, with trigger 7 as the last one; packets of 14 bytes behind the header.
abbrev pub reader : Reader
reader = record {
  unfinished_packet_state = done;
  run_no = 1;
  cycle_no = 4;
  cycle_no_ts = 4;
  trig_id = 7;
  trigid_not_known = false;
  length_of_packet = 16;
  buffer_inside_acquisition = false;
  vec_temp = [];
  slowcontrol_data = [];
  led_info = [];
  hv_adj_info = [];
  last_built_event_nr = minus_one;
  lda_timestamp_data = [];
  lda_asic_data = [];
  min_last_bxid_detector = [];
  min_last_bxid_asic = [];
  timestamp_tb_campaign = 0;
  statistics = no_statistics;
}
