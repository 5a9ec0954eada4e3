-- ===== src/ScReader/Tests.antt =====
-- Runs of the reader on small packets, and its theorems at such inputs.
use eudaq_ahcal.Base.{ℕ, ◌%◌, ◌^◌, List, [], ◌∷◌, ◌≡◌, refl, arith, false, some}
use eudaq_ahcal.Base.Words.{sub32, int_rank}
use eudaq_ahcal.Base.IntMap.{adjust, lookup}
use eudaq_ahcal.ScReader.State.{no_time_data}
use eudaq_ahcal.ScReader.Samples.{settings, reader}
use eudaq_ahcal.ScReader.Counter.{
  update_cnt_modulo, update_cnt_modulo_recovers, gray_recode, half_decoded,
  gray_recode-half_decoded,
}
use eudaq_ahcal.ScReader.Statistics.Balance.{IsBalanced}
use eudaq_ahcal.ScReader.Timestamp.{
  raw_trig_id, timestamp, trig_id_difference, read_lda_timestamp, read_timestamps, lda_cycle,
  learn_trig_id, trigid_inc, trigid_inc_known, record_trigger, skip_triggers, handle_type,
  start_acq, stop_acq, start_statistics, stop_statistics, count_acquisition, advance_cycle_ts,
  count_outside, is_acq_type,
}
use eudaq_ahcal.ScReader.Timestamp.Triggers.{AllPaired, Accounted}
use eudaq_ahcal.ScReader.Timestamp.Ledger.{ledger, read_timestamps-ledger}
use eudaq_ahcal.ScReader.Timestamp.Refused.{read_timestamps-recovers}
use eudaq_ahcal.ScReader.Timestamp.Frame.{Within, read_lda_timestamp-Within}
use eudaq_ahcal.ScReader.Timestamp.Acquisition.{entry, start_stop}
use eudaq_ahcal.ScReader.Start.{on_start, read_timestamps-on_start}

-- A record of type `t` in the cycle that ends in `cycle`, for trigger `id`, at time `at`.
abbrev packet : ℕ → ℕ → ℕ → ℕ → List ℕ
packet t cycle id at =
    0xcd ∷ 0xcd ∷ 16 ∷ 0 ∷ cycle ∷ 0 ∷ 0 ∷ 0 ∷ 0 ∷ 8 ∷ 0x45 ∷ 0x4d ∷ 0x49 ∷ 0x54 ∷ t ∷ 0 ∷ id ∷ 0
    ∷ at ∷ 0 ∷ 0 ∷ 0 ∷ 0 ∷ 0 ∷ 0xab ∷ 0xab ∷ []

-- The IDs 8 and 10 are recorded, 9 is counted as lost, and 80 is refused.
run_of_triggers :
    let r' =
      read_timestamps settings
        (packet 1 5 0 100
          ∷ packet 16 5 8 120
          ∷ packet 16 5 10 130
          ∷ packet 16 5 80 140
          ∷ packet 2 5 0 200
          ∷ [])
        reader in
    (lookup int_rank 5 r'.lda_timestamp_data
      ≡ some (record {
        ts_start = 100;
        ts_stop = 200;
        trigger_ids = 8 ∷ 10 ∷ [];
        ts_triggers = 120 ∷ 130 ∷ [];
      }))
    × (r'.trig_id ≡ 10)
    × (r'.statistics.triggers_lost ≡ 1)
    × (r'.statistics.ontime ≡ 100)
    × (r'.statistics.triggers_in_cycle_histogram ≡ (2, 1) ∷ [])
unfolding read_timestamps read_lda_timestamp raw_trig_id timestamp trig_id_difference lda_cycle
    learn_trig_id trigid_inc trigid_inc_known record_trigger skip_triggers handle_type start_acq
    stop_acq start_statistics stop_statistics count_acquisition advance_cycle_ts count_outside
    is_acq_type update_cnt_modulo lookup adjust
run_of_triggers = (refl, refl, refl, refl, refl)

update_cnt_modulo_recovers_example : update_cnt_modulo 250 (260 % 2 ^ 8) 8 20 ≡ 260
update_cnt_modulo_recovers_example =
    update_cnt_modulo_recovers 250 260 20 (omega arith) (omega arith) (omega arith)

gray_recode-half_decoded_example : gray_recode (half_decoded 5000) ≡ 5000
gray_recode-half_decoded_example = gray_recode-half_decoded 5000 (omega arith)

-- The IDs 80 and 3 do not fit 7, nor does a start; 9 does, and 8 is lost.
read_timestamps-recovers_example : Accounted (packet 16 5 9 160) reader (
    read_timestamps settings
      (packet 16 5 80 140 ∷ packet 1 5 0 145 ∷ packet 16 5 3 150 ∷ packet 16 5 9 160 ∷ [])
      reader)
unfolding trig_id_difference raw_trig_id
read_timestamps-recovers_example =
    read_timestamps-recovers settings
      (packet 16 5 80 140 ∷ packet 1 5 0 145 ∷ packet 16 5 3 150 ∷ []) (packet 16 5 9 160) reader
      (omega arith) refl (omega arith) (refl, (refl, (refl, tt))) refl

read_timestamps-ledger_example :
    ledger (read_timestamps settings (packet 16 5 8 120 ∷ packet 16 5 10 130 ∷ []) reader) ≡ 7
read_timestamps-ledger_example =
    read_timestamps-ledger settings (packet 16 5 8 120 ∷ packet 16 5 10 130 ∷ []) reader
      (omega arith) refl (omega arith)

read_lda_timestamp-Within_example :
    Within 20 (sub32 (read_lda_timestamp settings (packet 1 90 0 100) reader).0.cycle_no_ts 4)
read_lda_timestamp-Within_example =
    read_lda_timestamp-Within settings (packet 1 90 0 100) reader (omega arith)

start_stop_example :
    let r' =
      (read_lda_timestamp settings
        (packet 2 5 0 200)
        (read_lda_timestamp settings (packet 1 5 0 100) reader).0).0 in
    (entry 5 r' ≡ record no_time_data { ts_start = 100; ts_stop = 200 })
    × (r'.buffer_inside_acquisition ≡ false)
    × (r'.statistics.ontime ≡ 100)
    × (r'.statistics.cycles ≡ 1)
unfolding timestamp lda_cycle update_cnt_modulo lookup
start_stop_example =
    start_stop settings (packet 1 5 0 100) (packet 2 5 0 200) reader refl refl refl refl
      (omega arith)

read_timestamps-on_start_example :
    let r' = read_timestamps settings (packet 1 0 0 100 ∷ []) (on_start settings 2 reader) in
    IsBalanced r'.statistics × AllPaired r'
read_timestamps-on_start_example =
    read_timestamps-on_start settings 2 (packet 1 0 0 100 ∷ []) reader
