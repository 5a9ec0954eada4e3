-- ===== src/ScReader/Statistics.antt =====
-- `ScReader::RunTimeStatistics`: clearing, and merging of two runs' statistics.
pub mod Balance
use Prim.Native.Nat.{min, max}
use eudaq_ahcal.Base.{ℕ, zero, suc, ◌+◌, List, [], ◌∷◌, ◌++◌, ◌≡◌}
use eudaq_ahcal.Base.Words.{add32, add64, int_rank}
use eudaq_ahcal.Base.IntMap.{IntMap, adjust}
use eudaq_ahcal.ScReader.State.{RunTimeStatistics}

unfoldable pub clear : RunTimeStatistics → RunTimeStatistics
clear s = record {
  first_ts = 0;
  last_ts = 0;
  previous_start_ts = 0;
  previous_stop_ts = 0;
  ontime = 0;
  offtime = 0;
  cycles = 0;
  cycle_triggers = 0;
  triggers_inside_roc = 0;
  triggers_outside_roc = 0;
  triggers_lost = 0;
  triggers_empty = 0;
  built_bxids = 0;
  length_acquisitions = [];
  length_processing = [];
  triggers_in_cycle_histogram = [];
  trigger_multiplicity_in_bxid = [];
}

-- The loop `for (it : other) histogram[it->first] += it->second`.
unfoldable pub add_histogram : IntMap ℕ → IntMap ℕ → IntMap ℕ
add_histogram h [] = h
add_histogram h ((k, n) ∷ other) = add_histogram (adjust int_rank k 0 (λ v. add32 v n) h) other

unfoldable pub append : RunTimeStatistics → RunTimeStatistics → RunTimeStatistics
append s o = record s {
  last_ts = max s.last_ts o.last_ts;
  first_ts = min s.first_ts o.first_ts;
  ontime = add64 s.ontime o.ontime;
  offtime = add64 s.offtime o.offtime;
  cycles = add64 s.cycles o.cycles;
  triggers_inside_roc = add32 s.triggers_inside_roc o.triggers_inside_roc;
  triggers_outside_roc = add32 s.triggers_outside_roc o.triggers_outside_roc;
  triggers_lost = add32 s.triggers_lost o.triggers_lost;
  triggers_empty = add32 s.triggers_empty o.triggers_empty;
  built_bxids = add32 s.built_bxids o.built_bxids;
  length_acquisitions = s.length_acquisitions ++ o.length_acquisitions;
  length_processing = s.length_processing ++ o.length_processing;
  triggers_in_cycle_histogram =
      add_histogram s.triggers_in_cycle_histogram o.triggers_in_cycle_histogram;
  trigger_multiplicity_in_bxid =
      add_histogram s.trigger_multiplicity_in_bxid o.trigger_multiplicity_in_bxid;
}
