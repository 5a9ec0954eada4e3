-- ===== src/ScReader/Statistics/Balance.antt =====
-- The accumulated times of `RunTimeStatistics` against the recorded acquisitions and pauses.
use eudaq_ahcal.Base.{ℕ, ◌%◌, ◌^◌, ◌<◌, [], ◌∷◌, ◌≡◌, arith, length, length-append}
use eudaq_ahcal.Base.Words.{add32, sum64, sum64-append, int_rank}
use eudaq_ahcal.Base.IntMap.{IntMap, adjust}
use eudaq_ahcal.ScReader.State.{RunTimeStatistics}
use eudaq_ahcal.ScReader.Statistics.{clear, append, add_histogram}

-- The number of entries that a histogram counts.
abbrev pub total : IntMap ℕ → ℕ
total [] = 0
total ((k, n) ∷ h) = add32 n (total h)

-- The sums are those of the lists, and every cycle is in the list and in the histogram.
pub record IsBalanced (s : RunTimeStatistics) : Type 0 where
  pub on : s.ontime ≡ sum64 s.length_acquisitions
  pub off : s.offtime ≡ sum64 s.length_processing
  pub each : s.cycles ≡ length s.length_acquisitions % 2 ^ 64
  pub counted : total s.triggers_in_cycle_histogram ≡ length s.length_acquisitions % 2 ^ 32

pub total-adjust :
    (k n : ℕ) (h : IntMap ℕ) → total (adjust int_rank k 0 (λ v. add32 v n) h) ≡ add32 n (total h)
unfolding adjust
total-adjust k n [] = omega arith
total-adjust k n ((j, v) ∷ h) = ground (arith, total-adjust k n h)

total-add_histogram :
    (h o : IntMap ℕ) → total h < 2 ^ 32 → total (add_histogram h o) ≡ add32 (total h) (total o)
unfolding add_histogram
total-add_histogram h [] l = omega arith
total-add_histogram h ((k, n) ∷ o) l =
    omega
      (arith, total-add_histogram (adjust int_rank k 0 (λ v. add32 v n) h) o, total-adjust k n h)

-- Clearing gives balanced statistics.
pub clear-IsBalanced : (s : RunTimeStatistics) → IsBalanced (clear s)
unfolding clear
clear-IsBalanced s = omega arith

-- Merging two balanced statistics gives balanced ones: the accumulated times stay the sums of the
-- recorded lengths, and the histogram of triggers stays the count of the acquisitions.
pub append-IsBalanced :
    (s o : RunTimeStatistics) → IsBalanced s → IsBalanced o → IsBalanced (append s o)
unfolding append
append-IsBalanced s o v w = record {
  on = omega (arith, v.on, w.on, sum64-append s.length_acquisitions o.length_acquisitions);
  off = omega (arith, v.off, w.off, sum64-append s.length_processing o.length_processing);
  each = omega (arith, v.each, w.each, length-append s.length_acquisitions o.length_acquisitions);
  counted = omega (
    arith,
    v.counted,
    w.counted,
    total-add_histogram s.triggers_in_cycle_histogram o.triggers_in_cycle_histogram,
    length-append s.length_acquisitions o.length_acquisitions,
  );
}
