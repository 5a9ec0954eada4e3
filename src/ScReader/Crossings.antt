-- ===== src/ScReader/Crossings.antt =====
-- What the two builders by bunch crossing share (`buildBXIDEvents` and `buildValidatedBXIDEvents`).
use eudaq_ahcal.Base.{
  ℕ, ◌/◌, ◌%◌, ◌^◌, List, [], ◌∷◌, ◌++◌, Bool, false, not, ◌&&◌, Option, none, some, ◌==◌,
  if◌then◌else◌, get_or,
}
use eudaq_ahcal.Base.Words.{add32, mul32, add64, sub64, mul64, from_int, minus_one, slt, int_rank}
use eudaq_ahcal.Base.IntMap.{IntMap, lookup, adjust}
use eudaq_ahcal.ScReader.State.{Settings, Infodata, Reader}
use eudaq_ahcal.ScReader.Build.{Event}

-- The packets of one readout cycle by their BXID, the second word of a packet.
abbrev pub Crossings : Type 0
Crossings = IntMap (List Infodata)

abbrev pub bxid_of : Infodata → ℕ
bxid_of dit = get_or dit 1 0

unfoldable pub add_crossing : Infodata → Crossings → Crossings
add_crossing dit bxids = adjust int_rank (bxid_of dit) [] (λ same. same ++ dit ∷ []) bxids

-- `minLastBxid_Detector.count(roc)` and a comparison with the entry.
abbrev pub after_full : Option ℕ → ℕ → Bool
after_full none bxid = false
after_full (some last) bxid = slt last bxid

abbrev pub behind_full_cell : Reader → ℕ → ℕ → Bool
behind_full_cell r roc bxid = after_full (lookup int_rank roc r.min_last_bxid_detector) bxid

-- Begin and end of a crossing, one tick wider on each side; the product is that of two `int`s.
unfoldable pub crossing_times : Settings → ℕ → ℕ → ℕ × ℕ
crossing_times c start_ts bxid =
    (sub64 (crossing_start bxid) 1, add64 (crossing_start (add32 bxid 1)) 1)
  where
    crossing_start : ℕ → ℕ
    crossing_start b =
        add64 (add64 start_ts (from_int c.ahcalbxid0_offset)) (from_int (mul32 b c.ahcalbxid_width))

-- Only with a start timestamp, and unless timestamps are to be ignored.
unfoldable pub set_crossing_times : Settings → ℕ → ℕ → Event → Event
set_crossing_times c start_ts bxid ev = record ev {
  times =
      if not (start_ts == 0) && not c.ignore_lda_timestamps
      then some (crossing_times c start_ts bxid)
      else ev.times;
}

-- `LDATS_Low` and `LDATS_High`: the time in nanoseconds.
unfoldable pub ldats : ℕ → ℕ × ℕ
ldats ts = let ns = mul64 ts 25 in (ns % 2 ^ 32, ns / 2 ^ 32)

-- The ASIC with the lowest BXID in its last memory cell; the BXIDs are below 65535.
abbrev pub lowest_full : ℕ → ℕ × ℕ → IntMap ℕ → ℕ × ℕ
lowest_full tmp tmp_pair [] = tmp_pair
lowest_full tmp tmp_pair ((asic, bxid) ∷ m) =
    lowest_full (if slt bxid tmp then bxid else tmp)
      (if slt bxid tmp then (asic, bxid) else tmp_pair) m

abbrev pub stopping_of : Option (IntMap ℕ) → ℕ × ℕ
stopping_of none = (minus_one, minus_one)
stopping_of (some m) = lowest_full 65535 (0, 0) m

unfoldable pub stopping_bxid_data : Reader → ℕ → List (ℕ × ℕ)
stopping_bxid_data r roc = stopping_of (lookup int_rank roc r.min_last_bxid_asic) ∷ []
