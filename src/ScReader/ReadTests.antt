-- ===== src/ScReader/ReadTests.antt =====
-- `Read` on small buffers.
use eudaq_ahcal.Base.{ℕ, List, [], ◌∷◌, ◌≡◌, refl, arith, Bool, true, false, Option, some, none}
use eudaq_ahcal.Base.IntMap.{adjust}
use eudaq_ahcal.ScReader.Samples.{settings, reader}
use eudaq_ahcal.ScReader.Counter.{update_cnt_modulo}
use eudaq_ahcal.ScReader.Timestamp.{
  timestamp, start_statistics, start_acq, advance_cycle_ts, count_outside, handle_type, lda_cycle,
  is_acq_type, read_lda_timestamp,
}
use eudaq_ahcal.ScReader.Read.{
  slowcontrol_loop, read_slowcontrol, throw_away, read_info, dispatch, read_packet, read_turn,
  read_loop, read, Outcome,
}
use eudaq_ahcal.ScReader.Read.Ends.{Returns, read-Returns}
use eudaq_ahcal.ScReader.Read.Keeps.{Ends, read-Ends}

-- A stray byte, a start record, and the first bytes of another packet.
abbrev bytes : List ℕ
bytes =
    7 ∷ 0xcd ∷ 0xcd ∷ 16 ∷ 0 ∷ 5 ∷ 0 ∷ 0 ∷ 0 ∷ 0 ∷ 8 ∷ 0x45 ∷ 0x4d ∷ 0x49 ∷ 0x54 ∷ 1 ∷ 0 ∷ 0 ∷ 0
    ∷ 100 ∷ 0 ∷ 0 ∷ 0 ∷ 0 ∷ 0 ∷ 0xab ∷ 0xab ∷ 0xcd ∷ 0xcd ∷ 16 ∷ []

abbrev left_of : Option Outcome → List ℕ
left_of none = []
left_of (some (e, r, buf)) = buf

abbrev slowcontrol_data_of : Option Outcome → List ℕ
slowcontrol_data_of none = []
slowcontrol_data_of (some (e, r, buf)) = r.slowcontrol_data

abbrev started : Option Outcome → Bool
started none = false
started (some (e, r, buf)) = r.buffer_inside_acquisition

reads_a_start :
    (left_of (read settings bytes reader) ≡ 0xcd ∷ 0xcd ∷ 16 ∷ [])
    × (started (read settings bytes reader) ≡ true)
unfolding read read_loop read_turn read_info read_packet dispatch throw_away read_lda_timestamp
    handle_type start_acq start_statistics timestamp advance_cycle_ts count_outside lda_cycle
    is_acq_type update_cnt_modulo adjust
reads_a_start = (refl, refl)

-- Eight bytes of slow control that do not end in a magic word.
abbrev settings_bytes : List ℕ
settings_bytes = 0xac ∷ 0xdc ∷ 1 ∷ 2 ∷ 3 ∷ 4 ∷ 5 ∷ 6 ∷ []

-- They are stored but for the last one, and all of them stay in the buffer, where the next call reads
-- them again, the two magic bytes included.
stores_twice :
    (slowcontrol_data_of (read settings settings_bytes reader) ≡ 1 ∷ 2 ∷ 3 ∷ 4 ∷ 5 ∷ [])
    × (left_of (read settings settings_bytes reader) ≡ settings_bytes)
unfolding read read_loop read_turn read_info read_slowcontrol slowcontrol_loop
stores_twice = (refl, refl)

-- A packet whose payload is one byte is not read from twelve bytes: the type of a packet ends at the
-- fourteenth one.
abbrev short_payload : List ℕ
short_payload = 0xcd ∷ 0xcd ∷ 1 ∷ 0 ∷ 5 ∷ 0 ∷ 0 ∷ 0 ∷ 0 ∷ 8 ∷ 7 ∷ 9 ∷ []

waits_for_type : left_of (read settings short_payload reader) ≡ short_payload
unfolding read read_loop read_turn read_info read_packet
waits_for_type = refl

read-Returns_example : Returns (read settings bytes reader)
read-Returns_example = read-Returns settings bytes reader

read-Ends_example : Ends (read settings bytes reader)
read-Ends_example = read-Ends settings bytes reader (record { balanced = omega arith; paired = tt })
