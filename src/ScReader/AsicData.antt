-- ===== src/ScReader/AsicData.antt =====
-- `ScReader::readAHCALData`: decoding of one ASIC packet into its memory cells.
pub mod Decode
pub mod Encoding
pub mod Packet
pub mod Shape
use mathlib.Core.List.{reverse}
use eudaq_ahcal.Base.{
  ℕ, zero, suc, ◌+◌, ◌-◌, ◌*◌, ◌/◌, ◌%◌, ◌^◌, List, [], ◌∷◌, ◌++◌, Bool, true, false, not, ltb,
  ◌==◌, if◌then◌else◌, get_or, drop,
}
use eudaq_ahcal.Base.Words.{add32, sub32, slt, int_rank, from_int8}
use eudaq_ahcal.Base.IntMap.{adjust}
use eudaq_ahcal.ScReader.State.{Settings, Infodata, Reader, size_lda_header}
use eudaq_ahcal.ScReader.Counter.{update_cnt_modulo, gray_recode}

abbrev pub n_channel : ℕ
n_channel = 36

-- Two bytes, the lower one first.
abbrev pub le16 : List ℕ → ℕ → ℕ
le16 buf i = get_or buf i 0 + get_or buf (i + 1) 0 * 2 ^ 8

-- `n` such pairs from `pos` on: the loop over the channels.
unfoldable pub words : List ℕ → ℕ → ℕ → List ℕ
words buf pos zero = []
words buf pos (suc n) = le16 buf pos ∷ words buf (pos + 2) n

-- The channels stand in inverse order.
unfoldable pub infodata : ℕ → ℕ → ℕ → ℕ → List ℕ → List ℕ → Infodata
infodata cycle bxid mem_cell chip_id tdc adc =
    cycle ∷ bxid ∷ mem_cell ∷ chip_id ∷ n_channel ∷ (reverse tdc ++ reverse adc)

-- The readout cycle, unless it would jump forward too far.
unfoldable pub advance_cycle : Settings → List ℕ → Reader → Reader
advance_cycle c buf r =
    let cycle = update_cnt_modulo r.cycle_no (get_or buf 4 0) 8 c.max_roc_jump in
    let difference = from_int8 (sub32 cycle r.cycle_no % 2 ^ 8) in
    if slt c.max_roc_jump difference then r else record r { cycle_no = cycle }

-- `(length - 12) % 146` is not zero; the difference may be negative.
unfoldable pub wrong_length : ℕ → Bool
wrong_length len = if ltb len 12 then true else not ((len - 12) % 146 == 0)

unfoldable pub masked_chip_id : Settings → ℕ → ℕ → ℕ
masked_chip_id c chip_id dif_id =
    let masked =
      add32 (add32 chip_id c.chipid_add_before_masking % 2 ^ c.chipid_keep_bits)
        c.chipid_add_after_masking in
    if slt 0 c.append_difid_to_chipid_bit_position
    then add32 masked (dif_id * 2 ^ c.append_difid_to_chipid_bit_position % 2 ^ 32)
    else masked

-- The chip's number stands before the footer; the number of its interface in the packet's own header.
unfoldable pub chip_id_of : Settings → List ℕ → ℕ → ℕ
chip_id_of c buf len =
    masked_chip_id c (le16 buf (size_lda_header + len - 4)) (get_or buf (size_lda_header + 6) 0)

unfoldable pub bxid_of : List ℕ → ℕ → ℕ → ℕ
bxid_of buf len mem_cell = gray_recode (le16 buf (size_lda_header + len - 6 - mem_cell * 2))

-- Memory cell 15 ends the cycle: the lowest such bxid is kept, for the detector and for the chip. An
-- entry of 0 for the detector counts as not yet set.
unfoldable pub note_last_cell : ℕ → ℕ → ℕ → Reader → Reader
note_last_cell mem_cell chip_id bxid r =
    if mem_cell == 15
    then record r {
      min_last_bxid_detector =
          adjust int_rank r.cycle_no 0
            (λ v. if v == 0 then bxid else if slt bxid v then bxid else v) r.min_last_bxid_detector;
      min_last_bxid_asic =
          adjust int_rank r.cycle_no []
            (adjust int_rank chip_id bxid (λ v. if slt bxid v then bxid else v))
            r.min_last_bxid_asic;
    }
    else r

unfoldable pub push_cell : Infodata → Reader → Reader
push_cell cell r = record r {
  lda_asic_data = adjust int_rank r.cycle_no [] (λ cells. cells ++ cell ∷ []) r.lda_asic_data;
}

-- The cell's TDC words, then its ADC words, from `pos` on.
unfoldable pub cell_at : List ℕ → ℕ → ℕ → ℕ → ℕ → ℕ → Infodata
cell_at buf cycle bxid mem_cell chip_id pos =
    infodata cycle bxid mem_cell chip_id (words buf pos n_channel)
      (words buf (pos + n_channel * 2) n_channel)

-- The loop from the highest memory cell, `n - 1`, to cell 0. A cell below the minimum is skipped,
-- and then `buffer_it` stays where it is.
unfoldable pub read_cells : Settings → List ℕ → ℕ → ℕ → ℕ → ℕ → Reader → Reader
read_cells c buf len chip_id zero pos r = r
read_cells c buf len chip_id (suc mem_cell) pos r =
    let bxid = bxid_of buf len mem_cell in
    let noted = note_last_cell mem_cell chip_id bxid r in
    let skipped = read_cells c buf len chip_id mem_cell pos noted in
    let pushed =
      read_cells c buf len chip_id mem_cell (pos + n_channel * 4)
        (push_cell (cell_at buf r.cycle_no bxid mem_cell chip_id pos) noted) in
    if slt bxid c.minimum_bxid then skipped else pushed

abbrev pub memory_cells_filled : ℕ → ℕ
memory_cells_filled len = (len - 8) / (n_channel * 4 + 2)

-- Makes the entry of the readout cycle.
unfoldable pub open_cycle : Reader → Reader
open_cycle r = record r {
  lda_asic_data = adjust int_rank r.cycle_no [] (λ cells. cells) r.lda_asic_data;
}

unfoldable pub read_ahcal_data : Settings → List ℕ → Reader → Reader × List ℕ
read_ahcal_data c buf r =
    let len = r.length_of_packet in
    let opened = open_cycle (advance_cycle c buf r) in
    let decoded =
      read_cells c buf len (chip_id_of c buf len) (memory_cells_filled len) (size_lda_header + 8)
        opened in
    if wrong_length len
    then (opened, drop (len + size_lda_header) buf)
    else (decoded, drop (len + size_lda_header) buf)
