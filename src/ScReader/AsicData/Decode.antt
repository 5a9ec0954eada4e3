-- ===== src/ScReader/AsicData/Decode.antt =====
-- The loop over the memory cells against a description of where each cell stands in the packet.
use mathlib.Core.List.{append_assoc, append-nil}
use eudaq_ahcal.Base.{
  ℕ, ◌+◌, ◌*◌, List, [], ◌∷◌, ◌++◌, ◌≡◌, refl, sym, arith, true, false, length, All,
}
use eudaq_ahcal.Base.Words.{slt, int_rank}
use eudaq_ahcal.Base.IntMap.{lookup, or_default, lookup-adjust}
use eudaq_ahcal.ScReader.State.{Settings, Infodata, Reader}
use eudaq_ahcal.ScReader.AsicData.{
  words, n_channel, bxid_of, note_last_cell, push_cell, cell_at, infodata, read_cells,
}

-- A memory cell as it is sent: its bunch crossing, and the words in the order of the packet.
pub record Cell : Type 0 where
  pub bxid : ℕ
  pub tdc : List ℕ
  pub adc : List ℕ

-- The cells stand one after the other from `pos` on, the highest first, and their bxids at the end.
abbrev pub Stored : List ℕ → ℕ → ℕ → List Cell → Type 0
Stored buf len pos [] = Unit {0}
Stored buf len pos (cell ∷ cells) =
    (words buf pos n_channel ≡ cell.tdc)
    × (words buf (pos + n_channel * 2) n_channel ≡ cell.adc)
    × (bxid_of buf len (length cells) ≡ cell.bxid)
    × Stored buf len (pos + n_channel * 4) cells

-- What the reader shall make of them.
abbrev pub decoded : ℕ → ℕ → List Cell → List Infodata
decoded cycle chip_id [] = []
decoded cycle chip_id (cell ∷ cells) =
    infodata cycle cell.bxid (length cells) chip_id cell.tdc cell.adc ∷ decoded cycle chip_id cells

-- The ASIC packets of a readout cycle.
abbrev pub cells_of : ℕ → Reader → List Infodata
cells_of k r = or_default [] (lookup int_rank k r.lda_asic_data)

pub note_last_cell_same :
    (m chip bxid : ℕ) (r : Reader)
    → ((note_last_cell m chip bxid r).cycle_no ≡ r.cycle_no)
      × ((note_last_cell m chip bxid r).lda_asic_data ≡ r.lda_asic_data)
unfolding note_last_cell
note_last_cell_same m chip bxid r = ground arith

pub cells_of-push_cell :
    (cell : Infodata) (r : Reader)
    → cells_of r.cycle_no (push_cell cell r) ≡ cells_of r.cycle_no r ++ cell ∷ []
unfolding push_cell
cells_of-push_cell cell r = ground (
  arith,
  lookup-adjust int_rank r.cycle_no r.cycle_no [] (λ cells. cells ++ cell ∷ []) r.lda_asic_data,
)

pub push_cell_cycle : (cell : Infodata) (r : Reader) → (push_cell cell r).cycle_no ≡ r.cycle_no
unfolding push_cell
push_cell_cycle cell r = refl

-- One kept cell, noted and pushed.
step-cells_of :
    (m chip bxid : ℕ) (cell : Infodata) (r : Reader)
    → ((push_cell cell (note_last_cell m chip bxid r)).cycle_no ≡ r.cycle_no)
      × (cells_of r.cycle_no (push_cell cell (note_last_cell m chip bxid r))
          ≡ cells_of r.cycle_no r ++ cell ∷ [])
step-cells_of m chip bxid cell r = ground (
  arith,
  note_last_cell_same m chip bxid r,
  push_cell_cycle cell (note_last_cell m chip bxid r),
  cells_of-push_cell cell (note_last_cell m chip bxid r),
)

abbrev pub KeepsAll : Settings → List Cell → Type 0
KeepsAll c = All (λ (cell : Cell). slt cell.bxid c.minimum_bxid ≡ false)

-- If no bxid is below the minimum, the loop appends each cell, with its own words, to the cycle.
pub read_cells-decoded :
    (c : Settings) (buf : List ℕ) (len chip pos : ℕ) (cells : List Cell) (r : Reader)
    → Stored buf len pos cells
    → KeepsAll c cells
    → cells_of r.cycle_no (read_cells c buf len chip (length cells) pos r)
      ≡ cells_of r.cycle_no r ++ decoded r.cycle_no chip cells
unfolding read_cells cell_at
read_cells-decoded c buf len chip pos [] r st keep = sym (append-nil _)
read_cells-decoded c buf len chip pos (cell ∷ cells) r st keep =
    rw (st.2, keep.0, st.0, st.1)
      (ground (
        arith,
        read_cells-decoded c buf len chip (pos + n_channel * 4) cells r1 st.3 keep.1,
        step-cells_of (length cells) chip cell.bxid info r,
        append_assoc (cells_of r.cycle_no r) (info ∷ []) (decoded r.cycle_no chip cells),
      ))
  where
    info : Infodata
    info = infodata r.cycle_no cell.bxid (length cells) chip cell.tdc cell.adc

    r1 : Reader
    r1 = push_cell info (note_last_cell (length cells) chip cell.bxid r)

-- Of two stored cells of which the first is below the minimum bxid and the second is not, the first is
-- dropped, and the second is appended with the first one's words in place of its own.
pub read_cells_after_skip :
    (c : Settings) (buf : List ℕ) (len chip pos : ℕ) (skipped kept : Cell) (r : Reader)
    → Stored buf len pos (skipped ∷ kept ∷ [])
    → slt skipped.bxid c.minimum_bxid ≡ true
    → slt kept.bxid c.minimum_bxid ≡ false
    → cells_of r.cycle_no (read_cells c buf len chip 2 pos r)
      ≡ cells_of r.cycle_no r ++ infodata r.cycle_no kept.bxid 0 chip skipped.tdc skipped.adc ∷ []
unfolding read_cells cell_at
read_cells_after_skip c buf len chip pos skipped kept r st low fits =
    rw (st.2, low, st.3.2, fits, st.0, st.1)
      (ground (
        arith,
        note_last_cell_same 1 chip skipped.bxid r,
        step-cells_of 0 chip kept.bxid info (note_last_cell 1 chip skipped.bxid r),
      ))
  where
    info : Infodata
    info = infodata r.cycle_no kept.bxid 0 chip skipped.tdc skipped.adc
