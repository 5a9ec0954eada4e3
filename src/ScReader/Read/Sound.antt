-- ===== src/ScReader/Read/Sound.antt =====
-- The fields of a sound state, and that ASIC data leave them alone.
use eudaq_ahcal.Base.{ℕ, zero, suc, ◌+◌, ◌*◌, List, ◌≡◌, refl, ◌∙◌, arith}
use eudaq_ahcal.ScReader.State.{Settings, Reader}
use eudaq_ahcal.ScReader.Statistics.Balance.{IsBalanced}
use eudaq_ahcal.ScReader.Timestamp.Triggers.{AllPaired}
use eudaq_ahcal.ScReader.AsicData.{
  n_channel, read_cells, note_last_cell, push_cell, bxid_of, cell_at, open_cycle, advance_cycle,
  chip_id_of, memory_cells_filled, read_ahcal_data,
}

-- The accumulated times are right, and each trigger has its ID and its time.
pub record IsSound (r : Reader) : Type 0 where
  pub balanced : IsBalanced r.statistics
  pub paired : AllPaired r

-- Neither field that `IsSound` speaks of has changed.
pub record Untouched (r r' : Reader) : Type 0 where
  pub same_statistics : r'.statistics ≡ r.statistics
  pub same_times : r'.lda_timestamp_data ≡ r.lda_timestamp_data

pub Untouched-IsSound : (r r' : Reader) → Untouched r r' → IsSound r → IsSound r'
Untouched-IsSound r r' u s = record {
  balanced = rw u.same_statistics s.balanced;
  paired = rw u.same_times s.paired;
}

step-Untouched :
    (c : Settings) (buf : List ℕ) (len chip m pos : ℕ) (r : Reader)
    → Untouched r (note_last_cell m chip (bxid_of buf len m) r)
      × Untouched r (
          push_cell
            (cell_at buf r.cycle_no (bxid_of buf len m) m chip pos)
            (note_last_cell m chip (bxid_of buf len m) r))
unfolding note_last_cell push_cell
step-Untouched c buf len chip m pos r = ground arith

Untouched-trans : (p q r : Reader) → Untouched p q → Untouched q r → Untouched p r
Untouched-trans p q r a b = record {
  same_statistics = b.same_statistics ∙ a.same_statistics;
  same_times = b.same_times ∙ a.same_times;
}

read_cells-Untouched :
    (c : Settings) (buf : List ℕ) (len chip m pos : ℕ) (r : Reader)
    → Untouched r (read_cells c buf len chip m pos r)
unfolding read_cells
read_cells-Untouched c buf len chip zero pos r = record {
  same_statistics = refl;
  same_times = refl;
}
read_cells-Untouched c buf len chip (suc m) pos r =
    let noted = note_last_cell m chip (bxid_of buf len m) r in
    let pushed = push_cell (cell_at buf r.cycle_no (bxid_of buf len m) m chip pos) noted in
    let s = step-Untouched c buf len chip m pos r in
    ground (
      arith,
      Untouched-trans r noted _ s.0 (read_cells-Untouched c buf len chip m pos noted),
      Untouched-trans r pushed _ s.1
          (read_cells-Untouched c buf len chip m (pos + n_channel * 4) pushed),
    )

opened-Untouched :
    (c : Settings) (buf : List ℕ) (r : Reader) → Untouched r (open_cycle (advance_cycle c buf r))
unfolding open_cycle advance_cycle
opened-Untouched c buf r = ground arith

pub read_ahcal_data-Untouched :
    (c : Settings) (buf : List ℕ) (r : Reader) → Untouched r (read_ahcal_data c buf r).0
unfolding read_ahcal_data
read_ahcal_data-Untouched c buf r =
    let opened = open_cycle (advance_cycle c buf r) in
    let o = opened-Untouched c buf r in
    let len = r.length_of_packet in
    ground (
      arith,
      o,
      Untouched-trans r opened _ o (
          read_cells-Untouched c buf len (chip_id_of c buf len) (memory_cells_filled len) 18
            opened),
    )
