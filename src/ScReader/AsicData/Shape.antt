-- ===== src/ScReader/AsicData/Shape.antt =====
-- What every packet, a damaged one too, leaves behind: the shape of the decoded cells, the entries of
-- the lowest last bxid, and the rest of the buffer.
use mathlib.Core.List.{append_assoc, append-nil, reverse, reverse-cons}
use eudaq_ahcal.Base.{
  ℕ, zero, suc, ◌+◌, ◌*◌, ◌≤◌, ◌<◌, List, [], ◌∷◌, ◌++◌, ◌≡◌, refl, sym, ap, ◌∙◌, arith, true,
  false, length, length-append, All, drop, inl, inr, ◌⊎◌, Bool-cases, get_or,
}
use eudaq_ahcal.Base.Words.{slt, sle, int_rank}
use eudaq_ahcal.Base.IntMap.{lookup, or_default, lookup-adjust}
use eudaq_ahcal.ScReader.State.{Settings, Infodata, Reader, size_lda_header}
use eudaq_ahcal.ScReader.AsicData.{
  words, n_channel, bxid_of, note_last_cell, push_cell, cell_at, infodata, read_cells,
  read_ahcal_data, open_cycle, advance_cycle, chip_id_of, memory_cells_filled, wrong_length,
}
use eudaq_ahcal.ScReader.AsicData.Decode.{
  cells_of, note_last_cell_same, cells_of-push_cell, push_cell_cycle,
}

-- A decoded cell of readout cycle `k`: five numbers and two words for each channel, with the number
-- of its memory cell below `n` and its bxid not below the minimum.
pub record IsCell (c : Settings) (k n : ℕ) (cell : Infodata) : Type 0 where
  pub size : length cell ≡ 5 + 2 * n_channel
  pub cycle : get_or cell 0 0 ≡ k
  pub accepted : slt (get_or cell 1 0) c.minimum_bxid ≡ false
  pub mem_cell : get_or cell 2 0 < n

length-words : (buf : List ℕ) (pos n : ℕ) → length (words buf pos n) ≡ n
unfolding words
length-words buf pos zero = omega arith
length-words buf pos (suc n) = omega (arith, length-words buf (pos + 2) n)

length-reverse : (xs : List ℕ) → length (reverse xs) ≡ length xs
length-reverse [] = refl
length-reverse (x ∷ xs) = omega (
  arith,
  ap (length {A = ℕ}) (reverse-cons x xs),
  length-append (reverse xs) (x ∷ []),
  length-reverse xs,
)

cell_at-IsCell :
    (c : Settings) (buf : List ℕ) (k bxid m chip pos : ℕ)
    → slt bxid c.minimum_bxid ≡ false
    → IsCell c k (suc m) (cell_at buf k bxid m chip pos)
unfolding cell_at infodata
cell_at-IsCell c buf k bxid m chip pos ok = record {
  size = omega (
    arith,
    length-append (reverse tdc) (reverse adc),
    length-reverse tdc,
    length-reverse adc,
    length-words buf pos n_channel,
    length-words buf (pos + n_channel * 2) n_channel,
  );
  cycle = refl;
  accepted = ok;
  mem_cell = omega arith;
}
  where
    tdc : List ℕ
    tdc = words buf pos n_channel

    adc : List ℕ
    adc = words buf (pos + n_channel * 2) n_channel

IsCell-mono :
    (c : Settings) (k m n : ℕ) (cells : List Infodata)
    → m ≤ n
    → All (IsCell c k m) cells
    → All (IsCell c k n) cells
IsCell-mono c k m n [] h all = tt
IsCell-mono c k m n (cell ∷ cells) h all = (
  record {
    size = all.0.size;
    cycle = all.0.cycle;
    accepted = all.0.accepted;
    mem_cell = omega (arith, all.0.mem_cell);
  },
  IsCell-mono c k m n cells h all.1,
)

-- `r'` is in cycle `k`, whose entry is `old` extended by at most `n` good cells.
pub record Extends (c : Settings) (n k : ℕ) (old : List Infodata) (r' : Reader) : Type 0 where
  pub same_cycle : r'.cycle_no ≡ k
  pub new : List Infodata
  pub extended : cells_of k r' ≡ old ++ new
  pub at_most : length new ≤ n
  pub good : All (IsCell c k n) new

skip-Extends :
    (c : Settings) (m k : ℕ) (old : List Infodata) (r' : Reader)
    → Extends c m k old r'
    → Extends c (suc m) k old r'
skip-Extends c m k old r' x = record {
  same_cycle = x.same_cycle;
  new = x.new;
  extended = x.extended;
  at_most = omega (arith, x.at_most);
  good = IsCell-mono c k m (suc m) x.new (omega arith) x.good;
}

push-Extends :
    (c : Settings) (m k : ℕ) (old : List Infodata) (cell : Infodata) (r' : Reader)
    → IsCell c k (suc m) cell
    → Extends c m k (old ++ cell ∷ []) r'
    → Extends c (suc m) k old r'
push-Extends c m k old cell r' ok x = record {
  same_cycle = x.same_cycle;
  new = cell ∷ x.new;
  extended = x.extended ∙ append_assoc old (cell ∷ []) x.new;
  at_most = omega (arith, x.at_most);
  good = (ok, IsCell-mono c k m (suc m) x.new (omega arith) x.good);
}

module _ (c : Settings) (buf : List ℕ) (len chip : ℕ) where
  noted : ℕ → Reader → Reader
  noted m r = note_last_cell m chip (bxid_of buf len m) r

  pushed : ℕ → ℕ → Reader → Reader
  unfolding noted
  pushed m pos r = push_cell (cell_at buf r.cycle_no (bxid_of buf len m) m chip pos) (noted m r)

  noted_lem :
      (m k : ℕ) (old : List Infodata) (r : Reader)
      → r.cycle_no ≡ k
      → cells_of k r ≡ old
      → ((noted m r).cycle_no ≡ k) × (cells_of k (noted m r) ≡ old)
  unfolding noted
  noted_lem m k old r e o = ground (arith, note_last_cell_same m chip (bxid_of buf len m) r)

  pushed_lem :
      (m pos k : ℕ) (old : List Infodata) (r : Reader)
      → r.cycle_no ≡ k
      → cells_of k r ≡ old
      → ((pushed m pos r).cycle_no ≡ k)
        × (cells_of k (pushed m pos r) ≡ old ++ cell_at buf k (bxid_of buf len m) m chip pos ∷ [])
  unfolding pushed
  pushed_lem m pos k old r e o = ground (
    arith,
    noted_lem m k old r e o,
    push_cell_cycle (cell_at buf r.cycle_no (bxid_of buf len m) m chip pos) (noted m r),
    cells_of-push_cell (cell_at buf r.cycle_no (bxid_of buf len m) m chip pos) (noted m r),
  )

  read_cells-Extends :
      (n pos k : ℕ) (old : List Infodata) (r : Reader)
      → r.cycle_no ≡ k
      → cells_of k r ≡ old
      → Extends c n k old (read_cells c buf len chip n pos r)
  unfolding read_cells pushed
  read_cells-Extends zero pos k old r e o = record {
    same_cycle = e;
    new = [];
    extended = o ∙ sym (append-nil old);
    at_most = omega arith;
    good = tt;
  }
  read_cells-Extends (suc m) pos k old r e o =
      elim (Bool-cases (slt (bxid_of buf len m) c.minimum_bxid)) [
        | inl low ↦ rw low (
            let n = noted_lem m k old r e o in
            skip-Extends c m k old _ (read_cells-Extends m pos k old (noted m r) n.0 n.1))
        | inr fits ↦ rw fits (
            let p = pushed_lem m pos k old r e o in
            push-Extends c m k old (cell_at buf k (bxid_of buf len m) m chip pos) _
              (cell_at-IsCell c buf k (bxid_of buf len m) m chip pos fits)
              (read_cells-Extends m (pos + n_channel * 4) k
                (old ++ cell_at buf k (bxid_of buf len m) m chip pos ∷ []) (pushed m pos r) p.0
                p.1))
      ]

opened_lem :
    (c : Settings) (buf : List ℕ) (r : Reader)
    → let k = (advance_cycle c buf r).cycle_no in
      ((open_cycle (advance_cycle c buf r)).cycle_no ≡ k)
      × (cells_of k (open_cycle (advance_cycle c buf r)) ≡ cells_of k r)
unfolding open_cycle advance_cycle
opened_lem c buf r = grind (arith, lookup-adjust)

-- Whatever the packet's bytes are, `readAHCALData` appends to the packet's readout cycle at most as
-- many cells as the length allows, all well formed and none below the minimum bxid, and it takes the
-- packet from the buffer.
pub read_ahcal_data-Extends :
    (c : Settings) (buf : List ℕ) (r : Reader)
    → let k = (advance_cycle c buf r).cycle_no in
      Extends c
        (memory_cells_filled r.length_of_packet)
        k
        (cells_of k r)
        (read_ahcal_data c buf r).0
      × ((read_ahcal_data c buf r).1 ≡ drop (r.length_of_packet + size_lda_header) buf)
unfolding read_ahcal_data
read_ahcal_data-Extends c buf r = elim (Bool-cases (wrong_length r.length_of_packet)) [
  | inl wrong ↦ rw wrong (
    record {
      same_cycle = o.0;
      new = [];
      extended = o.1 ∙ sym (append-nil _);
      at_most = omega arith;
      good = tt;
    },
    refl,
  )
  | inr fits ↦ rw fits (
    read_cells-Extends c buf r.length_of_packet (chip_id_of c buf r.length_of_packet)
        (memory_cells_filled r.length_of_packet) 18 (advance_cycle c buf r).cycle_no
        (cells_of (advance_cycle c buf r).cycle_no r) (open_cycle (advance_cycle c buf r)) o.0 o.1,
    refl,
  )
]
  where
    o :
        ((open_cycle (advance_cycle c buf r)).cycle_no ≡ (advance_cycle c buf r).cycle_no)
        × (cells_of (advance_cycle c buf r).cycle_no (open_cycle (advance_cycle c buf r))
            ≡ cells_of (advance_cycle c buf r).cycle_no r)
    o = opened_lem c buf r

-- The last bxid of a full chip: the detector's entry is not above it, nor above an earlier one.
pub note_last_cell_min :
    (chip bxid old : ℕ) (r : Reader)
    → or_default 0 (lookup int_rank r.cycle_no r.min_last_bxid_detector) ≡ old
    → let new =
        or_default 0
          (lookup int_rank r.cycle_no (note_last_cell 15 chip bxid r).min_last_bxid_detector) in
      (sle new bxid ≡ true) × ((old ≡ 0) ⊎ (sle new old ≡ true))
unfolding note_last_cell
note_last_cell_min chip bxid old r e = grind (arith, lookup-adjust)
