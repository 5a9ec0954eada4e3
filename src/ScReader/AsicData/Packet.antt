-- ===== src/ScReader/AsicData/Packet.antt =====
-- The packet as the detector interface writes it, and `readAHCALData` on it.
use mathlib.Core.List.{append_assoc}
use mathlib.Core.Path.{ap₂}
use eudaq_ahcal.Base.{
  ℕ, zero, suc, ◌+◌, ◌-◌, ◌*◌, ◌/◌, ◌%◌, ◌^◌, ◌<◌, List, [], ◌∷◌, ◌++◌, ◌≡◌, refl, sym, ap, ◌∙◌,
  arith, false, length, length-append, get_or, drop, All,
}
use eudaq_ahcal.Base.Words.{int_rank}
use eudaq_ahcal.Base.IntMap.{lookup, or_default, lookup-adjust}
use eudaq_ahcal.ScReader.State.{Settings, Infodata, Reader, size_lda_header}
use eudaq_ahcal.ScReader.AsicData.{
  n_channel, le16, bxid_of, read_cells, read_ahcal_data, wrong_length, open_cycle, advance_cycle,
  note_last_cell, push_cell, cell_at, chip_id_of, masked_chip_id, memory_cells_filled,
}
use eudaq_ahcal.ScReader.AsicData.Decode.{
  Cell, Stored, decoded, cells_of, KeepsAll, read_cells-decoded, note_last_cell_same,
  push_cell_cycle,
}
use eudaq_ahcal.ScReader.AsicData.Encoding.{
  enc_cells, enc_bxids, IsFull, length-enc_bxids, length-enc_cells, get_or-append, le16-append,
  Stored-encoded,
}

-- `head` is the LDA header, `sub` the header of the chip's data; `rest` is what comes next.
unfoldable pub asic_packet : List ℕ → List ℕ → List Cell → ℕ → List ℕ → List ℕ
asic_packet head sub cells chip rest =
    head
    ++ (sub
        ++ (enc_cells cells
            ++ (enc_bxids cells ++ chip % 2 ^ 8 ∷ chip / 2 ^ 8 ∷ 0xab ∷ 0xab ∷ rest)))

drop-append : (xs ys : List ℕ) (n : ℕ) → n ≡ length xs → drop n (xs ++ ys) ≡ ys
drop-append [] ys zero e = refl
drop-append [] ys (suc n) e = absurd (omega arith)
drop-append (x ∷ xs) ys zero e = absurd (omega arith)
drop-append (x ∷ xs) ys (suc n) e = drop-append xs ys n (omega arith)

cells_of-open_cycle :
    (r : Reader)
    → ((open_cycle r).cycle_no ≡ r.cycle_no)
      × (cells_of r.cycle_no (open_cycle r) ≡ cells_of r.cycle_no r)
unfolding open_cycle
cells_of-open_cycle r = ground (
  arith,
  lookup-adjust int_rank r.cycle_no r.cycle_no [] (λ (cells : List Infodata). cells)
      r.lda_asic_data,
)

advance_cycle_map :
    (c : Settings) (buf : List ℕ) (r : Reader)
    → (advance_cycle c buf r).lda_asic_data ≡ r.lda_asic_data
unfolding advance_cycle
advance_cycle_map c buf r = ground arith

get_or-append_left :
    (xs ys : List ℕ) (i : ℕ) → i < length xs → get_or (xs ++ ys) i 0 ≡ get_or xs i 0
get_or-append_left [] ys i h = absurd (omega arith)
get_or-append_left (x ∷ xs) ys zero h = refl
get_or-append_left (x ∷ xs) ys (suc i) h = get_or-append_left xs ys i (omega arith)

module _ (c : Settings) (head sub : List ℕ) (cells : List Cell) (chip : ℕ) (rest : List ℕ)
    (head_length : length head ≡ size_lda_header) (sub_length : length sub ≡ 8)
    (full : All IsFull cells) where
  packet_bytes : List ℕ
  packet_bytes = asic_packet head sub cells chip rest

  footer : List ℕ
  footer = chip % 2 ^ 8 ∷ chip / 2 ^ 8 ∷ 0xab ∷ 0xab ∷ rest

  abbrev payload_length : ℕ
  payload_length = 12 + 146 * length cells

  -- The packet as a part before the cells, the cells, and the bxids.
  split :
      (cs : List Cell)
      → head ++ (sub ++ (enc_cells cs ++ (enc_bxids cs ++ footer)))
        ≡ (head ++ sub) ++ (enc_cells cs ++ ([] ++ (enc_bxids cs ++ footer)))
  split cs = sym (append_assoc head sub (enc_cells cs ++ (enc_bxids cs ++ footer)))

  abbrev before_footer : List ℕ
  before_footer = head ++ (sub ++ (enc_cells cells ++ enc_bxids cells))

  before_footer-length : length before_footer ≡ 18 + 146 * length cells
  before_footer-length = omega (
    arith,
    length-append head (sub ++ (enc_cells cells ++ enc_bxids cells)),
    length-append sub (enc_cells cells ++ enc_bxids cells),
    length-append (enc_cells cells) (enc_bxids cells),
    length-enc_cells cells full,
    length-enc_bxids cells,
  )

  packet-Stored : Stored packet_bytes payload_length 18 cells
  unfolding packet_bytes asic_packet footer
  packet-Stored =
      Stored-encoded cells packet_bytes (head ++ sub) [] footer payload_length 18 (split cells)
        (omega (arith, length-append head sub)) (omega (arith, length-append head sub)) full

  packet-chip_id_of :
      chip_id_of c packet_bytes payload_length ≡ masked_chip_id c chip (get_or sub 6 0)
  unfolding chip_id_of packet_bytes asic_packet
  packet-chip_id_of = ap₂ (masked_chip_id c) chip_word dif_byte
    where
      chip_word : le16 packet_bytes (size_lda_header + payload_length - 4) ≡ chip
      chip_word = omega (
        arith,
        le16-append packet_bytes before_footer (0xab ∷ 0xab ∷ rest) (chip % 2 ^ 8) (chip / 2 ^ 8)
            (size_lda_header + payload_length - 4) (simp append_assoc)
            (omega (arith, before_footer-length)),
      )

      dif_byte : get_or packet_bytes (size_lda_header + 6) 0 ≡ get_or sub 6 0
      dif_byte =
          get_or-append head _ 6 (size_lda_header + 6) (omega arith)
          ∙ get_or-append_left sub _ 6 (omega arith)

  packet_rest : drop (payload_length + size_lda_header) packet_bytes ≡ rest
  unfolding packet_bytes asic_packet
  packet_rest =
      ap (drop (payload_length + size_lda_header)) regrouped
      ∙ drop-append (before_footer ++ end) rest (payload_length + size_lda_header)
          (omega (arith, length-append before_footer end, before_footer-length))
    where
      end : List ℕ
      end = chip % 2 ^ 8 ∷ chip / 2 ^ 8 ∷ 0xab ∷ 0xab ∷ []

      regrouped : packet_bytes ≡ (before_footer ++ end) ++ rest
      regrouped = simp append_assoc

read_cells_cycle :
    (c : Settings) (buf : List ℕ) (len chip n pos : ℕ) (r : Reader)
    → (read_cells c buf len chip n pos r).cycle_no ≡ r.cycle_no
unfolding read_cells
read_cells_cycle c buf len chip zero pos r = refl
read_cells_cycle c buf len chip (suc m) pos r = ground (
  arith,
  read_cells_cycle c buf len chip m pos noted,
  read_cells_cycle c buf len chip m (pos + n_channel * 4) (push_cell info noted),
  push_cell_cycle info noted,
  note_last_cell_same m chip (bxid_of buf len m) r,
)
  where
    noted : Reader
    noted = note_last_cell m chip (bxid_of buf len m) r

    info : Infodata
    info = cell_at buf r.cycle_no (bxid_of buf len m) m chip pos

good_length :
    (n : ℕ) → (wrong_length (12 + 146 * n) ≡ false) × (memory_cells_filled (12 + 146 * n) ≡ n)
unfolding wrong_length
good_length n = ground arith

read_ahcal_data_fits :
    (c : Settings) (buf : List ℕ) (r : Reader) (n : ℕ)
    → r.length_of_packet ≡ 12 + 146 * n
    → read_ahcal_data c buf r ≡ (
      read_cells c buf
          (12 + 146 * n)
          (chip_id_of c buf (12 + 146 * n))
          n
          18
          (open_cycle (advance_cycle c buf r)),
      drop (12 + 146 * n + size_lda_header) buf,
    )
unfolding read_ahcal_data
read_ahcal_data_fits c buf r n e = ground (arith, good_length n)

-- `readAHCALData` on a well-formed packet of any number of memory cells, none below the minimum bxid,
-- when the length of the LDA header is that of the packet: it appends
-- exactly these cells to the packet's readout cycle, with the bxids decoded from their Gray code and
-- the chip's masked number, and takes exactly the packet from the buffer.
pub read_ahcal_data-asic_packet :
    (c : Settings) (head sub : List ℕ) (cells : List Cell) (chip : ℕ) (rest : List ℕ) (r : Reader)
    → length head ≡ size_lda_header
    → length sub ≡ 8
    → All IsFull cells
    → KeepsAll c cells
    → r.length_of_packet ≡ 12 + 146 * length cells
    → let k = (advance_cycle c (asic_packet head sub cells chip rest) r).cycle_no in
      let (r', left) = read_ahcal_data c (asic_packet head sub cells chip rest) r in
      (r'.cycle_no ≡ k)
      × (cells_of k r' ≡ cells_of k r ++ decoded k (masked_chip_id c chip (get_or sub 6 0)) cells)
      × (left ≡ rest)
unfolding packet_bytes open_cycle
read_ahcal_data-asic_packet c head sub cells chip rest r hh hs full keep len =
    rw
      (
        read_ahcal_data_fits c _ r (length cells) len,
        packet-chip_id_of c head sub cells chip rest hh hs full,
      )
      (
        read_cells_cycle c _ _ _ (length cells) 18 opened,
        read_cells-decoded c _ _ (masked_chip_id c chip (get_or sub 6 0)) 18 cells opened
              (packet-Stored c head sub cells chip rest hh hs full) keep
            ∙ ap
                (λ (l : List Infodata).
                  l ++ decoded opened.cycle_no (masked_chip_id c chip (get_or sub 6 0)) cells)
                ((cells_of-open_cycle r0).1
                  ∙ ap (λ m. or_default [] (lookup int_rank r0.cycle_no m))
                      (advance_cycle_map c _ r)),
        packet_rest c head sub cells chip rest hh hs full,
      )
  where
    r0 : Reader
    r0 = advance_cycle c (asic_packet head sub cells chip rest) r

    opened : Reader
    opened = open_cycle r0
