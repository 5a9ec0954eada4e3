-- ===== src/ScReader/AsicData/Encoding.antt =====
-- The bytes of the memory cells as the detector interface writes them, and reading them back.
use mathlib.Core.List.{append_assoc}
use eudaq_ahcal.Base.{
  ℕ, zero, suc, ◌+◌, ◌-◌, ◌*◌, ◌/◌, ◌%◌, ◌^◌, ◌<◌, List, [], ◌∷◌, ◌++◌, ◌≡◌, refl, sym, ap, ◌∙◌,
  arith, length, length-append, get_or, All,
}
use eudaq_ahcal.ScReader.State.{size_lda_header}
use eudaq_ahcal.ScReader.Counter.{half_decoded, gray_recode, gray_recode-half_decoded}
use eudaq_ahcal.ScReader.AsicData.{words, n_channel, le16, bxid_of}
use eudaq_ahcal.ScReader.AsicData.Decode.{Cell, Stored}

unfoldable pub enc_words : List ℕ → List ℕ
enc_words [] = []
enc_words (w ∷ ws) = w % 2 ^ 8 ∷ w / 2 ^ 8 ∷ enc_words ws

unfoldable pub enc_cells : List Cell → List ℕ
enc_cells [] = []
enc_cells (cell ∷ cells) = (enc_words cell.tdc ++ enc_words cell.adc) ++ enc_cells cells

unfoldable pub enc_bxids : List Cell → List ℕ
enc_bxids [] = []
enc_bxids (cell ∷ cells) =
    half_decoded cell.bxid % 2 ^ 8 ∷ half_decoded cell.bxid / 2 ^ 8 ∷ enc_bxids cells

-- A word for each channel, and a bxid of 16 bits.
pub record IsFull (cell : Cell) : Type 0 where
  pub tdc_full : length cell.tdc ≡ n_channel
  pub adc_full : length cell.adc ≡ n_channel
  pub bxid-lt : cell.bxid < 2 ^ 16

pub length-enc_words : (ws : List ℕ) → length (enc_words ws) ≡ 2 * length ws
unfolding enc_words
length-enc_words [] = omega arith
length-enc_words (w ∷ ws) = omega (arith, length-enc_words ws)

pub length-enc_bxids : (cells : List Cell) → length (enc_bxids cells) ≡ 2 * length cells
unfolding enc_bxids
length-enc_bxids [] = omega arith
length-enc_bxids (cell ∷ cells) = omega (arith, length-enc_bxids cells)

pub length-enc_cells :
    (cells : List Cell) → All IsFull cells → length (enc_cells cells) ≡ 144 * length cells
unfolding enc_cells
length-enc_cells [] full = omega arith
length-enc_cells (cell ∷ cells) full = omega (
  arith,
  length-append (enc_words cell.tdc ++ enc_words cell.adc) (enc_cells cells),
  length-append (enc_words cell.tdc) (enc_words cell.adc),
  length-enc_words cell.tdc,
  length-enc_words cell.adc,
  full.0.tdc_full,
  full.0.adc_full,
  length-enc_cells cells full.1,
)

pub get_or-append :
    (pre ys : List ℕ) (i pos : ℕ) → pos ≡ length pre + i → get_or (pre ++ ys) pos 0 ≡ get_or ys i 0
get_or-append [] ys i pos e = let e' : pos ≡ i = omega arith in rw e'
get_or-append (x ∷ pre) ys i zero e = absurd (omega arith)
get_or-append (x ∷ pre) ys i (suc pos) e = get_or-append pre ys i pos (omega arith)

pub le16-append :
    (buf pre ys : List ℕ) (lo hi pos : ℕ)
    → buf ≡ pre ++ (lo ∷ hi ∷ ys)
    → pos ≡ length pre
    → le16 buf pos ≡ lo + hi * 2 ^ 8
le16-append buf pre ys lo hi pos e at = rw e (
    omega (
      arith,
      get_or-append pre (lo ∷ hi ∷ ys) 0 pos (omega arith),
      get_or-append pre (lo ∷ hi ∷ ys) 1 (pos + 1) (omega arith),
    ))

pub words-enc_words :
    (ws buf pre ys : List ℕ) (pos n : ℕ)
    → buf ≡ pre ++ (enc_words ws ++ ys)
    → pos ≡ length pre
    → n ≡ length ws
    → words buf pos n ≡ ws
unfolding words enc_words
words-enc_words [] buf pre ys pos zero e at full = refl
words-enc_words [] buf pre ys pos (suc n) e at full = absurd (omega arith)
words-enc_words (w ∷ ws) buf pre ys pos zero e at full = absurd (omega arith)
words-enc_words (w ∷ ws) buf pre ys pos (suc n) e at full = ground (
  arith,
  le16-append buf pre (enc_words ws ++ ys) (w % 2 ^ 8) (w / 2 ^ 8) pos e at,
  words-enc_words ws buf (pre ++ w % 2 ^ 8 ∷ w / 2 ^ 8 ∷ []) ys (pos + 2) n (e ∙ simp append_assoc)
      (omega (arith, length-append pre (w % 2 ^ 8 ∷ w / 2 ^ 8 ∷ []))) (omega arith),
)

pub bxid-encoded :
    (buf pre ys : List ℕ) (len m b : ℕ)
    → buf ≡ pre ++ (half_decoded b % 2 ^ 8 ∷ half_decoded b / 2 ^ 8 ∷ ys)
    → length pre + 2 * m + 6 ≡ size_lda_header + len
    → b < 2 ^ 16
    → bxid_of buf len m ≡ b
unfolding bxid_of
bxid-encoded buf pre ys len m b e at h =
    let word : le16 buf (size_lda_header + len - 6 - m * 2) ≡ half_decoded b = omega (
      arith,
      le16-append buf pre ys (half_decoded b % 2 ^ 8) (half_decoded b / 2 ^ 8)
          (size_lda_header + len - 6 - m * 2) e (omega arith),
    ) in
    ap gray_recode word ∙ gray_recode-half_decoded b h

pub Stored-encoded :
    (cells : List Cell) (buf pre mid tail : List ℕ) (len pos : ℕ)
    → buf ≡ pre ++ (enc_cells cells ++ (mid ++ (enc_bxids cells ++ tail)))
    → pos ≡ length pre
    → length pre + 144 * length cells + length mid + 2 * length cells + 4 ≡ size_lda_header + len
    → All IsFull cells
    → Stored buf len pos cells
unfolding enc_cells enc_bxids
Stored-encoded [] buf pre mid tail len pos e at size full = tt
Stored-encoded (cell ∷ cells) buf pre mid tail len pos e at size full = (
  words-enc_words cell.tdc buf pre (enc_words cell.adc ++ after_cell) pos n_channel
      (e ∙ simp append_assoc) at (sym full.0.tdc_full),
  words-enc_words cell.adc buf (pre ++ enc_words cell.tdc) after_cell (pos + n_channel * 2)
      n_channel (e ∙ simp append_assoc)
      (omega (arith, length-append pre (enc_words cell.tdc), tdc_length)) (sym full.0.adc_full),
  bxid-encoded buf ((pre ++ data_bytes) ++ (enc_cells cells ++ mid)) (enc_bxids cells ++ tail) len
      (length cells) cell.bxid (e ∙ simp append_assoc)
      (omega (
        arith,
        length-append (pre ++ data_bytes) (enc_cells cells ++ mid),
        length-append (enc_cells cells) mid,
        length-enc_cells cells full.1,
        next_length,
      ))
      full.0.bxid-lt,
  Stored-encoded cells buf (pre ++ data_bytes) (mid ++ h % 2 ^ 8 ∷ h / 2 ^ 8 ∷ []) tail len
      (pos + n_channel * 4) (e ∙ simp append_assoc) (omega (arith, next_length))
      (omega (arith, next_length, length-append mid (h % 2 ^ 8 ∷ h / 2 ^ 8 ∷ []))) full.1,
)
  where
    h : ℕ
    h = half_decoded cell.bxid

    data_bytes : List ℕ
    data_bytes = enc_words cell.tdc ++ enc_words cell.adc

    after_cell : List ℕ
    after_cell = enc_cells cells ++ (mid ++ (enc_bxids (cell ∷ cells) ++ tail))

    tdc_length : length (enc_words cell.tdc) ≡ n_channel * 2
    tdc_length = omega (arith, length-enc_words cell.tdc, full.0.tdc_full)

    next_length : length (pre ++ data_bytes) ≡ length pre + n_channel * 4
    next_length = omega (
      arith,
      length-append pre data_bytes,
      length-append (enc_words cell.tdc) (enc_words cell.adc),
      tdc_length,
      length-enc_words cell.adc,
      full.0.adc_full,
    )
