-- ===== src/ScReader/AsicTests.antt =====
-- `readAHCALData` on packets of two memory cells.
use eudaq_ahcal.Base.{ℕ, List, [], ◌∷◌, ◌≡◌, refl, arith, replicate}
use eudaq_ahcal.Base.IntMap.{lookup}
use eudaq_ahcal.ScReader.State.{Reader}
use eudaq_ahcal.ScReader.Samples.{settings, reader}
use eudaq_ahcal.ScReader.Counter.{update_cnt_modulo}
use eudaq_ahcal.ScReader.AsicData.{
  read_ahcal_data, advance_cycle, masked_chip_id, infodata, n_channel,
}
use eudaq_ahcal.ScReader.AsicData.Decode.{Cell, cells_of}
use eudaq_ahcal.ScReader.AsicData.Packet.{asic_packet, read_ahcal_data-asic_packet}
use eudaq_ahcal.ScReader.AsicData.Shape.{Extends, read_ahcal_data-Extends}

-- A cell whose TDC words are all `t` and whose ADC words are all `a`.
abbrev cell : ℕ → ℕ → ℕ → Cell
cell b t a = record { bxid = b; tdc = replicate n_channel t; adc = replicate n_channel a }

abbrev head : List ℕ
head = 0xcd ∷ 0xcd ∷ 48 ∷ 1 ∷ 5 ∷ 0 ∷ 0 ∷ 0 ∷ 0 ∷ 0xe0 ∷ []

abbrev sub : List ℕ
sub = 0x41 ∷ 0x43 ∷ 0x48 ∷ 0x41 ∷ 0 ∷ 0 ∷ 3 ∷ 0 ∷ []

-- The payload has 12 + 2 * 146 bytes.
abbrev asic_reader : Reader
asic_reader = record reader { length_of_packet = 304 }

read_ahcal_data-asic_packet_example :
    let packet = asic_packet head sub (cell 200 513 700 ∷ cell 100 11 12 ∷ []) 0x105 (1 ∷ []) in
    let (r', left) = read_ahcal_data settings packet asic_reader in
    (r'.cycle_no ≡ 5)
    × (cells_of 5 r'
        ≡ infodata 5 200 1 5 (replicate n_channel 513) (replicate n_channel 700)
          ∷ infodata 5 100 0 5 (replicate n_channel 11) (replicate n_channel 12)
          ∷ [])
    × (left ≡ 1 ∷ [])
unfolding advance_cycle update_cnt_modulo lookup masked_chip_id asic_packet
read_ahcal_data-asic_packet_example =
    read_ahcal_data-asic_packet settings head sub (cell 200 513 700 ∷ cell 100 11 12 ∷ []) 0x105
      (1 ∷ []) asic_reader refl refl (omega arith) (refl, (refl, tt)) refl

read_ahcal_data-Extends_example :
    Extends settings 2 5 [] (read_ahcal_data settings head asic_reader).0
    × ((read_ahcal_data settings head asic_reader).1 ≡ [])
unfolding advance_cycle update_cnt_modulo lookup
read_ahcal_data-Extends_example = read_ahcal_data-Extends settings head asic_reader
