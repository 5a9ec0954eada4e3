-- ===== src/Monitor/Tests.antt =====
-- Tests and witnesses for the monitor's converter. A block has its BXID, its chip, its number of channels,
-- and two words for each channel.
use eudaq_ahcal.Base.{
  ℕ, ◌+◌, ◌%◌, ◌^◌, ◌≤◌, ◌<◌, List, [], ◌∷◌, ◌++◌, ◌≡◌, refl, some, arith, length, drop, replicate,
}
use eudaq_ahcal.Monitor.{
  get_plane_number, get_xcoord, get_ycoord, coord_index, draw_channel, draw_channels, draw_block,
  draw_blocks, converting, row_pixels, plane_pixels, add_planes, empty_plane,
}
use eudaq_ahcal.Monitor.Tiles.{chip_at, channel_at, tiles-channels}
use eudaq_ahcal.Monitor.Drawn.{event_hits}
use eudaq_ahcal.Monitor.Pixels.{shown_plane}
use eudaq_ahcal.Monitor.Shown.{converting-shown}

-- Chip 2 of module 1, the second channel hit, with the amplitude 100 and the gain bit.
abbrev packet : List ℕ
packet = 7 ∷ 12 ∷ 0 ∷ 258 ∷ 2 ∷ 0 ∷ 0 ∷ 50 ∷ (2 ^ 13 + 2 ^ 12 + 100) ∷ []

abbrev event : List (List ℕ)
event = replicate 10 [] ++ packet ∷ packet ∷ []

-- The channel drawn twice counts two hits, for one pixel.
converting_twice :
    converting event
    ≡ some (
        record { sensor_id = 0; size_zs = 2; pixels = (11, 10, 100) ∷ [] }
        ∷ record { sensor_id = 1; size_zs = 0; pixels = [] }
        ∷ record { sensor_id = 2; size_zs = 0; pixels = [] }
        ∷ [])
unfolding converting draw_blocks draw_block draw_channels draw_channel coord_index get_xcoord
    get_ycoord get_plane_number row_pixels plane_pixels add_planes empty_plane
converting_twice = refl

converting-shown_example :
    let hs = event_hits (drop 10 event) in
    (converting event ≡ some (shown_plane hs 0 ∷ shown_plane hs 1 ∷ shown_plane hs 2 ∷ []))
    × ((plane : ℕ) → length (shown_plane hs plane).pixels ≤ (shown_plane hs plane).size_zs)
converting-shown_example = converting-shown event (omega arith, (omega arith, tt))

tiles-channels_example :
    ((x' : ℕ) × (get_xcoord 258 1 ≡ some x')
      × (x' < 12)
      × (get_ycoord 258 1 < 12)
      × (chip_at x' (get_ycoord 258 1) ≡ 258 % 2 ^ 4)
      × (channel_at x' (get_ycoord 258 1) ≡ 1))
    × (get_xcoord (chip_at 3 9) (channel_at 3 9) ≡ some 3)
    × (get_ycoord (chip_at 3 9) (channel_at 3 9) ≡ 9)
tiles-channels_example =
    tiles-channels 258 1 3 9 (record { chip_lt = omega arith; channel_lt = omega arith })
      (omega arith) (omega arith)
