-- ===== src/Monitor/Tiles.antt =====
-- The tiles of a plane and the channels of its four chips: getXcoordFromChipChannel and
-- getYcoordFromChipChannel of AHCalRawEvent2StdEventConverter.cc.
use eudaq_ahcal.Base.{
  ℕ, ◌+◌, ◌-◌, ◌*◌, ◌/◌, ◌%◌, ◌^◌, ◌<◌, ◌≡◌, refl, arith, some, if◌then◌else◌, ltb, Option-cases,
  inl, inr,
}
use eudaq_ahcal.Monitor.{get_xcoord, get_ycoord, coord_index, planes_xsize}

-- The chip (its last four bits) and the channel of a tile, read off the drawing of a plane: the chips 0
-- and 1 have the columns below 6, the chips 0 and 2 the rows from 6 on, and the channels of a chip go
-- in columns of six, from the right to the left, upwards on the chips 0 and 1 and downwards on 2 and 3.
abbrev pub chip_at : ℕ → ℕ → ℕ
chip_at x y = (if ltb x 6 then 0 else 2) + (if ltb y 6 then 1 else 0)

abbrev pub channel_at : ℕ → ℕ → ℕ
channel_at x y = (11 - x) % 6 * 6 + (if ltb x 6 then y % 6 else 5 - y % 6)

-- On a chip that has a place on the plane, one of the last four bits 0 to 3, the 36 channels.
pub record IsMounted (chipid channel : ℕ) : Type 0 where
  pub chip_lt : chipid % 2 ^ 4 < 4
  pub channel_lt : channel < 36

abbrev column : ℕ → ℕ → ℕ
column chipid channel = (if ltb (chipid % 2 ^ 4) 2 then 5 else 11) - channel / 6

get_xcoord-column :
    (chipid channel : ℕ)
    → IsMounted chipid channel
    → (get_xcoord chipid channel ≡ some (column chipid channel)) × (column chipid channel < 12)
unfolding get_xcoord
get_xcoord-column chipid channel h =
    (ground (arith, h.chip_lt, h.channel_lt), ground (arith, h.channel_lt))

get_ycoord-lt : (chipid channel : ℕ) → IsMounted chipid channel → get_ycoord chipid channel < 12
unfolding get_ycoord
get_ycoord-lt chipid channel h = ground (arith, h.chip_lt)

chip_at-column :
    (chipid channel : ℕ)
    → IsMounted chipid channel
    → chip_at (column chipid channel) (get_ycoord chipid channel) ≡ chipid % 2 ^ 4
unfolding get_ycoord
chip_at-column chipid channel h = ground (arith, h.chip_lt, h.channel_lt)

channel_at-column :
    (chipid channel : ℕ)
    → IsMounted chipid channel
    → channel_at (column chipid channel) (get_ycoord chipid channel) ≡ channel
unfolding get_ycoord
channel_at-column chipid channel h = ground (arith, h.chip_lt, h.channel_lt)

tile_of_channel :
    (chipid channel : ℕ)
    → IsMounted chipid channel
    → (x : ℕ) × (get_xcoord chipid channel ≡ some x)
      × (x < 12)
      × (get_ycoord chipid channel < 12)
      × (chip_at x (get_ycoord chipid channel) ≡ chipid % 2 ^ 4)
      × (channel_at x (get_ycoord chipid channel) ≡ channel)
tile_of_channel chipid channel h =
    let at_column = get_xcoord-column chipid channel h in
    (
      column chipid channel,
      at_column.0,
      at_column.1,
      get_ycoord-lt chipid channel h,
      chip_at-column chipid channel h,
      channel_at-column chipid channel h,
    )

channel_of_tile :
    (x y : ℕ)
    → x < 12
    → y < 12
    → (get_xcoord (chip_at x y) (channel_at x y) ≡ some x)
      × (get_ycoord (chip_at x y) (channel_at x y) ≡ y)
unfolding get_xcoord get_ycoord
channel_of_tile x y hx hy = (ground (arith, hx, hy), ground (arith, hx, hy))

-- A mounted chip's channel has a tile of the plane, whose chip and channel are these; and each tile of
-- the plane is that of its chip and channel: the 144 channels are placed one on each tile.
pub tiles-channels :
    (chipid channel x y : ℕ)
    → IsMounted chipid channel
    → x < 12
    → y < 12
    → ((x' : ℕ) × (get_xcoord chipid channel ≡ some x')
        × (x' < 12)
        × (get_ycoord chipid channel < 12)
        × (chip_at x' (get_ycoord chipid channel) ≡ chipid % 2 ^ 4)
        × (channel_at x' (get_ycoord chipid channel) ≡ channel))
      × (get_xcoord (chip_at x y) (channel_at x y) ≡ some x)
      × (get_ycoord (chip_at x y) (channel_at x y) ≡ y)
tiles-channels chipid channel x y h hx hy =
    let back = channel_of_tile x y hx hy in (tile_of_channel chipid channel h, back.0, back.1)

-- Every chip places its channels below 36 inside of the plane's array.
pub coord_index-lt :
    (chipid channel : ℕ)
    → channel < 36
    → (i : ℕ) × (coord_index chipid channel ≡ some i) × (i < 144)
unfolding coord_index get_xcoord get_ycoord
coord_index-lt chipid channel h = elim (Option-cases (get_xcoord chipid channel)) [
  | inl e ↦ absurd (ground (arith, h, e))
  | inr (x, e) ↦
      (x * planes_xsize + get_ycoord chipid channel, rw (coord_index, e) refl, ground (arith, h, e))
]
