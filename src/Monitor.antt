-- ===== src/Monitor.antt =====
-- AHCalRawEvent2StdEventConverter.cc (user/calice/module/src): the hits of an event as pixels of three
-- planes of 12 by 12 tiles, for the online monitor. A block is the list of its `int`s, which are bit
-- patterns.
pub mod Tiles
pub mod Drawn
pub mod Planes
pub mod Pixels
pub mod Shown
mod Tests
use eudaq_ahcal.Base.{
  ℕ, zero, suc, ◌+◌, ◌-◌, ◌*◌, ◌/◌, ◌%◌, ◌^◌, List, [], ◌∷◌, ◌++◌, Bool, true, false, Option, none,
  some, ◌==◌, if◌then◌else◌, ltb, leb, length, get_or, drop, replicate,
}
use eudaq_ahcal.Base.Words.{slt}

abbrev pub planes_xsize : ℕ
planes_xsize = 12

abbrev pub planes_ysize : ℕ
planes_ysize = 12

abbrev pub plane_count : ℕ
plane_count = 3

abbrev pub pedestal_limit : ℕ
pedestal_limit = 0

abbrev pub event_size_limit : ℕ
event_size_limit = 1

-- A cell that is -1 in the code is none; the hits that were counted.
pub record Plane : Type 0 where
  pub cells : List (Option ℕ)
  pub hits : ℕ

-- What is set on a plane of the result: its size and its pixels, with their coordinates and value.
pub record StandardPlane : Type 0 where
  pub sensor_id : ℕ
  pub size_zs : ℕ
  pub pixels : List (ℕ × ℕ × ℕ)

-- `layerOrder`, by the module, which is the chip's number without its last 8 bits; none is -1.
abbrev pub layer_order : ℕ → Option ℕ
layer_order m =
    if m == 1 then some 0 else if m == 2 then some 1 else if m == 3 then some 2 else none

unfoldable pub get_plane_number : ℕ → Option ℕ
get_plane_number chipid = layer_order (chipid / 2 ^ 8)

-- `mapping`, by the last four bits of the chip's number.
abbrev pub mapping : ℕ → Option (ℕ × ℕ)
mapping chip =
    if chip == 0
    then some (6, 6)
    else if chip == 1
    then some (6, 0)
    else if chip == 2
    then some (0, 6)
    else if chip == 3
    then some (0, 0)
    else none

-- `subx`; none stands for a negative number.
abbrev pub x_from_base : Option (ℕ × ℕ) → ℕ → Option ℕ
x_from_base none channel = some 0
x_from_base (some base) channel =
    if leb (channel / 6 + base.0) (planes_xsize - 1)
    then some (planes_xsize - 1 - (channel / 6 + base.0))
    else none

unfoldable pub get_xcoord : ℕ → ℕ → Option ℕ
get_xcoord chipid channel = x_from_base (mapping (chipid % 2 ^ 4)) channel

-- `suby`: the chips with bit 1 have the other order.
abbrev pub y_from_base : Option (ℕ × ℕ) → ℕ → ℕ → ℕ
y_from_base none chipid channel = 0
y_from_base (some base) chipid channel =
    (if chipid / 2 % 2 == 1 then 5 - channel % 6 else channel % 6) + base.1

unfoldable pub get_ycoord : ℕ → ℕ → ℕ
get_ycoord chipid channel = y_from_base (mapping (chipid % 2 ^ 4)) chipid channel

-- The index in the array of a plane; none is outside of it.
unfoldable pub coord_index : ℕ → ℕ → Option ℕ
coord_index chipid channel = elim (get_xcoord chipid channel) [
  | none ↦ none
  | some x ↦ some (x * planes_xsize + get_ycoord chipid channel)
]

-- `a[i] = v` inside of an array.
abbrev pub set_at {ℓ} : {A : Type ℓ} → ℕ → A → List A → List A
set_at i v [] = []
set_at zero v (x ∷ xs) = v ∷ xs
set_at (suc i) v (x ∷ xs) = x ∷ set_at i v xs

abbrev pub adjust_at {ℓ} : {A : Type ℓ} → ℕ → (A → A) → List A → List A
adjust_at i f [] = []
adjust_at zero f (x ∷ xs) = f x ∷ xs
adjust_at (suc i) f (x ∷ xs) = x ∷ adjust_at i f xs

-- The three tests on a channel's word: the amplitude, the gain bit and the hit bit.
abbrev pub adc_of : ℕ → ℕ
adc_of word = word % 2 ^ 12

abbrev pub gainbit : ℕ → Bool
gainbit word = word / 2 ^ 13 % 2 == 1

abbrev pub hitbit : ℕ → Bool
hitbit word = word / 2 ^ 12 % 2 == 1

abbrev pub shown : ℕ → ℕ
shown word = if gainbit word then adc_of word else 4096 + adc_of word

abbrev pub draw : ℕ → ℕ → Plane → Plane
draw i v p = record { cells = set_at i (some v) p.cells; hits = p.hits + 1 }

-- A channel of a chip in a known plane: none is a write outside of the array.
abbrev pub draw_at : ℕ → ℕ → Option ℕ → List Plane → Option (List Plane)
draw_at plane v none ps = none
draw_at plane v (some i) ps = some (adjust_at plane (draw i v) ps)

unfoldable pub draw_channel : ℕ → ℕ → ℕ → ℕ → List Plane → Option (List Plane)
draw_channel chipid plane channel word ps =
    if hitbit word
    then if ltb (adc_of word) pedestal_limit
      then some ps
      else draw_at plane (shown word) (coord_index chipid channel) ps
    else some ps

-- The loop over the channels: `n` are left, `channel` is the next.
unfoldable pub draw_channels : ℕ → ℕ → List ℕ → ℕ → ℕ → List Plane → Option (List Plane)
draw_channels chipid plane block channel zero ps = some ps
draw_channels chipid plane block channel (suc n) ps =
    elim (draw_channel chipid plane channel (get_or block (5 + get_or block 4 0 + channel) 0) ps) [
      | none ↦ none
      | some ps' ↦ draw_channels chipid plane block (suc channel) n ps'
    ]

abbrev pub channel_count : List ℕ → ℕ
channel_count block = let n = get_or block 4 0 in if slt 0 n then n else 0

abbrev pub draw_in_plane : Option ℕ → List ℕ → List Plane → Option (List Plane)
draw_in_plane none block ps = some ps
draw_in_plane (some plane) block ps =
    draw_channels (get_or block 3 0) plane block 0 (channel_count block) ps

-- A packet: a dummy trigger (BXID 0) is not shown.
unfoldable pub draw_block : List ℕ → List Plane → Option (List Plane)
draw_block block ps =
    if get_or block 1 0 == 0
    then some ps
    else draw_in_plane (get_plane_number (get_or block 3 0)) block ps

unfoldable pub draw_blocks : List (List ℕ) → List Plane → Option (List Plane)
draw_blocks [] ps = some ps
draw_blocks (block ∷ blocks) ps = elim (draw_block block ps) [
  | none ↦ none
  | some ps' ↦ draw_blocks blocks ps'
]

unfoldable pub empty_plane : Plane
empty_plane = record { cells = replicate (planes_xsize * planes_ysize) none; hits = 0 }

-- The two loops that set the pixels of a plane.
abbrev pub pixel_at : ℕ → ℕ → Option ℕ → List (ℕ × ℕ × ℕ)
pixel_at x y none = []
pixel_at x y (some v) = (x, y, v) ∷ []

unfoldable pub row_pixels : List (Option ℕ) → ℕ → ℕ → ℕ → List (ℕ × ℕ × ℕ)
row_pixels cells x y zero = []
row_pixels cells x y (suc n) =
    pixel_at x y (get_or cells (x * planes_xsize + y) none) ++ row_pixels cells x (suc y) n

unfoldable pub plane_pixels : List (Option ℕ) → ℕ → ℕ → List (ℕ × ℕ × ℕ)
plane_pixels cells x zero = []
plane_pixels cells x (suc n) = row_pixels cells x 0 planes_ysize ++ plane_pixels cells (suc x) n

unfoldable pub add_planes : ℕ → List Plane → List StandardPlane
add_planes i [] = []
add_planes i (p ∷ ps) =
    record { sensor_id = i; size_zs = p.hits; pixels = plane_pixels p.cells 0 planes_xsize }
    ∷ add_planes (suc i) ps

-- The first ten blocks hold other information.
unfoldable pub converting : List (List ℕ) → Option (List StandardPlane)
converting blocks =
    let shown_blocks = if ltb (7 + event_size_limit) (length blocks) then drop 10 blocks else [] in
    elim (draw_blocks shown_blocks (replicate plane_count empty_plane)) [
      | none ↦ none
      | some ps ↦ some (add_planes 0 ps)
    ]
