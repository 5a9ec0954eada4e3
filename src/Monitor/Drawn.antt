-- ===== src/Monitor/Drawn.antt =====
-- The event as its list of hits, and the drawing of them one after the other: the loops of `Converting`
-- in AHCalRawEvent2StdEventConverter.cc.
use eudaq_ahcal.Base.{
  ℕ, zero, suc, ◌+◌, ◌≤◌, ◌<◌, List, [], ◌∷◌, ◌++◌, ◌≡◌, refl, arith, false, Option, none, some,
  ◌==◌, if◌then◌else◌, Bool-cases, inl, inr, ltb, get_or, All,
}
use eudaq_ahcal.Monitor.{
  Plane, draw, adjust_at, hitbit, shown, adc_of, pedestal_limit, coord_index, draw_channel,
  draw_channels, channel_count, draw_in_plane, draw_block, draw_blocks, get_plane_number,
}
use eudaq_ahcal.Monitor.Tiles.{coord_index-lt}

pub record Hit : Type 0 where
  pub plane : ℕ
  pub index : ℕ
  pub value : ℕ

-- The hit of a channel's word, on the tile of the channel.
abbrev pub hit_on : ℕ → ℕ → Option ℕ → List Hit
hit_on plane word none = []
hit_on plane word (some i) = record { plane = plane; index = i; value = shown word } ∷ []

abbrev pub channel_hit : ℕ → ℕ → ℕ → ℕ → List Hit
channel_hit chipid plane channel word =
    if hitbit word then hit_on plane word (coord_index chipid channel) else []

abbrev pub channel_hits : ℕ → ℕ → List ℕ → ℕ → ℕ → List Hit
channel_hits chipid plane block channel zero = []
channel_hits chipid plane block channel (suc n) =
    channel_hit chipid plane channel (get_or block (5 + get_or block 4 0 + channel) 0)
    ++ channel_hits chipid plane block (suc channel) n

abbrev pub hits_in_plane : Option ℕ → List ℕ → List Hit
hits_in_plane none block = []
hits_in_plane (some plane) block =
    channel_hits (get_or block 3 0) plane block 0 (channel_count block)

abbrev pub block_hits : List ℕ → List Hit
block_hits block =
    if get_or block 1 0 == 0 then [] else hits_in_plane (get_plane_number (get_or block 3 0)) block

abbrev pub event_hits : List (List ℕ) → List Hit
event_hits [] = []
event_hits (block ∷ blocks) = block_hits block ++ event_hits blocks

abbrev pub draw_hits : List Hit → List Plane → List Plane
draw_hits [] ps = ps
draw_hits (h ∷ hs) ps = draw_hits hs (adjust_at h.plane (draw h.index h.value) ps)

draw_hits-append :
    (hs hs' : List Hit) (ps : List Plane)
    → draw_hits (hs ++ hs') ps ≡ draw_hits hs' (draw_hits hs ps)
draw_hits-append [] hs' ps = refl
draw_hits-append (h ∷ hs) hs' ps = draw_hits-append hs hs' _

draw_channel-hit :
    (chipid plane channel word : ℕ) (ps : List Plane)
    → channel < 36
    → draw_channel chipid plane channel word ps
      ≡ some (draw_hits (channel_hit chipid plane channel word) ps)
unfolding draw_channel
draw_channel-hit chipid plane channel word ps lt = elim (Bool-cases (hitbit word)) [
  | inr dark ↦ rw dark refl
  | inl lit ↦
      let above : ltb (adc_of word) pedestal_limit ≡ false = ground arith in
      let (i, e, inside) = coord_index-lt chipid channel lt in rw (lit, above, e) refl
]

draw_channels-hits :
    (chipid plane : ℕ) (block : List ℕ) (channel n : ℕ) (ps : List Plane)
    → channel + n ≤ 36
    → draw_channels chipid plane block channel n ps
      ≡ some (draw_hits (channel_hits chipid plane block channel n) ps)
unfolding draw_channels
draw_channels-hits chipid plane block channel zero ps le = refl
draw_channels-hits chipid plane block channel (suc n) ps le =
    let word = get_or block (5 + get_or block 4 0 + channel) 0 in
    rw
      (
        draw_channels,
        draw_channel-hit chipid plane channel word ps (omega (arith, le)),
        draw_channels-hits chipid plane block (suc channel) n
            (draw_hits (channel_hit chipid plane channel word) ps) (omega (arith, le)),
        draw_hits-append (channel_hit chipid plane channel word)
            (channel_hits chipid plane block (suc channel) n) ps,
      )
      refl

draw_block-hits :
    (block : List ℕ) (ps : List Plane)
    → channel_count block ≤ 36
    → draw_block block ps ≡ some (draw_hits (block_hits block) ps)
unfolding draw_block
draw_block-hits block ps le = elim (Bool-cases (get_or block 1 0 == 0)) [
  | inl dummy ↦ rw dummy refl
  | inr real ↦ rw real (go (get_plane_number (get_or block 3 0)))
]
  where
    go :
        (plane : Option ℕ)
        → draw_in_plane plane block ps ≡ some (draw_hits (hits_in_plane plane block) ps)
    go none = refl
    go (some plane) = draw_channels-hits (get_or block 3 0) plane block 0 _ ps (omega (arith, le))

-- No packet has more than 36 channels.
abbrev pub HasChannels : List ℕ → Type 0
HasChannels block = channel_count block ≤ 36

pub draw_blocks-hits :
    (blocks : List (List ℕ)) (ps : List Plane)
    → All HasChannels blocks
    → draw_blocks blocks ps ≡ some (draw_hits (event_hits blocks) ps)
unfolding draw_blocks
draw_blocks-hits [] ps h = refl
draw_blocks-hits (block ∷ blocks) ps h =
    rw
      (
        draw_blocks,
        draw_block-hits block ps h.0,
        draw_blocks-hits blocks (draw_hits (block_hits block) ps) h.1,
        draw_hits-append (block_hits block) (event_hits blocks) ps,
      )
      refl
