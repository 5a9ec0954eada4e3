-- ===== src/Monitor/Planes.antt =====
-- The cells and the counts of the planes of AHCalRawEvent2StdEventConverter.cc, after its hits are drawn.
use eudaq_ahcal.Base.{
  ℕ, zero, suc, ◌+◌, ◌≤◌, ◌<◌, List, [], ◌∷◌, ◌≡◌, refl, sym, ap, subst, ◌∙◌, arith, Bool, true,
  false, ◌&&◌, Option, none, some, ◌==◌, if◌then◌else◌, Bool-cases, Option-cases, inl, inr, length,
  get_or, All, All-append,
}
use eudaq_ahcal.Monitor.{Plane, set_at, adjust_at, draw, hitbit, get_plane_number}
use eudaq_ahcal.Monitor.Tiles.{coord_index-lt}
use eudaq_ahcal.Monitor.Drawn.{
  Hit, draw_hits, channel_hit, channel_hits, block_hits, event_hits, HasChannels,
}

-- The last value that a plane's hits put on a tile.
abbrev pub last_value : ℕ → ℕ → List Hit → Option ℕ → Option ℕ
last_value plane i [] v = v
last_value plane i (h ∷ hs) v =
    last_value plane i hs (if h.plane == plane && h.index == i then some h.value else v)

-- The number of a plane's hits.
abbrev pub count : ℕ → List Hit → ℕ
count plane [] = 0
count plane (h ∷ hs) = (if h.plane == plane then 1 else 0) + count plane hs

get_or-set_at :
    (i j v : ℕ) (cells : List (Option ℕ))
    → i < length cells
    → get_or (set_at i (some v) cells) j none ≡ (if i == j then some v else get_or cells j none)
get_or-set_at i j v [] lt = absurd (omega (arith, lt))
get_or-set_at zero zero v (c ∷ cells) lt = refl
get_or-set_at zero (suc j) v (c ∷ cells) lt = ground arith
get_or-set_at (suc i) zero v (c ∷ cells) lt = ground arith
get_or-set_at (suc i) (suc j) v (c ∷ cells) lt =
    ground (arith, get_or-set_at i j v cells (omega (arith, lt)))

length-set_at :
    (i v : ℕ) (cells : List (Option ℕ)) → length (set_at i (some v) cells) ≡ length cells
length-set_at i v [] = refl
length-set_at zero v (c ∷ cells) = refl
length-set_at (suc i) v (c ∷ cells) = ap suc (length-set_at i v cells)

get_or-adjust_at :
    (i j : ℕ) (f : Plane → Plane) (d : Plane) (ps : List Plane)
    → i < length ps
    → get_or (adjust_at i f ps) j d ≡ (if i == j then f (get_or ps j d) else get_or ps j d)
get_or-adjust_at i j f d [] lt = absurd (omega (arith, lt))
get_or-adjust_at zero zero f d (p ∷ ps) lt = refl
get_or-adjust_at zero (suc j) f d (p ∷ ps) lt = ground arith
get_or-adjust_at (suc i) zero f d (p ∷ ps) lt = ground arith
get_or-adjust_at (suc i) (suc j) f d (p ∷ ps) lt =
    get_or-adjust_at i j f d ps (omega (arith, lt)) ∙ ground arith

pub length-adjust_at :
    (i : ℕ) (f : Plane → Plane) (ps : List Plane) → length (adjust_at i f ps) ≡ length ps
length-adjust_at i f [] = refl
length-adjust_at zero f (p ∷ ps) = refl
length-adjust_at (suc i) f (p ∷ ps) = ap suc (length-adjust_at i f ps)

-- A hit on one of three planes, inside of its array.
abbrev pub IsInside : Hit → Type 0
IsInside h = (h.plane < 3) × (h.index < 144)

abbrev pub IsWhole : Plane → Type 0
IsWhole p = length p.cells ≡ 144

-- Three planes with whole arrays.
abbrev pub AreWhole : Plane → List Plane → Type 0
AreWhole d ps = (length ps ≡ 3) × ((j : ℕ) → IsWhole (get_or ps j d))

draw-AreWhole :
    (d : Plane) (h : Hit) (ps : List Plane)
    → IsInside h
    → AreWhole d ps
    → AreWhole d (adjust_at h.plane (draw h.index h.value) ps)
draw-AreWhole d h ps inside whole = (
  length-adjust_at h.plane _ ps ∙ whole.0,
  λ j.
      subst IsWhole (sym (get_or-adjust_at h.plane j _ d ps (omega (arith, inside.0, whole.0))))
        (go j (h.plane == j)),
)
  where
    go :
        (j : ℕ) (b : Bool)
        → IsWhole (if b then draw h.index h.value (get_or ps j d) else get_or ps j d)
    go j true = length-set_at h.index h.value (get_or ps j d).cells ∙ whole.1 j
    go j false = whole.1 j

-- The cell of a tile holds the last value of its hits, and each plane counts its hits.
pub record IsDrawn (hs : List Hit) (d : Plane) (ps ps' : List Plane) (plane : ℕ) : Type 0 where
  pub drawn_cell :
      (i : ℕ)
      → get_or (get_or ps' plane d).cells i none
        ≡ last_value plane i hs (get_or (get_or ps plane d).cells i none)
  pub drawn_hits : (get_or ps' plane d).hits ≡ count plane hs + (get_or ps plane d).hits

draw_one-IsDrawn :
    (h : Hit) (d p : Plane) (same : Bool) (i plane : ℕ)
    → h.index < length p.cells
    → h.plane == plane ≡ same
    → get_or (if same then draw h.index h.value p else p).cells i none
      ≡ (if h.plane == plane && h.index == i then some h.value else get_or p.cells i none)
draw_one-IsDrawn h d p true i plane lt e = rw e (get_or-set_at h.index i h.value p.cells lt)
draw_one-IsDrawn h d p false i plane lt e = rw e refl

pub draw_hits-IsDrawn :
    (hs : List Hit) (d : Plane) (ps : List Plane) (plane : ℕ)
    → All IsInside hs
    → AreWhole d ps
    → IsDrawn hs d ps (draw_hits hs ps) plane
draw_hits-IsDrawn [] d ps plane inside whole = record {
  drawn_cell = λ i. refl;
  drawn_hits = omega arith;
}
draw_hits-IsDrawn (h ∷ hs) d ps plane inside whole =
    let ps' = adjust_at h.plane (draw h.index h.value) ps in
    let rest = draw_hits-IsDrawn hs d ps' plane inside.1 (draw-AreWhole d h ps inside.0 whole) in
    let at_plane : get_or ps' plane d ≡ (
        if h.plane == plane then draw h.index h.value (get_or ps plane d) else get_or ps plane d) =
      get_or-adjust_at h.plane plane _ d ps (omega (arith, inside.0.0, whole.0)) in
    record {
      drawn_cell = λ i.
          rest.drawn_cell i
          ∙ ap (last_value plane i hs) (
              ap (λ p. get_or p.cells i none) at_plane
              ∙ draw_one-IsDrawn h d (get_or ps plane d) (h.plane == plane) i plane
                  (omega (arith, inside.0.1, whole.1 plane)) refl);
      drawn_hits =
          rest.drawn_hits ∙ ap (λ p. count plane hs + p.hits) at_plane ∙ go (h.plane == plane);
    }
  where
    go :
        (b : Bool)
        → count plane hs
            + (if b then draw h.index h.value (get_or ps plane d) else get_or ps plane d).hits
          ≡ (if b then 1 else 0) + count plane hs + (get_or ps plane d).hits
    go true = omega arith
    go false = omega arith

channel_hit-IsInside :
    (chipid plane channel word : ℕ)
    → plane < 3
    → channel < 36
    → All IsInside (channel_hit chipid plane channel word)
channel_hit-IsInside chipid plane channel word hp hc = elim (Bool-cases (hitbit word)) [
  | inr dark ↦ rw dark tt
  | inl lit ↦
      let (i, e, inside) = coord_index-lt chipid channel hc in rw (lit, e) ((hp, inside), tt)
]

channel_hits-IsInside :
    (chipid plane : ℕ) (block : List ℕ) (channel n : ℕ)
    → plane < 3
    → channel + n ≤ 36
    → All IsInside (channel_hits chipid plane block channel n)
channel_hits-IsInside chipid plane block channel zero hp le = tt
channel_hits-IsInside chipid plane block channel (suc n) hp le =
    All-append _ _ _ (channel_hit-IsInside chipid plane channel _ hp (omega (arith, le)))
      (channel_hits-IsInside chipid plane block (suc channel) n hp (omega (arith, le)))

get_plane_number-lt : (chipid plane : ℕ) → get_plane_number chipid ≡ some plane → plane < 3
unfolding get_plane_number
get_plane_number-lt chipid plane e = ground (arith, e)

block_hits-IsInside : (block : List ℕ) → HasChannels block → All IsInside (block_hits block)
block_hits-IsInside block le = elim (Bool-cases (get_or block 1 0 == 0)) [
  | inl dummy ↦ rw dummy tt
  | inr real ↦ elim (Option-cases (get_plane_number (get_or block 3 0))) [
    | inl e ↦ rw (real, e) tt
    | inr (plane, e) ↦
        rw (real, e)
          (channel_hits-IsInside (get_or block 3 0) plane block 0 _ (get_plane_number-lt _ plane e)
            (omega (arith, le)))
  ]
]

pub event_hits-IsInside :
    (blocks : List (List ℕ)) → All HasChannels blocks → All IsInside (event_hits blocks)
event_hits-IsInside [] h = tt
event_hits-IsInside (block ∷ blocks) h =
    All-append _ _ _ (block_hits-IsInside block h.0) (event_hits-IsInside blocks h.1)
