-- ===== src/Monitor/Shown.antt =====
-- What `Converting` of AHCalRawEvent2StdEventConverter.cc shows.
use eudaq_ahcal.Base.{
  ℕ, zero, suc, ◌+◌, ◌≤◌, List, [], ◌∷◌, ◌≡◌, refl, sym, ap, ◌∙◌, arith, Option, none, some,
  if◌then◌else◌, Bool-cases, inl, inr, ltb, length, get_or, drop, replicate, All,
}
use eudaq_ahcal.Monitor.{
  Plane, StandardPlane, draw, plane_pixels, add_planes, converting, empty_plane, planes_xsize,
  event_size_limit, plane_count,
}
use eudaq_ahcal.Monitor.Drawn.{Hit, draw_hits, event_hits, HasChannels, draw_blocks-hits}
use eudaq_ahcal.Monitor.Planes.{
  last_value, count, AreWhole, IsDrawn, length-adjust_at, draw_hits-IsDrawn, event_hits-IsInside,
}
use eudaq_ahcal.Monitor.Pixels.{shown_plane, plane_pixels-rows_of, length-pixels-le}

get_or-replicate-none : (n i : ℕ) → get_or (replicate {A = Option ℕ} n none) i none ≡ none
get_or-replicate-none zero i = refl
get_or-replicate-none (suc n) zero = refl
get_or-replicate-none (suc n) (suc i) = get_or-replicate-none n i

blank_cell : (i : ℕ) → get_or (empty_plane.cells) i none ≡ none
unfolding empty_plane
blank_cell i = get_or-replicate-none 144 i

blank_planes : AreWhole empty_plane (replicate plane_count empty_plane)
unfolding empty_plane
blank_planes = (refl, λ j. go j)
  where
    go : (j : ℕ) → length (get_or (replicate plane_count empty_plane) j empty_plane).cells ≡ 144
    go zero = refl
    go (suc zero) = refl
    go (suc (suc zero)) = refl
    go (suc (suc (suc j))) = refl

-- A plane of the result that shows the last values and counts its hits.
plane-shown :
    (hs : List Hit) (plane : ℕ) (p : Plane)
    → ((i : ℕ) → get_or p.cells i none ≡ last_value plane i hs none)
    → p.hits ≡ count plane hs
    → ◌≡◌ {A = StandardPlane}
        (record {
          sensor_id = plane;
          size_zs = p.hits;
          pixels = plane_pixels p.cells 0 planes_xsize;
        })
        (shown_plane hs plane)
plane-shown hs plane p cells hits =
    cc (hits, plane_pixels-rows_of p.cells (λ i. last_value plane i hs none) 0 12 cells)

blank_plane :
    (plane : ℕ) → get_or (replicate plane_count empty_plane) plane empty_plane ≡ empty_plane
blank_plane zero = refl
blank_plane (suc zero) = refl
blank_plane (suc (suc zero)) = refl
blank_plane (suc (suc (suc plane))) = refl

no_hits : empty_plane.hits ≡ 0
unfolding empty_plane
no_hits = refl

drawn-shown :
    (hs : List Hit) (plane : ℕ) (ps : List Plane)
    → IsDrawn hs empty_plane (replicate plane_count empty_plane) ps plane
    → ◌≡◌ {A = StandardPlane}
        (record {
          sensor_id = plane;
          size_zs = (get_or ps plane empty_plane).hits;
          pixels = plane_pixels ((get_or ps plane empty_plane).cells) 0 planes_xsize;
        })
        (shown_plane hs plane)
drawn-shown hs plane ps h =
    plane-shown hs plane (get_or ps plane empty_plane)
      (λ i.
        h.drawn_cell i
        ∙ ap (last_value plane i hs)
            (ap (λ d. get_or d.cells i none) (blank_plane plane) ∙ blank_cell i))
      (h.drawn_hits
        ∙ ap (λ d. count plane hs + d.hits) (blank_plane plane)
        ∙ omega (arith, no_hits))

three_shown :
    (hs : List Hit) (ps : List Plane)
    → length ps ≡ 3
    → ((plane : ℕ) → IsDrawn hs empty_plane (replicate plane_count empty_plane) ps plane)
    → add_planes 0 ps ≡ shown_plane hs 0 ∷ shown_plane hs 1 ∷ shown_plane hs 2 ∷ []
unfolding add_planes
three_shown hs [] len h = absurd (omega (arith, len))
three_shown hs (p ∷ []) len h = absurd (omega (arith, len))
three_shown hs (p ∷ q ∷ []) len h = absurd (omega (arith, len))
three_shown hs (p ∷ q ∷ r ∷ []) len h =
    rw
      (
        drawn-shown hs 0 (p ∷ q ∷ r ∷ []) (h 0),
        drawn-shown hs 1 (p ∷ q ∷ r ∷ []) (h 1),
        drawn-shown hs 2 (p ∷ q ∷ r ∷ []) (h 2),
      )
      refl
three_shown hs (p ∷ q ∷ r ∷ s ∷ ps) len h = absurd (omega (arith, len))

drop_all : (n : ℕ) (blocks : List (List ℕ)) → length blocks ≤ n → drop n blocks ≡ []
drop_all zero [] le = refl
drop_all zero (block ∷ blocks) le = absurd (omega (arith, le))
drop_all (suc n) [] le = refl
drop_all (suc n) (block ∷ blocks) le = drop_all n blocks (omega (arith, le))

-- The test on the number of blocks excludes nothing that the loop would read.
shown_blocks :
    (blocks : List (List ℕ))
    → (if ltb (7 + event_size_limit) (length blocks) then drop 10 blocks else []) ≡ drop 10 blocks
shown_blocks blocks = elim (Bool-cases (ltb (7 + event_size_limit) (length blocks))) [
  | inl long ↦ rw long refl
  | inr short ↦ rw short (sym (drop_all 10 blocks (ground (arith, short))))
]

length-draw_hits : (hs : List Hit) (ps : List Plane) → length (draw_hits hs ps) ≡ length ps
length-draw_hits [] ps = refl
length-draw_hits (h ∷ hs) ps =
    length-draw_hits hs _ ∙ length-adjust_at h.plane (draw h.index h.value) ps

-- If no packet behind the first ten blocks has more than 36 channels, `Converting` writes inside of its
-- arrays only, and shows three planes: each tile has the last value that a hit of the event puts on it
-- (and no pixel without a hit), the size of each plane is its number of hits, and no plane has more
-- pixels than that.
pub converting-shown :
    (blocks : List (List ℕ))
    → All HasChannels (drop 10 blocks)
    → let hs = event_hits (drop 10 blocks) in
      (converting blocks ≡ some (shown_plane hs 0 ∷ shown_plane hs 1 ∷ shown_plane hs 2 ∷ []))
      × ((plane : ℕ) → length (shown_plane hs plane).pixels ≤ (shown_plane hs plane).size_zs)
unfolding converting
converting-shown blocks h =
    let hs = event_hits (drop 10 blocks) in
    let blank = replicate plane_count empty_plane in
    (
      rw
          (
            converting,
            shown_blocks blocks,
            draw_blocks-hits (drop 10 blocks) blank h,
            three_shown hs (draw_hits hs blank) (length-draw_hits hs blank) (λ plane.
                draw_hits-IsDrawn hs empty_plane blank plane
                  (event_hits-IsInside (drop 10 blocks) h) blank_planes),
          )
          refl,
      λ plane. length-pixels-le hs plane,
    )
