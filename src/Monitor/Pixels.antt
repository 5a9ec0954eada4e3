-- ===== src/Monitor/Pixels.antt =====
-- The pixels of a plane of AHCalRawEvent2StdEventConverter.cc, and their number.
use eudaq_ahcal.Base.{
  ℕ, zero, suc, ◌+◌, ◌*◌, ◌≤◌, List, [], ◌∷◌, ◌++◌, ◌≡◌, refl, sym, ap, subst, ◌∙◌, arith, true,
  false, ◌&&◌, Option, none, some, ◌==◌, if◌then◌else◌, Bool-cases, inl, inr, ltb, leb, length,
  length-append, get_or,
}
use eudaq_ahcal.Monitor.{StandardPlane, pixel_at, row_pixels, plane_pixels}
use eudaq_ahcal.Monitor.Drawn.{Hit}
use eudaq_ahcal.Monitor.Planes.{last_value, count}

-- The pixels of the tiles from (x, y) on in a row, and of the rows from x on, for a value by the tile.
abbrev pub row_of : (ℕ → Option ℕ) → ℕ → ℕ → ℕ → List (ℕ × ℕ × ℕ)
row_of g x y zero = []
row_of g x y (suc n) = pixel_at x y (g (x * 12 + y)) ++ row_of g x (suc y) n

abbrev pub rows_of : (ℕ → Option ℕ) → ℕ → ℕ → List (ℕ × ℕ × ℕ)
rows_of g x zero = []
rows_of g x (suc n) = row_of g x 0 12 ++ rows_of g (suc x) n

-- The plane that shows the last value on each tile, with its number of hits as the size.
abbrev pub shown_plane : List Hit → ℕ → StandardPlane
shown_plane hs plane = record {
  sensor_id = plane;
  size_zs = count plane hs;
  pixels = rows_of (λ i. last_value plane i hs none) 0 12;
}

row_pixels-row_of :
    (cells : List (Option ℕ)) (g : ℕ → Option ℕ) (x y n : ℕ)
    → ((i : ℕ) → get_or cells i none ≡ g i)
    → row_pixels cells x y n ≡ row_of g x y n
unfolding row_pixels
row_pixels-row_of cells g x y zero h = refl
row_pixels-row_of cells g x y (suc n) h =
    rw (row_pixels, h (x * 12 + y), row_pixels-row_of cells g x (suc y) n h) refl

pub plane_pixels-rows_of :
    (cells : List (Option ℕ)) (g : ℕ → Option ℕ) (x n : ℕ)
    → ((i : ℕ) → get_or cells i none ≡ g i)
    → plane_pixels cells x n ≡ rows_of g x n
unfolding plane_pixels
plane_pixels-rows_of cells g x zero h = refl
plane_pixels-rows_of cells g x (suc n) h =
    rw (plane_pixels, row_pixels-row_of cells g x 0 12 h, plane_pixels-rows_of cells g (suc x) n h)
      refl

-- How many tiles have a value, in a part of a row and in rows.
abbrev value_count : Option ℕ → ℕ
value_count none = 0
value_count (some v) = 1

abbrev filled_row : (ℕ → Option ℕ) → ℕ → ℕ → ℕ → ℕ
filled_row g x y zero = 0
filled_row g x y (suc n) = value_count (g (x * 12 + y)) + filled_row g x (suc y) n

unfoldable filled_rows : (ℕ → Option ℕ) → ℕ → ℕ → ℕ
filled_rows g x zero = 0
filled_rows g x (suc n) = filled_row g x 0 12 + filled_rows g (suc x) n

length-pixel_at : (x y : ℕ) (v : Option ℕ) → length (pixel_at x y v) ≡ value_count v
length-pixel_at x y none = refl
length-pixel_at x y (some v) = refl

length-row_of : (g : ℕ → Option ℕ) (x y n : ℕ) → length (row_of g x y n) ≡ filled_row g x y n
length-row_of g x y zero = refl
length-row_of g x y (suc n) = omega (
  arith,
  length-append (pixel_at x y (g (x * 12 + y))) (row_of g x (suc y) n),
  length-pixel_at x y (g (x * 12 + y)),
  length-row_of g x (suc y) n,
)

length-rows_of : (g : ℕ → Option ℕ) (x n : ℕ) → length (rows_of g x n) ≡ filled_rows g x n
unfolding filled_rows
length-rows_of g x zero = refl
length-rows_of g x (suc n) =
    length-append (row_of g x 0 12) (rows_of g (suc x) n)
    ∙ ap (λ m. m + length (rows_of g (suc x) n)) (length-row_of g x 0 12)
    ∙ ap (λ m. filled_row g x 0 12 + m) (length-rows_of g (suc x) n)

-- Whether a tile is among `n` from `a` on.
abbrev among : ℕ → ℕ → ℕ → ℕ
among idx a n = if leb a idx && ltb idx (a + n) then 1 else 0

-- The value of at most one tile is new.
abbrev FillsOne : ℕ → (ℕ → Option ℕ) → (ℕ → Option ℕ) → Type 0
FillsOne idx g g' = (i : ℕ) → value_count (g' i) ≤ value_count (g i) + (if idx == i then 1 else 0)

among-suc :
    (idx a n c c' r r' : ℕ)
    → c' ≤ c + (if idx == a then 1 else 0)
    → r' ≤ r + among idx (suc a) n
    → c' + r' ≤ c + r + among idx a (suc n)
among-suc idx a n c c' r r' hc hr = ground (arith, hc, hr)

filled_row_one :
    (idx : ℕ) (g g' : ℕ → Option ℕ) (x y n : ℕ)
    → FillsOne idx g g'
    → filled_row g' x y n ≤ filled_row g x y n + among idx (x * 12 + y) n
filled_row_one idx g g' x y zero h = omega arith
filled_row_one idx g g' x y (suc n) h = among-suc idx (x * 12 + y) n _ _ _ _ (h (x * 12 + y)) (
    subst (λ a. filled_row g' x (suc y) n ≤ filled_row g x (suc y) n + among idx a n) (omega arith)
      (filled_row_one idx g g' x (suc y) n h))

among-split :
    (idx x n c c' r r' : ℕ)
    → c' ≤ c + among idx (x * 12 + 0) 12
    → r' ≤ r + among idx (suc x * 12) (n * 12)
    → c' + r' ≤ c + r + among idx (x * 12) (suc n * 12)
among-split idx x n c c' r r' hc hr = ground (arith, hc, hr)

filled_rows_one :
    (idx : ℕ) (g g' : ℕ → Option ℕ) (x n : ℕ)
    → FillsOne idx g g'
    → filled_rows g' x n ≤ filled_rows g x n + among idx (x * 12) (n * 12)
unfolding filled_rows
filled_rows_one idx g g' x zero h = omega arith
filled_rows_one idx g g' x (suc n) h =
    among-split idx x n (filled_row g x 0 12) (filled_row g' x 0 12) (filled_rows g (suc x) n)
      (filled_rows g' (suc x) n) (filled_row_one idx g g' x 0 12 h)
      (filled_rows_one idx g g' (suc x) n h)

-- A hit fills at most one tile, of its own plane.
hit_fills :
    (h : Hit) (plane : ℕ) (g : ℕ → Option ℕ)
    → filled_rows (λ i. if h.plane == plane && h.index == i then some h.value else g i) 0 12
      ≤ filled_rows g 0 12 + (if h.plane == plane then 1 else 0)
hit_fills h plane g = elim (Bool-cases (h.plane == plane)) [
  | inl same ↦
      subst (λ b. filled_rows g' 0 12 ≤ filled_rows g 0 12 + (if b then 1 else 0)) (sym same)
        (at_most_one h.index _ _ (filled_rows_one h.index g g' 0 12 (λ i. fills i same (g i))))
  | inr other ↦
      subst (λ b. filled_rows g' 0 12 ≤ filled_rows g 0 12 + (if b then 1 else 0)) (sym other)
        (stays_out _ _ (filled_rows_one 144 g g' 0 12 (λ i. keeps i other (g i))))
]
  where
    g' : ℕ → Option ℕ
    g' i = if h.plane == plane && h.index == i then some h.value else g i

    fills :
        (i : ℕ)
        → (h.plane == plane) ≡ true
        → (o : Option ℕ)
        → value_count (if h.plane == plane && h.index == i then some h.value else o)
          ≤ value_count o + (if h.index == i then 1 else 0)
    fills i same o = ground (arith, same)

    keeps :
        (i : ℕ)
        → (h.plane == plane) ≡ false
        → (o : Option ℕ)
        → value_count (if h.plane == plane && h.index == i then some h.value else o)
          ≤ value_count o + (if 144 == i then 1 else 0)
    keeps i other o = ground (arith, other)

    at_most_one : (idx m n : ℕ) → m ≤ n + among idx 0 144 → m ≤ n + 1
    at_most_one idx m n le = ground (arith, le)

    stays_out : (m n : ℕ) → m ≤ n + among 144 0 144 → m ≤ n + 0
    stays_out m n le = ground (arith, le)

-- A plane has no more pixels than hits.
filled_rows-count :
    (plane : ℕ) (hs : List Hit) (g : ℕ → Option ℕ)
    → filled_rows (λ i. last_value plane i hs (g i)) 0 12 ≤ count plane hs + filled_rows g 0 12
filled_rows-count plane [] g = omega arith
filled_rows-count plane (h ∷ hs) g =
    let rest =
      filled_rows-count plane hs
        (λ i. if h.plane == plane && h.index == i then some h.value else g i) in
    omega (arith, rest, hit_fills h plane g)

filled_row-none : (x y n : ℕ) → filled_row (λ i. none) x y n ≡ 0
filled_row-none x y zero = refl
filled_row-none x y (suc n) = omega (arith, filled_row-none x (suc y) n)

filled_rows-none : (x n : ℕ) → filled_rows (λ i. none) x n ≡ 0
unfolding filled_rows
filled_rows-none x zero = refl
filled_rows-none x (suc n) = omega (arith, filled_row-none x 0 12, filled_rows-none (suc x) n)

pub length-pixels-le :
    (hs : List Hit) (plane : ℕ) → length (shown_plane hs plane).pixels ≤ count plane hs
length-pixels-le hs plane = omega (
  arith,
  length-rows_of (λ i. last_value plane i hs none) 0 12,
  filled_rows-count plane hs (λ i. none),
  filled_rows-none 0 12,
)
