-- ===== src/QrEncode/Pixels.antt =====
-- The picture on the canvas, pixel by pixel.
use quicksend.Base.{
  ℕ, zero, suc, ◌+◌, ◌*◌, ◌/◌, ◌-◌, ◌<◌, ◌≤◌, ◌≡◌, refl, Bool, true, false, ◌&&◌, List, [], ◌∷◌,
  ◌++◌, Option, none, some, leb, ltb, ◌==◌, if◌then◌else◌, arith, ap, ◌∙◌, max, Bool-cases, inl,
  inr,
}
use quicksend.Base.Bytes.{Text}
use native.Mathlib.Nat.{le-div_iff_mul-le, div-lt_iff_lt-mul, div-mul-le_self}
use quicksend.QrEncode.{QrCode, Rect, cell_size, cell, draw_row, draw_rows, render_qr}

abbrev pub covers : Rect → ℕ → ℕ → Bool
covers r x y = (leb r.x x && ltb x (r.x + r.width)) && (leb r.y y && ltb y (r.y + r.height))

-- The colour of a pixel after the rectangles, each drawn over those before it.
abbrev pub color_at : List Rect → ℕ → ℕ → Option Bool → Option Bool
color_at [] x y color = color
color_at (r ∷ rs) x y color = color_at rs x y (if covers r x y then some r.black else color)

leb-div : (s c x : ℕ) → 0 < s → leb (c * s) x ≡ leb c (x / s)
leb-div s c x h = ground (arith, le-div_iff_mul-le {k = s} {x = c} {y = x} h)

ltb-div : (s c x : ℕ) → 0 < s → ltb x (c * s + s) ≡ ltb (x / s) (c + 1)
ltb-div s c x h = ground (arith, div-lt_iff_lt-mul {k = s} {x = x} {y = c + 1} h)

-- Whether the module at `row` and from `col` on is the one that lies under a pixel.
abbrev in_cells : ℕ → ℕ → ℕ → ℕ → ℕ → Bool
in_cells row col count across down =
    (leb (col + 4) across && ltb across (col + 4 + count))
    && (leb (row + 4) down && ltb down (row + 4 + 1))

covers-cell :
    (s row col x y : ℕ) → 0 < s → covers (cell s row col) x y ≡ in_cells row col 1 (x / s) (y / s)
covers-cell s row col x y h = rw (
  leb-div s (col + 4) x h,
  ltb-div s (col + 4) x h,
  leb-div s (row + 4) y h,
  ltb-div s (row + 4) y h,
)

abbrev paint : Bool → Option Bool → Option Bool
paint dark color = if dark then some true else color

-- Drawing the first module of a row, and then those after it.
paint-cell :
    (is_dark : ℕ → ℕ → Bool) (row col count across down : ℕ) (color : Option Bool)
    → paint
        (in_cells row (col + 1) count across down && is_dark row (across - 4))
        (paint (in_cells row col 1 across down && is_dark row col) color)
      ≡ paint (in_cells row col (suc count) across down && is_dark row (across - 4)) color
paint-cell is_dark row col count across down color = elim (Bool-cases (across == col + 4)) [
  | inl here ↦ let e : across - 4 ≡ col = ground arith in rw e (ground arith)
  | inr other ↦ ground arith
]

color_at-append :
    (rs ss : List Rect) (x y : ℕ) (color : Option Bool)
    → color_at (rs ++ ss) x y color ≡ color_at ss x y (color_at rs x y color)
color_at-append [] ss x y color = refl
color_at-append (r ∷ rs) ss x y color =
    color_at-append rs ss x y (if covers r x y then some r.black else color)

color_at-if :
    (dark : Bool) (r : Rect) (rs : List Rect) (x y : ℕ) (color : Option Bool)
    → r.black ≡ true
    → color_at (if dark then r ∷ rs else rs) x y color
      ≡ color_at rs x y (paint (covers r x y && dark) color)
color_at-if true r rs x y color h = ap (color_at rs x y) (ground arith)
color_at-if false r rs x y color h = ap (color_at rs x y) (ground arith)

color_at-draw_row :
    (qr : QrCode) (s row col count x y : ℕ) (color : Option Bool)
    → 0 < s
    → color_at (draw_row qr s row col count) x y color
      ≡ paint (in_cells row col count (x / s) (y / s) && qr.is_dark row (x / s - 4)) color
unfolding draw_row
color_at-draw_row qr s row col zero x y color h = ground arith
color_at-draw_row qr s row col (suc count) x y color h =
    color_at-if (qr.is_dark row col) (cell s row col) (draw_row qr s row (col + 1) count) x y color
      refl
    ∙ rw (color_at-draw_row qr s row (col + 1) count x y _ h, covers-cell s row col x y h)
        (paint-cell qr.is_dark row col count (x / s) (y / s) color)

-- The same for the rows from `row` on, over the whole width.
abbrev pub in_rows : ℕ → ℕ → ℕ → ℕ → ℕ → Bool
in_rows row count n across down =
    (leb 4 across && ltb across (4 + n)) && (leb (row + 4) down && ltb down (row + 4 + count))

paint-row :
    (is_dark : ℕ → ℕ → Bool) (row count n across down : ℕ) (color : Option Bool)
    → paint
        (in_rows (row + 1) count n across down && is_dark (down - 4) (across - 4))
        (paint (in_cells row 0 n across down && is_dark row (across - 4)) color)
      ≡ paint (in_rows row (suc count) n across down && is_dark (down - 4) (across - 4)) color
paint-row is_dark row count n across down color = elim (Bool-cases (down == row + 4)) [
  | inl here ↦ let e : down - 4 ≡ row = ground arith in rw e (ground arith)
  | inr other ↦ ground arith
]

color_at-draw_rows :
    (qr : QrCode) (s row count x y : ℕ) (color : Option Bool)
    → 0 < s
    → color_at (draw_rows qr s row count) x y color
      ≡ paint
          (in_rows row count qr.module_count (x / s) (y / s) && qr.is_dark (y / s - 4) (x / s - 4))
          color
unfolding draw_rows
color_at-draw_rows qr s row zero x y color h = ground arith
color_at-draw_rows qr s row (suc count) x y color h =
    rw
      (
        color_at-append (draw_row qr s row 0 qr.module_count) (draw_rows qr s (row + 1) count) x y
            color,
        color_at-draw_row qr s row 0 qr.module_count x y color h,
        color_at-draw_rows qr s (row + 1) count x y _ h,
      )
      (paint-row qr.is_dark row count qr.module_count (x / s) (y / s) color)

-- The module of the code, with its quiet zone, that lies at a place of the picture.
abbrev pub dark_at : QrCode → ℕ → ℕ → Bool
dark_at qr down across =
    in_rows 0 qr.module_count qr.module_count across down && qr.is_dark (down - 4) (across - 4)

cell_size_pos : (qr : QrCode) (target : ℕ) → 0 < cell_size qr target
unfolding cell_size
cell_size_pos qr target = omega arith

max_fits : (t m : ℕ) → 0 < m → max 1 (t / m) * m ≤ max t m
max_fits t m h = elim (Bool-cases (leb 1 (t / m))) [
  | inl more ↦
      let e : max 1 (t / m) ≡ t / m = ground arith in rw e (omega (arith, div-mul-le_self t m))
  | inr none_fits ↦ let e : max 1 (t / m) ≡ 1 = ground arith in rw e (omega arith)
]

canvas_fits :
    (qr : QrCode) (target : ℕ)
    → cell_size qr target * (qr.module_count + 8) ≤ max target (qr.module_count + 8)
unfolding cell_size
canvas_fits qr target = max_fits target (qr.module_count + 8) (omega arith)

-- For every code that the generator gives, every text and every target size: a pixel of the canvas
-- is black if the module of the code at its cell is dark, and white in the quiet zone of four
-- modules and where the module is light, and the canvas is no wider than the larger of the target
-- size and one pixel for each module, the quiet zone included.
pub render_qr_pixels :
    (generate : Text → QrCode) (text : Text) (target x y : ℕ)
    → x < (render_qr generate text target).width
    → y < (render_qr generate text target).height
    → (color_at (render_qr generate text target).rects x y none
        ≡ some (
            dark_at
              (generate text)
              (y / cell_size (generate text) target)
              (x / cell_size (generate text) target)))
      × ((render_qr generate text target).width ≤ max target ((generate text).module_count + 8))
unfolding render_qr
render_qr_pixels generate text target x y hx hy =
    let qr = generate text in
    let s = cell_size qr target in
    (
      ap (color_at (draw_rows qr s 0 qr.module_count) x y) white
          ∙ color_at-draw_rows qr s 0 qr.module_count x y (some false) (cell_size_pos qr target)
          ∙ paint-white (dark_at qr (y / s) (x / s)),
      canvas_fits qr target,
    )
  where
    white :
        (if covers
            (record {
              x = 0;
              y = 0;
              width = (render_qr generate text target).width;
              height = (render_qr generate text target).height;
              black = false;
            })
            x
            y
          then some false
          else none)
        ≡ some false
    white = ground arith

    paint-white : (b : Bool) → paint b (some false) ≡ some b
    paint-white true = refl
    paint-white false = refl
