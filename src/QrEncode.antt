-- ===== src/QrEncode.antt =====
-- web/qr-encode.js: the drawing of a QR code. The vendored generator is a parameter.
pub mod Pixels
use quicksend.Base.{
  ℕ, zero, suc, ◌+◌, ◌*◌, ◌/◌, max, Bool, true, false, ◌&&◌, List, [], ◌∷◌, ◌++◌, Option, some, leb,
  ltb, if◌then◌else◌,
}
use quicksend.Base.Bytes.{Text}

-- What the generator gives for a text: `getModuleCount` and `isDark`.
pub record QrCode : Type 0 where
  pub module_count : ℕ
  pub is_dark : ℕ → ℕ → Bool

-- `fillRect` with the colour of the moment, of which `true` is black.
pub record Rect : Type 0 where
  pub x : ℕ
  pub y : ℕ
  pub width : ℕ
  pub height : ℕ
  pub black : Bool

pub record Canvas : Type 0 where
  pub width : ℕ
  pub height : ℕ
  pub rects : List Rect

abbrev pub quiet_zone_modules : ℕ
quiet_zone_modules = 4

unfoldable pub cell_size : QrCode → ℕ → ℕ
cell_size qr target = max 1 (target / (qr.module_count + quiet_zone_modules * 2))

abbrev pub cell : ℕ → ℕ → ℕ → Rect
cell size row col = record {
  x = (col + quiet_zone_modules) * size;
  y = (row + quiet_zone_modules) * size;
  width = size;
  height = size;
  black = true;
}

-- The loops over the columns of a row and over the rows: the last argument counts the rounds left.
unfoldable pub draw_row : QrCode → ℕ → ℕ → ℕ → ℕ → List Rect
draw_row qr size row col zero = []
draw_row qr size row col (suc left) =
    let rest = draw_row qr size row (col + 1) left in
    if qr.is_dark row col then cell size row col ∷ rest else rest

unfoldable pub draw_rows : QrCode → ℕ → ℕ → ℕ → List Rect
unfolding draw_row
draw_rows qr size row zero = []
draw_rows qr size row (suc left) =
    draw_row qr size row 0 qr.module_count ++ draw_rows qr size (row + 1) left

unfoldable pub render_qr : (Text → QrCode) → Text → ℕ → Canvas
unfolding cell_size draw_rows
render_qr generate text target =
    let qr = generate text in
    let cells = cell_size qr target in
    let size = cells * (qr.module_count + quiet_zone_modules * 2) in
    record {
      width = size;
      height = size;
      rects =
          record { x = 0; y = 0; width = size; height = size; black = false }
          ∷ draw_rows qr cells 0 qr.module_count;
    }
