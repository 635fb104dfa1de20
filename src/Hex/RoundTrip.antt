-- ===== src/Hex/RoundTrip.antt =====
-- Hexadecimal text stands for its bytes, and the bytes for their text.
use quicksend.Base.{
  ℕ, suc, ◌+◌, ◌-◌, ◌*◌, ◌/◌, ◌<◌, ◌≡◌, refl, ap, Bool, true, ◌&&◌, ◌||◌, [], ◌∷◌, ◌++◌, arith, leb,
  ◌==◌, if◌then◌else◌, length, take, drop, All, length-append,
}
use mathlib.Core.Path.{ap₂}
use quicksend.Base.Bytes.{Bytes, Text, IsByte}
use quicksend.Base.Tables.{every_below, every_below_sound, list_eq, list_eq_sound}
use quicksend.Hex.{hex_digit, byte_to_hex, to_hex, parse_byte, parse_bytes, from_hex}

byte_table :
    every_below (λ b. length (byte_to_hex b) == 2 && (parse_byte (byte_to_hex b) == b)) 256 ≡ true
unfolding every_below byte_to_hex parse_byte
byte_table = refl

-- Every byte is written as two digits, which are read as that byte.
pub byte_to_hex_lem :
    (b : ℕ) → IsByte b → (length (byte_to_hex b) ≡ 2) × (parse_byte (byte_to_hex b) ≡ b)
byte_to_hex_lem b h = ground (arith, every_below_sound _ 256 b h byte_table)

-- Two characters in front make one byte.
parse_bytes-cons :
    (n : ℕ) (two rest : Text)
    → length two ≡ 2
    → parse_bytes (suc n) (two ++ rest) ≡ parse_byte two ∷ parse_bytes n rest
unfolding parse_bytes take drop
parse_bytes-cons n [] rest h = absurd (omega arith)
parse_bytes-cons n (c ∷ []) rest h = absurd (omega arith)
parse_bytes-cons n (c ∷ d ∷ []) rest h = refl
parse_bytes-cons n (c ∷ d ∷ e ∷ cs) rest h = absurd (omega arith)

pub length-to_hex : (bytes : Bytes) → All IsByte bytes → length (to_hex bytes) ≡ 2 * length bytes
unfolding to_hex
length-to_hex [] h = omega arith
length-to_hex (b ∷ bs) h = omega (
  arith,
  length-append (byte_to_hex b) (to_hex bs),
  (byte_to_hex_lem b h.0).0,
  length-to_hex bs h.1,
)

parse_bytes-to_hex :
    (bytes : Bytes) → All IsByte bytes → parse_bytes (length bytes) (to_hex bytes) ≡ bytes
unfolding to_hex parse_bytes
parse_bytes-to_hex [] h = refl
parse_bytes-to_hex (b ∷ bs) h =
    let (two, value) = byte_to_hex_lem b h.0 in
    cc (
      parse_bytes-cons (length bs) (byte_to_hex b) (to_hex bs) two,
      value,
      parse_bytes-to_hex bs h.1,
    )

-- fromHex reads back what toHex wrote, for every array of bytes.
pub from_hex-to_hex : (bytes : Bytes) → All IsByte bytes → from_hex (to_hex bytes) ≡ bytes
unfolding from_hex
from_hex-to_hex bytes h =
    rw (half (length bytes) (length (to_hex bytes)) (length-to_hex bytes h))
      (parse_bytes-to_hex bytes h)
  where
    half : (n m : ℕ) → m ≡ 2 * n → m / 2 ≡ n
    half n m e = omega arith

-- toHex is injective, so equal texts name equal files.
pub to_hex-injective :
    (xs ys : Bytes) → All IsByte xs → All IsByte ys → to_hex xs ≡ to_hex ys → xs ≡ ys
to_hex-injective xs ys hx hy e = cc (from_hex-to_hex xs hx, from_hex-to_hex ys hy, ap from_hex e)

abbrev pub is_hex_digit : ℕ → Bool
is_hex_digit c = (leb b'0' c && leb c b'9') || (leb b'a' c && leb c b'f')

-- Lower-case digits in pairs: what toHex writes.
abbrev pub IsHex : Text → Type 0
IsHex [] = Unit {0}
IsHex (c ∷ []) = ⊥
IsHex (c ∷ d ∷ cs) = (is_hex_digit c ≡ true) × (is_hex_digit d ≡ true) × IsHex cs

pair_table :
    every_below
      (λ h.
        every_below
          (λ l.
            let two : Text = hex_digit h ∷ hex_digit l ∷ [] in
            list_eq (byte_to_hex (parse_byte two)) two)
          16)
      16
    ≡ true
unfolding every_below byte_to_hex parse_byte list_eq
pair_table = refl

digit_of : (c : ℕ) → is_hex_digit c ≡ true → (d : ℕ) × (d < 16) × (hex_digit d ≡ c)
digit_of c h = (if leb c b'9' then c - b'0' else c - b'a' + 10, ground arith, ground arith)

pair_lem :
    (c d : ℕ)
    → is_hex_digit c ≡ true
    → is_hex_digit d ≡ true
    → byte_to_hex (parse_byte (c ∷ d ∷ [])) ≡ c ∷ d ∷ []
pair_lem c d hc hd =
    let (h, hl, he) = digit_of c hc in
    let (l, ll, le) = digit_of d hd in
    rw (← he, ← le)
      (list_eq_sound _ _ (every_below_sound _ 16 l ll (every_below_sound _ 16 h hl pair_table)))

-- toHex writes back what fromHex read, for every even number of lower-case hexadecimal digits.
to_hex-from_hex : (hex : Text) → IsHex hex → to_hex (from_hex hex) ≡ hex
unfolding from_hex to_hex parse_bytes take drop
to_hex-from_hex [] h = refl
to_hex-from_hex (c ∷ []) h = absurd h
to_hex-from_hex (c ∷ d ∷ cs) h = rw half (ap₂ ◌++◌ (pair_lem c d h.0 h.1) (to_hex-from_hex cs h.2))
  where
    half : suc (suc (length cs)) / 2 ≡ suc (length cs / 2)
    half = omega arith
