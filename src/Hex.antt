-- ===== src/Hex.antt =====
-- web/hex.js: bytes as lower-case hexadecimal text. `parseInt` and `toString` are written out as
-- the language defines them, on the arguments that the file passes.
pub mod RoundTrip
use quicksend.Base.{
  ℕ, zero, suc, ◌+◌, ◌-◌, ◌*◌, ◌/◌, ◌%◌, Bool, true, false, ◌&&◌, ◌||◌, List, [], ◌∷◌, ◌++◌, Option,
  none, some, ltb, leb, ◌==◌, if◌then◌else◌, length, take, drop, replicate, map,
}
use quicksend.Base.Bytes.{Bytes, Text, u8, zeros}
use mathlib.Core.List.{flatten}

-- The digit of a number below 16.
abbrev pub hex_digit : ℕ → ℕ
hex_digit d = if ltb d 10 then b'0' + d else b'a' + (d - 10)

-- `n.toString(16)`: no leading zeros, and "0" for zero. Each round takes a digit off, so the
-- number itself is fuel enough.
to_string_16 : ℕ → ℕ → Text
to_string_16 zero n = hex_digit n ∷ []
to_string_16 (suc fuel) n =
    let rest = to_string_16 fuel (n / 16) in
    if ltb n 16 then hex_digit n ∷ [] else rest ++ (hex_digit (n % 16) ∷ [])

-- `text.padStart(width, pad)` for a one-character pad.
pad_start : ℕ → ℕ → Text → Text
pad_start width pad text = replicate (width - length text) pad ++ text

unfoldable pub byte_to_hex : ℕ → Text
unfolding to_string_16 pad_start replicate
byte_to_hex b = pad_start 2 b'0' (to_string_16 b b)

unfoldable pub to_hex : Bytes → Text
unfolding byte_to_hex flatten
to_hex bytes = flatten (map byte_to_hex bytes)

-- What `parseInt` skips in front of a number.
abbrev is_white_space : ℕ → Bool
is_white_space c =
    (leb 9 c && leb c 13)
    || (c == 0x20
        || (c == 0xa0
            || (c == 0x1680
                || ((leb 0x2000 c && leb c 0x200a)
                    || (c == 0x2028
                        || (c == 0x2029
                            || (c == 0x202f || (c == 0x205f || (c == 0x3000 || c == 0xfeff)))))))))

-- A hexadecimal digit of either case.
abbrev pub digit_value : ℕ → Option ℕ
digit_value c =
    if leb b'0' c && leb c b'9'
    then some (c - b'0')
    else if leb b'a' c && leb c b'f'
    then some (c - b'a' + 10)
    else if leb b'A' c && leb c b'F'
    then some (c - b'A' + 10)
    else none

skip_white_space : Text → Text
skip_white_space [] = []
skip_white_space (c ∷ cs) = if is_white_space c then skip_white_space cs else c ∷ cs

-- The value of the longest run of digits in front; `none` is NaN, where there is no digit.
digits_from : ℕ → Text → ℕ
digits_from acc [] = acc
digits_from acc (c ∷ cs) = elim (digit_value c) [
  | none ↦ acc
  | some d ↦ digits_from (acc * 16 + d) cs
]

leading_digits : Text → Option ℕ
unfolding digits_from
leading_digits [] = none
leading_digits (c ∷ cs) = elim (digit_value c) [ none ↦ none | some d ↦ some (digits_from d cs) ]

-- An optional "0x" or "0X".
skip_prefix : Text → Text
skip_prefix [] = []
skip_prefix (c ∷ []) = c ∷ []
skip_prefix (c ∷ d ∷ cs) = if c == b'0' && (d == b'x' || d == b'X') then cs else c ∷ d ∷ cs

-- The sign, and what follows it.
split_sign : Text → Bool × Text
split_sign [] = (false, [])
split_sign (c ∷ cs) =
    if c == b'-' then (true, cs) else if c == b'+' then (false, cs) else (false, c ∷ cs)

-- A store into a Uint8Array: NaN gives 0, and a negative number wraps.
abbrev store : Bool → Option ℕ → ℕ
store negative none = 0
store false (some n) = u8 n
store true (some n) = u8 (256 - u8 n)

-- `bytes[i] = parseInt(text, 16)`.
unfoldable pub parse_byte : Text → ℕ
unfolding skip_white_space split_sign skip_prefix leading_digits
parse_byte text =
    let (negative, rest) = split_sign (skip_white_space text) in
    store negative (leading_digits (skip_prefix rest))

-- The loop over `n` bytes; `hex.substr(i * 2, 2)` is the front of what is left.
parse_bytes : ℕ → Text → Bytes
unfolding parse_byte take drop
parse_bytes zero hex = []
parse_bytes (suc n) hex = parse_byte (take 2 hex) ∷ parse_bytes n (drop 2 hex)

-- `new Uint8Array(hex.length / 2)` rounds an odd length down.
unfoldable pub from_hex : Text → Bytes
unfolding parse_bytes
from_hex hex = parse_bytes (length hex / 2) hex
