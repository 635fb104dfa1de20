-- ===== src/Base64Url.antt =====
-- web/base64url.js: unpadded base64url. `btoa` and `atob` are written out as the browser's own
-- base64 is specified ("forgiving-base64"): `atob` throws on what it cannot read, here `none`.
pub mod RoundTrip
use quicksend.Base.{
  ℕ, zero, suc, ◌+◌, ◌-◌, ◌*◌, ◌/◌, ◌%◌, Bool, true, false, ◌&&◌, ◌||◌, List, [], ◌∷◌, ◌++◌, Option,
  none, some, ltb, leb, ◌==◌, if◌then◌else◌, length, replicate, map,
}
use quicksend.Base.Bytes.{Bytes, Text}
use quicksend.Base.Options.{◌>>=◌}

-- The standard alphabet: the character of a 6-bit value, and back.
abbrev pub code_of : ℕ → ℕ
code_of x =
    if ltb x 26
    then b'A' + x
    else if ltb x 52
    then b'a' + (x - 26)
    else if ltb x 62
    then b'0' + (x - 52)
    else if x == 62
    then b'+'
    else b'/'

abbrev pub value_of : ℕ → Option ℕ
value_of c =
    if leb b'A' c && leb c b'Z'
    then some (c - b'A')
    else if leb b'a' c && leb c b'z'
    then some (c - b'a' + 26)
    else if leb b'0' c && leb c b'9'
    then some (c - b'0' + 52)
    else if c == b'+'
    then some 62
    else if c == b'/'
    then some 63
    else none

-- The browser's `btoa`, on characters below 256.
unfoldable pub btoa : Text → Text
btoa [] = []
btoa (a ∷ []) = code_of (a / 4) ∷ code_of (a % 4 * 16) ∷ b'=' ∷ b'=' ∷ []
btoa (a ∷ b ∷ []) =
    code_of (a / 4) ∷ code_of (a % 4 * 16 + b / 16) ∷ code_of (b % 16 * 4) ∷ b'=' ∷ []
btoa (a ∷ b ∷ c ∷ rest) =
    code_of (a / 4)
    ∷ code_of (a % 4 * 16 + b / 16)
    ∷ code_of (b % 16 * 4 + c / 64)
    ∷ code_of (c % 64)
    ∷ btoa rest

abbrev is_ascii_space : ℕ → Bool
is_ascii_space c = c == 9 || (c == 10 || (c == 12 || (c == 13 || c == 32)))

unfoldable pub remove_space : Text → Text
remove_space [] = []
remove_space (c ∷ cs) = if is_ascii_space c then remove_space cs else c ∷ remove_space cs

-- One "=" at the end is taken off.
unfoldable pub chop : Text → Text
chop [] = []
chop (c ∷ []) = if c == b'=' then [] else c ∷ []
chop (c ∷ d ∷ cs) = c ∷ chop (d ∷ cs)

unfoldable pub unpad : Text → Text
unfolding chop
unpad text = if length text % 4 == 0 then chop (chop text) else text

-- Four characters make three bytes; the spare bits of a shorter group are dropped, and a single
-- character left over is an error.
unfoldable pub decode_groups : Text → Option Text
decode_groups [] = some []
decode_groups (c ∷ []) = none
decode_groups (c ∷ d ∷ []) = do x ← value_of c; y ← value_of d; some ((x * 4 + y / 16) ∷ [])
decode_groups (c ∷ d ∷ e ∷ []) = do
  x ← value_of c
  y ← value_of d
  z ← value_of e
  some ((x * 4 + y / 16) ∷ (y % 16 * 16 + z / 4) ∷ [])
decode_groups (c ∷ d ∷ e ∷ f ∷ rest) = do
  x ← value_of c
  y ← value_of d
  z ← value_of e
  w ← value_of f
  bytes ← decode_groups rest
  some ((x * 4 + y / 16) ∷ (y % 16 * 16 + z / 4) ∷ (z % 4 * 64 + w) ∷ bytes)

-- The browser's `atob`.
unfoldable pub atob : Text → Option Text
unfolding remove_space unpad decode_groups
atob text = decode_groups (unpad (remove_space text))

-- `.replace(/\+/g, "-").replace(/\//g, "_")`, and the two the other way round.
abbrev pub to_url : ℕ → ℕ
to_url c = if c == b'+' then b'-' else if c == b'/' then b'_' else c

abbrev pub from_url : ℕ → ℕ
from_url c = if c == b'-' then b'+' else if c == b'_' then b'/' else c

abbrev is_empty : Text → Bool
is_empty [] = true
is_empty (c ∷ cs) = false

-- `.replace(/=+$/, "")`.
unfoldable pub strip_padding : Text → Text
strip_padding [] = []
strip_padding (c ∷ cs) =
    let rest = strip_padding cs in if c == b'=' && is_empty rest then [] else c ∷ rest

-- A byte and its character have one number, so the loop over `String.fromCharCode` is the identity.
unfoldable pub encode : Bytes → Text
unfolding btoa strip_padding
encode bytes = strip_padding (map to_url (btoa bytes))

unfoldable pub decode : Text → Option Bytes
unfolding atob replicate
decode text =
    let normalized = map from_url text in
    atob (normalized ++ replicate ((4 - length normalized % 4) % 4) b'=')
