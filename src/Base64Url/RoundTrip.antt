-- ===== src/Base64Url/RoundTrip.antt =====
-- Every array of bytes survives encoding and decoding.
use quicksend.Base.{
  ℕ, zero, suc, ◌+◌, ◌-◌, ◌*◌, ◌/◌, ◌%◌, ◌<◌, ◌≡◌, refl, ap, ◌∙◌, [], ◌∷◌, ◌++◌, some, arith,
  length, replicate, All, length-append, length-replicate, append-nil, append_assoc, map,
}
use mathlib.Core.Path.{ap₂}
use quicksend.Base.Bytes.{Bytes, Text, IsByte}
use quicksend.Base64Url.{
  code_of, value_of, btoa, remove_space, chop, unpad, decode_groups, atob, to_url, from_url,
  strip_padding, encode, decode,
}

-- The characters of the encoding, without padding and in the standard alphabet.
pub plain : Bytes → Text
plain [] = []
plain (a ∷ []) = code_of (a / 4) ∷ code_of (a % 4 * 16) ∷ []
plain (a ∷ b ∷ []) = code_of (a / 4) ∷ code_of (a % 4 * 16 + b / 16) ∷ code_of (b % 16 * 4) ∷ []
plain (a ∷ b ∷ c ∷ rest) =
    code_of (a / 4)
    ∷ code_of (a % 4 * 16 + b / 16)
    ∷ code_of (b % 16 * 4 + c / 64)
    ∷ code_of (c % 64)
    ∷ plain rest

pads : Bytes → ℕ
pads [] = 0
pads (a ∷ []) = 2
pads (a ∷ b ∷ []) = 1
pads (a ∷ b ∷ c ∷ rest) = pads rest

abbrev pub IsCode : ℕ → Type 0
IsCode c = (x : ℕ) × (x < 64) × (c ≡ code_of x)

value_of-code_of : (x : ℕ) → x < 64 → value_of (code_of x) ≡ some x
value_of-code_of x h = ground arith

from_url-to_url : (c : ℕ) → IsCode c → from_url (to_url c) ≡ c
from_url-to_url c (x, h, e) = ground arith

pub plain-IsCode : (bytes : Bytes) → All IsByte bytes → All IsCode (plain bytes)
unfolding plain
plain-IsCode [] h = tt
plain-IsCode (a ∷ []) h = ((a / 4, omega arith, refl), ((a % 4 * 16, omega arith, refl), tt))
plain-IsCode (a ∷ b ∷ []) h = (
  (a / 4, omega arith, refl),
  ((a % 4 * 16 + b / 16, omega arith, refl), ((b % 16 * 4, omega arith, refl), tt)),
)
plain-IsCode (a ∷ b ∷ c ∷ rest) h = (
  (a / 4, omega arith, refl),
  (
    (a % 4 * 16 + b / 16, omega arith, refl),
    (
      (b % 16 * 4 + c / 64, omega arith, refl),
      ((c % 64, omega arith, refl), plain-IsCode rest h.1.1.1),
    ),
  ),
)

btoa-plain : (bytes : Bytes) → btoa bytes ≡ plain bytes ++ replicate (pads bytes) b'='
unfolding btoa plain pads replicate
btoa-plain [] = refl
btoa-plain (a ∷ []) = refl
btoa-plain (a ∷ b ∷ []) = refl
btoa-plain (a ∷ b ∷ c ∷ rest) = cc (btoa-plain rest)

pads-length : (bytes : Bytes) → (4 - length (plain bytes) % 4) % 4 ≡ pads bytes
unfolding plain pads
pads-length [] = omega arith
pads-length (a ∷ []) = omega arith
pads-length (a ∷ b ∷ []) = omega arith
pads-length (a ∷ b ∷ c ∷ rest) = omega (arith, pads-length rest)

pads-lt : (bytes : Bytes) → pads bytes < 3
unfolding pads
pads-lt [] = omega arith
pads-lt (a ∷ []) = omega arith
pads-lt (a ∷ b ∷ []) = omega arith
pads-lt (a ∷ b ∷ c ∷ rest) = pads-lt rest

decode_groups-quad :
    (c d e f : ℕ) (rest bytes : Text) {x y z w : ℕ}
    → value_of c ≡ some x
    → value_of d ≡ some y
    → value_of e ≡ some z
    → value_of f ≡ some w
    → decode_groups rest ≡ some bytes
    → decode_groups (c ∷ d ∷ e ∷ f ∷ rest)
      ≡ some ((x * 4 + y / 16) ∷ (y % 16 * 16 + z / 4) ∷ (z % 4 * 64 + w) ∷ bytes)
unfolding decode_groups
decode_groups-quad c d e f rest bytes p q r s t = rw (p, q, r, s, t)

decode_groups-plain : (bytes : Bytes) → All IsByte bytes → decode_groups (plain bytes) ≡ some bytes
unfolding decode_groups plain
decode_groups-plain [] h = refl
decode_groups-plain (a ∷ []) h =
    rw (value_of-code_of (a / 4) (omega arith), value_of-code_of (a % 4 * 16) (omega arith))
      (ap (λ t. some (t ∷ [])) (omega arith))
decode_groups-plain (a ∷ b ∷ []) h =
    rw
      (
        value_of-code_of (a / 4) (omega arith),
        value_of-code_of (a % 4 * 16 + b / 16) (omega arith),
        value_of-code_of (b % 16 * 4) (omega arith),
      )
      (ap₂ (λ t u. some (t ∷ u ∷ [])) (omega arith) (omega arith))
decode_groups-plain (a ∷ b ∷ c ∷ rest) h =
    decode_groups-quad (code_of (a / 4)) (code_of (a % 4 * 16 + b / 16))
      (code_of (b % 16 * 4 + c / 64)) (code_of (c % 64)) (plain rest) rest
      (value_of-code_of (a / 4) (omega arith))
      (value_of-code_of (a % 4 * 16 + b / 16) (omega arith))
      (value_of-code_of (b % 16 * 4 + c / 64) (omega arith))
      (value_of-code_of (c % 64) (omega arith)) (decode_groups-plain rest h.1.1.1)
    ∙ ground arith

-- The padding goes, and nothing else does.
strip_padding-plain :
    (n : ℕ) (text : Text)
    → All IsCode text
    → strip_padding (map to_url (text ++ replicate n b'=')) ≡ map to_url text
unfolding strip_padding replicate
strip_padding-plain zero [] h = refl
strip_padding-plain (suc n) [] h = ground (arith, strip_padding-plain n [] tt)
strip_padding-plain n (c ∷ cs) h = ground (arith, strip_padding-plain n cs h.1)

pub encode-plain : (bytes : Bytes) → All IsByte bytes → encode bytes ≡ map to_url (plain bytes)
unfolding encode
encode-plain bytes h =
    rw (btoa-plain bytes) (strip_padding-plain (pads bytes) (plain bytes) (plain-IsCode bytes h))

map-from_url : (text : Text) → All IsCode text → map from_url (map to_url text) ≡ text
map-from_url [] h = refl
map-from_url (c ∷ cs) h = ap₂ ◌∷◌ (from_url-to_url c h.0) (map-from_url cs h.1)

remove_space-code :
    (n : ℕ) (text : Text)
    → All IsCode text
    → remove_space (text ++ replicate n b'=') ≡ text ++ replicate n b'='
unfolding remove_space replicate
remove_space-code zero [] h = refl
remove_space-code (suc n) [] h = ap (◌∷◌ b'=') (remove_space-code n [] tt)
remove_space-code n (c ∷ cs) h = ground (arith, remove_space-code n cs h.1)

chop-code : (text : Text) → All IsCode text → chop text ≡ text
unfolding chop
chop-code [] h = refl
chop-code (c ∷ []) h = ground arith
chop-code (c ∷ d ∷ cs) h = ap (◌∷◌ c) (chop-code (d ∷ cs) h.1)

chop-pad : (text : Text) → chop (text ++ (b'=' ∷ [])) ≡ text
unfolding chop
chop-pad [] = refl
chop-pad (c ∷ []) = refl
chop-pad (c ∷ d ∷ cs) = ap (◌∷◌ c) (chop-pad (d ∷ cs))

chop-chop :
    (n : ℕ) (text : Text) → n < 3 → All IsCode text → chop (chop (text ++ replicate n b'=')) ≡ text
unfolding replicate
chop-chop zero text l h = rw (append-nil text, chop-code text h) (chop-code text h)
chop-chop (suc zero) text l h = rw (chop-pad text) (chop-code text h)
chop-chop (suc (suc zero)) text l h =
    rw (← append_assoc text (b'=' ∷ []) (b'=' ∷ []), chop-pad (text ++ (b'=' ∷ []))) (chop-pad text)
chop-chop (suc (suc (suc n))) text l h = absurd (omega arith)

unpad-plain :
    (bytes : Bytes)
    → All IsByte bytes
    → unpad (plain bytes ++ replicate (pads bytes) b'=') ≡ plain bytes
unfolding unpad
unpad-plain bytes h = ground (
  arith,
  chop-chop (pads bytes) (plain bytes) (pads-lt bytes) (plain-IsCode bytes h),
  length-append (plain bytes) (replicate (pads bytes) b'='),
  length-replicate {A = ℕ} (pads bytes) b'=',
  pads-length bytes,
)

-- decode reads back what encode wrote, for every array of bytes.
pub decode-encode : (bytes : Bytes) → All IsByte bytes → decode (encode bytes) ≡ some bytes
unfolding decode
decode-encode bytes h =
    rw
      (
        encode-plain bytes h,
        map-from_url (plain bytes) (plain-IsCode bytes h),
        pads-length bytes,
        atob,
        remove_space-code (pads bytes) (plain bytes) (plain-IsCode bytes h),
        unpad-plain bytes h,
      )
      (decode_groups-plain bytes h)
