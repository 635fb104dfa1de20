-- ===== src/Base/Bytes.antt =====
-- Byte arrays (Uint8Array, ArrayBuffer, DataView) as lists of numbers, and text as a list of
-- UTF-16 code units. `set_at` is TypedArray.prototype.set and DataView's setters: a write that
-- does not fit throws a RangeError, which is `none`.
use Prim.Native.Char.{code}
use Prim.Native.String.{String}
use quicksend.Base.{
  ℕ, zero, suc, ◌+◌, ◌*◌, ◌/◌, ◌%◌, ◌^◌, ◌<◌, ◌≡◌, refl, ap, List, [], ◌∷◌, ◌++◌, Option, none,
  some, arith, leb, if◌then◌else◌, length, take, drop, replicate, length-append, length-replicate,
  take-append, drop-append, drop-drop, All,
}

abbrev pub Bytes : Type 0
Bytes = List ℕ

abbrev pub Text : Type 0
Text = List ℕ

abbrev pub IsByte : ℕ → Type 0
IsByte b = b < 256

-- The remainder is what a store into a Uint8Array keeps.
abbrev pub u8 : ℕ → ℕ
u8 n = n % 256

-- `new Uint8Array(n)`.
abbrev pub zeros : ℕ → Bytes
zeros n = replicate n 0

unfoldable pub overwrite : Bytes → ℕ → Bytes → Bytes
overwrite xs off bs = take off xs ++ (bs ++ drop (off + length bs) xs)

unfoldable pub set_at : Bytes → ℕ → Bytes → Option Bytes
unfolding overwrite
set_at xs off bs = if leb (off + length bs) (length xs) then some (overwrite xs off bs) else none

-- The `k` low bytes of a number, most significant first.
unfoldable pub big_endian : ℕ → ℕ → Bytes
big_endian zero n = []
big_endian (suc k) n = u8 (n / 256 ^ k) ∷ big_endian k n

-- The number that big-endian bytes stand for.
unfoldable pub from_big_endian : Bytes → ℕ
from_big_endian [] = 0
from_big_endian (b ∷ bs) = b * 256 ^ length bs + from_big_endian bs

-- `setBigUint64(_, BigInt(n), false)` and `setUint32(_, n, false)` keep 64 and 32 bits.
abbrev pub be64 : ℕ → Bytes
be64 n = big_endian 8 n

abbrev pub be32 : ℕ → Bytes
be32 n = big_endian 4 n

pub length-big_endian : (k n : ℕ) → length (big_endian k n) ≡ k
unfolding big_endian
length-big_endian zero n = refl
length-big_endian (suc k) n = ap suc (length-big_endian k n)

pub big_endian-IsByte : (k n : ℕ) → All IsByte (big_endian k n)
unfolding big_endian
big_endian-IsByte zero n = tt
big_endian-IsByte (suc k) n = (omega arith, big_endian-IsByte k n)

-- A write between two parts of the array replaces what lies between them.
pub set_at_middle :
    (xs ys zs bs : Bytes) (off : ℕ)
    → off ≡ length xs
    → length ys ≡ length bs
    → set_at (xs ++ (ys ++ zs)) off bs ≡ some (xs ++ (bs ++ zs))
unfolding set_at
set_at_middle xs ys zs bs off e l =
    ground (
      arith,
      length-append xs (ys ++ zs),
      length-append ys zs,
      take-append off xs (ys ++ zs) e,
      tail,
    )
  where
    tail : drop (off + length bs) (xs ++ (ys ++ zs)) ≡ zs
    tail =
        rw (← drop-drop (length bs) off (xs ++ (ys ++ zs)), drop-append off xs (ys ++ zs) e)
          (drop-append (length bs) ys zs (omega arith))

-- The same, where the array is known to consist of three parts.
pub set_at_parts :
    (arr xs ys zs bs : Bytes) (off : ℕ)
    → arr ≡ xs ++ (ys ++ zs)
    → off ≡ length xs
    → length ys ≡ length bs
    → set_at arr off bs ≡ some (xs ++ (bs ++ zs))
set_at_parts arr xs ys zs bs off p e l = rw p (set_at_middle xs ys zs bs off e l)

pub zeros-append : (m n : ℕ) → zeros (m + n) ≡ zeros m ++ zeros n
unfolding replicate
zeros-append zero n = ap zeros (omega arith)
zeros-append (suc m) n = rw suc-plus (ap (◌∷◌ 0) (zeros-append m n))
  where
    suc-plus : suc m + n ≡ suc (m + n)
    suc-plus = omega arith

pub length-zeros : (n : ℕ) → length (zeros n) ≡ n
length-zeros n = length-replicate n 0

-- Reading back a stored 64-bit number gives it modulo 2^64.
pub from_big_endian-be64 : (n : ℕ) → from_big_endian (be64 n) ≡ n % 2 ^ 64
unfolding from_big_endian big_endian
from_big_endian-be64 n = omega arith

-- The code points of a text: its bytes, if it is ASCII.
abbrev pub codes : String → List ℕ
codes String.[] = []
codes (String.◌∷◌ c s) = code c ∷ codes s
