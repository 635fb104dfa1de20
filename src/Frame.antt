-- ===== src/Frame.antt =====
-- web/transfer.js, buildChunkFrame and parseChunkFrame: the binary message that carries one chunk.
pub mod RoundTrip
use quicksend.Base.{
  ℕ, ◌+◌, ◌%◌, Bool, ◌&&◌, ◌||◌, not, List, [], ◌∷◌, Option, none, some, ltb, ◌==◌, if◌then◌else◌,
  length, get_or, take, drop,
}
use quicksend.Base.Bytes.{Bytes, zeros, be64, set_at, from_big_endian}
use quicksend.Base.Results.{Result, ok, ◌>>=◌, or_throw, range_error}

abbrev pub frame_type_chunk : ℕ
frame_type_chunk = 0x01

pub record ChunkFrame : Type 0 where
  pub file_id : Bytes
  pub index : ℕ
  pub is_last : Bool
  pub ciphertext : Bytes

-- `array[offset] = byte`, on offsets that are in range here.
abbrev set_byte : Bytes → ℕ → ℕ → Result Bytes
set_byte bytes offset byte = or_throw range_error (set_at bytes offset (byte ∷ []))

unfoldable pub build_chunk_frame : Bytes → ℕ → Bool → Bytes → Result Bytes
build_chunk_frame file_id index is_last ciphertext = do
  let blank = zeros (1 + 1 + 16 + 8 + length ciphertext)
  typed ← set_byte blank 0 frame_type_chunk
  flagged ← set_byte typed 1 (if is_last then 1 else 0)
  named ← or_throw range_error (set_at flagged 2 file_id)
  numbered ← or_throw range_error (set_at named 18 (be64 index))
  or_throw range_error (set_at numbered 26 ciphertext)

-- `bytes[1] & 1` is the remainder by 2, and `slice(a, b)` the `b - a` bytes from `a` on.
unfoldable pub parse_chunk_frame : Bytes → Option ChunkFrame
parse_chunk_frame bytes =
    if ltb (length bytes) 26 || not (get_or bytes 0 0 == frame_type_chunk)
    then none
    else some (record {
      file_id = take 16 (drop 2 bytes);
      index = from_big_endian (take 8 (drop 18 bytes));
      is_last = get_or bytes 1 0 % 2 == 1;
      ciphertext = drop 26 bytes;
    })
