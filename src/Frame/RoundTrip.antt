-- ===== src/Frame/RoundTrip.antt =====
-- The layout of a frame, and that parsing reads back what building wrote.
use quicksend.Base.{
  ℕ, ◌+◌, ◌^◌, ◌%◌, ◌<◌, ◌≡◌, refl, sym, ap, ◌∙◌, Bool, [], ◌∷◌, ◌++◌, some, arith, length, take,
  drop, length-append, take-append, drop-append, append-nil, append_assoc, ◌==◌, drop-drop,
  replicate,
}
use quicksend.Base.Bytes.{
  Bytes, zeros, be64, set_at, length-big_endian, set_at_middle, set_at_parts, zeros-append,
  length-zeros, from_big_endian, from_big_endian-be64,
}
use quicksend.Base.Results.{ok}
use quicksend.Crypto.{flag_byte}
use quicksend.Frame.{ChunkFrame, build_chunk_frame, parse_chunk_frame}

-- Type, flag, id, index and ciphertext, one after the other.
abbrev pub layout : Bytes → ℕ → Bool → Bytes → Bytes
layout file_id index is_last ciphertext =
    (1 ∷ []) ++ ((flag_byte is_last ∷ []) ++ (file_id ++ (be64 index ++ ciphertext)))

zeros_five : (n : ℕ) → zeros (1 + 1 + 16 + 8 + n) ≡ 0 ∷ 0 ∷ (zeros 16 ++ (zeros 8 ++ zeros n))
zeros_five n = zeros-append 26 n ∙ unfold replicate in refl

pub build_chunk_frame_lem :
    (file_id : Bytes) (index : ℕ) (is_last : Bool) (ciphertext : Bytes)
    → length file_id ≡ 16
    → build_chunk_frame file_id index is_last ciphertext
      ≡ ok (layout file_id index is_last ciphertext)
unfolding build_chunk_frame
build_chunk_frame_lem id index is_last c h =
    rw
      (
        zeros_five (length c),
        set_at_middle [] (0 ∷ []) (0 ∷ (zeros 16 ++ (zeros 8 ++ zeros (length c)))) (1 ∷ []) 0 refl
            refl,
        set_at_middle (1 ∷ []) (0 ∷ []) (zeros 16 ++ (zeros 8 ++ zeros (length c)))
            (flag_byte is_last ∷ []) 1 refl refl,
        set_at_middle (1 ∷ flag_byte is_last ∷ []) (zeros 16) (zeros 8 ++ zeros (length c)) id 2
            refl (length-zeros 16 ∙ sym h),
        numbered,
        body,
      )
      refl
  where
    head : Bytes
    head = 1 ∷ flag_byte is_last ∷ id

    numbered :
        set_at (head ++ (zeros 8 ++ zeros (length c))) 18 (be64 index)
        ≡ some (head ++ (be64 index ++ zeros (length c)))
    numbered =
        set_at_middle head (zeros 8) (zeros (length c)) (be64 index) 18 (omega arith)
          (length-zeros 8 ∙ sym (length-big_endian 8 index))

    body : set_at (head ++ (be64 index ++ zeros (length c))) 26 c ≡ some (head ++ (be64 index ++ c))
    body =
        set_at_parts _ (head ++ be64 index) (zeros (length c)) [] c 26
          (sym (append_assoc head (be64 index) (zeros (length c)))
            ∙ ap (λ t. (head ++ be64 index) ++ t) (sym (append-nil (zeros (length c)))))
          (omega (arith, length-append head (be64 index), length-big_endian 8 index))
          (length-zeros (length c))
        ∙ ap some (
            append_assoc head (be64 index) (c ++ [])
            ∙ ap (λ t. head ++ (be64 index ++ t)) (append-nil c))

abbrev pub frame_of : Bytes → ℕ → Bool → Bytes → ChunkFrame
frame_of id index last c = record { file_id = id; index = index; is_last = last; ciphertext = c }

flag_parity : (last : Bool) → (flag_byte last % 2 == 1) ≡ last
flag_parity last = ground arith

pub parse-layout :
    (id : Bytes) (index : ℕ) (last : Bool) (c : Bytes)
    → length id ≡ 16
    → index < 2 ^ 64
    → parse_chunk_frame (layout id index last c) ≡ some (frame_of id index last c)
unfolding parse_chunk_frame
parse-layout id index last c h hi = ground (
  arith,
  flag_parity last,
  length-append id (be64 index ++ c),
  length-append (be64 index) c,
  length-big_endian 8 index,
  front,
  middle,
  rest,
  number,
)
  where
    whole : Bytes
    whole = layout id index last c

    front : take 16 (drop 2 whole) ≡ id
    front = unfold drop in take-append 16 id (be64 index ++ c) (sym h)

    after_id : drop 18 whole ≡ be64 index ++ c
    after_id =
        sym (drop-drop 16 2 whole) ∙ unfold drop in drop-append 16 id (be64 index ++ c) (sym h)

    middle : take 8 (drop 18 whole) ≡ be64 index
    middle = rw after_id (take-append 8 (be64 index) c (sym (length-big_endian 8 index)))

    rest : drop 26 whole ≡ c
    rest =
        sym (drop-drop 8 18 whole)
        ∙ ap (drop 8) after_id
        ∙ drop-append 8 (be64 index) c (sym (length-big_endian 8 index))

    number : from_big_endian (be64 index) ≡ index
    number = omega (arith, from_big_endian-be64 index)

-- For a 16-byte file id and an index below 2^64, buildChunkFrame gives a frame of 26 bytes and the
-- ciphertext, and parseChunkFrame finds in it the file id, index, flag and ciphertext that went in.
pub parse-build_chunk_frame :
    (file_id : Bytes) (index : ℕ) (is_last : Bool) (ciphertext : Bytes)
    → length file_id ≡ 16
    → index < 2 ^ 64
    → (frame : Bytes) × (build_chunk_frame file_id index is_last ciphertext ≡ ok frame)
      × (length frame ≡ 26 + length ciphertext)
      × (parse_chunk_frame frame ≡ some (frame_of file_id index is_last ciphertext))
parse-build_chunk_frame id index last c h hi = (
  layout id index last c,
  build_chunk_frame_lem id index last c h,
  omega (
    arith,
    length-append id (be64 index ++ c),
    length-append (be64 index) c,
    length-big_endian 8 index,
  ),
  parse-layout id index last c h hi,
)
