-- ===== src/Tests/Codecs.antt =====
-- web/hex.js, web/base64url.js, web/crypto.js and the chunk frame on small inputs.
use quicksend.Base.{ℕ, ◌+◌, ◌≡◌, refl, ◌↔◌, true, [], ◌∷◌, some, arith, length, replicate, All}
use quicksend.Base.Bytes.{Bytes, IsByte, codes, zeros}
use quicksend.Base.Results.{ok}
use quicksend.Hex.{to_hex}
use quicksend.Base64Url.{encode, decode}
use quicksend.Base64Url.RoundTrip.{decode-encode}
use quicksend.Crypto.{encrypt_chunk, decrypt_chunk}
use quicksend.Crypto.Layout.{chunk_aad-injective}
use quicksend.Crypto.Chunks.{decrypt_chunk-encrypt_chunk}
use quicksend.Frame.{build_chunk_frame, parse_chunk_frame}
use quicksend.Frame.RoundTrip.{frame_of, parse-build_chunk_frame}
use quicksend.Tests.Instances.{toy_crypto, toy_laws}

abbrev four_bytes : Bytes
four_bytes = 0 ∷ 9 ∷ 171 ∷ 255 ∷ []

four_are_bytes : All IsByte four_bytes
four_are_bytes = (omega arith, (omega arith, (omega arith, (omega arith, tt))))

to_hex_test : to_hex four_bytes ≡ codes "0009abff"
unfolding to_hex
to_hex_test = refl

encode_test : encode four_bytes ≡ codes "AAmr_w"
unfolding encode
encode_test = refl

decode-encode_example : decode (encode four_bytes) ≡ some four_bytes
decode-encode_example = decode-encode four_bytes four_are_bytes

abbrev id : Bytes
id = replicate 16 171

chunk_aad-injective_example : (id ≡ id) × (◌≡◌ {A = ℕ} 7 7) × (true ≡ true)
chunk_aad-injective_example =
    chunk_aad-injective id id 7 7 true true refl (omega arith) (omega arith) refl

decrypt_chunk-encrypt_chunk_example :
    (decrypt_chunk toy_crypto (zeros 32) id 7 true four_bytes ≡ ok [])
    ↔ (encrypt_chunk toy_crypto (zeros 32) id 7 true [] ≡ ok four_bytes)
decrypt_chunk-encrypt_chunk_example =
    decrypt_chunk-encrypt_chunk toy_crypto toy_laws (zeros 32) id 7 true [] four_bytes

parse-build_chunk_frame_example :
    (frame : Bytes) × (build_chunk_frame id 7 true four_bytes ≡ ok frame)
    × (length frame ≡ 26 + length four_bytes)
    × (parse_chunk_frame frame ≡ some (frame_of id 7 true four_bytes))
unfolding replicate
parse-build_chunk_frame_example = parse-build_chunk_frame id 7 true four_bytes refl (omega arith)
