-- ===== src/Crypto.antt =====
-- web/crypto.js. The browser's Web Crypto is the parameter `WebCrypto`; what the file builds for
-- it (keys, nonces, associated data) is modelled byte by byte.
pub mod Platform
pub mod Layout
pub mod Chunks
use quicksend.Base.{ℕ, ◌+◌, ◌-◌, ◌^◌, Bool, List, [], ◌∷◌, ◌++◌, ◌==◌, if◌then◌else◌, length}
use quicksend.Base.Bytes.{Bytes, Text, zeros, be64, be32, set_at, codes}
use quicksend.Base.Results.{
  Field, session_key, epoch_key, file_id, file_key, bad_length, range_error, operation_error,
  Result, ok, throw, ◌>>=◌, ◌>>◌, or_throw,
}
use quicksend.Crypto.Platform.{WebCrypto}

abbrev pub key_size_bits : ℕ
key_size_bits = 256

abbrev pub nonce_size : ℕ
nonce_size = 12

abbrev pub file_id_size : ℕ
file_id_size = 16

-- 0xffffffffffffffffn, the index under which a file's metadata is encrypted.
abbrev pub metadata_chunk_index : ℕ
metadata_chunk_index = 0xffffffffffffffff

abbrev pub epoch_info : Bytes
epoch_info = codes "quicksend-epoch-v1"

abbrev pub file_info : Bytes
file_info = codes "quicksend-v1"

abbrev pub reconnect_info : Bytes
reconnect_info = codes "quicksend-reconnect"

unfoldable pub assert_length : Bytes → ℕ → Field → Result (Unit {0})
assert_length bytes expected name =
    if length bytes == expected then ok tt else throw (bad_length name expected (length bytes))

-- 4 zero bytes and the index, as 12 bytes.
unfoldable pub chunk_nonce : ℕ → Result Bytes
chunk_nonce index = or_throw range_error (set_at (zeros nonce_size) 4 (be64 index))

abbrev pub flag_byte : Bool → ℕ
flag_byte last = if last then 1 else 0

-- The file's id, the index, and the last-chunk flag.
unfoldable pub chunk_aad : Bytes → ℕ → Bool → Result Bytes
chunk_aad id index last = do
  with_id ← or_throw range_error (set_at (zeros (length id + 8 + 1)) 0 id)
  with_index ← or_throw range_error (set_at with_id (length id) (be64 index))
  or_throw range_error (set_at with_index (length with_index - 1) (flag_byte last ∷ []))

module _ (w : WebCrypto) where
  unfoldable pub hkdf : Bytes → Bytes → Bytes → ℕ → Bytes
  hkdf ikm salt info length_bits = w.derive_bits ikm salt info length_bits

  unfoldable pub derive_epoch_key : Bytes → ℕ → Result Bytes
  unfolding assert_length hkdf
  derive_epoch_key key epoch = do
    assert_length key 32 session_key
    salt ← or_throw range_error (set_at (zeros 4) 0 (be32 epoch))
    ok (hkdf key salt epoch_info key_size_bits)

  unfoldable pub derive_file_key : Bytes → Bytes → Result Bytes
  unfolding assert_length hkdf
  derive_file_key key id = do
    assert_length key 32 epoch_key
    assert_length id file_id_size file_id
    ok (hkdf key id file_info key_size_bits)

  unfoldable pub import_aes_key : Bytes → Result Bytes
  unfolding assert_length
  import_aes_key key = do assert_length key 32 file_key; ok key

  unfoldable pub encrypt_chunk : Bytes → Bytes → ℕ → Bool → Bytes → Result Bytes
  encrypt_chunk key id index last plaintext = do
    assert_length id file_id_size file_id
    aes ← import_aes_key key
    nonce ← chunk_nonce index
    aad ← chunk_aad id index last
    ok (w.seal aes nonce aad plaintext)

  unfoldable pub decrypt_chunk : Bytes → Bytes → ℕ → Bool → Bytes → Result Bytes
  decrypt_chunk key id index last ciphertext = do
    assert_length id file_id_size file_id
    aes ← import_aes_key key
    nonce ← chunk_nonce index
    aad ← chunk_aad id index last
    or_throw operation_error (w.unseal aes nonce aad ciphertext)

  unfoldable pub derive_reconnect_token : Bytes → Bytes → Result Bytes
  unfolding assert_length
  derive_reconnect_token key session_id = do
    assert_length key 32 session_key
    with_info ←
        or_throw range_error
          (set_at (zeros (length reconnect_info + length session_id)) 0 reconnect_info)
    message ← or_throw range_error (set_at with_info (length reconnect_info) session_id)
    ok (w.sign key message)
