-- ===== src/Crypto/Chunks.antt =====
-- Encryption and decryption of one chunk, over any Web Crypto that keeps its laws.
use quicksend.Base.{
  ℕ, ◌≡◌, refl, sym, ap, ◌∙◌, ◌↔◌, Bool, [], ◌∷◌, ◌++◌, Option, some, arith, length,
}
use quicksend.Base.Bytes.{Bytes, zeros, be64}
use quicksend.Base.Results.{Field, epoch_key, file_id, file_key, operation_error, ok, or_throw}
use quicksend.Crypto.Platform.{WebCrypto, CryptoLaws}
use quicksend.Crypto.{
  derive_file_key, hkdf, file_info, flag_byte, assert_length, encrypt_chunk, decrypt_chunk,
  import_aes_key,
}
use quicksend.Crypto.Layout.{chunk_nonce_lem, chunk_aad_lem, ok-injective}

abbrev pub nonce_of : ℕ → Bytes
nonce_of index = zeros 4 ++ be64 index

abbrev pub aad_of : Bytes → ℕ → Bool → Bytes
aad_of id index last = id ++ (be64 index ++ (flag_byte last ∷ []))

pub assert_length-ok :
    (bytes : Bytes) (n : ℕ) (name : Field) → length bytes ≡ n → assert_length bytes n name ≡ ok tt
unfolding assert_length
assert_length-ok bytes n name h = ground arith

assert_length-eq-ok :
    (bytes : Bytes) (n : ℕ) (name : Field) {u : Unit {0}}
    → assert_length bytes n name ≡ ok u
    → length bytes ≡ n
unfolding assert_length
assert_length-eq-ok bytes n name h = ground arith

module _ (w : WebCrypto) where
  pub encrypt_chunk_lem :
      (key id : Bytes) (index : ℕ) (last : Bool) (plaintext : Bytes)
      → length key ≡ 32
      → length id ≡ 16
      → encrypt_chunk w key id index last plaintext
        ≡ ok (w.seal key (nonce_of index) (aad_of id index last) plaintext)
  unfolding encrypt_chunk import_aes_key
  encrypt_chunk_lem key id index last plaintext hk hi =
      rw
        (
          assert_length-ok id 16 file_id hi,
          assert_length-ok key 32 file_key hk,
          chunk_nonce_lem index,
          chunk_aad_lem id index last,
        )
        refl

  pub decrypt_chunk_lem :
      (key id : Bytes) (index : ℕ) (last : Bool) (ciphertext : Bytes)
      → length key ≡ 32
      → length id ≡ 16
      → decrypt_chunk w key id index last ciphertext
        ≡ or_throw operation_error (w.unseal key (nonce_of index) (aad_of id index last) ciphertext)
  unfolding decrypt_chunk import_aes_key
  decrypt_chunk_lem key id index last ciphertext hk hi =
      rw
        (
          assert_length-ok id 16 file_id hi,
          assert_length-ok key 32 file_key hk,
          chunk_nonce_lem index,
          chunk_aad_lem id index last,
        )
        refl

  encrypt-eq-ok_lengths :
      (key id : Bytes) (index : ℕ) (last : Bool) (plaintext : Bytes) {c : Bytes}
      → encrypt_chunk w key id index last plaintext ≡ ok c
      → (length key ≡ 32) × (length id ≡ 16)
  unfolding encrypt_chunk import_aes_key assert_length
  encrypt-eq-ok_lengths key id index last plaintext h = ground arith

  decrypt-eq-ok_lengths :
      (key id : Bytes) (index : ℕ) (last : Bool) (ciphertext : Bytes) {p : Bytes}
      → decrypt_chunk w key id index last ciphertext ≡ ok p
      → (length key ≡ 32) × (length id ≡ 16)
  unfolding decrypt_chunk import_aes_key assert_length
  decrypt-eq-ok_lengths key id index last ciphertext h = ground arith

  or_throw-eq-ok : (o : Option Bytes) {p : Bytes} → or_throw operation_error o ≡ ok p → o ≡ some p
  or_throw-eq-ok o h = ground arith

module _ (w : WebCrypto) (laws : CryptoLaws w) where
  open laws use {unseal-seal, seal-unseal, length-derive_bits}

  -- Over a Web Crypto with its laws, decryptChunk accepts a ciphertext and returns a plaintext
  -- exactly if encryptChunk, with the same key, file id, index and flag, turns this plaintext into
  -- that ciphertext.
  pub decrypt_chunk-encrypt_chunk :
      (key id : Bytes) (index : ℕ) (last : Bool) (plaintext ciphertext : Bytes)
      → (decrypt_chunk w key id index last ciphertext ≡ ok plaintext)
        ↔ (encrypt_chunk w key id index last plaintext ≡ ok ciphertext)
  decrypt_chunk-encrypt_chunk key id index last p c = (to, from)
    where
      to : decrypt_chunk w key id index last c ≡ ok p → encrypt_chunk w key id index last p ≡ ok c
      to h =
          let (hk, hi) = decrypt-eq-ok_lengths w key id index last c h in
          let opened =
            or_throw-eq-ok w _ (sym (decrypt_chunk_lem w key id index last c hk hi) ∙ h) in
          encrypt_chunk_lem w key id index last p hk hi
          ∙ ap ok (sym (seal-unseal key (nonce_of index) (aad_of id index last) c p opened))

      from : encrypt_chunk w key id index last p ≡ ok c → decrypt_chunk w key id index last c ≡ ok p
      from h =
          let (hk, hi) = encrypt-eq-ok_lengths w key id index last p h in
          let sealed = ok-injective (sym (encrypt_chunk_lem w key id index last p hk hi) ∙ h) in
          decrypt_chunk_lem w key id index last c hk hi
          ∙ ap (or_throw operation_error) (
              ap (w.unseal key (nonce_of index) (aad_of id index last)) (sym sealed)
              ∙ unseal-seal key (nonce_of index) (aad_of id index last) p)

module _ (w : WebCrypto) where
  pub derive_file_key_lem :
      (key id : Bytes)
      → length key ≡ 32
      → length id ≡ 16
      → derive_file_key w key id ≡ ok (w.derive_bits key id file_info 256)
  unfolding derive_file_key hkdf
  derive_file_key_lem key id hk hi =
      rw (assert_length-ok key 32 epoch_key hk, assert_length-ok id 16 file_id hi) refl
