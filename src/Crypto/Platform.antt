-- ===== src/Crypto/Platform.antt =====
-- The browser's crypto.subtle, as web/crypto.js uses it, and what the file relies on.
use quicksend.Base.{ℕ, ◌/◌, ◌≡◌, Option, some, length, All}
use quicksend.Base.Bytes.{Bytes, IsByte}

-- HKDF-SHA-256, AES-256-GCM with a 16-byte tag, and HMAC-SHA-256. `unseal` gives `none` where
-- `decrypt` rejects.
pub record WebCrypto : Type 0 where
  pub derive_bits : Bytes → Bytes → Bytes → ℕ → Bytes
  pub seal : Bytes → Bytes → Bytes → Bytes → Bytes
  pub unseal : Bytes → Bytes → Bytes → Bytes → Option Bytes
  pub sign : Bytes → Bytes → Bytes

-- AES-GCM is deterministic for one key, nonce and associated data: a ciphertext is accepted if it
-- is the encryption of the plaintext that comes out, and only then.
pub record CryptoLaws (w : WebCrypto) : Type 0 where
  pub length-derive_bits :
      (ikm salt info : Bytes) (bits : ℕ) → length (w.derive_bits ikm salt info bits) ≡ bits / 8
  pub unseal-seal :
      (key nonce aad plaintext : Bytes)
      → w.unseal key nonce aad (w.seal key nonce aad plaintext) ≡ some plaintext
  pub seal-unseal :
      (key nonce aad ciphertext plaintext : Bytes)
      → w.unseal key nonce aad ciphertext ≡ some plaintext
      → ciphertext ≡ w.seal key nonce aad plaintext
  pub derive_bits-IsByte :
      (ikm salt info : Bytes) (bits : ℕ) → All IsByte (w.derive_bits ikm salt info bits)
  pub seal-IsByte :
      (key nonce aad plaintext : Bytes)
      → All IsByte key
      → All IsByte nonce
      → All IsByte aad
      → All IsByte plaintext
      → All IsByte (w.seal key nonce aad plaintext)
