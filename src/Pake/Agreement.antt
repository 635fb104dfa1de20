-- ===== src/Pake/Agreement.antt =====
-- The key confirmation of the code pairing: which tags are accepted, and what both sides end with.
use quicksend.Base.{
  ℕ, ◌<◌, ◌≡◌, refl, ap, ◌∙◌, ◌↔◌, Bool, true, false, ◌&&◌, not, [], ◌∷◌, some, ◌==◌, ltb,
  if◌then◌else◌, length, arith, All, Bool-cases, inl, inr, ==_iff, subst,
}
use Prim.Native.Nat.{bit_or, bit_xor}
use mathlib.Core.Path.{ap₂}
use quicksend.Base.Bytes.{Bytes, Text, IsByte}
use quicksend.Base.Tables.{every_below, every_below_sound}
use quicksend.Base.Results.{code_mismatch, ok, throw}
use quicksend.Hex.{to_hex, from_hex}
use quicksend.Hex.RoundTrip.{from_hex-to_hex}
use quicksend.Crypto.Platform.{WebCrypto}
use quicksend.Pake.{
  PakeModule, difference, bytes_equal, compute_confirm_tag, verify_confirm_tag, session_key,
  confirm, confirm_info, run_pake_exchange,
}

abbrev bits_fit : ℕ → ℕ → Bool
bits_fit a b =
    ltb (bit_xor a b) 256
    && (ltb (bit_or a b) 256
        && ((if bit_xor a b == 0 then a == b else not (a == b))
            && (if bit_or a b == 0 then (a == 0 && b == 0) else not (a == 0 && b == 0))))

bits_table : every_below (λ a. every_below (bits_fit a) 256) 256 ≡ true
unfolding every_below
bits_table = refl

bits_lem :
    (a b : ℕ)
    → IsByte a
    → IsByte b
    → (bit_xor a b < 256)
      × (bit_or a b < 256)
      × (bit_xor a b ≡ 0 → a ≡ b)
      × (bit_or a b ≡ 0 → (a ≡ 0) × (b ≡ 0))
bits_lem a b ha hb =
    let fit = every_below_sound _ 256 b hb (every_below_sound _ 256 a ha bits_table) in
    (ground arith, ground arith, λ e. ground arith, λ e. ground arith)

self_table : every_below (λ a. bit_xor a a == 0) 256 ≡ true
unfolding every_below
self_table = refl

bit_xor_self : (a : ℕ) → IsByte a → bit_xor a a ≡ 0
bit_xor_self a h = (==_iff (bit_xor a a) 0).0 (every_below_sound _ 256 a h self_table)

difference-zero :
    (xs ys : Bytes) (diff : ℕ)
    → All IsByte xs
    → All IsByte ys
    → IsByte diff
    → length xs ≡ length ys
    → difference xs ys diff ≡ 0
    → (diff ≡ 0) × (xs ≡ ys)
unfolding difference
difference-zero [] [] diff hx hy hd l e = (e, refl)
difference-zero [] (y ∷ ys) diff hx hy hd l e = absurd (omega arith)
difference-zero (x ∷ xs) [] diff hx hy hd l e = absurd (omega arith)
difference-zero (x ∷ xs) (y ∷ ys) diff hx hy hd l e =
    let xor = bits_lem x y hx.0 hy.0 in
    let or = bits_lem diff (bit_xor x y) hd xor.0 in
    let later = difference-zero xs ys (bit_or diff (bit_xor x y)) hx.1 hy.1 or.1 (omega arith) e in
    let zeros = or.3 later.0 in (zeros.0, ap₂ ◌∷◌ (xor.2 zeros.1) later.1)

difference_self : (xs : Bytes) → All IsByte xs → difference xs xs 0 ≡ 0
unfolding difference
difference_self [] h = refl
difference_self (x ∷ xs) h = rw (bit_xor_self x h.0) (difference_self xs h.1)

both : (b d : Bool) → (if b then d else false) ≡ true → (b ≡ true) × (d ≡ true)
both true d e = (refl, e)
both false d e = cc

-- For two arrays of bytes, bytesEqual answers true exactly if they are equal.
bytes_equal_iff :
    (xs ys : Bytes) → All IsByte xs → All IsByte ys → (bytes_equal xs ys ≡ true) ↔ (xs ≡ ys)
unfolding bytes_equal
bytes_equal_iff xs ys hx hy = (to, from)
  where
    to : bytes_equal xs ys ≡ true → xs ≡ ys
    to e =
        let (same, zero_diff) = both (length xs == length ys) (difference xs ys 0 == 0) e in
        (difference-zero xs ys 0 hx hy (omega arith) ((==_iff _ _).0 same)
          ((==_iff _ _).0 zero_diff)).1

    from : xs ≡ ys → bytes_equal xs ys ≡ true
    from e = subst (λ zs. bytes_equal xs zs ≡ true) e (rw (difference_self xs hx) (ground arith))

module _ {Handle : Type 0} (p : PakeModule Handle) (w : WebCrypto) (own peer : Bytes)
    (bytes : (key text : Bytes) → All IsByte (w.sign key text)) where
  abbrev compared : Bool
  compared = bytes_equal (compute_confirm_tag w own) (compute_confirm_tag w peer)

  confirm-compared :
      confirm p w own (to_hex (compute_confirm_tag w peer))
      ≡ (if compared then ok own else throw code_mismatch)
  unfolding confirm verify_confirm_tag
  confirm-compared =
      rw (from_hex-to_hex (compute_confirm_tag w peer) (bytes peer confirm_info)) refl

  tags_equal : (compared ≡ true) ↔ (compute_confirm_tag w own ≡ compute_confirm_tag w peer)
  tags_equal =
      bytes_equal_iff (compute_confirm_tag w own) (compute_confirm_tag w peer)
        (bytes own confirm_info) (bytes peer confirm_info)

  confirm-same :
      compute_confirm_tag w own ≡ compute_confirm_tag w peer
      → confirm p w own (to_hex (compute_confirm_tag w peer)) ≡ ok own
  confirm-same e =
      confirm-compared ∙ ap (λ b. if b then ok own else throw code_mismatch) (tags_equal.1 e)

  confirm-other :
      ¬ (compute_confirm_tag w own ≡ compute_confirm_tag w peer)
      → confirm p w own (to_hex (compute_confirm_tag w peer)) ≡ throw code_mismatch
  confirm-other other = confirm-compared ∙ elim (Bool-cases compared) [
    | inl same ↦ absurd (other (tags_equal.0 same))
    | inr differ ↦ ap (λ b. if b then ok own else throw code_mismatch) differ
  ]

-- Where the PAKE module starts with the code, takes the message of the peer and gives a key, and
-- the HMAC gives bytes: runPakeExchange with the tag of a peer that has its own key returns the key
-- if both tags are the same, and fails with code_mismatch if they differ.
pub accepts_same_tag :
    {Handle : Type 0} (p : PakeModule Handle) (w : WebCrypto) (code : Text) (role : ℕ)
    (message first answer hex : Text) (handle ready : Handle) (peer_key : Bytes)
    → ((key text : Bytes) → All IsByte (w.sign key text))
    → p.init code role ≡ some (handle, first)
    → p.update handle message ≡ some (ready, answer)
    → p.session_key ready ≡ some hex
    → let result =
        run_pake_exchange p w code role message (to_hex (compute_confirm_tag w peer_key)) in
      let own_tag = compute_confirm_tag w (from_hex hex) in
      (own_tag ≡ compute_confirm_tag w peer_key → result ≡ ok (from_hex hex))
      × (¬ (own_tag ≡ compute_confirm_tag w peer_key) → result ≡ throw code_mismatch)
unfolding session_key run_pake_exchange confirm
accepts_same_tag p w code role message first answer hex handle ready peer_key bytes hi hu hk = (
  λ e. exchanged ∙ confirm-same p w (from_hex hex) peer_key bytes e,
  λ other. exchanged ∙ confirm-other p w (from_hex hex) peer_key bytes other,
)
  where
    exchanged :
        run_pake_exchange p w code role message (to_hex (compute_confirm_tag w peer_key))
        ≡ confirm p w (from_hex hex) (to_hex (compute_confirm_tag w peer_key))
    exchanged = rw (hi, hu, hk, session_key, run_pake_exchange) refl
