-- ===== src/Pake.antt =====
-- web/pake.js, and runPakeExchange of web/pairing.js: the key exchange of the code pairing. The
-- WebAssembly module is a parameter; the messages of the peer are arguments.
pub mod Agreement
pub mod Loading
use quicksend.Base.{
  ℕ, zero, suc, ◌+◌, Bool, true, false, not, List, [], ◌∷◌, ◌++◌, Option, none, some, ◌==◌,
  if◌then◌else◌, length,
}
use Prim.Native.Nat.{bit_or, bit_xor}
use quicksend.Base.Bytes.{Bytes, Text, codes}
use quicksend.Base.Results.{Failure, code_mismatch, pake_error, Result, ok, throw, or_throw, ◌>>=◌}
use quicksend.Hex.{to_hex, from_hex}
use quicksend.Crypto.Platform.{WebCrypto}

-- globalThis.quicksendPake: `init` gives a handle and the first message, `update` what the handle has
-- become and the answer, `session_key` the key as hexadecimal text; `none` is a result with `error`.
pub record PakeModule (Handle : Type 0) : Type 0 where
  pub init : Text → ℕ → Option (Handle × Text)
  pub update : Handle → Text → Option (Handle × Text)
  pub session_key : Handle → Option Text

abbrev pub confirm_info : Bytes
confirm_info = codes "quicksend-pake-confirm"

-- `diff |= a[i] ^ b[i]` over the indices of `a`; an index past the end of `b` is not reached.
unfoldable pub difference : Bytes → Bytes → ℕ → ℕ
difference [] bs diff = diff
difference (a ∷ as') [] diff = diff
difference (a ∷ as') (b ∷ bs) diff = difference as' bs (bit_or diff (bit_xor a b))

unfoldable pub bytes_equal : Bytes → Bytes → Bool
unfolding difference
bytes_equal a b = if length a == length b then difference a b 0 == 0 else false

abbrev pub compute_confirm_tag : WebCrypto → Bytes → Bytes
compute_confirm_tag w key = w.sign key confirm_info

unfoldable pub verify_confirm_tag : WebCrypto → Bytes → Bytes → Bool
unfolding bytes_equal
verify_confirm_tag w key received = bytes_equal (compute_confirm_tag w key) received

-- What one side sends: `pake_msg` and `pake_confirm`.
pub data PakeMessage : Type 0 where
  pake_msg pake_confirm : Text → PakeMessage

module _ {Handle : Type 0} (p : PakeModule Handle) (w : WebCrypto) where
  -- init, update and sessionKey throw where the module reports an error.
  abbrev pub init : Text → ℕ → Result (Handle × Text)
  init password role = or_throw pake_error (p.init password role)

  abbrev pub update : Handle → Text → Result (Handle × Text)
  update handle text = or_throw pake_error (p.update handle text)

  unfoldable pub session_key : Handle → Result Bytes
  session_key handle = do hex ← or_throw pake_error (p.session_key handle); ok (from_hex hex)

  -- The tag of the peer has come.
  unfoldable pub confirm : Bytes → Text → Result Bytes
  unfolding verify_confirm_tag
  confirm key tag_hex =
      if verify_confirm_tag w key (from_hex tag_hex) then ok key else throw code_mismatch

  -- runPakeExchange, with the two messages of the peer that it waits for. Role 0 sends first.
  unfoldable pub run_pake_exchange : Text → ℕ → Text → Text → Result Bytes
  unfolding session_key confirm
  run_pake_exchange code role peer_message peer_tag = do
    (handle, first) ← init code role
    (ready, answer) ← update handle peer_message
    key ← session_key ready
    confirm key peer_tag

  -- What it sends on the way.
  unfoldable pub sent_by_exchange : Text → ℕ → Text → List PakeMessage
  unfolding session_key
  sent_by_exchange code role peer_message = elim (init code role) [
    | throw e ↦ []
    | ok started ↦
        (if role == 0 then pake_msg started.1 ∷ [] else [])
        ++ (elim (update started.0 peer_message) [
          | throw e ↦ []
          | ok updated ↦
              (if role == 1 then pake_msg updated.1 ∷ [] else []) ++ (elim (session_key updated.0) [
                | throw e ↦ []
                | ok key ↦ pake_confirm (to_hex (compute_confirm_tag w key)) ∷ []
              ])
        ])
  ]
