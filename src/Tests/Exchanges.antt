-- ===== src/Tests/Exchanges.antt =====
-- web/pake.js: bytesEqual, and a host that exchanges tags with a guest.
use quicksend.Base.{◌≡◌, refl, [], ◌∷◌}
use quicksend.Base.Bytes.{Bytes, Text, codes}
use quicksend.Base.Results.{code_mismatch, ok, throw}
use quicksend.Hex.{to_hex, from_hex}
use quicksend.Pake.{compute_confirm_tag, run_pake_exchange}
use quicksend.Pake.Agreement.{accepts_same_tag}
use quicksend.Tests.Instances.{toy_crypto, toy_pake, sign-IsByte}

abbrev low : Bytes
low = 1 ∷ 254 ∷ []

abbrev high : Bytes
high = 1 ∷ 255 ∷ []

abbrev code : Text
code = codes "123456"

accepts_same_tag_example :
    let result =
      run_pake_exchange toy_pake toy_crypto code 0
        (codes "answer")
        (to_hex (compute_confirm_tag toy_crypto code)) in
    let own_tag = compute_confirm_tag toy_crypto (from_hex (to_hex code)) in
    (own_tag ≡ compute_confirm_tag toy_crypto code → result ≡ ok (from_hex (to_hex code)))
    × (¬ (own_tag ≡ compute_confirm_tag toy_crypto code) → result ≡ throw code_mismatch)
accepts_same_tag_example =
    accepts_same_tag toy_pake toy_crypto code 0 (codes "answer") (codes "hello") (codes "answer")
      (to_hex code) code code code sign-IsByte refl refl refl
