-- ===== src/Pairing/Link/Checks.antt =====
-- What the reader of a link lets through.
use quicksend.Base.{
  ◌≡◌, ◌≢◌, refl, [], ◌∷◌, Option, none, some, arith, ◌==◌, length, subst, if◌then◌else◌,
}
use quicksend.Base.Bytes.{Bytes, Text, codes}
use quicksend.Base.Options.{◌>>=◌}
use quicksend.Base64Url.{decode}
use quicksend.Url.{UrlCodec, trim, search_params, get_param}
use quicksend.Pairing.Link.{after_hash, present, session_key_of_link, parse_pairing_text}

-- A chain that succeeds has succeeded step by step.
some_of_bind {ℓ κ} :
    {A : Type ℓ} {B : Type κ} (o : Option A) (f : A → Option B) {b : B}
    → (o >>= f) ≡ some b
    → (a : A) × (o ≡ some a) × (f a ≡ some b)
some_of_bind none f h = cc
some_of_bind (some a) f h = (a, refl, h)

present-ne_nil : (o : Option Text) (text : Text) → present o ≡ some text → text ≢ []
present-ne_nil none text h e = cc
present-ne_nil (some []) text h e = cc
present-ne_nil (some (c ∷ cs)) text h e = cc

checked :
    (bytes key : Bytes)
    → (if length bytes == 32 then some bytes else none) ≡ some key
    → length key ≡ 32
checked bytes key h = ground arith

length-session_key_of_link :
    (text : Text) (key : Bytes) → session_key_of_link text ≡ some key → length key ≡ 32
unfolding session_key_of_link
length-session_key_of_link text key h =
    let (bytes, _, e) = some_of_bind (decode text) _ h in checked bytes key e

parts_of_some :
    {id id' : Text} {key key' : Bytes}
    → ◌≡◌ {A = Option (Text × Bytes)} (some (id, key)) (some (id', key'))
    → (id ≡ id') × (key ≡ key')
parts_of_some h = (cc, cc)

-- Whatever text parsePairingText is given: if it answers with an id and a key, the id is not empty
-- and the key has 32 bytes.
pub parse_pairing_text-IsValid :
    (u : UrlCodec) (text : Text) {id : Text} {key : Bytes}
    → parse_pairing_text u text ≡ some (id, key)
    → (id ≢ []) × (length key ≡ 32)
unfolding parse_pairing_text
parse_pairing_text-IsValid u text h =
    let params = search_params (after_hash (trim text)) in
    let (id, e, rest) = some_of_bind (present (get_param u params (codes "s"))) _ h in
    let (key_text, _, rest') = some_of_bind (present (get_param u params (codes "k"))) _ rest in
    let (key, d, last) = some_of_bind (session_key_of_link key_text) _ rest' in
    let (same_id, same_key) = parts_of_some last in
    (
      subst (λ t. t ≢ []) same_id (present-ne_nil _ id e),
      subst (λ k. length k ≡ 32) same_key (length-session_key_of_link key_text key d),
    )
