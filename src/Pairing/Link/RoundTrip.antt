-- ===== src/Pairing/Link/RoundTrip.antt =====
-- The link of a session is read back, wherever it stands in the text that is pasted or opened.
use quicksend.Base.{
  ◌≡◌, ◌≢◌, refl, ap, ◌∙◌, sym, true, false, [], ◌∷◌, ◌++◌, none, some, arith, ◌==◌, length, All,
  All-append, append-nil, append_assoc, subst, if◌then◌else◌, ltb, lt→ltb,
}
use quicksend.Base.Bytes.{Bytes, Text, IsByte, codes}
use quicksend.Base64Url.{encode, decode}
use quicksend.Base64Url.RoundTrip.{decode-encode}
use quicksend.Url.{Url, UrlCodec, UrlLaws, IsToken, IsLinkText, is_link_char, is_white, to_string}
use quicksend.Pairing.Link.{
  link_fields, build_pairing_url, session_key_of_link, parse_pairing_text, detect_link,
}
use quicksend.Pairing.Link.Parts.{
  IsFree, token-IsLinkText, encode-IsToken, get_param-link, search_params-link, present-of_ne,
  after_hash-trim,
}

session_key_of_link-encode :
    (key : Bytes) → All IsByte key → length key ≡ 32 → session_key_of_link (encode key) ≡ some key
unfolding session_key_of_link
session_key_of_link-encode key h len = rw (decode-encode key h, len)

encode-ne_nil : (key : Bytes) → All IsByte key → length key ≡ 32 → encode key ≢ []
unfolding decode
encode-ne_nil key h len e =
    let q : some [] ≡ some key = ap decode (sym e) ∙ decode-encode key h in ground arith

link_fields-IsLinkText :
    (id key : Bytes) → IsToken id → All IsByte key → IsLinkText (link_fields id key)
link_fields-IsLinkText id key hid hkey = (
  refl,
  (
    refl,
    All-append (λ c. is_link_char c ≡ true) id (codes "&k=" ++ encode key) (token-IsLinkText id hid)
        (refl, (refl, (refl, token-IsLinkText (encode key) (encode-IsToken key hkey)))),
  ),
)

parse-fields :
    (u : UrlCodec) (laws : UrlLaws u) (a id key white : Text)
    → IsFree b'#' a
    → IsToken id
    → id ≢ []
    → All IsByte key
    → length key ≡ 32
    → All (λ c. is_white c ≡ true) white
    → parse_pairing_text u (a ++ (b'#' ∷ (link_fields id key ++ white))) ≡ some (id, key)
unfolding parse_pairing_text
parse-fields u laws a id key white ha hid some_id hkey len hw = rw (
  after_hash-trim a b's' (b'=' ∷ (id ++ (codes "&k=" ++ encode key))) white ha
      (link_fields-IsLinkText id key hid hkey) hw,
  search_params-link id (encode key) hid (encode-IsToken key hkey),
  (get_param-link u laws id (encode key) hid (encode-IsToken key hkey)).0,
  (get_param-link u laws id (encode key) hid (encode-IsToken key hkey)).1,
  present-of_ne id some_id,
  present-of_ne (encode key) (encode-ne_nil key hkey len),
  session_key_of_link-encode key hkey len,
)

-- Over a URL codec that leaves letters, digits, "-", "_", "=" and "&" as they are: parsePairingText
-- reads the id and the key back out of the link that buildPairingURL makes on any page whose
-- address has no "#", for an id of letters, digits, "-" and "_" that is not empty and a key of 32
-- bytes, also with a text without "#" before the link and white space after it, and a page that is
-- opened by that link detects them.
pub parse-build_pairing_url :
    (u : UrlCodec)
    → UrlLaws u
    → (here : Url) (before id key white : Text) → IsFree b'#' before
    → IsFree b'#' here.address
    → IsToken id
    → id ≢ []
    → All IsByte key
    → length key ≡ 32
    → All (λ c. is_white c ≡ true) white
    → (parse_pairing_text u (before ++ (to_string (build_pairing_url u here id key) ++ white))
        ≡ some (id, key))
      × (detect_link u (build_pairing_url u here id key) ≡ some (id, key))
unfolding to_string build_pairing_url detect_link
parse-build_pairing_url u laws here before id key white hb ha hid some_id hkey len hw =
    rw
      (laws.encode_fragment-IsLinkText (link_fields id key)
        (link_fields-IsLinkText id key hid hkey))
      (pasted, opened)
  where
    pasted :
        parse_pairing_text u (before ++ ((here.address ++ (b'#' ∷ link_fields id key)) ++ white))
        ≡ some (id, key)
    pasted =
        rw
          (
            append_assoc here.address (b'#' ∷ link_fields id key) white,
            ← append_assoc before here.address (b'#' ∷ (link_fields id key ++ white)),
          )
          (parse-fields u laws (before ++ here.address) id key white
            (All-append (λ c. (c == b'#') ≡ false) before here.address hb ha) hid some_id hkey len
            hw)

    whole : parse_pairing_text u (b'#' ∷ link_fields id key) ≡ some (id, key)
    whole =
        subst (λ text. parse_pairing_text u (b'#' ∷ text) ≡ some (id, key))
          (append-nil (link_fields id key))
          (parse-fields u laws [] id key [] tt hid some_id hkey len tt)

    opened :
        (if ltb 1 (length (b'#' ∷ link_fields id key))
          then parse_pairing_text u (b'#' ∷ link_fields id key)
          else none)
        ≡ some (id, key)
    opened = rw (lt→ltb 1 (length (b'#' ∷ link_fields id key)) (omega arith)) whole
