-- ===== src/Pairing/Link.antt =====
-- web/pairing.js: the link that carries a session (buildPairingURL, parsePairingText).
pub mod Parts
pub mod RoundTrip
pub mod Checks
use quicksend.Base.{
  ◌+◌, List, [], ◌∷◌, ◌++◌, Option, none, some, ltb, ◌==◌, if◌then◌else◌, length, drop,
}
use quicksend.Base.Bytes.{Bytes, Text, codes}
use quicksend.Base.Options.{◌>>=◌}
use quicksend.Base64Url.{encode, decode}
use quicksend.Url.{Url, UrlCodec, marked, trim, index_of, search_params, get_param}
use quicksend.Pairing.Screens.{session_key_bytes}

abbrev pub link_fields : Text → Bytes → Text
link_fields id key = codes "s=" ++ (id ++ (codes "&k=" ++ encode key))

-- `here` is `location.href`.
unfoldable pub build_pairing_url : UrlCodec → Url → Text → Bytes → Url
build_pairing_url u here id key = record here {
  hash = u.encode_fragment (link_fields id key);
  search = [];
}

unfoldable pub after_hash : Text → Text
unfolding index_of drop
after_hash text = elim (index_of b'#' text) [ none ↦ text | some i ↦ drop (i + 1) text ]

-- `!value` of a parameter: it is missing or empty.
abbrev pub present : Option Text → Option Text
present none = none
present (some []) = none
present (some (c ∷ cs)) = some (c ∷ cs)

unfoldable pub session_key_of_link : Text → Option Bytes
unfolding decode
session_key_of_link text = do
  key ← decode text
  if length key == session_key_bytes then some key else none

unfoldable pub parse_pairing_text : UrlCodec → Text → Option (Text × Bytes)
unfolding trim after_hash search_params get_param session_key_of_link
parse_pairing_text u text = do
  let params = search_params (after_hash (trim text))
  id ← present (get_param u params (codes "s"))
  key_text ← present (get_param u params (codes "k"))
  key ← session_key_of_link key_text
  some (id, key)

-- What initPairing detects in `location.hash`.
unfoldable pub detect_link : UrlCodec → Url → Option (Text × Bytes)
detect_link u here =
    if ltb 1 (length (marked b'#' here.hash))
    then parse_pairing_text u (marked b'#' here.hash)
    else none
