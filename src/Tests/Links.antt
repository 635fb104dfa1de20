-- ===== src/Tests/Links.antt =====
-- web/pairing.js and web/qr-encode.js: a link, a code and a picture.
use quicksend.Base.{
  ℕ, ◌+◌, ◌/◌, ◌≤◌, ◌≡◌, ◌≢◌, refl, max, true, [], ◌∷◌, ◌++◌, map, none, some, arith, ◌==◌,
  if◌then◌else◌, length, replicate,
}
use mathlib.Core.Path.{ap₂}
use quicksend.Base.Bytes.{Bytes, Text, codes, zeros}
use quicksend.Base.Tables.{list_eq}
use quicksend.Url.{Url, UrlCodec, UrlLaws, IsLinkText, is_link_char, to_string}
use quicksend.Pairing.Link.{build_pairing_url, parse_pairing_text, detect_link}
use quicksend.Pairing.Link.RoundTrip.{parse-build_pairing_url}
use quicksend.Pairing.Link.Checks.{parse_pairing_text-IsValid}
use quicksend.Pairing.Buttons.{enter_code}
use quicksend.Pairing.Flows.{start_join_by_code}
use quicksend.Pairing.Code.{dashed, on_input}
use quicksend.Pairing.Code.Entry.{enter-dashed}
use quicksend.QrEncode.{QrCode, render_qr, cell_size}
use quicksend.QrEncode.Pixels.{color_at, dark_at, render_qr_pixels}
use quicksend.Tests.Instances.{zeros-IsByte}
use quicksend.Tests.Sessions.{host_client}

-- A form without percent signs.
abbrev plus_to_space : ℕ → ℕ
plus_to_space c = if c == b'+' then 32 else c

abbrev toy_url : UrlCodec
toy_url = record { encode_fragment = λ text. text; form_decode = map plus_to_space }

kept : (text : Text) → IsLinkText text → map plus_to_space text ≡ text
kept [] h = refl
kept (c ∷ cs) h = ap₂ ◌∷◌ (one c h.0) (kept cs h.1)
  where
    one : (c : ℕ) → is_link_char c ≡ true → plus_to_space c ≡ c
    one c h = ground arith

toy_url_laws : UrlLaws toy_url
toy_url_laws = record {
  encode_fragment-IsLinkText = λ text h. refl;
  form_decode-IsLinkText = λ text h. kept text h;
}

abbrev page : Url
page = record { address = codes "https://q.s/"; search = codes "x=1"; hash = [] }

abbrev pub key : Bytes
key = zeros 32

id_ne_nil : codes "aB-_9" ≢ []
id_ne_nil e = cc

key_length : length key ≡ 32
unfolding replicate
key_length = refl

parse-build_pairing_url_example :
    (parse_pairing_text toy_url (
        codes "Join: "
        ++ (to_string (build_pairing_url toy_url page (codes "aB-_9") key) ++ (10 ∷ [])))
      ≡ some (codes "aB-_9", key))
    × (detect_link toy_url (build_pairing_url toy_url page (codes "aB-_9") key)
        ≡ some (codes "aB-_9", key))
parse-build_pairing_url_example =
    parse-build_pairing_url toy_url toy_url_laws page (codes "Join: ") (codes "aB-_9") key (10 ∷ [])
      (refl, (refl, (refl, (refl, (refl, (refl, tt))))))
      (
        refl,
        (refl, (refl, (refl, (refl, (refl, (refl, (refl, (refl, (refl, (refl, (refl, tt))))))))))),
      )
      (refl, (refl, (refl, (refl, (refl, tt))))) id_ne_nil (zeros-IsByte 32) key_length (refl, tt)

short_key_test : parse_pairing_text toy_url (codes "#s=abc&k=AAAA") ≡ none
unfolding parse_pairing_text list_eq
short_key_test = refl

abbrev link_text : Text
link_text = codes "#s=a&k=AAAAAAAAAAAAAAAAAAAAAAAAAAAAAAAAAAAAAAAAAAA"

link_parses : parse_pairing_text toy_url link_text ≡ some (codes "a", key)
unfolding parse_pairing_text list_eq
link_parses = refl

parse_pairing_text-IsValid_example : (codes "a" ≢ []) × (length key ≡ 32)
parse_pairing_text-IsValid_example = parse_pairing_text-IsValid toy_url link_text link_parses

enter-dashed_example :
    (enter_code host_client (dashed (codes "123456"))
      ≡ start_join_by_code host_client (codes "123456"))
    × (on_input (dashed (codes "123456")) ≡ dashed (codes "123456"))
enter-dashed_example =
    enter-dashed host_client (codes "123456") (refl, (refl, (refl, (refl, (refl, (refl, tt))))))
      refl

abbrev one_module : Text → QrCode
one_module text = record { module_count = 1; is_dark = λ row col. true }

width : (render_qr one_module [] 30).width ≡ 27
unfolding render_qr
width = refl

render_qr_pixels_example :
    (color_at (render_qr one_module [] 30).rects 13 14 none
      ≡ some (
          dark_at
            (one_module [])
            (14 / cell_size (one_module []) 30)
            (13 / cell_size (one_module []) 30)))
    × ((render_qr one_module [] 30).width ≤ max 30 ((one_module []).module_count + 8))
unfolding render_qr
render_qr_pixels_example =
    render_qr_pixels one_module [] 30 13 14 (omega (arith, width)) (omega (arith, width))
