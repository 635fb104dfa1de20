-- ===== src/Pairing/Link/Parts.antt =====
-- What trimming, cutting and splitting make of the text of a link.
use quicksend.Base.{
  ℕ, ◌≡◌, ◌≢◌, refl, ap, ◌∙◌, sym, true, false, [], ◌∷◌, ◌++◌, some, arith, ◌==◌, length, drop,
  drop-append, drop-drop, All, append_assoc, map, if-cases,
}
use quicksend.Base.Bytes.{Bytes, Text, IsByte, codes}
use quicksend.Base64Url.{to_url, encode}
use quicksend.Base64Url.RoundTrip.{IsCode, plain, plain-IsCode, encode-plain}
use quicksend.Base.Tables.{list_eq}
use quicksend.Url.{
  UrlCodec, UrlLaws, IsToken, IsLinkText, is_token_char, is_white, trim_start, trim_end, trim,
  index_of, split_on, search_params, get_param, name_of, value_of,
}
use quicksend.Pairing.Link.{after_hash, present}

abbrev pub IsFree : ℕ → Text → Type 0
IsFree mark text = All (λ c. (c == mark) ≡ false) text

-- What stands before the mark loses at most its own front.
trim_start-hash :
    (a r : Text)
    → IsFree b'#' a
    → (a' : Text) × (trim_start (a ++ (b'#' ∷ r)) ≡ a' ++ (b'#' ∷ r)) × IsFree b'#' a'
unfolding trim_start
trim_start-hash [] r h = ([], refl, tt)
trim_start-hash (c ∷ cs) r h =
    if-cases (λ t. (a' : Text) × (t ≡ a' ++ (b'#' ∷ r)) × IsFree b'#' a') (is_white c) _ _
      (λ white. trim_start-hash cs r h.1) (λ other. (c ∷ cs, refl, h))

trim_end-append :
    (a : Text) (x : ℕ) (xs : Text)
    → trim_end (x ∷ xs) ≡ x ∷ xs
    → trim_end (a ++ (x ∷ xs)) ≡ a ++ (x ∷ xs)
unfolding trim_end
trim_end-append [] x xs h = h
trim_end-append (c ∷ []) x xs h = rw h
trim_end-append (c ∷ d ∷ cs) x xs h = rw (trim_end-append (d ∷ cs) x xs h)

trim_end-IsLinkText : (text : Text) → IsLinkText text → trim_end text ≡ text
unfolding trim_end
trim_end-IsLinkText [] h = refl
trim_end-IsLinkText (c ∷ []) h = ground arith
trim_end-IsLinkText (c ∷ d ∷ cs) h = rw (trim_end-IsLinkText (d ∷ cs) h.1)

index_of-append :
    (mark : ℕ) (a r : Text) → IsFree mark a → index_of mark (a ++ (mark ∷ r)) ≡ some (length a)
unfolding index_of
index_of-append mark [] r h = ground arith
index_of-append mark (c ∷ cs) r h = rw (h.0, index_of-append mark cs r h.1)

after_hash-append : (a r : Text) → IsFree b'#' a → after_hash (a ++ (b'#' ∷ r)) ≡ r
unfolding after_hash drop
after_hash-append a r h =
    rw (index_of-append b'#' a r h, after_hash)
      (sym (drop-drop 1 (length a) (a ++ (b'#' ∷ r)))
        ∙ ap (drop 1) (drop-append (length a) a (b'#' ∷ r) refl))

split_on-IsFree : (mark : ℕ) (text : Text) → IsFree mark text → split_on mark text ≡ text ∷ []
unfolding split_on
split_on-IsFree mark [] h = refl
split_on-IsFree mark (c ∷ cs) h = rw (h.0, split_on-IsFree mark cs h.1)

split_on-append :
    (mark : ℕ) (a r : Text) → IsFree mark a → split_on mark (a ++ (mark ∷ r)) ≡ a ∷ split_on mark r
unfolding split_on
split_on-append mark [] r h = ground arith
split_on-append mark (c ∷ cs) r h = rw (h.0, split_on-append mark cs r h.1)

token-IsFree :
    (mark : ℕ) → is_token_char mark ≡ false → (text : Text) → IsToken text → IsFree mark text
token-IsFree mark other [] h = tt
token-IsFree mark other (c ∷ cs) h = (ground arith, token-IsFree mark other cs h.1)

pub token-IsLinkText : (text : Text) → IsToken text → IsLinkText text
token-IsLinkText [] h = tt
token-IsLinkText (c ∷ cs) h = (ground arith, token-IsLinkText cs h.1)

to_url-IsToken : (text : Text) → All IsCode text → IsToken (map to_url text)
to_url-IsToken [] h = tt
to_url-IsToken (c ∷ cs) h = (one c h.0, to_url-IsToken cs h.1)
  where
    one : (c : ℕ) → IsCode c → is_token_char (to_url c) ≡ true
    one c (x, lt, e) = rw e (ground arith)

pub encode-IsToken : (key : Bytes) → All IsByte key → IsToken (encode key)
encode-IsToken key h = rw (encode-plain key h) (to_url-IsToken (plain key) (plain-IsCode key h))

-- The two parameters of the link.
pub get_param-link :
    (u : UrlCodec)
    → UrlLaws u
    → (id key_text : Text) → IsToken id
    → IsToken key_text
    → (get_param u ((codes "s=" ++ id) ∷ (codes "k=" ++ key_text) ∷ []) (codes "s") ≡ some id)
      × (get_param u ((codes "s=" ++ id) ∷ (codes "k=" ++ key_text) ∷ []) (codes "k")
          ≡ some key_text)
unfolding get_param name_of value_of list_eq
get_param-link u laws id key_text hid hkey =
    rw
      (
        laws.form_decode-IsLinkText (codes "s") (refl, tt),
        laws.form_decode-IsLinkText (codes "k") (refl, tt),
        laws.form_decode-IsLinkText id (token-IsLinkText id hid),
        laws.form_decode-IsLinkText key_text (token-IsLinkText key_text hkey),
      )
      (refl, refl)

pub search_params-link :
    (id key : Text)
    → IsToken id
    → IsToken key
    → search_params (codes "s=" ++ (id ++ (codes "&k=" ++ key)))
      ≡ (codes "s=" ++ id) ∷ (codes "k=" ++ key) ∷ []
unfolding search_params
search_params-link id key hid hkey =
    split_on-append b'&' (codes "s=" ++ id) (codes "k=" ++ key)
      (refl, (refl, token-IsFree b'&' refl id hid))
    ∙ ap (λ rest. (codes "s=" ++ id) ∷ rest)
        (split_on-IsFree b'&' (codes "k=" ++ key) (refl, (refl, token-IsFree b'&' refl key hkey)))

pub present-of_ne : (text : Text) → text ≢ [] → present (some text) ≡ some text
present-of_ne [] h = absurd (h refl)
present-of_ne (c ∷ cs) h = refl

trim_end-white : (text : Text) → All (λ c. is_white c ≡ true) text → trim_end text ≡ []
unfolding trim_end
trim_end-white [] h = refl
trim_end-white (c ∷ cs) h = rw (trim_end-white cs h.1) (ground arith)

trim_end-append_white :
    (text white : Text)
    → All (λ c. is_white c ≡ true) white
    → trim_end (text ++ white) ≡ trim_end text
unfolding trim_end
trim_end-append_white [] white h = trim_end-white white h
trim_end-append_white (c ∷ cs) white h = rw (trim_end-append_white cs white h)

-- The fragment is found, whatever stands before it.
pub after_hash-trim :
    (a : Text) (x : ℕ) (xs white : Text)
    → IsFree b'#' a
    → IsLinkText (x ∷ xs)
    → All (λ c. is_white c ≡ true) white
    → after_hash (trim (a ++ (b'#' ∷ (x ∷ xs ++ white)))) ≡ x ∷ xs
unfolding trim
after_hash-trim a x xs white ha hx hw = go (trim_start-hash a (x ∷ xs ++ white) ha)
  where
    solid : trim_end (b'#' ∷ x ∷ xs) ≡ b'#' ∷ x ∷ xs
    solid = rw (trim_end, trim_end-IsLinkText (x ∷ xs) hx)

    go :
        (a' : Text) × (trim_start (a ++ (b'#' ∷ (x ∷ xs ++ white)))
            ≡ a' ++ (b'#' ∷ (x ∷ xs ++ white)))
          × IsFree b'#' a'
        → after_hash (trim_end (trim_start (a ++ (b'#' ∷ (x ∷ xs ++ white))))) ≡ x ∷ xs
    go (a', e, h) =
        rw
          (
            e,
            ← append_assoc a' (b'#' ∷ x ∷ xs) white,
            trim_end-append_white (a' ++ (b'#' ∷ x ∷ xs)) white hw,
            trim_end-append a' b'#' (x ∷ xs) solid,
          )
          (after_hash-append a' (x ∷ xs) h)
