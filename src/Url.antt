-- ===== src/Url.antt =====
-- The parts of the browser's URL and URLSearchParams that web/pairing.js uses, and String.trim.
use quicksend.Base.{
  ℕ, suc, Bool, true, ◌&&◌, ◌||◌, ◌≡◌, List, [], ◌∷◌, ◌++◌, Option, none, some, leb, ◌==◌,
  if◌then◌else◌, All,
}
use quicksend.Base.Bytes.{Text}
use quicksend.Base.Tables.{list_eq}

-- An address with its query and its fragment, each without its mark.
pub record Url : Type 0 where
  pub address : Text
  pub search : Text
  pub hash : Text

-- The percent-encoding of a fragment that is set, and the decoding of a form: "+" to a space,
-- then the percent-encoded bytes as UTF-8.
pub record UrlCodec : Type 0 where
  pub encode_fragment : Text → Text
  pub form_decode : Text → Text

-- Letters, digits, "-" and "_".
abbrev pub is_token_char : ℕ → Bool
is_token_char c =
    (leb b'A' c && leb c b'Z')
    || ((leb b'a' c && leb c b'z') || ((leb b'0' c && leb c b'9') || (c == b'-' || c == b'_')))

abbrev pub IsToken : Text → Type 0
IsToken text = All (λ c. is_token_char c ≡ true) text

abbrev pub is_link_char : ℕ → Bool
is_link_char c = is_token_char c || (c == b'=' || c == b'&')

abbrev pub IsLinkText : Text → Type 0
IsLinkText text = All (λ c. is_link_char c ≡ true) text

-- Neither encoding touches such characters.
pub record UrlLaws (u : UrlCodec) : Type 0 where
  pub encode_fragment-IsLinkText : (text : Text) → IsLinkText text → u.encode_fragment text ≡ text
  pub form_decode-IsLinkText : (text : Text) → IsLinkText text → u.form_decode text ≡ text

abbrev pub marked : ℕ → Text → Text
marked mark [] = []
marked mark (c ∷ cs) = mark ∷ c ∷ cs

-- `url.toString()`.
unfoldable pub to_string : Url → Text
to_string url = url.address ++ (marked b'?' url.search ++ marked b'#' url.hash)

-- The white space and line ends of String.prototype.trim.
abbrev pub is_white : ℕ → Bool
is_white c =
    (leb 9 c && leb c 13)
    || (c == 32
        || (c == 0xA0
            || (c == 0xFEFF
                || (c == 0x1680
                    || ((leb 0x2000 c && leb c 0x200A)
                        || (c == 0x2028
                            || (c == 0x2029 || (c == 0x202F || (c == 0x205F || c == 0x3000)))))))))

unfoldable pub trim_start : Text → Text
trim_start [] = []
trim_start (c ∷ cs) = if is_white c then trim_start cs else c ∷ cs

unfoldable pub keep_unless_white : ℕ → Text → Text
keep_unless_white c [] = if is_white c then [] else c ∷ []
keep_unless_white c (x ∷ xs) = c ∷ x ∷ xs

unfoldable pub trim_end : Text → Text
unfolding keep_unless_white
trim_end [] = []
trim_end (c ∷ cs) = keep_unless_white c (trim_end cs)

unfoldable pub trim : Text → Text
unfolding trim_start trim_end
trim text = trim_end (trim_start text)

-- `text.indexOf(mark)`, with `none` for -1.
unfoldable pub index_of : ℕ → Text → Option ℕ
index_of mark [] = none
index_of mark (c ∷ cs) =
    let later = index_of mark cs in
    if c == mark then some 0 else elim later [ none ↦ none | some i ↦ some (suc i) ]

abbrev pub cons_first : ℕ → List Text → List Text
cons_first c [] = (c ∷ []) ∷ []
cons_first c (part ∷ parts) = (c ∷ part) ∷ parts

unfoldable pub split_on : ℕ → Text → List Text
split_on mark [] = [] ∷ []
split_on mark (c ∷ cs) =
    let rest = split_on mark cs in if c == mark then [] ∷ rest else cons_first c rest

-- A part of a query: its name up to the first "=", and its value after that.
unfoldable pub name_of : Text → Text
name_of [] = []
name_of (c ∷ cs) = if c == b'=' then [] else c ∷ name_of cs

unfoldable pub value_of : Text → Text
value_of [] = []
value_of (c ∷ cs) = if c == b'=' then cs else value_of cs

-- `params.get(name)` over the parts of the query, of which empty ones do not count.
unfoldable pub get_param : UrlCodec → List Text → Text → Option Text
unfolding name_of value_of
get_param u [] name = none
get_param u (part ∷ parts) name =
    let later = get_param u parts name in
    elim part [
      | [] ↦ later
      | ◌∷◌ c cs ↦
          if list_eq (u.form_decode (name_of (c ∷ cs))) name
          then some (u.form_decode (value_of (c ∷ cs)))
          else later
    ]

-- `new URLSearchParams(text)`: one leading "?" is dropped.
unfoldable pub search_params : Text → List Text
unfolding split_on
search_params [] = split_on b'&' []
search_params (c ∷ cs) = if c == b'?' then split_on b'&' cs else split_on b'&' (c ∷ cs)
