-- ===== src/Strings/Complete.antt =====
-- No text is missing in one of the languages.
use Prim.Native.String.{String}
use quicksend.Base.{
  ◌≡◌, refl, sym, ap, subst, if◌then◌else◌, ◌∙◌, ◌++◌, Bool, true, false, ◌||◌, List, [], ◌∷◌, map,
  Option, none, some, inl, inr, Bool-cases, All, if-cases,
}
use quicksend.Base.Bytes.{Text, codes}
use quicksend.Base.Tables.{list_eq}
use quicksend.Base.Objects.{object_prototype, in_codes, has_key, is_inherited}
use quicksend.Strings.Polish.{polish}
use quicksend.Strings.English.{english}
use quicksend.Pairing.Messages.{error_message_keys, message_key, error_message_key}
use quicksend.Strings.{lookup, table, t, text_or_key}

abbrev names : List (String × String) → List String
names = map (λ (entry : String × String). entry.0)

has_name : Text → List String → Bool
has_name key [] = false
has_name key (name ∷ rest) = list_eq (codes name) key || has_name key rest

lookup_of_has_name :
    (key : Text) (d : List (String × String))
    → has_name key (names d) ≡ true
    → (text : Text) × (lookup key d ≡ some text)
unfolding lookup has_name
lookup_of_has_name key [] h = cc
lookup_of_has_name key ((name, text) ∷ rest) h = elim (Bool-cases (list_eq (codes name) key)) [
  | inl here ↦ (codes text, rw here refl)
  | inr other ↦ rw other (lookup_of_has_name key rest (rw other at h))
]

same_names : names polish ≡ names english
same_names = refl

table-names : (l : Text) → names (table l) ≡ names english
table-names l =
    if-cases (λ d. names d ≡ names english) (list_eq l (codes "pl")) polish english
      (λ _. same_names) (λ _. refl)

All-message_key :
    (P : Text → Type 0) (entries : List (Text × Text)) (code : Text)
    → P (codes "errGeneric")
    → All (λ (entry : Text × Text). P entry.1) entries
    → P (message_key entries code)
unfolding message_key
All-message_key P [] code d h = d
All-message_key P (entry ∷ rest) code d h =
    if-cases P (list_eq entry.0 code) entry.1 (message_key rest code) (λ _. h.0)
      (λ _. All-message_key P rest code d h.1)

abbrev IsName : Text → Type 0
IsName key = has_name key (names english) ≡ true

message_key-append :
    (own inherited : List (Text × Text)) (code : Text)
    → has_key code inherited ≡ false
    → message_key (own ++ inherited) code ≡ message_key own code
unfolding message_key has_key
message_key-append [] [] code h = refl
message_key-append [] (entry ∷ rest) code h = elim (Bool-cases (list_eq entry.0 code)) [
  | inl here ↦ cc
  | inr other ↦ rw other (message_key-append [] rest code (rw other at h))
]
message_key-append (entry ∷ own) inherited code h =
    ap (λ later. if list_eq entry.0 code then entry.1 else later)
      (message_key-append own inherited code h)

own_key-IsName : (code : Text) → IsName (message_key error_message_keys code)
unfolding has_name list_eq
own_key-IsName code = All-message_key IsName error_message_keys code refl (
  refl,
  (
    refl,
    (
      refl,
      (
        refl,
        (refl, (refl, (refl, (refl, (refl, (refl, (refl, (refl, (refl, (refl, (refl, tt))))))))))),
      ),
    ),
  ),
)

error_message_key-IsName :
    (code : Option Text) → is_inherited code ≡ false → IsName (error_message_key code)
unfolding has_name list_eq is_inherited
error_message_key-IsName none h = refl
error_message_key-IsName (some code) h =
    subst IsName (sym (message_key-append error_message_keys (in_codes object_prototype) code h))
      (own_key-IsName code)

lookup-append :
    (key : Text) (d rest : List (String × String)) {text : Text}
    → lookup key d ≡ some text
    → lookup key (d ++ rest) ≡ some text
unfolding lookup
lookup-append key [] rest h = cc
lookup-append key ((name, text) ∷ d) rest h = elim (Bool-cases (list_eq (codes name) key)) [
  | inl here ↦ rw here (rw here at h)
  | inr other ↦ rw other (lookup-append key d rest (rw other at h))
]

-- In every language, for no error code and for every error code that is not the name of a key that
-- all objects inherit (such as toString): the error screen shows a text of the own table of that
-- language, never a bare key.
pub error_text :
    (locale : Text) (code : Option Text)
    → is_inherited code ≡ false
    → (text : Text) × (lookup (error_message_key code) (table locale) ≡ some text)
      × (t locale (error_message_key code) ≡ text)
unfolding t
error_text locale code own =
    let key = error_message_key code in
    let (text, found) =
      lookup_of_has_name key (table locale)
        (ap (has_name key) (table-names locale) ∙ error_message_key-IsName code own) in
    (text, found, ap (text_or_key key) (lookup-append key (table locale) object_prototype found))
