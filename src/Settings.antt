-- ===== src/Settings.antt =====
-- web/theme.js, web/i18n.js and detectLocale of web/strings.js: the two stored settings of the page.
pub mod Reload
use quicksend.Base.{
  ℕ, ◌+◌, Bool, true, false, ◌&&◌, ◌||◌, List, [], ◌∷◌, map, Option, none, some, leb, if◌then◌else◌,
  take,
}
use quicksend.Base.Bytes.{Text, codes}
use quicksend.Base.Tables.{list_eq}

-- One key of localStorage. Where it is broken every access throws.
pub record Storage : Type 0 where
  pub broken : Bool
  pub item : Option Text

unfoldable pub set_item : Storage → Text → Storage
set_item s value = if s.broken then s else record s { item = some value }

-- `VALID.includes(value)`.
abbrev pub includes : List Text → Text → Bool
includes [] value = false
includes (x ∷ xs) value = list_eq x value || includes xs value

abbrev pub system : Text
system = codes "system"

unfoldable pub read_stored : List Text → Storage → Text
read_stored valid s =
    if s.broken
    then system
    else elim s.item [ none ↦ system | some value ↦ if includes valid value then value else system ]

abbrev pub themes : List Text
themes = system ∷ codes "light" ∷ codes "dark" ∷ []

-- `attribute` is the page's data-theme, `pressed` the buttons in their order.
pub record Theme : Type 0 where
  pub current : Text
  pub attribute : Option Text
  pub pressed : List Bool
  pub storage : Storage

abbrev pub attribute_of : Text → Option Text
attribute_of theme = if list_eq theme system then none else some theme

unfoldable pub set_theme : Storage → Text → Theme
unfolding set_item
set_theme storage theme = record {
  current = theme;
  attribute = attribute_of theme;
  pressed = map (λ th. list_eq th theme) themes;
  storage = set_item storage theme;
}

unfoldable pub init_theme_toggle : Storage → Theme
unfolding read_stored set_theme
init_theme_toggle storage = set_theme storage (read_stored themes storage)

abbrev pub default_locale : Text
default_locale = codes "en"

-- `toLowerCase`: of the letters that matter, only the ASCII ones become p, l, e or n.
abbrev pub to_lower : ℕ → ℕ
to_lower x = if leb b'A' x && leb x b'Z' then x + 32 else x

-- navigator.languages and navigator.language.
pub record Navigator : Type 0 where
  pub languages : List Text
  pub language : Option Text

abbrev pub languages_of : Navigator → List Text
languages_of n = elim n.languages [
  | [] ↦ elim n.language [
    | none ↦ default_locale ∷ []
    | some l ↦ elim l [ [] ↦ default_locale ∷ [] | ◌∷◌ x xs ↦ (x ∷ xs) ∷ [] ]
  ]
  | ◌∷◌ l ls ↦ l ∷ ls
]

unfoldable pub first_known : List Text → Text
first_known [] = default_locale
first_known (l ∷ ls) =
    let base = take 2 (map to_lower l) in
    let rest = first_known ls in
    if list_eq base (codes "pl")
    then codes "pl"
    else if list_eq base (codes "en")
    then codes "en"
    else rest

abbrev pub detect_locale : Navigator → Text
detect_locale n = first_known (languages_of n)

abbrev pub preferences : List Text
preferences = system ∷ codes "pl" ∷ codes "en" ∷ []

abbrev pub resolve_locale : Navigator → Text → Text
resolve_locale n pref = if list_eq pref system then detect_locale n else pref

pub record Language : Type 0 where
  pub pref : Text
  pub locale : Text
  pub pressed : List Bool
  pub storage : Storage

unfoldable pub set_pref : Navigator → Storage → Text → Language
unfolding set_item first_known
set_pref n storage pref = record {
  pref = pref;
  locale = resolve_locale n pref;
  pressed = map (λ opt. list_eq opt pref) preferences;
  storage = set_item storage pref;
}

unfoldable pub init_lang_toggle : Navigator → Storage → Language
unfolding read_stored set_pref
init_lang_toggle n storage = set_pref n storage (read_stored preferences storage)
