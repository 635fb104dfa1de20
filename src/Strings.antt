-- ===== src/Strings.antt =====
-- web/strings.js and web/i18n.js: the texts of the page in its two languages, by their code points,
-- and the page that shows them.
pub mod Polish
pub mod English
pub mod Complete
use Prim.Native.String.{String}
use quicksend.Base.{List, [], ◌∷◌, ◌++◌, map, Option, none, some, if◌then◌else◌}
use quicksend.Base.Bytes.{Text, codes}
use quicksend.Base.Tables.{list_eq}
use quicksend.Base.Objects.{object_prototype}
use quicksend.Strings.Polish.{polish}
use quicksend.Strings.English.{english}

-- `dict[key]`.
unfoldable pub lookup : Text → List (String × String) → Option Text
lookup key [] = none
lookup key ((name, text) ∷ rest) =
    let later = lookup key rest in if list_eq (codes name) key then some (codes text) else later

-- `STRINGS[locale] || STRINGS[DEFAULT_LOCALE]`.
abbrev pub table : Text → List (String × String)
table locale = if list_eq locale (codes "pl") then polish else english

-- What `dict[key]` finds: the table's own keys, then the inherited ones.
abbrev pub dictionary : Text → List (String × String)
dictionary locale = table locale ++ object_prototype

-- `dict[key] !== undefined ? dict[key] : key`.
unfoldable pub text_or_key : Text → Option Text → Text
text_or_key key none = key
text_or_key key (some text) = text

unfoldable pub t : Text → Text → Text
unfolding lookup list_eq text_or_key
t locale key = text_or_key key (lookup key (dictionary locale))

-- The label of a group of buttons, and those of its buttons.
pub record Labels : Type 0 where
  pub group : Text
  pub buttons : List Text

-- What the translations reach: the language of the document, the elements with data-i18n by their
-- key and content, and the two groups of buttons.
pub record Page : Type 0 where
  pub lang : Text
  pub elements : List (Text × Text)
  pub theme_labels : Labels
  pub lang_labels : Labels

-- The two `relabel`.
abbrev pub relabel_theme : Text → Labels
relabel_theme locale = record {
  group = t locale (codes "themeGroupLabel");
  buttons = map (t locale) (codes "themeSystem" ∷ codes "themeLight" ∷ codes "themeDark" ∷ []);
}

abbrev pub relabel_lang : Text → Labels
relabel_lang locale = record {
  group = t locale (codes "langGroupLabel");
  buttons = map (t locale) (codes "langAuto" ∷ codes "langPl" ∷ codes "langEn" ∷ []);
}

-- `if (dict[key] !== undefined) el.textContent = dict[key]`.
unfoldable pub put_text : Option Text → Text × Text → Text × Text
put_text none entry = entry
put_text (some text) (key, content) = (key, text)

unfoldable pub translate : Text → Text × Text → Text × Text
unfolding lookup put_text
translate locale (key, content) = put_text (lookup key (dictionary locale)) (key, content)

-- applyTranslations with the subscriber of web/theme.js.
unfoldable pub apply_translations : Text → Page → Page
unfolding translate t
apply_translations locale page = record page {
  lang = locale;
  elements = map (translate locale) page.elements;
  theme_labels = relabel_theme locale;
}

-- What setPref does to the page once the locale is known.
unfoldable pub show_locale : Text → Page → Page
unfolding apply_translations t
show_locale locale page = record (apply_translations locale page) {
  lang_labels = relabel_lang locale;
}
