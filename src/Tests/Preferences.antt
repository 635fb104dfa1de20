-- ===== src/Tests/Preferences.antt =====
-- web/theme.js and web/i18n.js: a dark theme, and a browser that speaks Polish.
use quicksend.Base.{◌≡◌, refl, false, [], ◌∷◌, none, some, take}
use quicksend.Base.Bytes.{codes}
use quicksend.Base.Tables.{list_eq}
use quicksend.Settings.{
  Storage, Navigator, first_known, read_stored, set_theme, init_theme_toggle, set_pref,
  init_lang_toggle,
}
use quicksend.Settings.Reload.{reload_keeps_settings}

abbrev polish : Navigator
polish = record { languages = codes "de-DE" ∷ codes "PL" ∷ []; language = some (codes "de-DE") }

abbrev nothing_stored : Storage
nothing_stored = record { broken = false; item = none }

polish_test : (init_lang_toggle polish nothing_stored).locale ≡ codes "pl"
unfolding init_lang_toggle set_pref read_stored first_known list_eq take
polish_test = refl

reload_keeps_settings_example :
    (init_theme_toggle (set_theme nothing_stored (codes "dark")).storage
      ≡ set_theme nothing_stored (codes "dark"))
    × (init_lang_toggle polish (set_pref polish nothing_stored (codes "en")).storage
        ≡ set_pref polish nothing_stored (codes "en"))
unfolding list_eq
reload_keeps_settings_example =
    reload_keeps_settings polish nothing_stored nothing_stored (codes "dark") (codes "en") refl refl
      refl refl
