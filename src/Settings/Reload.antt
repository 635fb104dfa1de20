-- ===== src/Settings/Reload.antt =====
-- A setting survives the page, and the page always has a language.
use quicksend.Base.{
  ◌≡◌, refl, sym, ap, ◌∙◌, ◌⊎◌, inl, inr, Bool, true, false, ◌||◌, List, [], ◌∷◌, Option, none,
  some, if◌then◌else◌, if-cases, Bool-cases, map, take,
}
use quicksend.Base.Bytes.{Text, codes}
use quicksend.Base.Tables.{list_eq, list_eq_sound, list_eq_refl}
use quicksend.Settings.{
  Storage, Navigator, set_item, includes, system, read_stored, themes, set_theme, init_theme_toggle,
  first_known, preferences, set_pref, init_lang_toggle, languages_of, to_lower,
}

read_stored-set_item :
    (valid : List Text) (s : Storage) (value : Text)
    → s.broken ≡ false
    → includes valid value ≡ true
    → read_stored valid (set_item s value) ≡ value
unfolding read_stored set_item
read_stored-set_item valid s value works known =
    ap (λ b. read_stored valid (set_item (record s { broken = b }) value)) works
    ∙ ap (λ b. if b then value else system) known

set_item-set_item :
    (s : Storage) (value : Text) → set_item (set_item s value) value ≡ set_item s value
unfolding set_item
set_item-set_item s value = go s.broken
  where
    go :
        (b : Bool)
        → set_item (set_item (record s { broken = b }) value) value
          ≡ set_item (record s { broken = b }) value
    go true = refl
    go false = refl

-- Where localStorage works, for a valid theme and a valid language preference: setting it and
-- loading the page again gives the same theme with its attribute and pressed button, and the same
-- preference with its language and pressed button.
pub reload_keeps_settings :
    (n : Navigator) (s s' : Storage) (theme pref : Text)
    → s.broken ≡ false
    → s'.broken ≡ false
    → includes themes theme ≡ true
    → includes preferences pref ≡ true
    → (init_theme_toggle (set_theme s theme).storage ≡ set_theme s theme)
      × (init_lang_toggle n (set_pref n s' pref).storage ≡ set_pref n s' pref)
unfolding init_theme_toggle init_lang_toggle set_theme set_pref
reload_keeps_settings n s s' theme pref works works' known known' = (
  ap (set_theme (set_item s theme)) (read_stored-set_item themes s theme works known)
      ∙ ap (λ storage. record (set_theme s theme) { storage = storage })
          (set_item-set_item s theme),
  ap (set_pref n (set_item s' pref)) (read_stored-set_item preferences s' pref works' known')
      ∙ ap (λ storage. record (set_pref n s' pref) { storage = storage })
          (set_item-set_item s' pref),
)

abbrev pub IsSupported : Text → Type 0
IsSupported locale = (locale ≡ codes "pl") ⊎ (locale ≡ codes "en")

first_known-IsSupported : (ls : List Text) → IsSupported (first_known ls)
unfolding first_known
first_known-IsSupported [] = inr refl
first_known-IsSupported (l ∷ ls) =
    if-cases IsSupported (list_eq (take 2 (map to_lower l)) (codes "pl")) _ _ (λ _. inl refl)
      (λ _.
        if-cases IsSupported (list_eq (take 2 (map to_lower l)) (codes "en")) _ _ (λ _. inr refl)
          (λ _. first_known-IsSupported ls))

-- A known preference that is not the system's is a language.
preference-IsSupported :
    (pref : Text)
    → includes preferences pref ≡ true
    → list_eq pref system ≡ false
    → IsSupported pref
preference-IsSupported pref h other =
    go (list_eq system pref) (list_eq (codes "pl") pref) (list_eq (codes "en") pref) refl refl refl
      h
  where
    go :
        (x y z : Bool)
        → list_eq system pref ≡ x
        → list_eq (codes "pl") pref ≡ y
        → list_eq (codes "en") pref ≡ z
        → (x || (y || (z || false))) ≡ true
        → IsSupported pref
    go true y z ex ey ez e =
        absurd (no_both (ap (λ p. list_eq p system) (list_eq_sound system pref ex) ∙ other))
      where
        no_both : list_eq system system ≡ false → ⊥
        no_both e = cc (list_eq_refl system)
    go false true z ex ey ez e = inl (sym (list_eq_sound (codes "pl") pref ey))
    go false false true ex ey ez e = inr (sym (list_eq_sound (codes "en") pref ez))
    go false false false ex ey ez e = cc

includes-read_stored : (s : Storage) → includes preferences (read_stored preferences s) ≡ true
unfolding read_stored list_eq
includes-read_stored s = go s.broken s.item
  where
    go :
        (b : Bool) (item : Option Text)
        → includes preferences (read_stored preferences (record { broken = b; item = item })) ≡ true
    go true item = refl
    go false none = refl
    go false (some value) = elim (Bool-cases (includes preferences value)) [
      | inl known ↦ ap (λ b. includes preferences (if b then value else system)) known ∙ known
      | inr unknown ↦ ap (λ b. includes preferences (if b then value else system)) unknown
    ]

-- Whatever the browser says of its languages and whatever is stored, also where localStorage is
-- broken, the page starts in Polish or in English.
init_lang_toggle-IsSupported :
    (n : Navigator) (s : Storage) → IsSupported (init_lang_toggle n s).locale
unfolding init_lang_toggle set_pref
init_lang_toggle-IsSupported n s =
    if-cases IsSupported (list_eq (read_stored preferences s) system) _ _
      (λ _. first_known-IsSupported (languages_of n))
      (λ other. preference-IsSupported (read_stored preferences s) (includes-read_stored s) other)
