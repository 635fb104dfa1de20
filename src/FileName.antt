-- ===== src/FileName.antt =====
-- web/transfer-ui.js, dedupeFilename: a name for a file in a folder that already has some.
pub mod Fresh
use quicksend.Base.{
  ℕ, zero, suc, ◌+◌, ◌/◌, ◌%◌, Bool, true, false, ◌||◌, List, [], ◌∷◌, ◌++◌, Option, none, some,
  ltb, ◌==◌, if◌then◌else◌, length, take, drop,
}
use quicksend.Base.Bytes.{Text, codes}
use quicksend.Base.Tables.{list_eq}

-- `usedNames.has(name)`.
unfoldable pub has : Text → List Text → Bool
has name [] = false
has name (x ∷ xs) = list_eq name x || has name xs

-- A number in a template string. The fuel is the number: it has no more digits than that.
unfoldable pub decimal_digits : ℕ → ℕ → Text
decimal_digits zero n = (b'0' + n % 10) ∷ []
decimal_digits (suc fuel) n =
    let front = decimal_digits fuel (n / 10) in
    if ltb n 10 then (b'0' + n) ∷ [] else front ++ ((b'0' + n % 10) ∷ [])

abbrev pub decimal : ℕ → Text
decimal n = decimal_digits n n

-- `name.lastIndexOf(".")`, `none` for -1.
unfoldable pub last_dot : Text → Option ℕ
last_dot [] = none
last_dot (x ∷ xs) = elim (last_dot xs) [
  | some i ↦ some (suc i)
  | none ↦ if x == b'.' then some 0 else none
]

abbrev pub base_of : Text → Text
base_of name = elim (last_dot name) [
  | none ↦ name
  | some dot ↦ if ltb 0 dot then take dot name else name
]

abbrev pub extension_of : Text → Text
extension_of name = elim (last_dot name) [
  | none ↦ []
  | some dot ↦ if ltb 0 dot then drop dot name else []
]

unfoldable pub candidate : Text → Text → ℕ → Text
candidate base ext i = base ++ (codes " (" ++ (decimal i ++ (codes ")" ++ ext)))

-- The loop, from number `i` on.
unfoldable pub first_free : ℕ → List Text → Text → Text → ℕ → Text
first_free zero used base ext i = candidate base ext i
first_free (suc fuel) used base ext i =
    let later = first_free fuel used base ext (suc i) in
    if has (candidate base ext i) used then later else candidate base ext i

-- The names that are used afterwards, and the name.
unfoldable pub dedupe_filename : List Text → Text → List Text × Text
unfolding has first_free
dedupe_filename used name =
    if has name used
    then (let free = first_free (length used) used (base_of name) (extension_of name) 1 in
        (free ∷ used, free))
    else (name ∷ used, name)
