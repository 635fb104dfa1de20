-- ===== src/Base/Objects.antt =====
-- The keys that every object literal of the source inherits: `table[key]` finds them too.
use Prim.Native.String.{String}
use quicksend.Base.{Bool, false, ◌||◌, List, [], ◌∷◌, map, Option, none, some}
use quicksend.Base.Bytes.{Text, codes}
use quicksend.Base.Tables.{list_eq}

-- The keys of Object.prototype, with the text that each value turns into where it is shown.
abbrev pub object_prototype : List (String × String)
object_prototype =
    ("constructor", "function Object() { [native code] }")
    ∷ ("toString", "function toString() { [native code] }")
    ∷ ("toLocaleString", "function toLocaleString() { [native code] }")
    ∷ ("valueOf", "function valueOf() { [native code] }")
    ∷ ("hasOwnProperty", "function hasOwnProperty() { [native code] }")
    ∷ ("isPrototypeOf", "function isPrototypeOf() { [native code] }")
    ∷ ("propertyIsEnumerable", "function propertyIsEnumerable() { [native code] }")
    ∷ ("__defineGetter__", "function __defineGetter__() { [native code] }")
    ∷ ("__defineSetter__", "function __defineSetter__() { [native code] }")
    ∷ ("__lookupGetter__", "function __lookupGetter__() { [native code] }")
    ∷ ("__lookupSetter__", "function __lookupSetter__() { [native code] }")
    ∷ ("__proto__", "[object Object]")
    ∷ []

abbrev pub in_codes : List (String × String) → List (Text × Text)
in_codes = map (λ (entry : String × String). (codes entry.0, codes entry.1))

unfoldable pub has_key : Text → List (Text × Text) → Bool
has_key key [] = false
has_key key (entry ∷ rest) = list_eq entry.0 key || has_key key rest

-- Whether a code is the name of an inherited key.
unfoldable pub is_inherited : Option Text → Bool
unfolding has_key
is_inherited none = false
is_inherited (some code) = has_key code (in_codes object_prototype)
