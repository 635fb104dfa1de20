-- ===== src/FileSize.antt =====
-- web/transfer-ui.js: how the size of a file is shown (formatBytes, and the name in createFileRow).
-- `toFixed` of a quotient by a power of two rounds exactly, and a half upwards.
use quicksend.Base.{ℕ, ◌+◌, ◌*◌, ◌/◌, ◌%◌, ◌++◌, ◌∷◌, Option, none, some, ltb, if◌then◌else◌}
use quicksend.Base.Bytes.{Text, codes}
use quicksend.FileName.{decimal}

-- `n / unit` in parts of which `parts` make one, rounded.
abbrev pub rounded : ℕ → ℕ → ℕ → ℕ
rounded n unit parts = (2 * n * parts + unit) / (2 * unit)

-- `toFixed(1)` and `toFixed(2)`.
abbrev to_fixed_1 : ℕ → ℕ → Text
to_fixed_1 n unit =
    let tenths = rounded n unit 10 in decimal (tenths / 10) ++ (b'.' ∷ decimal (tenths % 10))

abbrev to_fixed_2 : ℕ → ℕ → Text
to_fixed_2 n unit =
    let cents = rounded n unit 100 in
    decimal (cents / 100) ++ (b'.' ∷ (decimal (cents / 10 % 10) ++ decimal (cents % 10)))

unfoldable pub format_bytes : ℕ → Text
format_bytes n =
    if ltb n 1024
    then decimal n ++ codes " B"
    else if ltb n 1048576
    then to_fixed_1 n 1024 ++ codes " KB"
    else if ltb n 1073741824
    then to_fixed_1 n 1048576 ++ codes " MB"
    else to_fixed_2 n 1073741824 ++ codes " GB"

unfoldable pub shown_name : Text → Option ℕ → Text
unfolding format_bytes
shown_name name none = name
shown_name name (some size) = name ++ (codes " (" ++ (format_bytes size ++ codes ")"))
