-- ===== src/Tests/FileNames.antt =====
-- web/transfer-ui.js: dedupeFilename on a folder with two names, and two sizes.
use quicksend.Base.{◌≡◌, refl, false, List, [], ◌∷◌, some, take, drop}
use quicksend.Base.Bytes.{Text, codes}
use quicksend.Base.Tables.{list_eq}
use quicksend.FileName.{has, decimal_digits, last_dot, candidate, dedupe_filename}
use quicksend.FileSize.{format_bytes, shown_name}
use quicksend.FileName.Fresh.{dedupe_filename_lem}

abbrev two_names : List Text
two_names = codes "a.txt" ∷ codes "a (1).txt" ∷ []

dedupe_test : (dedupe_filename two_names (codes "a.txt")).1 ≡ codes "a (2).txt"
unfolding dedupe_filename list_eq take drop candidate decimal_digits last_dot
dedupe_test = refl

dedupe_filename_lem_example :
    let (used', result) = dedupe_filename two_names (codes "a.txt") in
    (has result two_names ≡ false)
    × (used' ≡ result ∷ two_names)
    × (has (codes "a.txt") two_names ≡ false → result ≡ codes "a.txt")
dedupe_filename_lem_example = dedupe_filename_lem two_names (codes "a.txt")

size_test : shown_name (codes "a.txt") (some 1536) ≡ codes "a.txt (1.5 KB)"
unfolding shown_name decimal_digits
size_test = refl

-- The last size below a unit is rounded up to a number of four digits.
last_kilobyte_test : format_bytes 1048575 ≡ codes "1024.0 KB"
unfolding format_bytes decimal_digits
last_kilobyte_test = refl
