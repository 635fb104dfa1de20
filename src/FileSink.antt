-- ===== src/FileSink.antt =====
-- web/file-writer.js: where an incoming file is saved. The pickers and the file system answer
-- from outside; what is written to an open file is taken to arrive.
use quicksend.Base.{
  Bool, true, false, ◌&&◌, List, [], ◌∷◌, ◌++◌, Option, none, some, if◌then◌else◌, append_assoc,
  ◌≡◌, refl, sym, ap, ◌∙◌,
}
use quicksend.Base.Bytes.{Bytes}

pub data Mode : Type 0 where
  fsa blob : Mode

-- `parts` is what was written since the sink was opened, `saved` the file that `close` has left:
-- on the disk, or as the download of the blob. `preview` says that there is an object URL.
pub record Sink : Type 0 where
  pub mode : Mode
  pub parts : List Bytes
  pub saved : Option Bytes
  pub preview : Bool

-- The answers that createFileSink gets: a folder was chosen, and opens the file; there is a picker,
-- and it opens the file.
pub record Answers : Type 0 where
  pub has_directory : Bool
  pub directory_opens : Bool
  pub has_picker : Bool
  pub picker_opens : Bool

abbrev pub empty_sink : Mode → Sink
empty_sink mode = record { mode = mode; parts = []; saved = none; preview = false }

unfoldable pub create_file_sink : Answers → Sink
create_file_sink a =
    if a.has_directory && a.directory_opens
    then empty_sink fsa
    else if a.has_picker && a.picker_opens
    then empty_sink fsa
    else empty_sink blob

abbrev pub concat : List Bytes → Bytes
concat [] = []
concat (p ∷ ps) = p ++ concat ps

unfoldable pub write : Sink → Bytes → Sink
write s chunk = record s { parts = s.parts ++ (chunk ∷ []) }

abbrev pub is_blob : Sink → Bool
is_blob s = elim s.mode [ fsa ↦ false | blob ↦ true ]

unfoldable pub close : Sink → Sink
close s = record s { saved = some (concat s.parts); preview = is_blob s }

-- An aborted file leaves nothing; a blob gives its parts and its URL back.
unfoldable pub abort : Sink → Sink
abort s = record s { parts = []; preview = false }

-- The timer that `close` has set for the URL.
unfoldable pub revoke : Sink → Sink
revoke s = record s { preview = false }

abbrev pub get_preview_url : Sink → Bool
get_preview_url s = s.preview

pub concat-append : (ps qs : List Bytes) → concat (ps ++ qs) ≡ concat ps ++ concat qs
concat-append [] qs = refl
concat-append (p ∷ ps) qs =
    ap (p ++◌) (concat-append ps qs) ∙ sym (append_assoc p (concat ps) (concat qs))
