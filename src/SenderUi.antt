-- ===== src/SenderUi.antt =====
-- web/transfer-ui.js, renderSenderTransfer: the files of one pick are sent one after the other.
pub mod Batches
use quicksend.Base.{
  Bool, true, false, ◌||◌, not, List, [], ◌∷◌, ◌++◌, Option, none, some, if◌then◌else◌,
}
use quicksend.Base.Bytes.{Text, codes}
use quicksend.Base.Tables.{list_eq}

-- How a call of sendFile ends: resolved, rejected with an AbortError and its reason, or rejected.
pub data Ending : Type 0 where
  resolved failed : Ending
  aborted : Option Text → Ending

-- The texts of a row whose file is over.
pub data SentStatus : Type 0 where
  sent canceled too_large error : SentStatus

-- Files by their names. `current` is the file whose call is awaited, and `queue` the rest of the
-- loop; `rows` are the rows before the current one.
pub record SenderUi : Type 0 where
  pub sending : Bool
  pub input_disabled : Bool
  pub detached : Bool
  pub current : Option Text
  pub queue : List Text
  pub rows : List SentStatus

pub data UiEffect : Type 0 where
  send_file : Text → UiEffect
  stale_files : List Text → UiEffect

unfoldable pub fresh_sender_ui : SenderUi
fresh_sender_ui = record {
  sending = false;
  input_disabled = false;
  detached = false;
  current = none;
  queue = [];
  rows = [];
}

abbrev pub over : SenderUi → SenderUi
over ui = record ui { sending = false; input_disabled = false; current = none; queue = [] }

-- The head of the loop.
unfoldable pub next_file : SenderUi → List Text → SenderUi × List UiEffect
next_file ui [] = (over ui, [])
next_file ui (file ∷ files) =
    if ui.detached
    then (over ui, [])
    else (record ui { current = some file; queue = files }, send_file file ∷ [])

abbrev pub is_empty : List Text → Bool
is_empty [] = true
is_empty (file ∷ files) = false

unfoldable pub send_files : SenderUi → List Text → SenderUi × List UiEffect
unfolding next_file
send_files ui files =
    if ui.sending || (ui.detached || is_empty files)
    then (ui, [])
    else next_file (record ui { sending = true; input_disabled = true }) files

-- handlePicked: `is_open` says that the socket can carry the files.
unfoldable pub handle_picked : SenderUi → List Text → Bool → SenderUi × List UiEffect
unfolding send_files
handle_picked ui files is_open =
    if ui.detached || not is_open then (ui, stale_files files ∷ []) else send_files ui files

abbrev pub status_of : Ending → SentStatus
status_of resolved = sent
status_of failed = error
status_of (aborted none) = canceled
status_of (aborted (some reason)) =
    if list_eq reason (codes "size_limit_exceeded") then too_large else canceled

-- The call that is awaited has ended, and the loop goes on.
unfoldable pub file_ended : SenderUi → Ending → SenderUi × List UiEffect
unfolding next_file
file_ended ui ending = elim ui.current [
  | none ↦ (ui, [])
  | some file ↦ next_file (record ui { rows = ui.rows ++ (status_of ending ∷ []) }) ui.queue
]

abbrev pub detach : SenderUi → SenderUi
detach ui = record ui { detached = true }

-- One ending after the other.
unfoldable pub end_all : SenderUi → List Ending → SenderUi × List UiEffect
unfolding file_ended
end_all ui [] = (ui, [])
end_all ui (e ∷ es) =
    let first = file_ended ui e in
    let (rest, later) = end_all first.0 es in (rest, first.1 ++ later)
