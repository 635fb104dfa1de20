-- ===== src/ReceiverUi.antt =====
-- web/transfer-ui.js, renderReceiverTransfer: the rows of the incoming files, and the callbacks that
-- it gives to attachReceiver. Progress bars and buttons are left out. A row is there as soon as
-- onFileStart is called; the source first awaits createFileSink, so that an error or a close while
-- the file picker is open finds no row. A write to the sink is one step, and succeeds.
pub mod Saving
pub mod EndToEnd
pub mod Closed
use quicksend.Base.{
  ℕ, ◌+◌, ◌*◌, Bool, true, false, ◌&&◌, List, [], ◌∷◌, ◌++◌, Option, none, some, map, if◌then◌else◌,
  ltb, length,
}
use quicksend.Base.Bytes.{Bytes, Text, codes}
use quicksend.Base.Tables.{list_eq}
use quicksend.Receiver.State.{
  Metadata, Effect, on_file_start, on_chunk, on_file_complete, on_aborted, on_error, send_ack,
  send_abort,
}
use quicksend.FileSink.{Sink, Answers, create_file_sink, write, close, abort, is_blob}

-- The texts of a row.
pub data Status : Type 0 where
  no_text large_file_warning saved_to_disk downloaded too_large canceled failed : Status

pub record Row : Type 0 where
  pub sink : Sink
  pub received : ℕ
  pub size : ℕ
  pub done : Bool
  pub status : Status
  pub open_link : Bool

-- `rows` is an object with the file ids as its keys.
pub record Ui : Type 0 where
  pub receiving : Bool
  pub rows : List (Text × Row)

abbrev pub blob_fallback_warn_bytes : ℕ
blob_fallback_warn_bytes = 200 * 1024 * 1024

unfoldable pub lookup : Text → List (Text × Row) → Option Row
lookup id [] = none
lookup id (entry ∷ rest) = if list_eq id entry.0 then some entry.1 else lookup id rest

-- `rows[id] = row`.
unfoldable pub set : Text → Row → List (Text × Row) → List (Text × Row)
set id row [] = (id, row) ∷ []
set id row (entry ∷ rest) =
    let later = set id row rest in
    if list_eq id entry.0 then (entry.0, row) ∷ rest else entry ∷ later

abbrev pub abort_status_text : Option Text → Status
abort_status_text none = canceled
abort_status_text (some reason) =
    if list_eq reason (codes "size_limit_exceeded") then too_large else canceled

-- onFileStart, with the sink that createFileSink resolves to.
unfoldable pub file_start : Answers → Ui → Text → Metadata → Ui
unfolding create_file_sink set
file_start answers ui id meta =
    let sink = create_file_sink answers in
    let status =
      if is_blob sink && ltb blob_fallback_warn_bytes meta.size
      then large_file_warning
      else no_text in
    record {
      receiving = true;
      rows =
          set id
            (record {
              sink = sink;
              received = 0;
              size = meta.size;
              done = false;
              status = status;
              open_link = false;
            })
            ui.rows;
    }

-- onChunk, with a write that succeeds.
unfoldable pub chunk : Ui → Text → Bytes → Ui
unfolding lookup set write
chunk ui id plaintext = elim (lookup id ui.rows) [
  | none ↦ ui
  | some row ↦ if row.done then ui else record ui {
    rows =
        set id
          (record row {
            sink = write row.sink plaintext;
            received = row.received + length plaintext;
          })
          ui.rows;
  }
]

unfoldable pub file_complete : Ui → Text → Ui
unfolding lookup set close
file_complete ui id = elim (lookup id ui.rows) [
  | none ↦ record ui { receiving = false }
  | some row ↦ record {
    receiving = false;
    rows =
        set id
          (record row {
            done = true;
            sink = close row.sink;
            status = if is_blob row.sink then downloaded else saved_to_disk;
            open_link = (close row.sink).preview;
          })
          ui.rows;
  }
]

unfoldable pub aborted : Ui → Text → Option Text → Ui
unfolding lookup set abort
aborted ui id reason = elim (lookup id ui.rows) [
  | none ↦ record ui { receiving = false }
  | some row ↦ record {
    receiving = false;
    rows =
        set id
          (record row { done = true; status = abort_status_text reason; sink = abort row.sink })
          ui.rows;
  }
]

abbrev fail_row : Text × Row → Text × Row
fail_row entry =
    let row = entry.1 in
    (
      entry.0,
      if row.done then row else record row { done = true; status = failed; sink = abort row.sink },
    )

unfoldable pub errored : Ui → Ui
unfolding abort
errored ui = record { receiving = false; rows = map fail_row ui.rows }

-- The calls of a receiver, one after the other.
unfoldable pub apply : Answers → Ui → List Effect → Ui
unfolding file_start chunk file_complete aborted errored
apply answers ui [] = ui
apply answers ui (on_file_start id meta ∷ es) = apply answers (file_start answers ui id meta) es
apply answers ui (on_chunk id index last plaintext ∷ es) = apply answers (chunk ui id plaintext) es
apply answers ui (on_file_complete id ∷ es) = apply answers (file_complete ui id) es
apply answers ui (on_aborted id reason ∷ es) = apply answers (aborted ui id reason) es
apply answers ui (on_error e ∷ es) = apply answers (errored ui) es
apply answers ui (send_ack id n ∷ es) = apply answers ui es
apply answers ui (send_abort id ∷ es) = apply answers ui es
