-- ===== src/Tests/Saving.antt =====
-- web/transfer-ui.js and web/file-writer.js: the three-byte file, saved as a download.
use quicksend.Base.{◌≡◌, false, [], ◌∷◌, none}
use quicksend.Base.Bytes.{codes, zeros}
use quicksend.Receiver as Receiving
use quicksend.Receiver.State as Received
use quicksend.Sender.Transcript.{data_of}
use quicksend.Transfer.{handle_each}
use quicksend.FileSink.{Answers}
use quicksend.ReceiverUi.{Ui, apply, chunk, errored, aborted}
use quicksend.ReceiverUi.Saving.{Saved}
use quicksend.ReceiverUi.EndToEnd.{saves_sent_file}
use quicksend.ReceiverUi.Closed.{late_chunks_ignored}
use quicksend.Tests.Instances.{toy_crypto, toy_codec, toy_call, toy_laws}
use quicksend.Tests.Transfers.{
  whole_call, whole_call-resolves, sent, sixteen, key_length, id_bytes, one_chunk,
}

abbrev no_picker : Answers
no_picker = record {
  has_directory = false;
  directory_opens = false;
  has_picker = false;
  picker_opens = false;
}

abbrev empty_ui : Ui
empty_ui = record { receiving = false; rows = [] }

saves_sent_file_example : Saved toy_call no_picker empty_ui (
    apply no_picker empty_ui
      (Receiving.run toy_crypto toy_codec
        (zeros 32)
        Received.fresh
        (handle_each (data_of sent.1))).1)
saves_sent_file_example =
    saves_sent_file toy_call toy_laws no_picker empty_ui whole_call key_length sixteen id_bytes
      one_chunk whole_call-resolves

late_chunks_ignored_example :
    (chunk (errored empty_ui) (codes "ab") (1 ∷ []) ≡ errored empty_ui)
    × (chunk (aborted empty_ui (codes "ab") none) (codes "ab") (1 ∷ [])
        ≡ aborted empty_ui (codes "ab") none)
late_chunks_ignored_example = late_chunks_ignored empty_ui (codes "ab") none (1 ∷ [])
