-- ===== src/ReceiverUi/EndToEnd.antt =====
-- From sendFile through attachReceiver to the file on the receiver's disk.
use quicksend.Base.{◌^◌, ◌≤◌, ◌≡◌, sym, subst, true, List, length, All}
use quicksend.Base.Bytes.{IsByte}
use quicksend.Crypto.Platform.{CryptoLaws}
use quicksend.Receiver as Receiving
use quicksend.Receiver.State as Received
use quicksend.Sender as Sending
use quicksend.Sender.State as Calls
use quicksend.Sender.State.{Call}
use quicksend.Sender.Transcript.{total, data_of, resolves}
use quicksend.Transfer.{handle_each}
use quicksend.Transfer.EndToEnd.{delivers_file}
use quicksend.FileSink.{Answers}
use quicksend.ReceiverUi.{Ui, apply}
use quicksend.ReceiverUi.Saving.{Saved, saves_file}

-- For every sequence of events of a call of sendFile that resolves, over a Web Crypto with its
-- laws, a 32-byte epoch key, a 16-byte file id of bytes and at most 2^64 chunks, and for every
-- state of the receiver screen and every answer of the pickers: once a fresh receiver with the same
-- keys and codec has handled the sent messages in order, each to its end before the next, and its
-- calls were applied to the screen, the row of the file is done, has received as many bytes as the
-- file has, and its sink has saved exactly the content of the file, and no file is being received.
pub saves_sent_file :
    (c : Call) (laws : CryptoLaws c.crypto) (answers : Answers) (ui : Ui) (es : List Calls.Event)
    → length c.epoch_key ≡ 32
    → length c.file_id ≡ 16
    → All IsByte c.file_id
    → total c ≤ 2 ^ 64
    → resolves (Sending.run c Calls.fresh es).1 ≡ true
    → Saved c answers ui (
        apply answers ui
          (Receiving.run c.crypto c.codec c.epoch_key Received.fresh
            (handle_each (data_of (Sending.run c Calls.fresh es).1))).1)
saves_sent_file c laws answers ui es key_length id_length id_bytes chunks e =
    subst (λ received. Saved c answers ui (apply answers ui received.1))
      (sym (delivers_file c laws key_length id_length id_bytes chunks es e).0)
      (saves_file c answers ui)
