-- ===== src/Transfer.antt =====
-- web/transfer.js as a whole: what one call of sendFile puts on the socket, taken by a receiver.
pub mod Steps
pub mod Delivery
pub mod EndToEnd
pub mod Conversation
pub mod Authenticity
use quicksend.Base.{ℕ, zero, suc, List, [], ◌∷◌, ◌++◌, Option, none, some, true}
use quicksend.Base.Bytes.{Bytes, Text}
use quicksend.Hex.{to_hex}
use quicksend.Wire.{Incoming, text, binary}
use quicksend.Receiver.State.{
  Metadata, Event, Effect, message, computed, handled, on_file_start, on_chunk, on_file_complete,
  send_ack,
}
use quicksend.Sender.State.{Call}
use quicksend.Sender.{chunk_size, chunk_at, file_size}
use quicksend.Sender.Transcript.{is_last_at, total}

-- Each message is taken up and handled to its end before the next: the key and the decryption of
-- the metadata, or the decryption of a chunk, and then the callback.
unfoldable pub handle_each : List Incoming → List Event
handle_each [] = []
handle_each (text envelope ∷ ms) =
    message (text envelope) ∷ computed ∷ computed ∷ handled none ∷ handle_each ms
handle_each (binary bytes ∷ ms) = message (binary bytes) ∷ computed ∷ handled none ∷ handle_each ms

-- The bytes that the calls of onChunk hand over, one after the other.
unfoldable pub delivered : List Effect → Bytes
delivered [] = []
delivered (on_chunk id index last plaintext ∷ es) = plaintext ++ delivered es
delivered (_ ∷ es) = delivered es

module _ (c : Call) where
  open c use {file_id, file}

  abbrev pub sent_metadata : Metadata
  sent_metadata = record { name = file.name; size = file_size c; mime = file.mime }

  -- The calls that the first `n` chunks lead to.
  unfoldable pub calls_upto : ℕ → List Effect
  calls_upto zero = []
  calls_upto (suc n) =
      calls_upto n
      ++ (on_chunk (to_hex file_id) n (is_last_at c n) (chunk_at chunk_size file.content n)
          ∷ send_ack (to_hex file_id) n
          ∷ [])

  -- The calls of a whole file.
  abbrev pub file_calls : List Effect
  file_calls =
      on_file_start (to_hex file_id) sent_metadata
      ∷ (calls_upto (total c) ++ (on_file_complete (to_hex file_id) ∷ []))
