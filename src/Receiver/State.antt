-- ===== src/Receiver/State.antt =====
-- The data of web/transfer.js's receiver.
use quicksend.Base.{ℕ, ◌≡◌, Bool, true, List, [], Option, none, some, All}
use quicksend.Base.Bytes.{Bytes, Text, IsByte}
use quicksend.Base.Results.{Failure}
use quicksend.Frame.{ChunkFrame}
use quicksend.Wire.{Payload, Incoming}

-- The decoded metadata of a file. `mime` has its default filled in by the sender.
pub record Metadata : Type 0 where
  pub name : Text
  pub size : ℕ
  pub mime : Text

-- JSON.stringify with TextEncoder, and TextDecoder with JSON.parse, on such metadata; `none` where
-- the text is no JSON.
pub record MetadataCodec : Type 0 where
  pub print : Metadata → Bytes
  pub parse : Bytes → Option Metadata
  pub parse-print : (meta : Metadata) → parse (print meta) ≡ some meta
  pub print-IsByte : (meta : Metadata) → All IsByte (print meta)

pub record Current : Type 0 where
  pub file_id_hex : Text
  pub file_key : Bytes
  pub expected_index : ℕ

-- A step on the promise chain that has not begun.
pub data Task : Type 0 where
  take_meta : Option Payload → Task
  take_abort : Option Payload → Task
  take_chunk : Bytes → Task

-- Where the running handler is suspended, with the variables that it still uses: the key and then
-- the decryption of handleFileMeta, its `onFileStart`; the decryption of handleChunkFrame, its
-- `onChunk`.
pub data Await : Type 0 where
  keying : Text → Option Text → Bytes → Await
  opening : Text → Bytes → Bytes → Bytes → Await
  starting : Await
  decrypting : ChunkFrame → Bytes → Await
  writing : Text → ℕ → Bool → Await

-- The calls that leave the receiver: of its callbacks, and of `sendEnvelope`.
pub data Effect : Type 0 where
  on_file_start : Text → Metadata → Effect
  on_chunk : Text → ℕ → Bool → Bytes → Effect
  on_file_complete : Text → Effect
  on_aborted : Text → Option Text → Effect
  on_error : Failure → Effect
  send_ack : Text → ℕ → Effect
  send_abort : Text → Effect

-- `running` and `queue` are the promise chain; `attached` says that the listeners are.
pub record Receiver : Type 0 where
  pub attached : Bool
  pub current : Option Current
  pub running : Option Await
  pub queue : List Task

pub data Event : Type 0 where
  message : Incoming → Event
  close cancel detach computed : Event
  handled : Option Failure → Event

unfoldable pub fresh : Receiver
fresh = record { attached = true; current = none; running = none; queue = [] }
