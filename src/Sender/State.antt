-- ===== src/Sender/State.antt =====
-- The data of web/transfer.js's sendFile.
use quicksend.Base.{ℕ, Bool, false, [], Option, none, some}
use quicksend.Base.Bytes.{Bytes, Text}
use quicksend.Base.Results.{Failure}
use quicksend.Base.Int.{ℤ, negsuc}
use quicksend.Crypto.Platform.{WebCrypto}
use quicksend.Receiver.State.{MetadataCodec}
use quicksend.Wire.{Incoming}

-- A File of the browser. `mime` is its `type`, or the default where that is empty.
pub record SentFile : Type 0 where
  pub name : Text
  pub mime : Text
  pub content : Bytes

-- The arguments of one call, and what it draws: the fresh file id.
pub record Call : Type 0 where
  pub crypto : WebCrypto
  pub codec : MetadataCodec
  pub epoch_key : Bytes
  pub file_id : Bytes
  pub file : SentFile

-- Why the transfer stops: `{ remote, reason }`.
pub record Abort : Type 0 where
  pub remote : Bool
  pub reason : Option Text

-- Where sendFile is suspended. `keying` and `sealing_meta` come before the listeners are attached;
-- `reading` and `sealing` are the two awaits of a round; `window` and `draining` wait for an
-- acknowledgement, the first between two chunks, the second after the last; `settled` is the end.
pub data Phase : Type 0 where
  keying window draining settled : Phase
  sealing_meta reading : Bytes → Phase
  sealing : Bytes → Bytes → Phase

-- The variables of one call. The key is carried by the phases that use it, and by `key` while the
-- call waits for an acknowledgement. `acked_up_to` is `none` for `undefined`, which a message without
-- the number leaves.
pub record Sender : Type 0 where
  pub phase : Phase
  pub key : Bytes
  pub index : ℕ
  pub acked_up_to : Option ℤ
  pub connection_lost : Bool
  pub aborted : Option Abort

-- What the socket, the caller's signal and the awaited promises do. `read` settles the read of the
-- file's slice, `computed` a promise of Web Crypto.
pub data Event : Type 0 where
  message : Incoming → Event
  close signal_abort computed : Event
  read : Option Failure → Event

-- `rejected_abort` rejects with the DOMException "AbortError" and its reason, if it has one.
pub data Effect : Type 0 where
  send_meta : Text → Bytes → Effect
  send_frame : Bytes → Effect
  send_abort : Text → Effect
  progress : ℕ → ℕ → Effect
  resolved : Effect
  rejected : Failure → Effect
  rejected_abort : Option Text → Effect

unfoldable pub fresh : Sender
fresh = record {
  phase = keying;
  key = [];
  index = 0;
  acked_up_to = some (negsuc 0);
  connection_lost = false;
  aborted = none;
}
