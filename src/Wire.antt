-- ===== src/Wire.antt =====
-- web/ws-client.js and the messages of docs/PROTOCOL.md as the web client reads and writes them.
-- JSON is not spelled out: a text frame is what `parseEnvelope` makes of it, `none` where the text
-- is no JSON or is `null`, and a payload is seen through the fields that the client looks at.
use quicksend.Base.{ℕ, Bool, Option, none}
use quicksend.Base.Bytes.{Bytes, Text}

-- The strings that "type" is compared with or set to; `other` is any other string.
pub data Kind : Type 0 where
  create_session create_code_session join join_by_code reconnect reconnect_token : Kind
  session_created code_session_created paired error reconnected : Kind
  peer_disconnected peer_reconnected session_ended end_session : Kind
  pake_msg pake_confirm role_swap_request role_swap_response : Kind
  file_meta chunk_ack file_abort : Kind
  other : Text → Kind

-- `none` is a field that is missing. ackedUpTo is a natural number where it is there, as the receiver
-- sends it; other values that JSON has are left out.
pub record Payload : Type 0 where
  pub file_id : Option Text
  pub ciphertext : Option Text
  pub acked_up_to : Option ℕ
  pub reason : Option Text
  pub session_id : Option Text
  pub code : Option Text
  pub accepted : Option Bool
  pub role : Option Text
  pub token_hex : Option Text

pub record Envelope : Type 0 where
  pub kind : Kind
  pub payload : Option Payload

-- `event.data`: a string, or an ArrayBuffer.
pub data Incoming : Type 0 where
  text : Option Envelope → Incoming
  binary : Bytes → Incoming

unfoldable pub parse_envelope : Incoming → Option Envelope
parse_envelope (text envelope) = envelope
parse_envelope (binary bytes) = none

abbrev pub no_fields : Payload
no_fields = record {
  file_id = none;
  ciphertext = none;
  acked_up_to = none;
  reason = none;
  session_id = none;
  code = none;
  accepted = none;
  role = none;
  token_hex = none;
}
