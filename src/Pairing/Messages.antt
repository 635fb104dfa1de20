-- ===== src/Pairing/Messages.antt =====
-- web/pairing.js: the text that the error screen shows for a code.
use quicksend.Base.{List, [], ◌∷◌, ◌++◌, Option, none, some, if◌then◌else◌}
use quicksend.Base.Bytes.{Text, codes}
use quicksend.Base.Tables.{list_eq}
use quicksend.Base.Objects.{object_prototype, in_codes}

abbrev pub error_message_keys : List (Text × Text)
error_message_keys =
    (codes "session_not_found", codes "errSessionNotFound")
    ∷ (codes "session_full", codes "errSessionFull")
    ∷ (codes "too_many_sessions", codes "errTooManySessions")
    ∷ (codes "invalid_qr", codes "senderPasteInvalid")
    ∷ (codes "invalid_link", codes "senderPasteInvalid")
    ∷ (codes "camera_error", codes "senderCameraError")
    ∷ (codes "invalid_code", codes "errInvalidCode")
    ∷ (codes "too_many_attempts", codes "errTooManyAttempts")
    ∷ (codes "code_mismatch", codes "errCodeMismatch")
    ∷ (codes "connection_lost", codes "errConnectionLost")
    ∷ (codes "session_ended", codes "errSessionEnded")
    ∷ (codes "ended_by_peer", codes "errEndedByPeer")
    ∷ (codes "peer_timeout", codes "errSessionEnded")
    ∷ (codes "inactivity_timeout", codes "errInactivityTimeout")
    ∷ (codes "invalid_reconnect_token", codes "errConnectionLost")
    ∷ []

unfoldable pub message_key : List (Text × Text) → Text → Text
message_key [] code = codes "errGeneric"
message_key (entry ∷ rest) code =
    let later = message_key rest code in if list_eq entry.0 code then entry.1 else later

-- `ERROR_MESSAGE_KEYS[currentState.code] || "errGeneric"`: an inherited key gives a function, which
-- the screen shows as its text.
abbrev pub error_message_key : Option Text → Text
error_message_key none = codes "errGeneric"
error_message_key (some code) = message_key (error_message_keys ++ in_codes object_prototype) code
