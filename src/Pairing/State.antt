-- ===== src/Pairing/State.antt =====
-- The data of web/pairing.js.
use quicksend.Base.{ℕ, Bool, List, Option}
use quicksend.Base.Bytes.{Bytes, Text}
use quicksend.Wire.{Kind, Payload, Envelope}

pub data Role : Type 0 where
  host guest : Role

pub data TransferRole : Type 0 where
  sender receiver : TransferRole

-- What `currentState` holds on the "paired" screen. A field is `none` where it is undefined.
pub record Session : Type 0 where
  pub session_id : Option Text
  pub session_key : Option Bytes
  pub role : Role
  pub epoch : ℕ
  pub transfer_role : TransferRole
  pub reconnect_token : Option Bytes

-- `currentState`: the screen with the fields that it carries. Those that only the drawing of a
-- screen reads (`url`, `expiresAt`) are left out.
pub data Screen : Type 0 where
  role_select code_role_select receiver_generating sender_scanning sender_paste : Screen
  code_receiver_generating code_sender_entry verifying insecure_context : Screen
  join_detected : Text → Bytes → Screen
  receiver_waiting : Option Text → Bytes → Screen
  joining : Option (Text × Bytes) → Screen
  code_receiver_waiting : Option Text → Screen
  paired : Session → Screen
  error : Option Text → Screen

-- Which function has opened a socket, with the variables of it that its listeners use.
pub data Flow : Type 0 where
  receive receive_code : Flow
  join_by_code : Text → Flow
  join : Text → Bytes → Flow
  reconnect : ℕ → Option Text → Role → Bytes → Flow

-- `wired` counts the calls of wirePairedSocket; `closing` says that `close()` was called on it.
pub record Socket : Type 0 where
  pub flow : Flow
  pub wired : ℕ
  pub closing : Bool

-- What is known of the handle of renderTransferUI: whether it has `sendFiles`, and what `isActive`
-- answers.
pub record Transfer : Type 0 where
  pub can_send : Bool
  pub active : Bool

-- Files that were picked, by their names.
abbrev pub Files : Type 0
Files = List Text

-- The variables of the module. Sockets and cameras are numbered in the order in which they were
-- opened; a camera is its `cancelled`.
pub record Client : Type 0 where
  pub screen : Screen
  pub sockets : List Socket
  pub cameras : List Bool
  pub active_socket : Option ℕ
  pub active_stop_scan : Option ℕ
  pub transfer : Option Transfer
  pub swap_awaiting_response : Bool
  pub swap_button_disabled : Bool
  pub pending_send_files : Option Files

pub data SwapNote : Type 0 where
  busy_local requesting timed_out rejected : SwapNote

-- What leaves the module: calls of sockets, of the camera, of the transfer UI and of the clock, the
-- promises that it starts, and the two status lines.
pub data Effect : Type 0 where
  connect close_socket : ℕ → Effect
  send : ℕ → Kind → Option Payload → Effect
  start_scanning stop_scanning : ℕ → Effect
  detach_transfer : Effect
  render_transfer : Effect
  send_files : Files → Effect
  run_pake : ℕ → Option Text → Role → Option Text → Effect
  derive_token : ℕ → Option Bytes → Option Text → Effect
  retry_later : ℕ → Effect
  swap_timeout : Effect
  reconnect_status : Bool → Effect
  swap_status : SwapNote → Effect

-- The buttons of the screens.
pub data Click : Type 0 where
  start_receive start_send code_link code_receive code_send back : Click
  join_button join_cancel paste_instead try_again disconnect swap_roles : Click
  code_entered : Text → Click
  link_pasted : Option (Text × Bytes) → Click

-- `message` carries what parseEnvelope gives and the bytes that crypto.getRandomValues would draw;
-- `scanned` and `link_pasted` what parsePairingText gives.
pub data Event : Type 0 where
  click : Click → Event
  opened closed : ℕ → Event
  message : ℕ → Option Envelope → Bytes → Event
  scanned : Option (Text × Bytes) → Event
  camera_failed : Event
  camera_ready : ℕ → Event
  pake_settled : ℕ → Option Bytes → Role → Option Text → Event
  token_derived : ℕ → Bytes → Event
  transfer_ready : Bool → Event
  transfer_activity : Bool → Event
  files_bounced : Files → Bool → Event
  swap_timer : Event
  retry_timer : ℕ → Event
