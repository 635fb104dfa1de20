-- ===== src/Pairing/Session.antt =====
-- web/pairing.js: the paired session: its start, role swaps, reconnection and its end.
use quicksend.Base.{
  ℕ, ◌+◌, Bool, true, false, ◌||◌, not, List, [], ◌∷◌, ◌++◌, Option, none, some, leb, ◌==◌,
  if◌then◌else◌, length,
}
use quicksend.Base.Bytes.{Bytes, Text, codes}
use quicksend.Hex.{to_hex}
use quicksend.Wire.{
  Payload, Envelope, no_fields, reconnect_token, peer_disconnected, peer_reconnected, session_ended,
  end_session, role_swap_request, role_swap_response,
}
use quicksend.Pairing.State.{
  Role, TransferRole, Session, Screen, Client, Effect, host, guest, sender, receiver, role_select,
  join_detected, receiver_waiting, joining, code_receiver_waiting, paired, error, reconnect,
  busy_local, requesting, timed_out, rejected, connect, send, derive_token, retry_later,
  swap_timeout, reconnect_status, swap_status,
}
use quicksend.Pairing.Screens.{◌▸◌, update_at, render, set_state}

abbrev pub reconnect_max_attempts : ℕ
reconnect_max_attempts = 15

-- `currentState.sessionId`, `currentState.sessionKey` and `currentState.code`.
abbrev pub session_id_of : Screen → Option Text
session_id_of (join_detected id key) = some id
session_id_of (receiver_waiting id key) = id
session_id_of (joining (some (id, key))) = some id
session_id_of (paired s) = s.session_id
session_id_of _ = none

abbrev pub session_key_of : Screen → Option Bytes
session_key_of (join_detected id key) = some key
session_key_of (receiver_waiting id key) = some key
session_key_of (joining (some (id, key))) = some key
session_key_of (paired s) = s.session_key
session_key_of _ = none

abbrev pub code_of_screen : Screen → Option Text
code_of_screen (code_receiver_waiting code) = code
code_of_screen (error code) = code
code_of_screen _ = none

abbrev pub transfer_role_of : Role → TransferRole
transfer_role_of host = receiver
transfer_role_of guest = sender

abbrev pub flip : TransferRole → TransferRole
flip sender = receiver
flip receiver = sender

-- `currentState = { ...currentState, field }`: on the other screens the field is never read.
abbrev pub change_session : (Session → Session) → Screen → Screen
change_session f (paired s) = paired (f s)
change_session f screen = screen

abbrev pub next_epoch : Screen → Screen
next_epoch screen = change_session (λ s. record s { epoch = s.epoch + 1 }) screen

abbrev pub wire : ℕ → Client → Client
wire n c = record c { sockets = update_at n (λ s. record s { wired = s.wired + 1 }) c.sockets }

unfoldable pub finalize_paired :
    Client → ℕ → Option Text → Option Bytes → Role → Client × List Effect
unfolding render update_at
finalize_paired c n id key role =
    let session : Session = record {
      session_id = id;
      session_key = key;
      role = role;
      epoch = 0;
      transfer_role = transfer_role_of role;
      reconnect_token = none;
    } in
    (record c { screen = paired session }, derive_token n key id ∷ []) ▸ (λ c. render (wire n c))

-- The promise of deriveReconnectToken.
unfoldable pub token_ready : Client → ℕ → Bytes → Client × List Effect
token_ready c n token = (
  record c { screen = change_session (λ s. record s { reconnect_token = some token }) c.screen },
  send n reconnect_token (some (record no_fields { token_hex = some (to_hex token) })) ∷ [],
)

unfoldable pub flip_transfer_role : Client → Client × List Effect
unfolding render
flip_transfer_role c = render (record c {
  screen = change_session (λ s. record s { transfer_role = flip s.transfer_role }) c.screen;
})

abbrev pub is_active : Client → Bool
is_active c = elim c.transfer [ none ↦ false | some handle ↦ handle.active ]

-- `sendEnvelope(null, …)` throws, before the timer is set.
unfoldable pub request_role_swap : Client → Client × List Effect
request_role_swap c =
    if is_active c
    then (c, swap_status busy_local ∷ [])
    else if c.swap_awaiting_response
    then (c, [])
    else (
      record c { swap_awaiting_response = true; swap_button_disabled = true },
      elim c.active_socket [
        | none ↦ swap_status requesting ∷ []
        | some n ↦ swap_status requesting ∷ send n role_swap_request none ∷ swap_timeout ∷ []
      ],
    )

unfoldable pub swap_timed_out : Client → Client × List Effect
swap_timed_out c =
    if c.swap_awaiting_response
    then (
      record c { swap_awaiting_response = false; swap_button_disabled = false },
      swap_status timed_out ∷ [],
    )
    else (c, [])

unfoldable pub disconnect_session : Client → Client × List Effect
unfolding set_state
disconnect_session c =
    (c, elim c.active_socket [ none ↦ [] | some n ↦ send n end_session none ∷ [] ])
    ▸ (λ c. set_state c role_select)

-- `(env.payload && env.payload.reason) || "session_ended"`: the empty string counts as none.
abbrev pub ended_reason : Option Payload → Text
ended_reason none = codes "session_ended"
ended_reason (some p) = elim p.reason [
  | none ↦ codes "session_ended"
  | some reason ↦ elim reason [ [] ↦ codes "session_ended" | ◌∷◌ x xs ↦ x ∷ xs ]
]

unfoldable pub on_swap_request : Client → ℕ → Client × List Effect
unfolding flip_transfer_role
on_swap_request c n =
    let busy = is_active c || c.swap_awaiting_response in
    (c, send n role_swap_response (some (record no_fields { accepted = some (not busy) })) ∷ [])
    ▸ (λ c. if busy then (c, []) else flip_transfer_role c)

abbrev pub is_accepted : Option Payload → Bool
is_accepted none = false
is_accepted (some p) = elim p.accepted [ none ↦ false | some b ↦ b ]

unfoldable pub on_swap_response : Client → Option Payload → Client × List Effect
unfolding flip_transfer_role
on_swap_response c payload =
    let answered = record c { swap_awaiting_response = false } in
    if not c.swap_awaiting_response
    then (c, [])
    else if is_accepted payload
    then flip_transfer_role answered
    else (record answered { swap_button_disabled = false }, swap_status rejected ∷ [])

-- The message listener of wirePairedSocket.
unfoldable pub on_paired_message : ℕ → Envelope → Client → Client × List Effect
unfolding set_state render on_swap_request on_swap_response
on_paired_message n env c = elim env.kind [
  | session_ended ↦ set_state c (error (some (ended_reason env.payload)))
  | peer_disconnected ↦ (c, reconnect_status true ∷ [])
  | peer_reconnected ↦ render (record c { screen = next_epoch c.screen })
  | role_swap_request ↦ on_swap_request c n
  | role_swap_response ↦ on_swap_response c env.payload
  | _ ↦ (c, [])
]

unfoldable pub attempt_reconnect : Client → ℕ → Client × List Effect
unfolding set_state
attempt_reconnect c attempt = elim c.screen [
  | paired s ↦ (c, reconnect_status true ∷ []) ▸ (λ c. elim s.reconnect_token [
    | none ↦ set_state c (error (some (codes "connection_lost")))
    | some token ↦ (
      record c {
        sockets =
            c.sockets
            ++ (record {
              flow = reconnect attempt s.session_id s.role token;
              wired = 0;
              closing = false;
            }
                ∷ []);
      },
      connect (length c.sockets) ∷ [],
    )
  ])
  | _ ↦ (c, [])
]

abbrev pub is_current : Client → ℕ → Bool
is_current c n = elim c.active_socket [ none ↦ false | some m ↦ m == n ]

-- The close listener of wirePairedSocket.
unfoldable pub on_paired_close : ℕ → Client → Client × List Effect
unfolding attempt_reconnect
on_paired_close n c = elim c.screen [
  | paired s ↦
      if is_current c n then attempt_reconnect (record c { active_socket = none }) 1 else (c, [])
  | _ ↦ (c, [])
]

-- A reconnect has been accepted. The screen is not looked at.
unfoldable pub on_reconnected : Client → ℕ → Client × List Effect
unfolding render update_at
on_reconnected c n =
    (record c { active_socket = some n; screen = next_epoch c.screen }, reconnect_status false ∷ [])
    ▸ (λ c. render (wire n c))

-- The close listener of a socket that attemptReconnect has opened.
unfoldable pub on_reconnect_close : Client → ℕ → ℕ → Client × List Effect
unfolding set_state
on_reconnect_close c n attempt = elim c.screen [
  | paired s ↦
      if is_current c n
      then (c, [])
      else if leb reconnect_max_attempts attempt
      then set_state c (error (some (codes "connection_lost")))
      else (c, retry_later (attempt + 1) ∷ [])
  | _ ↦ (c, [])
]
