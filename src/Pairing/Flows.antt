-- ===== src/Pairing/Flows.antt =====
-- web/pairing.js: the four ways to pair, and the listeners of the sockets that they open.
use quicksend.Base.{ℕ, false, List, [], ◌∷◌, ◌++◌, Option, none, some, length}
use quicksend.Base.Bytes.{Bytes, Text, codes}
use quicksend.Hex.{to_hex}
use quicksend.Wire.{
  Payload, Envelope, no_fields, create_session, create_code_session, session_created,
  code_session_created, reconnected,
}
use quicksend.Wire
use quicksend.Pairing.State.{
  Role, Flow, Client, Effect, host, guest, receiver_generating, code_receiver_generating, verifying,
  receiver_waiting, joining, code_receiver_waiting, paired, error, receive, receive_code,
  join_by_code, join, reconnect, connect, send, run_pake,
}
use quicksend.Pairing.Screens.{◌▸◌, advance, set_state}
use quicksend.Pairing.Session.{
  session_id_of, session_key_of, code_of_screen, finalize_paired, on_reconnected,
  on_reconnect_close,
}

-- `const socket = connect(); activeSocket = socket;`.
unfoldable pub open_socket : Flow → Client → Client × List Effect
open_socket flow c = (
  record c {
    sockets = c.sockets ++ (record { flow = flow; wired = 0; closing = false } ∷ []);
    active_socket = some (length c.sockets);
  },
  connect (length c.sockets) ∷ [],
)

unfoldable pub start_receiver_flow : Client → Client × List Effect
unfolding advance open_socket
start_receiver_flow c = advance c receiver_generating ▸ open_socket receive

unfoldable pub start_receiver_code_flow : Client → Client × List Effect
unfolding advance open_socket
start_receiver_code_flow c = advance c code_receiver_generating ▸ open_socket receive_code

unfoldable pub start_join_by_code : Client → Text → Client × List Effect
unfolding advance open_socket
start_join_by_code c code = advance c (joining none) ▸ open_socket (join_by_code code)

unfoldable pub start_join : Client → Text → Bytes → Client × List Effect
unfolding advance open_socket
start_join c id key =
    advance (record c { active_stop_scan = none }) (joining (some (id, key)))
    ▸ open_socket (join id key)

abbrev pub role_name : Role → Text
role_name host = codes "host"
role_name guest = codes "guest"

-- The "open" listeners.
unfoldable pub on_flow_open : ℕ → Flow → List Effect
on_flow_open n receive = send n create_session none ∷ []
on_flow_open n receive_code = send n create_code_session none ∷ []
on_flow_open n (join_by_code code) =
    send n Wire.join_by_code (some (record no_fields { code = some code })) ∷ []
on_flow_open n (join id key) =
    send n Wire.join (some (record no_fields { session_id = some id })) ∷ []
on_flow_open n (reconnect attempt id role token) =
    send n Wire.reconnect (
      some (record no_fields {
        session_id = id;
        role = some (role_name role);
        token_hex = some (to_hex token);
      }))
    ∷ []

-- `env.payload && env.payload.code`, and the same of the session id.
abbrev pub code_of_payload : Option Payload → Option Text
code_of_payload none = none
code_of_payload (some p) = p.code

abbrev pub id_of_payload : Option Payload → Option Text
id_of_payload none = none
id_of_payload (some p) = p.session_id

-- `(env.payload && env.payload.code) || "connection_lost"`.
abbrev pub code_or_lost : Option Payload → Text
code_or_lost payload = elim (code_of_payload payload) [
  | none ↦ codes "connection_lost"
  | some code ↦ elim code [ [] ↦ codes "connection_lost" | ◌∷◌ x xs ↦ x ∷ xs ]
]

abbrev pub show_error : Option Payload → Client → Client × List Effect
show_error payload c = set_state c (error (code_of_payload payload))

-- The PAKE exchange begins.
unfoldable pub verify : Client → ℕ → Option Text → Role → Option Payload → Client × List Effect
unfolding advance
verify c n code role payload =
    advance c verifying ▸ (λ c. (c, run_pake n code role (id_of_payload payload) ∷ []))

unfoldable pub on_receive_message : ℕ → Envelope → Bytes → Client → Client × List Effect
unfolding advance set_state finalize_paired
on_receive_message n env random c = elim env.kind [
  | session_created ↦ elim env.payload [
    | none ↦ (c, [])
    | some p ↦ advance c (receiver_waiting p.session_id random)
  ]
  | Wire.paired ↦ finalize_paired c n (session_id_of c.screen) (session_key_of c.screen) host
  | Wire.error ↦ show_error env.payload c
  | _ ↦ (c, [])
]

unfoldable pub on_receive_code_message : ℕ → Envelope → Client → Client × List Effect
unfolding advance set_state verify
on_receive_code_message n env c = elim env.kind [
  | code_session_created ↦ elim env.payload [
    | none ↦ (c, [])
    | some p ↦ advance c (code_receiver_waiting p.code)
  ]
  | Wire.paired ↦ verify c n (code_of_screen c.screen) host env.payload
  | Wire.error ↦ show_error env.payload c
  | _ ↦ (c, [])
]

unfoldable pub on_join_by_code_message : ℕ → Text → Envelope → Client → Client × List Effect
unfolding set_state verify
on_join_by_code_message n code env c = elim env.kind [
  | Wire.paired ↦ verify c n (some code) guest env.payload
  | Wire.error ↦ show_error env.payload c
  | _ ↦ (c, [])
]

unfoldable pub on_join_message : ℕ → Text → Bytes → Envelope → Client → Client × List Effect
unfolding set_state finalize_paired
on_join_message n id key env c = elim env.kind [
  | Wire.paired ↦ finalize_paired c n (some id) (some key) guest
  | Wire.error ↦ show_error env.payload c
  | _ ↦ (c, [])
]

unfoldable pub on_reconnect_message : ℕ → Envelope → Client → Client × List Effect
unfolding set_state on_reconnected
on_reconnect_message n env c = elim env.kind [
  | reconnected ↦ on_reconnected c n
  | Wire.error ↦ set_state c (error (some (code_or_lost env.payload)))
  | _ ↦ (c, [])
]

unfoldable pub on_flow_message : ℕ → Flow → Envelope → Bytes → Client → Client × List Effect
unfolding on_receive_message on_receive_code_message on_join_by_code_message on_join_message
    on_reconnect_message
on_flow_message n receive env random c = on_receive_message n env random c
on_flow_message n receive_code env random c = on_receive_code_message n env c
on_flow_message n (join_by_code code) env random c = on_join_by_code_message n code env c
on_flow_message n (join id key) env random c = on_join_message n id key env c
on_flow_message n (reconnect attempt id role token) env random c = on_reconnect_message n env c

-- The close listener that the four flows share.
unfoldable pub on_pairing_close : Client → Client × List Effect
unfolding set_state
on_pairing_close c = elim c.screen [
  | paired s ↦ (c, [])
  | error code ↦ (c, [])
  | _ ↦ set_state c (error (some (codes "connection_lost")))
]

unfoldable pub on_flow_close : ℕ → Flow → Client → Client × List Effect
unfolding on_pairing_close on_reconnect_close
on_flow_close n (reconnect attempt id role token) c = on_reconnect_close c n attempt
on_flow_close n _ c = on_pairing_close c

-- The two ends of runPakeExchange.
unfoldable pub pake_done : Client → ℕ → Option Bytes → Role → Option Text → Client × List Effect
unfolding finalize_paired set_state
pake_done c n (some key) role id = finalize_paired c n id (some key) role
pake_done c n none role id = set_state c (error (some (codes "code_mismatch")))
