-- ===== src/Pairing/Sockets/Flows.antt =====
-- web/pairing.js: the listeners of the four flows keep what holds of the sockets.
use quicksend.Base.{ℕ, [], ◌∷◌, Option, none, some}
use quicksend.Base.Bytes.{Bytes, Text, codes}
use quicksend.Wire.{
  Kind, Payload, Envelope, session_created, code_session_created, reconnected, peer_disconnected,
  peer_reconnected, session_ended, role_swap_request, role_swap_response,
}
use quicksend.Wire
use quicksend.Pairing.State.{
  Role, Screen, Flow, Client, host, guest, receiver_waiting, code_receiver_waiting, paired, error,
  receive, receive_code, join_by_code, join, reconnect, verifying, run_pake,
}
use quicksend.Pairing.Screens.{advance}
use quicksend.Pairing.Session.{session_id_of, session_key_of, code_of_screen}
use quicksend.Pairing.Flows.{
  code_of_payload, id_of_payload, verify, code_or_lost, on_receive_message, on_receive_code_message,
  on_join_by_code_message, on_join_message, on_reconnect_message, on_flow_message, on_pairing_close,
  on_flow_close, pake_done,
}
use quicksend.Pairing.Sockets.{
  IsOpen, SocketsAreSound, OutIsSound, Keeps, then-Keeps, set_state-Keeps, advance-Keeps,
}
use quicksend.Pairing.Sockets.Session.{
  lost, finalize_paired-Keeps, on_reconnected-Sound, on_reconnect_close-Keeps,
}

verify-Keeps :
    (n : ℕ) (code : Option Text) (role : Role) (payload : Option Payload)
    → Keeps (λ c. verify c n code role payload)
unfolding verify
verify-Keeps n code role payload c h =
    then-Keeps (advance c verifying) (λ c. (c, run_pake n code role (id_of_payload payload) ∷ []))
      (advance-Keeps verifying c h) (λ c k. (k, (tt, tt)))

module _ (n : ℕ) (env : Envelope) (random : Bytes) where
  abbrev of_kind : Kind → Envelope
  of_kind kind = record env { kind = kind }

  on_receive_message-Keeps : Keeps (on_receive_message n env random)
  unfolding on_receive_message
  on_receive_message-Keeps c h = go env.kind env.payload
    where
      go :
          (kind : Kind) (payload : Option Payload)
          → OutIsSound
              (on_receive_message n (record env { kind = kind; payload = payload }) random c)
      go session_created none = (h, tt)
      go session_created (some p) = advance-Keeps (receiver_waiting p.session_id random) c h
      go Wire.paired payload =
          finalize_paired-Keeps n (session_id_of c.screen) (session_key_of c.screen) host c h
      go Wire.error payload = set_state-Keeps (error (code_of_payload payload)) c h
      go _ payload = (h, tt)

  on_receive_code_message-Keeps : Keeps (on_receive_code_message n env)
  unfolding on_receive_code_message
  on_receive_code_message-Keeps c h = go env.kind env.payload
    where
      go :
          (kind : Kind) (payload : Option Payload)
          → OutIsSound (on_receive_code_message n (record env { kind = kind; payload = payload }) c)
      go code_session_created none = (h, tt)
      go code_session_created (some p) = advance-Keeps (code_receiver_waiting p.code) c h
      go Wire.paired payload = verify-Keeps n (code_of_screen c.screen) host payload c h
      go Wire.error payload = set_state-Keeps (error (code_of_payload payload)) c h
      go _ payload = (h, tt)

  on_join_by_code_message-Keeps : (code : Text) → Keeps (on_join_by_code_message n code env)
  unfolding on_join_by_code_message
  on_join_by_code_message-Keeps code c h = go env.kind
    where
      go : (kind : Kind) → OutIsSound (on_join_by_code_message n code (of_kind kind) c)
      go Wire.paired = verify-Keeps n (some code) guest env.payload c h
      go Wire.error = set_state-Keeps (error (code_of_payload env.payload)) c h
      go _ = (h, tt)

  on_join_message-Keeps : (id : Text) (key : Bytes) → Keeps (on_join_message n id key env)
  unfolding on_join_message
  on_join_message-Keeps id key c h = go env.kind
    where
      go : (kind : Kind) → OutIsSound (on_join_message n id key (of_kind kind) c)
      go Wire.paired = finalize_paired-Keeps n (some id) (some key) guest c h
      go Wire.error = set_state-Keeps (error (code_of_payload env.payload)) c h
      go _ = (h, tt)

  on_reconnect_message-Sound :
      (c : Client)
      → SocketsAreSound c
      → IsOpen n c.sockets
      → OutIsSound (on_reconnect_message n env c)
  unfolding on_reconnect_message
  on_reconnect_message-Sound c h is_open = go env.kind
    where
      go : (kind : Kind) → OutIsSound (on_reconnect_message n (of_kind kind) c)
      go reconnected = on_reconnected-Sound c n h is_open
      go Wire.error = set_state-Keeps (error (some (code_or_lost env.payload))) c h
      go _ = (h, tt)

  pub on_flow_message-Sound :
      (flow : Flow) (c : Client)
      → SocketsAreSound c
      → IsOpen n c.sockets
      → OutIsSound (on_flow_message n flow env random c)
  unfolding on_flow_message
  on_flow_message-Sound receive c h is_open = on_receive_message-Keeps c h
  on_flow_message-Sound receive_code c h is_open = on_receive_code_message-Keeps c h
  on_flow_message-Sound (join_by_code code) c h is_open = on_join_by_code_message-Keeps code c h
  on_flow_message-Sound (join id key) c h is_open = on_join_message-Keeps id key c h
  on_flow_message-Sound (reconnect attempt id role token) c h is_open =
      on_reconnect_message-Sound c h is_open

on_pairing_close-Keeps : Keeps on_pairing_close
unfolding on_pairing_close
on_pairing_close-Keeps c h = go c.screen
  where
    go : (screen : Screen) → OutIsSound (on_pairing_close (record c { screen = screen }))
    go (paired s) = (h, tt)
    go (error code) = (h, tt)
    go screen = set_state-Keeps lost (record c { screen = screen }) h

pub on_flow_close-Keeps : (n : ℕ) (flow : Flow) → Keeps (on_flow_close n flow)
unfolding on_flow_close
on_flow_close-Keeps n (reconnect attempt id role token) c h = on_reconnect_close-Keeps n attempt c h
on_flow_close-Keeps n _ c h = on_pairing_close-Keeps c h

pub pake_done-Keeps :
    (n : ℕ) (key : Option Bytes) (role : Role) (id : Option Text)
    → Keeps (λ c. pake_done c n key role id)
unfolding pake_done
pake_done-Keeps n (some key) role id c h = finalize_paired-Keeps n id (some key) role c h
pake_done-Keeps n none role id c h = set_state-Keeps (error (some (codes "code_mismatch"))) c h
