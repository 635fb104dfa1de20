-- ===== src/Tests/Sessions.antt =====
-- web/pairing.js on two paired clients, and on the ways out of a screen.
use quicksend.Base.{◌+◌, ◌≡◌, refl, false, List, [], ◌∷◌, none, some}
use quicksend.Base.Bytes.{codes, zeros}
use quicksend.Wire.{role_swap_response}
use quicksend.Pairing.State.{
  Session, Screen, Client, Effect, send, host, guest, sender, receiver, receive, reconnect,
  role_select, receiver_waiting, paired, error, click, closed, message, back, disconnect,
}
use quicksend.Base.Tables.{list_eq}
use quicksend.Pairing.Messages.{message_key, error_message_key}
use quicksend.Strings.{t}
use quicksend.Pairing.Session.{request_role_swap, swap_timed_out, on_reconnected, on_paired_message}
use quicksend.Pairing.Steps.{run}
use quicksend.Pairing.Navigation.{back_then_lost}
use quicksend.Pairing.Swaps.{
  Opposite, Alike, after_answer, answer_of, crossed, swap_request, swap_agrees, late_answer,
  crossing_requests,
}
use quicksend.Pairing.Reconnection.{accepted, peer_is_back, epochs_agree, disconnected_reconnects}

abbrev pub host_session : Session
host_session = record {
  session_id = some (codes "id");
  session_key = some (zeros 32);
  role = host;
  epoch = 0;
  transfer_role = receiver;
  reconnect_token = some (zeros 32);
}

abbrev guest_session : Session
guest_session = record host_session { role = guest; transfer_role = sender }

abbrev on_screen : Screen → Client
on_screen screen = record {
  screen = screen;
  sockets = [];
  cameras = [];
  active_socket = none;
  active_stop_scan = none;
  transfer = none;
  swap_awaiting_response = false;
  swap_button_disabled = false;
  pending_send_files = none;
}

abbrev pub host_client : Client
host_client = record (on_screen (paired host_session)) {
  sockets = record { flow = receive; wired = 1; closing = false } ∷ [];
  active_socket = some 0;
}

abbrev guest_client : Client
guest_client = record host_client { screen = paired guest_session }

abbrev waiting : Client
waiting = record (on_screen (receiver_waiting (some (codes "id")) (zeros 32))) {
  sockets = record { flow = receive; wired = 0; closing = false } ∷ [];
  active_socket = some 0;
}

back_then_lost_example :
    (run waiting (click back ∷ closed 0 ∷ [])).0.screen ≡ error (some (codes "connection_lost"))
back_then_lost_example = back_then_lost waiting 0 (some (codes "id")) (zeros 32) refl refl refl

swap_agrees_example :
    let b' = on_paired_message 0 swap_request guest_client in
    ((rest : List Effect) × (b'.1
        ≡ send 0 role_swap_response (some (answer_of guest_client)) ∷ rest))
    × Opposite (after_answer (request_role_swap host_client).0 guest_client 0).0.screen b'.0.screen
swap_agrees_example =
    swap_agrees host_client guest_client 0 0 (host_session, guest_session, refl, refl, refl) refl
      refl

late_answer_example :
    Alike
      (after_answer (swap_timed_out (request_role_swap host_client).0).0 guest_client 0).0.screen
      (on_paired_message 0 swap_request guest_client).0.screen
late_answer_example =
    late_answer host_client guest_client 0 0 (host_session, guest_session, refl, refl, refl) refl
      refl refl refl

crossing_requests_example :
    ((crossed host_client guest_client 0).screen ≡ paired host_session)
    × ((crossed host_client guest_client 0).swap_awaiting_response ≡ false)
    × ((crossed host_client guest_client 0).swap_button_disabled ≡ false)
crossing_requests_example = crossing_requests host_client guest_client 0 refl refl refl refl

epochs_agree_example :
    (x' : Session) × (y' : Session) × ((on_reconnected host_client 0).0.screen ≡ paired x')
    × ((on_paired_message 0 peer_is_back guest_client).0.screen ≡ paired y')
    × (x'.epoch ≡ y'.epoch)
    × (x'.epoch ≡ 0 + 1)
    × (x'.session_key ≡ some (zeros 32))
    × (y'.session_key ≡ some (zeros 32))
epochs_agree_example =
    epochs_agree host_client guest_client host_session guest_session 0 0 refl refl refl

abbrev reconnecting : Client
reconnecting = record (on_screen (paired host_session)) {
  sockets =
      record { flow = reconnect 1 (some (codes "id")) host (zeros 32); wired = 0; closing = false }
      ∷ [];
}

disconnected_reconnects_example :
    let after = (run reconnecting (click disconnect ∷ message 0 (some accepted) [] ∷ [])).0 in
    (after.screen ≡ role_select) × (after.active_socket ≡ some 0)
disconnected_reconnects_example =
    disconnected_reconnects reconnecting host_session 0 1 (some (codes "id")) host (zeros 32) []
      refl refl refl

lost_test : error_message_key (some (codes "connection_lost")) ≡ codes "errConnectionLost"
unfolding message_key list_eq
lost_test = refl

unknown_test : error_message_key (some (codes "teapot")) ≡ codes "errGeneric"
unfolding message_key list_eq
unknown_test = refl

-- An inherited key of the table is found, and the screen shows the function.
inherited_test :
    t (codes "en") (error_message_key (some (codes "toString")))
    ≡ codes "function toString() { [native code] }"
unfolding t message_key list_eq
inherited_test = refl
