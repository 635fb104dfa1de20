-- ===== src/Tests/Reconnects.antt =====
-- web/pairing.js: a receiver that pairs, loses its connection and tries twice to come back.
use quicksend.Base.{ℕ, ◌≡◌, refl, true, false, arith, List, [], ◌∷◌, ◌++◌, none, some, All}
use quicksend.Base.Bytes.{codes, zeros}
use quicksend.Wire.{Kind, Envelope, no_fields, session_created}
use quicksend.Wire
use quicksend.Pairing.State.{
  Client, Event, start_receive, click, closed, message, token_derived, retry_timer, paired, receive,
}
use quicksend.Pairing.Steps.{init_pairing, step, run}
use quicksend.Pairing.Reconnection.{accepted}
use quicksend.Pairing.Attempts.{failures, lost, reconnects_or_ends}
use quicksend.Tests.Sessions.{host_session, host_client}
use quicksend.Pairing.Reach.{Reach, retries, is_set, loaded, moved}
use quicksend.Pairing.Sockets.{SocketsAreSound, InBounds}
use quicksend.Pairing.Sockets.Reachable.{reached-IsSound}

abbrev walk : Client → List ℕ → List Event → Client × List ℕ
walk c timers [] = (c, timers)
walk c timers (e ∷ es) = walk (step c e).0 (timers ++ retries (step c e).1) es

abbrev loaded_page : Client
loaded_page = (init_pairing true none).0

abbrev from_relay : Kind → Event
from_relay kind =
    message 0
      (some (record {
        kind = kind;
        payload = some (record no_fields { session_id = some (codes "id") });
      }))
      (zeros 32)

abbrev pairs_and_drops : List Event
pairs_and_drops =
    click start_receive
    ∷ from_relay session_created
    ∷ from_relay Wire.paired
    ∷ token_derived 0 (zeros 32)
    ∷ closed 0
    ∷ closed 1
    ∷ []

retry_is_set : is_set 2 (walk loaded_page [] pairs_and_drops).1 ≡ true
unfolding step init_pairing
retry_is_set = refl

abbrev tries_again : List Event
tries_again = pairs_and_drops ++ (retry_timer 2 ∷ [])

walked : Reach (walk loaded_page [] tries_again).0 (walk loaded_page [] tries_again).1
walked =
    moved
      (moved
        (moved
          (moved
            (moved
              (moved (moved (loaded true none) (click start_receive) tt)
                (from_relay session_created) tt)
              (from_relay Wire.paired) tt)
            (token_derived 0 (zeros 32)) tt)
          (closed 0) tt)
        (closed 1) tt)
      (retry_timer 2) retry_is_set

reached-IsSound_example :
    SocketsAreSound (walk loaded_page [] tries_again).0
    × All InBounds (walk loaded_page [] tries_again).1
reached-IsSound_example = reached-IsSound walked

reconnects_or_ends_example :
    let back =
      (run host_client (closed 0 ∷ (failures 2 1 1 ++ (message 3 (some accepted) [] ∷ [])))).0 in
    ((back.screen ≡ paired (record host_session { epoch = 1 })) × (back.active_socket ≡ some 3))
    × ((run host_client (closed 0 ∷ (failures 14 1 1 ++ (closed 15 ∷ [])))).0.screen ≡ lost)
reconnects_or_ends_example =
    reconnects_or_ends host_client host_session (zeros 32) [] 0 2
      (record { flow = receive; wired = 1; closing = false }) refl refl refl refl refl (omega arith)
