-- ===== src/Pairing/Reconnection.antt =====
-- web/pairing.js: epochs and sockets over a reconnection.
use quicksend.Base.{
  ℕ, ◌+◌, ◌≡◌, refl, sym, ap, ◌∙◌, subst, false, [], ◌∷◌, Option, none, some, get_elem?,
}
use quicksend.Base.Bytes.{Bytes, Text}
use quicksend.Wire.{Envelope, peer_reconnected, reconnected}
use quicksend.Pairing.State.{
  Role, Session, Client, role_select, paired, reconnect, click, disconnect, message,
}
use quicksend.Pairing.Screens.{update_at, set_state}
use quicksend.Pairing.Navigation.{render-Kept, Left, set_state_lem, sockets_left}
use quicksend.Pairing.Session.{
  next_epoch, wire, on_reconnected, on_paired_message, disconnect_session,
}
use quicksend.Pairing.Flows.{on_flow_message}
use quicksend.Pairing.Buttons.{on_click, click_paired}
use quicksend.Pairing.Steps.{step, run, on_message, each_wired}

pub on_reconnected_lem :
    (c : Client) (n : ℕ)
    → ((on_reconnected c n).0.screen ≡ next_epoch c.screen)
      × ((on_reconnected c n).0.active_socket ≡ some n)
unfolding on_reconnected update_at
on_reconnected_lem c n =
    let k =
      render-Kept (wire n (record c { active_socket = some n; screen = next_epoch c.screen })) in
    (k.0, k.1)

abbrev pub peer_is_back : Envelope
peer_is_back = record { kind = peer_reconnected; payload = none }

-- Two paired clients in the same epoch: when the one has reconnected and the other is told so, both
-- are still paired, in the same next epoch and with the keys that they had.
pub epochs_agree :
    (a b : Client) (x y : Session) (na nb : ℕ)
    → a.screen ≡ paired x
    → b.screen ≡ paired y
    → x.epoch ≡ y.epoch
    → (x' : Session) × (y' : Session) × ((on_reconnected a na).0.screen ≡ paired x')
      × ((on_paired_message nb peer_is_back b).0.screen ≡ paired y')
      × (x'.epoch ≡ y'.epoch)
      × (x'.epoch ≡ x.epoch + 1)
      × (x'.session_key ≡ x.session_key)
      × (y'.session_key ≡ y.session_key)
unfolding on_paired_message
epochs_agree a b x y na nb ha hb e = (
  record x { epoch = x.epoch + 1 },
  record y { epoch = y.epoch + 1 },
  (on_reconnected_lem a na).0 ∙ ap next_epoch ha,
  (render-Kept (record b { screen = next_epoch b.screen })).0 ∙ ap next_epoch hb,
  ap (λ k. k + 1) e,
  refl,
  refl,
  refl,
)

abbrev pub accepted : Envelope
accepted = record { kind = reconnected; payload = none }

-- The relay accepts the reconnect of socket `n`, which no flow but the reconnection has wired.
pub accepted_lem :
    (c : Client) (n attempt : ℕ) (id : Option Text) (role : Role) (token random : Bytes)
    → get_elem? c.sockets n
      ≡ some (record { flow = reconnect attempt id role token; wired = 0; closing = false })
    → (on_message c n accepted random).0 ≡ (on_reconnected c n).0
unfolding on_message on_flow_message each_wired
accepted_lem c n attempt id role token random found = rw (found, on_message) refl

-- While a paired client without an active socket reconnects, the disconnect button followed by the
-- acceptance of the reconnect leaves it on the start screen with that socket as the active one.
pub disconnected_reconnects :
    (c : Client) (s : Session) (n attempt : ℕ) (id : Option Text) (role : Role)
    (token random : Bytes)
    → c.screen ≡ paired s
    → c.active_socket ≡ none
    → get_elem? c.sockets n
      ≡ some (record { flow = reconnect attempt id role token; wired = 0; closing = false })
    → let after = (run c (click disconnect ∷ message n (some accepted) random ∷ [])).0 in
      (after.screen ≡ role_select) × (after.active_socket ≡ some n)
unfolding run step
disconnected_reconnects c s n attempt id role token random shown active found =
    subst (λ x. Ghost (on_message x n accepted random).0) (sym went)
      (subst Ghost (sym (accepted_lem left n attempt id role token random still_there))
        ((on_reconnected_lem left n).0 ∙ ap next_epoch left_lem.0, (on_reconnected_lem left n).1))
  where
    Ghost : Client → Type 0
    Ghost x = (x.screen ≡ role_select) × (x.active_socket ≡ some n)

    left : Client
    left = (set_state c role_select).0

    left_lem : Left c role_select left
    left_lem = set_state_lem c role_select

    went : (on_click disconnect c).0 ≡ left
    went =
        ap (λ x. (on_click disconnect (record c { screen = x })).0) shown
        ∙ unfold on_click click_paired disconnect_session in
          ap (λ x. (set_state (record c { screen = x }) role_select).0) (sym shown)

    still_there :
        get_elem? left.sockets n
        ≡ some (record { flow = reconnect attempt id role token; wired = 0; closing = false })
    still_there =
        ap (λ ss. get_elem? ss n) left_lem.2
        ∙ ap (λ a. get_elem? (sockets_left (record c { active_socket = a })) n) active
        ∙ found
