-- ===== src/Pairing/Buttons.antt =====
-- web/pairing.js: the buttons of the screens.
use quicksend.Base.{
  ℕ, ◌-◌, Bool, true, ◌&&◌, List, [], ◌∷◌, Option, none, some, leb, ◌==◌, if◌then◌else◌, length,
}
use quicksend.Base.Bytes.{Bytes, Text, codes}
use quicksend.Pairing.State.{
  Client, Effect, Click, role_select, code_role_select, sender_scanning, sender_paste,
  code_sender_entry, join_detected, receiver_waiting, code_receiver_waiting, paired, error,
  start_receive, start_send, code_link, code_receive, code_send, back, join_button, join_cancel,
  paste_instead, try_again, disconnect, swap_roles, code_entered, link_pasted,
}
use quicksend.Pairing.Screens.{update_at, advance, set_state}
use quicksend.Pairing.Session.{disconnect_session, request_role_swap}
use quicksend.Pairing.Flows.{
  start_receiver_flow, start_receiver_code_flow, start_join, start_join_by_code,
}

-- The buttons of renderSenderScanning set the `cancelled` of the camera that it has opened.
abbrev pub cancel_camera : Client → Client
cancel_camera c = record c {
  cameras = update_at (length c.cameras - 1) (λ cancelled. true) c.cameras;
}

abbrev pub is_digit : ℕ → Bool
is_digit x = leb b'0' x && leb x b'9'

-- `value.replace(/\D/g, "")`.
unfoldable pub digits_of : Text → Text
digits_of [] = []
digits_of (x ∷ xs) = if is_digit x then x ∷ digits_of xs else digits_of xs

unfoldable pub enter_code : Client → Text → Client × List Effect
unfolding set_state start_join_by_code digits_of
enter_code c value =
    if length (digits_of value) == 6
    then start_join_by_code c (digits_of value)
    else set_state c (error (some (codes "invalid_code")))

unfoldable pub follow_link : Client → Text → Option (Text × Bytes) → Client × List Effect
unfolding set_state start_join
follow_link c code none = set_state c (error (some code))
follow_link c code (some link) = start_join c link.0 link.1

-- The buttons of each screen, as its render function puts them there.
unfoldable pub click_role_select : Click → Client → Client × List Effect
unfolding advance start_receiver_flow
click_role_select action c = elim action [
  | start_receive ↦ start_receiver_flow c
  | start_send ↦ advance c sender_scanning
  | code_link ↦ advance c code_role_select
  | _ ↦ (c, [])
]

unfoldable pub click_code_role_select : Click → Client → Client × List Effect
unfolding advance set_state start_receiver_code_flow
click_code_role_select action c = elim action [
  | code_receive ↦ start_receiver_code_flow c
  | code_send ↦ advance c code_sender_entry
  | back ↦ set_state c role_select
  | _ ↦ (c, [])
]

unfoldable pub click_join_detected : Text → Bytes → Click → Client → Client × List Effect
unfolding set_state start_join
click_join_detected id key action c = elim action [
  | join_button ↦ start_join c id key
  | join_cancel ↦ set_state c role_select
  | _ ↦ (c, [])
]

unfoldable pub click_code_receiver_waiting : Click → Client → Client × List Effect
unfolding set_state
click_code_receiver_waiting action c = elim action [
  | back ↦ set_state c code_role_select
  | _ ↦ (c, [])
]

unfoldable pub click_code_sender_entry : Click → Client → Client × List Effect
unfolding set_state enter_code
click_code_sender_entry action c = elim action [
  | code_entered value ↦ enter_code c value
  | back ↦ set_state c code_role_select
  | _ ↦ (c, [])
]

unfoldable pub click_receiver_waiting : Click → Client → Client × List Effect
unfolding set_state
click_receiver_waiting action c = elim action [ back ↦ set_state c role_select | _ ↦ (c, []) ]

unfoldable pub click_sender_scanning : Click → Client → Client × List Effect
unfolding set_state update_at
click_sender_scanning action c = elim action [
  | paste_instead ↦ set_state (cancel_camera c) sender_paste
  | back ↦ set_state (cancel_camera c) role_select
  | _ ↦ (c, [])
]

unfoldable pub click_sender_paste : Click → Client → Client × List Effect
unfolding set_state follow_link
click_sender_paste action c = elim action [
  | link_pasted link ↦ follow_link c (codes "invalid_link") link
  | back ↦ set_state c sender_scanning
  | _ ↦ (c, [])
]

unfoldable pub click_paired : Click → Client → Client × List Effect
unfolding disconnect_session request_role_swap
click_paired action c = elim action [
  | disconnect ↦ disconnect_session c
  | swap_roles ↦ if c.swap_button_disabled then (c, []) else request_role_swap c
  | _ ↦ (c, [])
]

unfoldable pub click_error : Click → Client → Client × List Effect
unfolding set_state
click_error action c = elim action [ try_again ↦ set_state c role_select | _ ↦ (c, []) ]

unfoldable pub on_click : Click → Client → Client × List Effect
unfolding click_role_select click_code_role_select click_join_detected click_code_receiver_waiting
    click_code_sender_entry click_receiver_waiting click_sender_scanning click_sender_paste
    click_paired click_error
on_click action c = elim c.screen [
  | role_select ↦ click_role_select action c
  | code_role_select ↦ click_code_role_select action c
  | join_detected id key ↦ click_join_detected id key action c
  | code_receiver_waiting code ↦ click_code_receiver_waiting action c
  | code_sender_entry ↦ click_code_sender_entry action c
  | receiver_waiting id key ↦ click_receiver_waiting action c
  | sender_scanning ↦ click_sender_scanning action c
  | sender_paste ↦ click_sender_paste action c
  | paired s ↦ click_paired action c
  | error code ↦ click_error action c
  | _ ↦ (c, [])
]
