-- ===== src/Pairing/Sockets/Clicks.antt =====
-- web/pairing.js: the buttons keep what holds of the sockets.
use quicksend.Base.{ℕ, true, All, [], ◌∷◌, Option, none, some, length, ◌==◌, if-cases}
use quicksend.Base.Bytes.{Bytes, Text, codes}
use quicksend.Wire.{role_swap_request}
use quicksend.Pairing.State.{
  Screen, Flow, Click, role_select, code_role_select, receiver_generating, sender_scanning,
  sender_paste, code_receiver_generating, code_sender_entry, join_detected, receiver_waiting,
  joining, code_receiver_waiting, paired, error, receive, receive_code, join_by_code, join,
  start_receive, start_send, code_link, code_receive, code_send, back, join_button, join_cancel,
  paste_instead, try_again, disconnect, swap_roles, code_entered, link_pasted, send, swap_status,
  swap_timeout, requesting,
}
use quicksend.Pairing.Screens.{◌▸◌, advance, set_state}
use quicksend.Pairing.Session.{is_active, disconnect_session, request_role_swap}
use quicksend.Pairing.Flows.{
  open_socket, start_receiver_flow, start_receiver_code_flow, start_join_by_code, start_join,
}
use quicksend.Pairing.Buttons.{
  cancel_camera, digits_of, enter_code, follow_link, click_role_select, click_code_role_select,
  click_join_detected, click_code_receiver_waiting, click_code_sender_entry, click_receiver_waiting,
  click_sender_scanning, click_sender_paste, click_paired, click_error, on_click,
}
use quicksend.Pairing.Sockets.{
  ActiveIsOpen, EffectInBounds, FlowInBounds, OutIsSound, Keeps, then-Keeps, set_state-Keeps,
  advance-Keeps, open_socket-Keeps,
}

-- A screen, and a socket for it.
starts-Keeps :
    (next : Screen) (flow : Flow)
    → FlowInBounds flow
    → Keeps (λ c. advance c next ▸ open_socket flow)
starts-Keeps next flow bound c h =
    then-Keeps (advance c next) (open_socket flow) (advance-Keeps next c h)
      (open_socket-Keeps flow bound)

start_join_by_code-Keeps : (code : Text) → Keeps (λ c. start_join_by_code c code)
unfolding start_join_by_code
start_join_by_code-Keeps code c h = starts-Keeps (joining none) (join_by_code code) tt c h

start_join-Keeps : (id : Text) (key : Bytes) → Keeps (λ c. start_join c id key)
unfolding start_join
start_join-Keeps id key c h =
    starts-Keeps (joining (some (id, key))) (join id key) tt (record c { active_stop_scan = none })
      h

pub follow_link-Keeps :
    (code : Text) (link : Option (Text × Bytes)) → Keeps (λ c. follow_link c code link)
unfolding follow_link
follow_link-Keeps code none c h = set_state-Keeps (error (some code)) c h
follow_link-Keeps code (some link) c h = start_join-Keeps link.0 link.1 c h

enter_code-Keeps : (value : Text) → Keeps (λ c. enter_code c value)
unfolding enter_code
enter_code-Keeps value c h =
    if-cases OutIsSound (length (digits_of value) == 6) _ _
      (λ _. start_join_by_code-Keeps (digits_of value) c h)
      (λ _. set_state-Keeps (error (some (codes "invalid_code"))) c h)

disconnect_session-Keeps : Keeps disconnect_session
unfolding disconnect_session
disconnect_session-Keeps c h = go c.active_socket h.0
  where
    go :
        (a : Option ℕ)
        → ActiveIsOpen a c.sockets
        → OutIsSound (disconnect_session (record c { active_socket = a }))
    go none k = set_state-Keeps role_select (record c { active_socket = none }) (k, h.1)
    go (some n) k =
        let left = set_state-Keeps role_select (record c { active_socket = some n }) (k, h.1) in
        (left.0, (tt, left.1))

request_role_swap-Keeps : Keeps request_role_swap
unfolding request_role_swap
request_role_swap-Keeps c h =
    if-cases OutIsSound (is_active c) _ _ (λ _. (h, (tt, tt)))
      (λ _. if-cases OutIsSound c.swap_awaiting_response _ _ (λ _. (h, tt)) (λ _. asked))
  where
    asked : OutIsSound (
      record c { swap_awaiting_response = true; swap_button_disabled = true },
      elim c.active_socket [
        | none ↦ swap_status requesting ∷ []
        | some n ↦ swap_status requesting ∷ send n role_swap_request none ∷ swap_timeout ∷ []
      ],
    )
    asked = (h, told c.active_socket)
      where
        told :
            (a : Option ℕ)
            → All EffectInBounds (elim a [
              | none ↦ swap_status requesting ∷ []
              | some n ↦ swap_status requesting ∷ send n role_swap_request none ∷ swap_timeout ∷ []
            ])
        told none = (tt, tt)
        told (some n) = (tt, (tt, (tt, tt)))

click_paired-Keeps : (action : Click) → Keeps (click_paired action)
unfolding click_paired
click_paired-Keeps disconnect c h = disconnect_session-Keeps c h
click_paired-Keeps swap_roles c h =
    if-cases OutIsSound c.swap_button_disabled _ _ (λ _. (h, tt)) (λ _. request_role_swap-Keeps c h)
click_paired-Keeps _ c h = (h, tt)

click_role_select-Keeps : (action : Click) → Keeps (click_role_select action)
unfolding click_role_select start_receiver_flow
click_role_select-Keeps start_receive c h = starts-Keeps receiver_generating receive tt c h
click_role_select-Keeps start_send c h = advance-Keeps sender_scanning c h
click_role_select-Keeps code_link c h = advance-Keeps code_role_select c h
click_role_select-Keeps _ c h = (h, tt)

click_code_role_select-Keeps : (action : Click) → Keeps (click_code_role_select action)
unfolding click_code_role_select start_receiver_code_flow
click_code_role_select-Keeps code_receive c h =
    starts-Keeps code_receiver_generating receive_code tt c h
click_code_role_select-Keeps code_send c h = advance-Keeps code_sender_entry c h
click_code_role_select-Keeps back c h = set_state-Keeps role_select c h
click_code_role_select-Keeps _ c h = (h, tt)

click_join_detected-Keeps :
    (id : Text) (key : Bytes) (action : Click) → Keeps (click_join_detected id key action)
unfolding click_join_detected
click_join_detected-Keeps id key join_button c h = start_join-Keeps id key c h
click_join_detected-Keeps id key join_cancel c h = set_state-Keeps role_select c h
click_join_detected-Keeps id key _ c h = (h, tt)

click_code_sender_entry-Keeps : (action : Click) → Keeps (click_code_sender_entry action)
unfolding click_code_sender_entry
click_code_sender_entry-Keeps (code_entered value) c h = enter_code-Keeps value c h
click_code_sender_entry-Keeps back c h = set_state-Keeps code_role_select c h
click_code_sender_entry-Keeps _ c h = (h, tt)

click_sender_scanning-Keeps : (action : Click) → Keeps (click_sender_scanning action)
unfolding click_sender_scanning
click_sender_scanning-Keeps paste_instead c h = set_state-Keeps sender_paste (cancel_camera c) h
click_sender_scanning-Keeps back c h = set_state-Keeps role_select (cancel_camera c) h
click_sender_scanning-Keeps _ c h = (h, tt)

click_sender_paste-Keeps : (action : Click) → Keeps (click_sender_paste action)
unfolding click_sender_paste
click_sender_paste-Keeps (link_pasted link) c h = follow_link-Keeps (codes "invalid_link") link c h
click_sender_paste-Keeps back c h = set_state-Keeps sender_scanning c h
click_sender_paste-Keeps _ c h = (h, tt)

-- The screens with one button that leaves them.
leaves-Keeps :
    (next : Screen) (action : Click)
    → Keeps (λ c. elim action [ back ↦ set_state c next | _ ↦ (c, []) ])
leaves-Keeps next back c h = set_state-Keeps next c h
leaves-Keeps next _ c h = (h, tt)

click_error-Keeps : (action : Click) → Keeps (click_error action)
unfolding click_error
click_error-Keeps try_again c h = set_state-Keeps role_select c h
click_error-Keeps _ c h = (h, tt)

pub on_click-Keeps : (action : Click) → Keeps (on_click action)
unfolding on_click click_receiver_waiting click_code_receiver_waiting
on_click-Keeps action c h = go c.screen
  where
    go : (screen : Screen) → OutIsSound (on_click action (record c { screen = screen }))
    go role_select = click_role_select-Keeps action (record c { screen = role_select }) h
    go code_role_select =
        click_code_role_select-Keeps action (record c { screen = code_role_select }) h
    go (join_detected id key) =
        click_join_detected-Keeps id key action (record c { screen = join_detected id key }) h
    go (code_receiver_waiting code) =
        leaves-Keeps code_role_select action (record c { screen = code_receiver_waiting code }) h
    go code_sender_entry =
        click_code_sender_entry-Keeps action (record c { screen = code_sender_entry }) h
    go (receiver_waiting id key) =
        leaves-Keeps role_select action (record c { screen = receiver_waiting id key }) h
    go sender_scanning =
        click_sender_scanning-Keeps action (record c { screen = sender_scanning }) h
    go sender_paste = click_sender_paste-Keeps action (record c { screen = sender_paste }) h
    go (paired s) = click_paired-Keeps action (record c { screen = paired s }) h
    go (error code) = click_error-Keeps action (record c { screen = error code }) h
    go _ = (h, tt)
