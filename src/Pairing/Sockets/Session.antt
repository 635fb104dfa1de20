-- ===== src/Pairing/Sockets/Session.antt =====
-- web/pairing.js: the paired session keeps what holds of the sockets.
use quicksend.Base.{
  ℕ, false, ◌||◌, not, [], ◌∷◌, Option, none, some, arith, leb, if-cases, All-append,
}
use quicksend.Base.Bytes.{Bytes, Text, codes}
use quicksend.Wire.{
  Kind, Payload, Envelope, peer_disconnected, peer_reconnected, session_ended, role_swap_request,
  role_swap_response,
}
use quicksend.Pairing.State.{Role, Session, Screen, Client, paired, error, derive_token}
use quicksend.Pairing.Screens.{render}
use quicksend.Pairing.Session.{
  reconnect_max_attempts, transfer_role_of, flip, change_session, next_epoch, wire, finalize_paired,
  flip_transfer_role, is_active, ended_reason, on_swap_request, is_accepted, on_swap_response,
  on_paired_message, attempt_reconnect, is_current, on_paired_close, on_reconnected,
  on_reconnect_close,
}
use quicksend.Pairing.Sockets.{
  IsOpen, InBounds, SocketInBounds, SocketsAreSound, OutIsSound, Keeps, then-Keeps, wire-Sound,
  render-Keeps, set_state-Keeps, ActiveIsOpen-append,
}

abbrev pub lost : Screen
lost = error (some (codes "connection_lost"))

pub finalize_paired-Keeps :
    (n : ℕ) (id : Option Text) (key : Option Bytes) (role : Role)
    → Keeps (λ c. finalize_paired c n id key role)
unfolding finalize_paired
finalize_paired-Keeps n id key role c h =
    let session : Session = record {
      session_id = id;
      session_key = key;
      role = role;
      epoch = 0;
      transfer_role = transfer_role_of role;
      reconnect_token = none;
    } in
    then-Keeps (record c { screen = paired session }, derive_token n key id ∷ [])
      (λ c. render (wire n c)) (h, (tt, tt)) (λ c k. render-Keeps (wire n c) (wire-Sound n c k))

flip_transfer_role-Keeps : Keeps flip_transfer_role
unfolding flip_transfer_role
flip_transfer_role-Keeps c h =
    render-Keeps
      (record c {
        screen = change_session (λ s. record s { transfer_role = flip s.transfer_role }) c.screen;
      })
      h

on_swap_request-Keeps : (n : ℕ) → Keeps (λ c. on_swap_request c n)
unfolding on_swap_request
on_swap_request-Keeps n c h =
    let busy = is_active c || c.swap_awaiting_response in
    let k =
      if-cases OutIsSound busy (c, []) (flip_transfer_role c) (λ _. (h, tt))
        (λ _. flip_transfer_role-Keeps c h) in
    (k.0, (tt, k.1))

on_swap_response-Keeps : (payload : Option Payload) → Keeps (λ c. on_swap_response c payload)
unfolding on_swap_response
on_swap_response-Keeps payload c h =
    if-cases OutIsSound (not c.swap_awaiting_response) _ _ (λ _. (h, tt))
      (λ _.
        if-cases OutIsSound (is_accepted payload) _ _
          (λ _. flip_transfer_role-Keeps (record c { swap_awaiting_response = false }) h)
          (λ _. (h, (tt, tt))))

pub on_paired_message-Keeps : (n : ℕ) (env : Envelope) → Keeps (on_paired_message n env)
unfolding on_paired_message
on_paired_message-Keeps n env c h = go env.kind
  where
    go : (kind : Kind) → OutIsSound (on_paired_message n (record env { kind = kind }) c)
    go session_ended = set_state-Keeps (error (some (ended_reason env.payload))) c h
    go peer_disconnected = (h, (tt, tt))
    go peer_reconnected = render-Keeps (record c { screen = next_epoch c.screen }) h
    go role_swap_request = on_swap_request-Keeps n c h
    go role_swap_response = on_swap_response-Keeps env.payload c h
    go _ = (h, tt)

pub attempt_reconnect-Keeps :
    (attempt : ℕ) → InBounds attempt → Keeps (λ c. attempt_reconnect c attempt)
unfolding attempt_reconnect
attempt_reconnect-Keeps attempt bound c h = go c.screen
  where
    opened :
        (s : Session) (token : Option Bytes)
        → OutIsSound (
            attempt_reconnect
              (record c { screen = paired (record s { reconnect_token = token }) })
              attempt)
    opened s none =
        let c' = record c { screen = paired (record s { reconnect_token = none }) } in
        let k = set_state-Keeps lost c' h in (k.0, (tt, k.1))
    opened s (some token) = (
      (
        ActiveIsOpen-append c.active_socket c.sockets _ h.0,
        All-append SocketInBounds c.sockets _ h.1 (bound, tt),
      ),
      (tt, (tt, tt)),
    )

    go : (screen : Screen) → OutIsSound (attempt_reconnect (record c { screen = screen }) attempt)
    go (paired s) = opened s s.reconnect_token
    go _ = (h, tt)

pub on_paired_close-Keeps : (n : ℕ) → Keeps (on_paired_close n)
unfolding on_paired_close
on_paired_close-Keeps n c h = go c.screen
  where
    go : (screen : Screen) → OutIsSound (on_paired_close n (record c { screen = screen }))
    go (paired s) =
        if-cases OutIsSound (is_current c n) _ _
          (λ _.
            attempt_reconnect-Keeps 1 (omega arith, omega arith)
              (record c { screen = paired s; active_socket = none }) (tt, h.1))
          (λ _. (h, tt))
    go _ = (h, tt)

-- A reconnect is only accepted on a socket that the module has not closed.
pub on_reconnected-Sound :
    (c : Client) (n : ℕ) → SocketsAreSound c → IsOpen n c.sockets → OutIsSound (on_reconnected c n)
unfolding on_reconnected
on_reconnected-Sound c n h is_open =
    let now = record c { active_socket = some n; screen = next_epoch c.screen } in
    let k = render-Keeps (wire n now) (wire-Sound n now (is_open, h.1)) in (k.0, (tt, k.1))

pub on_reconnect_close-Keeps : (n attempt : ℕ) → Keeps (λ c. on_reconnect_close c n attempt)
unfolding on_reconnect_close
on_reconnect_close-Keeps n attempt c h = go c.screen
  where
    go :
        (screen : Screen) → OutIsSound (on_reconnect_close (record c { screen = screen }) n attempt)
    go (paired s) =
        if-cases OutIsSound (is_current c n) _ _ (λ _. (h, tt))
          (λ _.
            if-cases OutIsSound (leb reconnect_max_attempts attempt) _ _
              (λ _. set_state-Keeps lost (record c { screen = paired s }) h)
              (λ more. (h, ((omega arith, ground arith), tt))))
    go _ = (h, tt)
