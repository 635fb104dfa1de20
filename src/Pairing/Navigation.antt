-- ===== src/Pairing/Navigation.antt =====
-- web/pairing.js: what leaving a screen tears down.
use quicksend.Base.{
  ℕ, zero, suc, ◌≡◌, refl, sym, ap, ◌∙◌, Bool, true, false, List, [], ◌∷◌, Option, none, some,
  get_elem?, subst,
}
use quicksend.Base.Bytes.{Bytes, Text, codes}
use quicksend.Pairing.State.{
  Screen, Socket, Transfer, Client, role_select, code_role_select, receiver_generating,
  sender_scanning, sender_paste, code_receiver_generating, code_sender_entry, verifying,
  insecure_context, join_detected, receiver_waiting, joining, code_receiver_waiting, paired, error,
  receive, click, closed, back,
}
use quicksend.Pairing.Screens.{
  ◌▸◌, update_at, detach_active_transfer, cleanup_active, render, render_paired, set_state,
}
use quicksend.Pairing.Buttons.{on_click, click_receiver_waiting}
use quicksend.Pairing.Steps.{step, run, on_close, each_wired}
use quicksend.Pairing.Flows.{on_flow_close, on_pairing_close}

-- Drawing changes nothing that leaving has torn down, and not the screen.
abbrev Kept : Client → Client → Type 0
Kept c c' =
    (c'.screen ≡ c.screen)
    × (c'.active_socket ≡ c.active_socket)
    × (c'.sockets ≡ c.sockets)
    × (c'.active_stop_scan ≡ c.active_stop_scan)
    × (c'.pending_send_files ≡ c.pending_send_files)
    × (c.transfer ≡ none → c'.transfer ≡ none)

pub render-Kept : (c : Client) → Kept c (render c).0
unfolding render render_paired detach_active_transfer
render-Kept c = go c.screen c.transfer
  where
    go :
        (screen : Screen) (t : Option Transfer)
        → Kept
            (record c { screen = screen; transfer = t })
            (render (record c { screen = screen; transfer = t })).0
    go (paired s) none = (refl, refl, refl, refl, refl, λ e. refl)
    go (paired s) (some t) = (refl, refl, refl, refl, refl, λ e. refl)
    go role_select t = (refl, refl, refl, refl, refl, λ e. e)
    go code_role_select t = (refl, refl, refl, refl, refl, λ e. e)
    go receiver_generating t = (refl, refl, refl, refl, refl, λ e. e)
    go sender_scanning t = (refl, refl, refl, refl, refl, λ e. e)
    go sender_paste t = (refl, refl, refl, refl, refl, λ e. e)
    go code_receiver_generating t = (refl, refl, refl, refl, refl, λ e. e)
    go code_sender_entry t = (refl, refl, refl, refl, refl, λ e. e)
    go verifying t = (refl, refl, refl, refl, refl, λ e. e)
    go insecure_context t = (refl, refl, refl, refl, refl, λ e. e)
    go (join_detected i k) t = (refl, refl, refl, refl, refl, λ e. e)
    go (receiver_waiting i k) t = (refl, refl, refl, refl, refl, λ e. e)
    go (joining l) t = (refl, refl, refl, refl, refl, λ e. e)
    go (code_receiver_waiting l) t = (refl, refl, refl, refl, refl, λ e. e)
    go (error l) t = (refl, refl, refl, refl, refl, λ e. e)

-- The sockets after leaving: the active one is closing.
abbrev pub sockets_left : Client → List Socket
sockets_left c = elim c.active_socket [
  | none ↦ c.sockets
  | some n ↦ update_at n (λ s. record s { closing = true }) c.sockets
]

cleanup_active_lem :
    (c : Client)
    → (cleanup_active c).0 ≡ record c {
      active_socket = none;
      active_stop_scan = none;
      transfer = none;
      pending_send_files = none;
      sockets = sockets_left c;
    }
unfolding cleanup_active detach_active_transfer
cleanup_active_lem c = go c.active_stop_scan c.active_socket c.transfer
  where
    go :
        (scan socket : Option ℕ) (t : Option Transfer)
        → (cleanup_active
            (record c { active_stop_scan = scan; active_socket = socket; transfer = t })).0
          ≡ record c {
            active_socket = none;
            active_stop_scan = none;
            transfer = none;
            pending_send_files = none;
            sockets = sockets_left (record c { active_socket = socket });
          }
    go none none none = refl
    go none none (some t) = refl
    go none (some n) none = refl
    go none (some n) (some t) = refl
    go (some m) none none = refl
    go (some m) none (some t) = refl
    go (some m) (some n) none = refl
    go (some m) (some n) (some t) = refl

-- Nothing of the screen that was left is active any more, and its socket is closing.
abbrev pub Left : Client → Screen → Client → Type 0
Left c next left =
    (left.screen ≡ next)
    × (left.active_socket ≡ none)
    × (left.sockets ≡ sockets_left c)
    × (left.active_stop_scan ≡ none)
    × (left.transfer ≡ none)
    × (left.pending_send_files ≡ none)

-- setState, in every state: the next screen is shown, no socket, camera, transfer or waiting pick
-- is active any more, and the socket that was active is closing.
pub set_state_lem : (c : Client) (next : Screen) → Left c next (set_state c next).0
unfolding set_state
set_state_lem c next =
    subst (λ x. Left c next (render (record x { screen = next })).0) (sym (cleanup_active_lem c))
      (k.0, k.1, k.2, k.3, k.5 refl, k.4)
  where
    cleaned : Client
    cleaned = record c {
      screen = next;
      active_socket = none;
      active_stop_scan = none;
      transfer = none;
      pending_send_files = none;
      sockets = sockets_left c;
    }

    k : Kept cleaned (render cleaned).0
    k = render-Kept cleaned

get_elem?-update_at :
    {A : Type 0} (n : ℕ) (f : A → A) (xs : List A) (x : A)
    → get_elem? xs n ≡ some x
    → get_elem? (update_at n f xs) n ≡ some (f x)
unfolding update_at
get_elem?-update_at n f [] x e = cc
get_elem?-update_at zero f (y ∷ ys) x e = ap (λ o. elim o [ none ↦ none | some z ↦ some (f z) ]) e
get_elem?-update_at (suc n) f (y ∷ ys) x e = get_elem?-update_at n f ys x e

abbrev lost : Screen
lost = error (some (codes "connection_lost"))

-- The close event of a socket of the receiver's flow, on the start screen.
closed_at_start :
    (c : Client) (n : ℕ) (is_closing : Bool)
    → c.screen ≡ role_select
    → get_elem? c.sockets n ≡ some (record { flow = receive; wired = 0; closing = is_closing })
    → (on_close c n).0.screen ≡ lost
unfolding on_close
closed_at_start c n b start found =
    ap (λ out. out.0.screen) flow
    ∙ ap (λ s. (on_pairing_close (record c { screen = s })).0.screen) start
    ∙ unfold on_pairing_close in (set_state_lem (record c { screen = role_select }) lost).0
  where
    flow : on_close c n ≡ (on_pairing_close c ▸ (λ c. (c, [])))
    flow = unfold on_flow_close each_wired in rw (found, on_close) refl

-- On the screen of a receiver that waits, with its socket open: the back button followed by the
-- close event of that socket shows the connection_lost error.
pub back_then_lost :
    (c : Client) (n : ℕ) (id : Option Text) (key : Bytes)
    → c.screen ≡ receiver_waiting id key
    → c.active_socket ≡ some n
    → get_elem? c.sockets n ≡ some (record { flow = receive; wired = 0; closing = false })
    → (run c (click back ∷ closed n ∷ [])).0.screen ≡ lost
unfolding run step
back_then_lost c n id key shown active found =
    ap (λ out. (on_close out.0 n).0.screen) went_back
    ∙ closed_at_start left n true left_lem.0 (ap (λ ss. get_elem? ss n) left_lem.2 ∙ still_there)
  where
    left : Client
    left = (set_state c role_select).0

    left_lem : Left c role_select left
    left_lem = set_state_lem c role_select

    went_back : on_click back c ≡ set_state c role_select
    went_back =
        ap (λ s. on_click back (record c { screen = s })) shown
        ∙ unfold on_click click_receiver_waiting in
          ap (λ s. set_state (record c { screen = s }) role_select) (sym shown)

    still_there :
        get_elem? (sockets_left c) n ≡ some (record { flow = receive; wired = 0; closing = true })
    still_there =
        ap (λ a. get_elem? (sockets_left (record c { active_socket = a })) n) active
        ∙ get_elem?-update_at n (λ s. record s { closing = true }) c.sockets _ found
