-- ===== src/Pairing/Sockets/Reachable.antt =====
-- web/pairing.js: the sockets and the reconnect attempts in every state that the module can come to.
use quicksend.Base.{
  ℕ, zero, suc, ◌≡◌, subst, Bool, true, false, List, [], ◌∷◌, Option, none, some, arith, ◌==◌, inl,
  inr, Bool-cases, option-cases, if-cases, get_elem?, All, All-append,
}
use quicksend.Base.Bytes.{Bytes, Text, codes}
use quicksend.Wire.{Envelope}
use quicksend.Pairing.State.{
  Files, Flow, Client, Effect, Event, join_detected, insecure_context, error, click, opened, closed,
  message, scanned, camera_failed, camera_ready, pake_settled, token_derived, transfer_ready,
  transfer_activity, files_bounced, swap_timer, retry_timer, retry_later, receive, receive_code,
  join_by_code, join, reconnect,
}
use quicksend.Pairing.Session.{swap_timed_out, on_paired_message, on_paired_close, token_ready}
use quicksend.Pairing.Flows.{on_flow_open, on_flow_message, on_flow_close}
use quicksend.Pairing.Steps.{
  fresh, init_pairing, each_wired, on_message, on_close, on_open, on_camera_ready,
  on_transfer_ready, can_send_now, on_files_bounced, on_transfer_activity, step,
}
use quicksend.Pairing.Reach.{retries, is_set, CanHappen, Reach, loaded, moved}
use quicksend.Pairing.Sockets.{
  InBounds, SocketsAreSound, EffectInBounds, OutIsSound, Keeps, then-Keeps, render-Keeps,
  set_state-Keeps,
}
use quicksend.Pairing.Sockets.Session.{
  on_paired_message-Keeps, on_paired_close-Keeps, attempt_reconnect-Keeps,
}
use quicksend.Pairing.Sockets.Flows.{on_flow_message-Sound, on_flow_close-Keeps, pake_done-Keeps}
use quicksend.Pairing.Sockets.Clicks.{on_click-Keeps, follow_link-Keeps}

each_wired-Keeps : (k : ℕ) (f : Client → Client × List Effect) → Keeps f → Keeps (each_wired k f)
unfolding each_wired
each_wired-Keeps zero f keeps c h = (h, tt)
each_wired-Keeps (suc k) f keeps c h =
    then-Keeps (f c) (each_wired k f) (keeps c h) (each_wired-Keeps k f keeps)

on_message-Keeps :
    (n : ℕ) (env : Envelope) (random : Bytes) → Keeps (λ c. on_message c n env random)
unfolding on_message
on_message-Keeps n env random c h =
    option-cases OutIsSound (get_elem? c.sockets n) _ _ (λ _. (h, tt))
      (λ socket found.
        if-cases OutIsSound socket.closing _ _ (λ _. (h, tt))
          (λ going.
            then-Keeps (on_flow_message n socket.flow env random c)
              (each_wired socket.wired (on_paired_message n env))
              (on_flow_message-Sound n env random socket.flow c h (socket, found, going))
              (each_wired-Keeps socket.wired (on_paired_message n env)
                (on_paired_message-Keeps n env))))

on_close-Keeps : (n : ℕ) → Keeps (λ c. on_close c n)
unfolding on_close
on_close-Keeps n c h =
    option-cases OutIsSound (get_elem? c.sockets n) _ _ (λ _. (h, tt))
      (λ socket found.
        then-Keeps (on_flow_close n socket.flow c) (each_wired socket.wired (on_paired_close n))
          (on_flow_close-Keeps n socket.flow c h)
          (each_wired-Keeps socket.wired (on_paired_close n) (on_paired_close-Keeps n)))

on_flow_open-InBounds : (n : ℕ) (flow : Flow) → All EffectInBounds (on_flow_open n flow)
unfolding on_flow_open
on_flow_open-InBounds n receive = (tt, tt)
on_flow_open-InBounds n receive_code = (tt, tt)
on_flow_open-InBounds n (join_by_code code) = (tt, tt)
on_flow_open-InBounds n (join id key) = (tt, tt)
on_flow_open-InBounds n (reconnect attempt id role token) = (tt, tt)

on_open-Keeps : (n : ℕ) → Keeps (λ c. on_open c n)
unfolding on_open
on_open-Keeps n c h =
    option-cases OutIsSound (get_elem? c.sockets n) _ _ (λ _. (h, tt))
      (λ socket found.
        if-cases OutIsSound socket.closing _ _ (λ _. (h, tt))
          (λ _. (h, on_flow_open-InBounds n socket.flow)))

on_camera_ready-Keeps : (n : ℕ) → Keeps (λ c. on_camera_ready c n)
unfolding on_camera_ready
on_camera_ready-Keeps n c h =
    option-cases OutIsSound (get_elem? c.cameras n) _ _ (λ _. (h, tt))
      (λ cancelled _. if-cases OutIsSound cancelled _ _ (λ _. (h, (tt, tt))) (λ _. (h, tt)))

on_transfer_ready-Keeps : (can_send : Bool) → Keeps (λ c. on_transfer_ready c can_send)
unfolding on_transfer_ready
on_transfer_ready-Keeps can_send c h =
    option-cases OutIsSound c.pending_send_files _ _ (λ _. (h, tt))
      (λ files _. if-cases OutIsSound can_send _ _ (λ _. (h, (tt, tt))) (λ _. (h, tt)))

on_transfer_activity-Keeps : (active : Bool) → Keeps (λ c. on_transfer_activity c active)
unfolding on_transfer_activity
on_transfer_activity-Keeps active c h =
    option-cases OutIsSound c.transfer _ _ (λ _. (h, tt)) (λ handle _. (h, tt))

on_files_bounced-Keeps :
    (files : Files) (is_open : Bool) → Keeps (λ c. on_files_bounced c files is_open)
unfolding on_files_bounced
on_files_bounced-Keeps files is_open c h =
    if-cases OutIsSound (can_send_now c is_open) _ _ (λ _. (h, (tt, tt))) (λ _. (h, tt))

swap_timed_out-Keeps : Keeps swap_timed_out
unfolding swap_timed_out
swap_timed_out-Keeps c h =
    if-cases OutIsSound c.swap_awaiting_response _ _ (λ _. (h, (tt, tt))) (λ _. (h, tt))

-- The timers that are set are those of attempts in bounds.
InBounds-of_set :
    (attempt : ℕ) (timers : List ℕ)
    → All InBounds timers
    → is_set attempt timers ≡ true
    → InBounds attempt
InBounds-of_set attempt [] h e = cc
InBounds-of_set attempt (a ∷ timers) h e = elim (Bool-cases (a == attempt)) [
  | inl same ↦ let equal : a ≡ attempt = ground arith in subst InBounds equal h.0
  | inr other ↦ InBounds-of_set attempt timers h.1 (rw other at e)
]

All-retries : (es : List Effect) → All EffectInBounds es → All InBounds (retries es)
All-retries [] h = tt
All-retries (retry_later attempt ∷ es) h = (h.0, All-retries es h.1)
All-retries (_ ∷ es) h = All-retries es h.1

step-Sound :
    (c : Client) (timers : List ℕ) (e : Event)
    → SocketsAreSound c
    → All InBounds timers
    → CanHappen timers e
    → OutIsSound (step c e)
unfolding step token_ready
step-Sound c timers (click action) h b can = on_click-Keeps action c h
step-Sound c timers (opened n) h b can = on_open-Keeps n c h
step-Sound c timers (closed n) h b can = on_close-Keeps n c h
step-Sound c timers (message n none random) h b can = (h, tt)
step-Sound c timers (message n (some env) random) h b can = on_message-Keeps n env random c h
step-Sound c timers (scanned link) h b can = follow_link-Keeps (codes "invalid_qr") link c h
step-Sound c timers camera_failed h b can =
    set_state-Keeps (error (some (codes "camera_error"))) c h
step-Sound c timers (camera_ready n) h b can = on_camera_ready-Keeps n c h
step-Sound c timers (pake_settled n key role id) h b can = pake_done-Keeps n key role id c h
step-Sound c timers (token_derived n token) h b can = (h, (tt, tt))
step-Sound c timers (transfer_ready can_send) h b can = on_transfer_ready-Keeps can_send c h
step-Sound c timers (transfer_activity active) h b can = on_transfer_activity-Keeps active c h
step-Sound c timers (files_bounced files is_open) h b can = on_files_bounced-Keeps files is_open c h
step-Sound c timers swap_timer h b can = swap_timed_out-Keeps c h
step-Sound c timers (retry_timer attempt) h b can =
    attempt_reconnect-Keeps attempt (InBounds-of_set attempt timers b can) c h

init_pairing-Sound :
    (is_secure : Bool) (link : Option (Text × Bytes))
    → SocketsAreSound (init_pairing is_secure link).0
unfolding init_pairing fresh
init_pairing-Sound false link =
    (render-Keeps (record fresh { screen = insecure_context }) (tt, tt)).0
init_pairing-Sound true none = (render-Keeps fresh (tt, tt)).0
init_pairing-Sound true (some link) =
    (render-Keeps (record fresh { screen = join_detected link.0 link.1 }) (tt, tt)).0

-- In every state that the module can come to from its start, by whatever events, where a retry
-- fires only if its timer was set: the active socket, if there is one, is a socket that was opened
-- and that the module has not closed, and every reconnect that was started and every retry that
-- waits is one of the attempts 1 to 15.
pub reached-IsSound :
    {c : Client} {timers : List ℕ} → Reach c timers → SocketsAreSound c × All InBounds timers
reached-IsSound (loaded is_secure link) = (init_pairing-Sound is_secure link, tt)
reached-IsSound (moved {c} {timers} before e can) =
    let (h, b) = reached-IsSound before in
    let now = step-Sound c timers e h b can in
    (now.0, All-append InBounds timers (retries (step c e).1) b (All-retries (step c e).1 now.1))
