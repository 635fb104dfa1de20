-- ===== src/Pairing/Steps.antt =====
-- web/pairing.js: every event of the module as one step.
use quicksend.Pairing.Buttons.{on_click, follow_link}
use quicksend.Base.{
  ℕ, zero, suc, Bool, false, ◌&&◌, List, [], ◌∷◌, ◌++◌, Option, none, some, if◌then◌else◌,
  get_elem?,
}
use quicksend.Base.Bytes.{Bytes, Text, codes}
use quicksend.Wire.{Envelope}
use quicksend.Pairing.State.{
  Files, Client, Effect, Event, role_select, insecure_context, join_detected, paired, error,
  stop_scanning, send_files, click, opened, closed, message, scanned, camera_failed, camera_ready,
  pake_settled, token_derived, transfer_ready, transfer_activity, files_bounced, swap_timer,
  retry_timer,
}
use quicksend.Pairing.Screens.{◌▸◌, set_state, render}
use quicksend.Pairing.Session.{
  attempt_reconnect, swap_timed_out, token_ready, on_paired_message, on_paired_close,
}
use quicksend.Pairing.Flows.{on_flow_open, on_flow_message, on_flow_close, pake_done}

-- The module as it is loaded, and initPairing.
unfoldable pub fresh : Client
fresh = record {
  screen = role_select;
  sockets = [];
  cameras = [];
  active_socket = none;
  active_stop_scan = none;
  transfer = none;
  swap_awaiting_response = false;
  swap_button_disabled = false;
  pending_send_files = none;
}

unfoldable pub init_pairing : Bool → Option (Text × Bytes) → Client × List Effect
unfolding fresh render
init_pairing is_secure detected =
    if is_secure
    then elim detected [
      | none ↦ render fresh
      | some link ↦ render (record fresh { screen = join_detected link.0 link.1 })
    ]
    else render (record fresh { screen = insecure_context })

-- Every listener of wirePairedSocket that was attached when the event came.
unfoldable pub each_wired {ℓ} : {A : Type ℓ} → ℕ → (A → A × List Effect) → A → A × List Effect
each_wired zero f c = (c, [])
each_wired (suc k) f c =
    let first = f c in let (rest, effects) = each_wired k f first.0 in (rest, first.1 ++ effects)

unfoldable pub on_message : Client → ℕ → Envelope → Bytes → Client × List Effect
unfolding on_flow_message on_paired_message each_wired
on_message c n env random = elim (get_elem? c.sockets n) [
  | none ↦ (c, [])
  | some socket ↦
      if socket.closing
      then (c, [])
      else on_flow_message n socket.flow env random c
        ▸ each_wired socket.wired (on_paired_message n env)
]

unfoldable pub on_close : Client → ℕ → Client × List Effect
unfolding on_flow_close on_paired_close each_wired
on_close c n = elim (get_elem? c.sockets n) [
  | none ↦ (c, [])
  | some socket ↦ on_flow_close n socket.flow c ▸ each_wired socket.wired (on_paired_close n)
]

unfoldable pub on_open : Client → ℕ → Client × List Effect
unfolding on_flow_open
on_open c n = elim (get_elem? c.sockets n) [
  | none ↦ (c, [])
  | some socket ↦ if socket.closing then (c, []) else (c, on_flow_open n socket.flow)
]

-- startScanning has resolved with the function that stops the camera.
unfoldable pub on_camera_ready : Client → ℕ → Client × List Effect
on_camera_ready c n = elim (get_elem? c.cameras n) [
  | none ↦ (c, [])
  | some cancelled ↦
      if cancelled then (c, stop_scanning n ∷ []) else (record c { active_stop_scan = some n }, [])
]

-- renderTransferUI has resolved with its handle: files that wait are sent.
unfoldable pub on_transfer_ready : Client → Bool → Client × List Effect
on_transfer_ready c can_send =
    let ready = record c { transfer = some (record { can_send = can_send; active = false }) } in
    elim c.pending_send_files [
      | none ↦ (ready, [])
      | some files ↦
          if can_send
          then (record ready { pending_send_files = none }, send_files files ∷ [])
          else (ready, [])
    ]

abbrev pub can_send_now : Client → Bool → Bool
can_send_now c is_open = elim c.transfer [
  | none ↦ false
  | some handle ↦ handle.can_send && (elim c.screen [
    | paired s ↦ elim c.active_socket [ none ↦ false | some n ↦ is_open ]
    | _ ↦ false
  ])
]

-- Files that the transfer UI could not send: `is_open` is the readyState of the active socket.
unfoldable pub on_files_bounced : Client → Files → Bool → Client × List Effect
on_files_bounced c files is_open =
    if can_send_now c is_open
    then (c, send_files files ∷ [])
    else (record c { pending_send_files = some files }, [])

unfoldable pub on_transfer_activity : Client → Bool → Client × List Effect
on_transfer_activity c active = elim c.transfer [
  | none ↦ (c, [])
  | some handle ↦ (record c { transfer = some (record handle { active = active }) }, [])
]

unfoldable pub step : Client → Event → Client × List Effect
unfolding on_click on_open on_close on_message follow_link set_state on_camera_ready pake_done
    token_ready on_transfer_ready on_transfer_activity on_files_bounced swap_timed_out
    attempt_reconnect
step c (click action) = on_click action c
step c (opened n) = on_open c n
step c (closed n) = on_close c n
step c (message n none random) = (c, [])
step c (message n (some env) random) = on_message c n env random
step c (scanned link) = follow_link c (codes "invalid_qr") link
step c camera_failed = set_state c (error (some (codes "camera_error")))
step c (camera_ready n) = on_camera_ready c n
step c (pake_settled n key role id) = pake_done c n key role id
step c (token_derived n token) = token_ready c n token
step c (transfer_ready can_send) = on_transfer_ready c can_send
step c (transfer_activity active) = on_transfer_activity c active
step c (files_bounced files is_open) = on_files_bounced c files is_open
step c swap_timer = swap_timed_out c
step c (retry_timer attempt) = attempt_reconnect c attempt

unfoldable pub run : Client → List Event → Client × List Effect
unfolding step
run c [] = (c, [])
run c (e ∷ es) =
    let (c', effects) = step c e in let (c'', later) = run c' es in (c'', effects ++ later)
