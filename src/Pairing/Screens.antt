-- ===== src/Pairing/Screens.antt =====
-- web/pairing.js: leaving a screen and drawing the next one (cleanupActive, setState, advance, render).
use quicksend.Base.{ℕ, zero, suc, true, false, List, [], ◌∷◌, ◌++◌, none, some, length}
use quicksend.Pairing.State.{
  Screen, Client, Effect, sender_scanning, paired, close_socket, start_scanning, stop_scanning,
  detach_transfer, render_transfer,
}

abbrev pub session_key_bytes : ℕ
session_key_bytes = 32

abbrev Out : Type 0
Out = Client × List Effect

-- One piece of code after the other.
infixl 4 ◌▸◌
abbrev pub ◌▸◌ : Client × List Effect → (Client → Client × List Effect) → Client × List Effect
out ▸ next = let (c, effects) = next out.0 in (c, out.1 ++ effects)

unfoldable pub update_at {ℓ} : {A : Type ℓ} → ℕ → (A → A) → List A → List A
update_at n f [] = []
update_at zero f (x ∷ xs) = f x ∷ xs
update_at (suc n) f (x ∷ xs) = x ∷ update_at n f xs

-- detachActiveTransfer.
unfoldable pub detach_active_transfer : Client → Client × List Effect
detach_active_transfer c = elim c.transfer [
  | none ↦ (c, [])
  | some handle ↦ (record c { transfer = none }, detach_transfer ∷ [])
]

abbrev pub stop_scan : Client → Client × List Effect
stop_scan c = elim c.active_stop_scan [
  | none ↦ (c, [])
  | some camera ↦ (record c { active_stop_scan = none }, stop_scanning camera ∷ [])
]

abbrev pub close_active : Client → Client × List Effect
close_active c = elim c.active_socket [
  | none ↦ (c, [])
  | some n ↦ (
    record c {
      active_socket = none;
      sockets = update_at n (λ s. record s { closing = true }) c.sockets;
    },
    close_socket n ∷ [],
  )
]

-- cleanupActive.
unfoldable pub cleanup_active : Client → Client × List Effect
unfolding detach_active_transfer update_at
cleanup_active c =
    stop_scan c
    ▸ close_active
    ▸ detach_active_transfer
    ▸ (λ c. (record c { pending_send_files = none }, []))

-- renderPaired.
unfoldable pub render_paired : Client → Client × List Effect
unfolding detach_active_transfer
render_paired c = detach_active_transfer c ▸ (λ c. (
  record c { swap_awaiting_response = false; swap_button_disabled = false },
  render_transfer ∷ [],
))

-- renderSenderScanning opens a camera.
unfoldable pub render_sender_scanning : Client → Client × List Effect
render_sender_scanning c =
    (record c { cameras = c.cameras ++ (false ∷ []) }, start_scanning (length c.cameras) ∷ [])

-- Every other screen only shows text and buttons.
unfoldable pub render : Client → Client × List Effect
unfolding render_paired render_sender_scanning
render c = elim c.screen [
  | paired s ↦ render_paired c
  | sender_scanning ↦ render_sender_scanning c
  | _ ↦ (c, [])
]

unfoldable pub advance : Client → Screen → Client × List Effect
unfolding render
advance c next = render (record c { screen = next })

unfoldable pub set_state : Client → Screen → Client × List Effect
unfolding cleanup_active render
set_state c next = cleanup_active c ▸ (λ c. render (record c { screen = next }))
