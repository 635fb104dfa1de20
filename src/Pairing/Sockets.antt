-- ===== src/Pairing/Sockets.antt =====
-- web/pairing.js: what holds of the sockets and the reconnect attempts, and that the parts which all
-- flows share keep it.
pub mod Session
pub mod Flows
pub mod Clicks
pub mod Reachable
use quicksend.Base.{
  ℕ, zero, suc, ◌+◌, ◌≤◌, ◌≡◌, refl, sym, ap, ◌∙◌, subst, Bool, true, false, List, [], ◌∷◌, ◌++◌,
  Option, none, some, arith, length, get_elem?, All, All-append,
}
use quicksend.Pairing.State.{
  Screen, Flow, Socket, Transfer, Client, Effect, sender_scanning, paired, reconnect, retry_later,
}
use quicksend.Pairing.Screens.{
  ◌▸◌, update_at, detach_active_transfer, stop_scan, close_active, cleanup_active, render,
  render_paired, render_sender_scanning, advance, set_state,
}
use quicksend.Pairing.Session.{wire}
use quicksend.Pairing.Flows.{open_socket}

-- The socket was opened, and the module has not closed it.
abbrev pub IsOpen : ℕ → List Socket → Type 0
IsOpen n sockets = (s : Socket) × (get_elem? sockets n ≡ some s) × (s.closing ≡ false)

abbrev pub ActiveIsOpen : Option ℕ → List Socket → Type 0
ActiveIsOpen none sockets = Unit
ActiveIsOpen (some n) sockets = IsOpen n sockets

abbrev pub InBounds : ℕ → Type 0
InBounds attempt = (1 ≤ attempt) × (attempt ≤ 15)

abbrev pub FlowInBounds : Flow → Type 0
FlowInBounds (reconnect attempt id role token) = InBounds attempt
FlowInBounds _ = Unit

abbrev pub SocketInBounds : Socket → Type 0
SocketInBounds s = FlowInBounds s.flow

abbrev pub SocketsAreSound : Client → Type 0
SocketsAreSound c = ActiveIsOpen c.active_socket c.sockets × All SocketInBounds c.sockets

abbrev pub EffectInBounds : Effect → Type 0
EffectInBounds (retry_later attempt) = InBounds attempt
EffectInBounds _ = Unit

abbrev pub OutIsSound : Client × List Effect → Type 0
OutIsSound out = SocketsAreSound out.0 × All EffectInBounds out.1

abbrev pub Keeps : (Client → Client × List Effect) → Type 0
Keeps f = (c : Client) → SocketsAreSound c → OutIsSound (f c)

pub then-Keeps :
    (out : Client × List Effect) (f : Client → Client × List Effect)
    → OutIsSound out
    → Keeps f
    → OutIsSound (out ▸ f)
then-Keeps out f h k =
    let later = k out.0 h.0 in (later.0, All-append EffectInBounds out.1 (f out.0).1 h.1 later.1)

module _ (f : Socket → Socket) where
  All-update_at :
      ((s : Socket) → (f s).flow ≡ s.flow)
      → (n : ℕ) (ss : List Socket) → All SocketInBounds ss
      → All SocketInBounds (update_at n f ss)
  unfolding update_at
  All-update_at same n [] h = h
  All-update_at same zero (s ∷ ss) h = (subst FlowInBounds (sym (same s)) h.0, h.1)
  All-update_at same (suc n) (s ∷ ss) h = (h.0, All-update_at same n ss h.1)

  IsOpen-update_at :
      ((s : Socket) → (f s).closing ≡ s.closing)
      → (m n : ℕ) (ss : List Socket) → IsOpen n ss
      → IsOpen n (update_at m f ss)
  unfolding update_at
  IsOpen-update_at same m n [] h = h
  IsOpen-update_at same zero zero (s ∷ ss) h =
      let (x, at, going) = h in
      let e : s.closing ≡ x.closing = cc in (f s, refl, same s ∙ e ∙ going)
  IsOpen-update_at same zero (suc n) (s ∷ ss) h = h
  IsOpen-update_at same (suc m) zero (s ∷ ss) h = h
  IsOpen-update_at same (suc m) (suc n) (s ∷ ss) h = IsOpen-update_at same m n ss h

pub wire-Sound : (n : ℕ) (c : Client) → SocketsAreSound c → SocketsAreSound (wire n c)
wire-Sound n c h = (go c.active_socket h.0, All-update_at _ (λ s. refl) n c.sockets h.1)
  where
    go :
        (active : Option ℕ)
        → ActiveIsOpen active c.sockets
        → ActiveIsOpen active (update_at n (λ s. record s { wired = s.wired + 1 }) c.sockets)
    go none k = k
    go (some m) k = IsOpen-update_at _ (λ s. refl) n m c.sockets k

detach_active_transfer-Keeps : Keeps detach_active_transfer
unfolding detach_active_transfer
detach_active_transfer-Keeps c h = go c.transfer
  where
    go : (t : Option Transfer) → OutIsSound (detach_active_transfer (record c { transfer = t }))
    go none = (h, tt)
    go (some t) = (h, (tt, tt))

pub render-Keeps : Keeps render
unfolding render render_paired render_sender_scanning
render-Keeps c h = go c.screen
  where
    go : (screen : Screen) → OutIsSound (render (record c { screen = screen }))
    go (paired s) =
        let d = detach_active_transfer-Keeps (record c { screen = paired s }) h in
        (
          d.0,
          All-append EffectInBounds (detach_active_transfer (record c { screen = paired s })).1 _
              d.1 (tt, tt),
        )
    go sender_scanning = (h, (tt, tt))
    go _ = (h, tt)

stop_scan-Keeps : Keeps stop_scan
stop_scan-Keeps c h = go c.active_stop_scan
  where
    go : (scan : Option ℕ) → OutIsSound (stop_scan (record c { active_stop_scan = scan }))
    go none = (h, tt)
    go (some m) = (h, (tt, tt))

close_active-Keeps : Keeps close_active
close_active-Keeps c h = go c.active_socket h.0
  where
    go :
        (a : Option ℕ)
        → ActiveIsOpen a c.sockets
        → OutIsSound (close_active (record c { active_socket = a }))
    go none k = ((tt, h.1), tt)
    go (some n) k = ((tt, All-update_at _ (λ s. refl) n c.sockets h.1), (tt, tt))

pub cleanup_active-Keeps : Keeps cleanup_active
unfolding cleanup_active
cleanup_active-Keeps c h =
    then-Keeps (stop_scan c ▸ close_active ▸ detach_active_transfer)
      (λ c. (record c { pending_send_files = none }, []))
      (then-Keeps (stop_scan c ▸ close_active) detach_active_transfer
        (then-Keeps (stop_scan c) close_active (stop_scan-Keeps c h) close_active-Keeps)
        detach_active_transfer-Keeps)
      (λ c k. (k, tt))

pub set_state-Keeps : (next : Screen) → Keeps (λ c. set_state c next)
unfolding set_state
set_state-Keeps next c h =
    then-Keeps (cleanup_active c) (λ c. render (record c { screen = next }))
      (cleanup_active-Keeps c h) (λ c k. render-Keeps (record c { screen = next }) k)

pub advance-Keeps : (next : Screen) → Keeps (λ c. advance c next)
unfolding advance
advance-Keeps next c h = render-Keeps (record c { screen = next }) h

pub get_elem?-length :
    (ss : List Socket) (s : Socket) → get_elem? (ss ++ (s ∷ [])) (length ss) ≡ some s
get_elem?-length [] s = refl
get_elem?-length (x ∷ ss) s = get_elem?-length ss s

pub open_socket-Keeps : (flow : Flow) → FlowInBounds flow → Keeps (open_socket flow)
unfolding open_socket
open_socket-Keeps flow bound c h = (
  (
    (record { flow = flow; wired = 0; closing = false }, get_elem?-length c.sockets _, refl),
    All-append SocketInBounds c.sockets _ h.1 (bound, tt),
  ),
  (tt, tt),
)

-- A socket that does not become the active one.
pub ActiveIsOpen-append :
    (active : Option ℕ) (ss : List Socket) (s : Socket)
    → ActiveIsOpen active ss
    → ActiveIsOpen active (ss ++ (s ∷ []))
ActiveIsOpen-append none ss s h = h
ActiveIsOpen-append (some n) ss s h = go n ss h
  where
    go : (n : ℕ) (ss : List Socket) → IsOpen n ss → IsOpen n (ss ++ (s ∷ []))
    go n [] (x, at, going) = cc
    go zero (y ∷ ys) k = k
    go (suc n) (y ∷ ys) k = go n ys k
