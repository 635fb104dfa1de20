-- ===== src/Pairing/Swaps.antt =====
-- web/pairing.js: the role swap, between the two paired clients.
use quicksend.Base.{
  ℕ, ◌≡◌, refl, sym, ap, ◌∙◌, subst, Bool, true, false, ◌||◌, not, List, [], ◌∷◌, none, some,
  if◌then◌else◌,
}
use quicksend.Wire.{Payload, Envelope, no_fields, role_swap_request, role_swap_response}
use quicksend.Pairing.State.{Session, Screen, Client, Effect, paired, send}
use quicksend.Pairing.Navigation.{render-Kept}
use quicksend.Pairing.Session.{
  flip, change_session, flip_transfer_role, is_active, request_role_swap, swap_timed_out,
  on_swap_request, on_swap_response, on_paired_message,
}

-- Both are paired, and one sends what the other receives.
abbrev pub Opposite : Screen → Screen → Type 0
Opposite s t =
    (x : Session) × (y : Session) × (s ≡ paired x)
    × (t ≡ paired y)
    × (x.transfer_role ≡ flip y.transfer_role)

abbrev pub swap_request : Envelope
swap_request = record { kind = role_swap_request; payload = none }

-- The answer that a client gives to a request.
abbrev pub answer_of : Client → Payload
answer_of c = record no_fields { accepted = some (not (is_active c || c.swap_awaiting_response)) }

abbrev pub swap_response : Payload → Envelope
swap_response p = record { kind = role_swap_response; payload = some p }

abbrev flip_session : Session → Session
flip_session s = record s { transfer_role = flip s.transfer_role }

abbrev flipped : Screen → Screen
flipped screen = change_session flip_session screen

flip_screen : (c : Client) → (flip_transfer_role c).0.screen ≡ flipped c.screen
unfolding flip_transfer_role
flip_screen c = (render-Kept (record c { screen = flipped c.screen })).0

abbrev moved : Bool → Screen → Screen
moved accepted s = if accepted then flipped s else s

answers :
    (c : Client) (n : ℕ)
    → (on_paired_message n swap_request c).0.screen
      ≡ moved (not (is_active c || c.swap_awaiting_response)) c.screen
unfolding on_paired_message on_swap_request
answers c n =
    elim (is_active c || c.swap_awaiting_response)
      as (λ b. (if b then (c, []) else flip_transfer_role c).0.screen ≡ moved (not b) c.screen) [
        | true ↦ refl
        | false ↦ flip_screen c
      ]

takes_answer :
    (c : Client) (n : ℕ) (accepted : Bool)
    → c.swap_awaiting_response ≡ true
    → (on_paired_message n
        (swap_response (record no_fields { accepted = some accepted }))
        c).0.screen
      ≡ moved accepted c.screen
unfolding on_paired_message on_swap_response
takes_answer c n accepted e = go c.swap_awaiting_response accepted e
  where
    go :
        (w a : Bool)
        → w ≡ true
        → (on_paired_message n
            (swap_response (record no_fields { accepted = some a }))
            (record c { swap_awaiting_response = w })).0.screen
          ≡ moved a c.screen
    go true true e = flip_screen (record c { swap_awaiting_response = false })
    go true false e = refl
    go false a e = cc

-- A request that is made: the client waits, and nothing else has changed.
asks :
    (c : Client)
    → is_active c ≡ false
    → c.swap_awaiting_response ≡ false
    → (request_role_swap c).0
      ≡ record c { swap_awaiting_response = true; swap_button_disabled = true }
unfolding request_role_swap
asks c idle free = rw (idle, free) refl

Opposite-moved :
    (accepted : Bool) (s t : Screen) → Opposite s t → Opposite (moved accepted s) (moved accepted t)
Opposite-moved false s t h = h
Opposite-moved true s t h =
    (flip_session h.0, flip_session h.1, ap flipped h.2, ap flipped h.3, ap flip h.4)

-- What the one client receives is what the other has sent.
sends_answer :
    (c : Client) (n : ℕ)
    → (rest : List Effect) × ((on_paired_message n swap_request c).1
        ≡ send n role_swap_response (some (answer_of c)) ∷ rest)
unfolding on_paired_message on_swap_request
sends_answer c n = (_, refl)

abbrev pub after_answer : Client → Client → ℕ → Client × List Effect
after_answer a b n = on_paired_message n (swap_response (answer_of b)) a

-- Two paired clients of which one sends and the other receives: if the first, idle and with no
-- request of its own out, asks for a role swap, the other answers with what its own state says, and
-- once the first has that answer, one of them sends and the other receives again, whether the
-- answer was yes or no.
pub swap_agrees :
    (a b : Client) (na nb : ℕ)
    → Opposite a.screen b.screen
    → is_active a ≡ false
    → a.swap_awaiting_response ≡ false
    → let b' = on_paired_message nb swap_request b in
      ((rest : List Effect) × (b'.1 ≡ send nb role_swap_response (some (answer_of b)) ∷ rest))
      × Opposite (after_answer (request_role_swap a).0 b na).0.screen b'.0.screen
swap_agrees a b na nb h idle free = (
  sends_answer b nb,
  subst (λ s. Opposite s (on_paired_message nb swap_request b).0.screen) (sym a_moved)
      (subst (Opposite (moved (not (is_active b || b.swap_awaiting_response)) a.screen))
        (sym (answers b nb))
        (Opposite-moved (not (is_active b || b.swap_awaiting_response)) a.screen b.screen h)),
)
  where
    a_moved :
        (after_answer (request_role_swap a).0 b na).0.screen
        ≡ moved (not (is_active b || b.swap_awaiting_response)) a.screen
    a_moved =
        ap (λ x. (after_answer x b na).0.screen) (asks a idle free)
        ∙ takes_answer (record a { swap_awaiting_response = true; swap_button_disabled = true }) na
            (not (is_active b || b.swap_awaiting_response)) refl

-- The roles are the same on both sides: nobody receives, or nobody sends.
abbrev pub Alike : Screen → Screen → Type 0
Alike s t =
    (x : Session) × (y : Session) × (s ≡ paired x)
    × (t ≡ paired y)
    × (x.transfer_role ≡ y.transfer_role)

Alike-flipped : (s t : Screen) → Opposite s t → Alike s (flipped t)
Alike-flipped s t h = (h.0, flip_session h.1, h.2, ap flipped h.3, h.4)

-- Two paired idle clients of which one sends and the other receives: if the answer to a swap
-- request arrives after the timeout of the request, both clients have the same role.
pub late_answer :
    (a b : Client) (na nb : ℕ)
    → Opposite a.screen b.screen
    → is_active a ≡ false
    → a.swap_awaiting_response ≡ false
    → is_active b ≡ false
    → b.swap_awaiting_response ≡ false
    → Alike
        (after_answer (swap_timed_out (request_role_swap a).0).0 b na).0.screen
        (on_paired_message nb swap_request b).0.screen
unfolding swap_timed_out on_paired_message on_swap_response
late_answer a b na nb h idle free b_idle b_free =
    subst
      (λ x.
        Alike (after_answer (swap_timed_out x).0 b na).0.screen
          (on_paired_message nb swap_request b).0.screen)
      (sym (asks a idle free))
      (subst (Alike a.screen) (sym (answers b nb ∙ ap (λ busy. moved (not busy) b.screen) not_busy))
        (Alike-flipped a.screen b.screen h))
  where
    not_busy : (is_active b || b.swap_awaiting_response) ≡ false
    not_busy = ap (λ x. x || b.swap_awaiting_response) b_idle ∙ b_free

-- Both have asked, and each takes the other's request and answer.
abbrev pub crossed : Client → Client → ℕ → Client
crossed a b n =
    (after_answer (on_paired_message n swap_request (request_role_swap a).0).0
      (request_role_swap b).0 n).0

-- If two idle clients ask for a role swap at the same time, then each, once it has the request and
-- the answer of the other, shows the screen that it showed, waits for no answer, and has its button
-- enabled.
pub crossing_requests :
    (a b : Client) (n : ℕ)
    → is_active a ≡ false
    → a.swap_awaiting_response ≡ false
    → is_active b ≡ false
    → b.swap_awaiting_response ≡ false
    → (crossed a b n).screen ≡ a.screen
      × ((crossed a b n).swap_awaiting_response ≡ false)
      × ((crossed a b n).swap_button_disabled ≡ false)
unfolding on_paired_message on_swap_request on_swap_response
crossing_requests a b n idle free b_idle b_free =
    subst
      (λ x.
        Unchanged (after_answer (on_paired_message n swap_request x).0 (request_role_swap b).0 n).0)
      (sym (asks a idle free))
      (subst (λ y. Unchanged (after_answer (on_paired_message n swap_request (waiting a)).0 y n).0)
        (sym (asks b b_idle b_free)) (rw (idle, b_idle) (refl, refl, refl)))
  where
    waiting : Client → Client
    waiting c = record c { swap_awaiting_response = true; swap_button_disabled = true }

    Unchanged : Client → Type 0
    Unchanged x =
        (x.screen ≡ a.screen)
        × (x.swap_awaiting_response ≡ false)
        × (x.swap_button_disabled ≡ false)
