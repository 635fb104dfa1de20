-- ===== src/Sender/Acks.antt =====
-- web/transfer.js, sendFile: where `ackedUpTo` comes from, and what has been acknowledged when the
-- promise resolves.
use quicksend.Base.{
  ℕ, ◌+◌, ◌≤◌, ◌≡◌, refl, sym, ap, ◌∙◌, ◌⊎◌, inl, inr, true, false, List, [], ◌∷◌, Option, none,
  some, arith, if-cases, length,
}
use quicksend.Base.Int.{ℤ, pos, negsuc, ◌-ℤ◌}
use quicksend.Crypto.Platform.{CryptoLaws}
use quicksend.Wire.{Kind, Payload, Envelope, Incoming, chunk_ack, file_abort, parse_envelope}
use quicksend.Sender.State.{
  Call, Sender, Event, Effect, message, close, signal_abort, computed, read, fresh,
}
use quicksend.Sender.{
  is_unacked, on_payload, on_message, on_close, on_signal_abort, step, run, is_listening, is_ours,
  acknowledged, chunk_count,
}
use quicksend.Sender.Transcript.{total, transcript, data_of, resolves}
use quicksend.Sender.Keeps.{wake-Keeps, on_computed-Keeps, on_read-Keeps}
use quicksend.Sender.Outcomes.{resolved-IsComplete}

module _ (c : Call) where
  -- The event is an acknowledgement of this file with the payload.
  abbrev pub IsAck : Payload → Event → Type 0
  IsAck p (message incoming) =
      (env : Envelope) × (parse_envelope incoming ≡ some env)
      × (env.kind ≡ chunk_ack)
      × (env.payload ≡ some p)
      × (is_ours c p ≡ true)
  IsAck p close = ⊥
  IsAck p signal_abort = ⊥
  IsAck p computed = ⊥
  IsAck p (read failure) = ⊥

  unfoldable pub HasAck : Payload → List Event → Type 0
  HasAck p [] = ⊥
  HasAck p (e ∷ es) = IsAck p e ⊎ HasAck p es

  -- `ackedUpTo` after some events: as before, or what an acknowledgement among them says.
  abbrev From : Sender → List Event → Sender → Type 0
  From s es s' =
      (s'.acked_up_to ≡ s.acked_up_to)
      ⊎ ((p : Payload) × HasAck p es × (s'.acked_up_to ≡ acknowledged c p))

  abbrev FromEvent : Sender → Event → Sender × List Effect → Type 0
  FromEvent s e out =
      (out.0.acked_up_to ≡ s.acked_up_to)
      ⊎ ((p : Payload) × IsAck p e × (out.0.acked_up_to ≡ acknowledged c p))

  FromPayload : Sender → Kind → Payload → Sender × List Effect → Type 0
  FromPayload s kind p out =
      (out.0.acked_up_to ≡ s.acked_up_to)
      ⊎ ((kind ≡ chunk_ack) × (is_ours c p ≡ true) × (out.0.acked_up_to ≡ acknowledged c p))

  on_payload-FromPayload :
      (s : Sender) (kind : Kind) (p : Payload) → FromPayload s kind p (on_payload c s kind p)
  unfolding on_payload FromPayload
  on_payload-FromPayload s chunk_ack p =
      if-cases (FromPayload s chunk_ack p) (is_ours c p) _ _
        (λ ours. inr (refl, ours, wake-Keeps c (record s { acked_up_to = acknowledged c p })))
        (λ _. inl refl)
  on_payload-FromPayload s file_abort p =
      if-cases (FromPayload s file_abort p) (is_ours c p) _ _
        (λ _. inl (
          wake-Keeps c (record s { aborted = some (record { remote = true; reason = p.reason }) })))
        (λ _. inl refl)
  on_payload-FromPayload s _ p = inl refl

  on_message-FromEvent :
      (s : Sender) (incoming : Incoming) → FromEvent s (message incoming) (on_message c s incoming)
  unfolding on_message FromPayload
  on_message-FromEvent s incoming = envelope (parse_envelope incoming) refl
    where
      found :
          (env : Envelope) (p : Payload)
          → parse_envelope incoming ≡ some env
          → env.payload ≡ some p
          → FromPayload s env.kind p (on_payload c s env.kind p)
          → FromEvent s (message incoming) (on_payload c s env.kind p)
      found env p e q (inl same) = inl same
      found env p e q (inr (kind, ours, set)) = inr (p, (env, e, kind, q, ours), set)

      payload :
          (env : Envelope) (q : Option Payload)
          → parse_envelope incoming ≡ some env
          → env.payload ≡ q
          → FromEvent s (message incoming) (elim q as (λ x. Sender × List Effect) [
            | none ↦ (s, [])
            | some p ↦ on_payload c s env.kind p
          ])
      payload env none e q = inl refl
      payload env (some p) e q = found env p e q (on_payload-FromPayload s env.kind p)

      envelope :
          (o : Option Envelope)
          → parse_envelope incoming ≡ o
          → FromEvent s (message incoming) (elim o as (λ x. Sender × List Effect) [
            | none ↦ (s, [])
            | some env ↦ elim env.payload [ none ↦ (s, []) | some p ↦ on_payload c s env.kind p ]
          ])
      envelope none e = inl refl
      envelope (some env) e = payload env env.payload e refl

  step-FromEvent : (s : Sender) (e : Event) → FromEvent s e (step c s e)
  unfolding step on_close on_signal_abort
  step-FromEvent s (message incoming) =
      if-cases (FromEvent s (message incoming)) (is_listening c s.phase) _ _
        (λ _. on_message-FromEvent s incoming) (λ _. inl refl)
  step-FromEvent s close =
      if-cases (FromEvent s close) (is_listening c s.phase) _ _
        (λ _. inl (wake-Keeps c (record s { connection_lost = true }))) (λ _. inl refl)
  step-FromEvent s signal_abort =
      if-cases (FromEvent s signal_abort) (is_listening c s.phase) _ _
        (λ _.
          inl
            (wake-Keeps c (record s { aborted = some (record { remote = false; reason = none }) })))
        (λ _. inl refl)
  step-FromEvent s computed = inl (on_computed-Keeps c s)
  step-FromEvent s (read failure) = inl (on_read-Keeps c s failure)

  extend :
      (s : Sender) (e : Event) (es : List Event) (end : Sender)
      → FromEvent s e (step c s e)
      → From (step c s e).0 es end
      → From s (e ∷ es) end
  unfolding HasAck
  extend s e es end _ (inr (p, has, set)) = inr (p, inr has, set)
  extend s e es end (inl same) (inl kept) = inl (kept ∙ same)
  extend s e es end (inr (p, is, set)) (inl kept) = inr (p, inl is, kept ∙ set)

  run-From : (s : Sender) (es : List Event) → From s es (run c s es).0
  unfolding run
  run-From s [] = inl refl
  run-From s (e ∷ es) =
      extend s e es (run c (step c s e).0 es).0 (step-FromEvent s e) (run-From (step c s e).0 es)

  -- What the acknowledgements tell: one of the file says that all chunks have arrived.
  abbrev pub LastIsAcked : List Event → Type 0
  LastIsAcked es =
      (p : Payload) × HasAck p es × ((n : ℕ) × (p.acked_up_to ≡ some n) × (total c ≤ n + 1))

  abbrev pub AllNumbered : List Event → Type 0
  AllNumbered es = (p : Payload) → HasAck p es → (n : ℕ) × (p.acked_up_to ≡ some n)

  has_chunk : 1 ≤ total c
  unfolding chunk_count
  has_chunk = omega arith

  starts_unacked : is_unacked (some (negsuc 0)) (total c) ≡ true
  unfolding ◌-ℤ◌
  starts_unacked = ground (arith, has_chunk)

  enough : (n : ℕ) → is_unacked (some (pos n)) (total c) ≡ false → total c ≤ n + 1
  unfolding ◌-ℤ◌
  enough n e = ground (arith, has_chunk)

  numbered : (p : Payload) (n : ℕ) → p.acked_up_to ≡ some n → acknowledged c p ≡ some (pos n)
  numbered p n e = ap (λ o. elim o as (λ x. Option ℤ) [ none ↦ none | some n ↦ some (pos n) ]) e

  LastIsAcked-of :
      (es : List Event) (end : Sender)
      → AllNumbered es
      → is_unacked end.acked_up_to (total c) ≡ false
      → From fresh es end
      → LastIsAcked es
  unfolding fresh
  LastIsAcked-of es end h e (inl same) =
      let unacked = ap (λ a. is_unacked a (total c)) same ∙ starts_unacked in cc
  LastIsAcked-of es end h e (inr (p, has, set)) =
      let (n, q) = h p has in
      let acked = ap (λ a. is_unacked a (total c)) (set ∙ numbered p n q) in
      (p, has, (n, q, enough n (sym acked ∙ e)))

  module _ (laws : CryptoLaws c.crypto) (key_length : length c.epoch_key ≡ 32)
      (id_length : length c.file_id ≡ 16) where
    -- For every sequence of events of a call of sendFile in which each acknowledgement of the file
    -- (with its file id) carries a number, over a Web Crypto with its laws, a 32-byte epoch key and
    -- a 16-byte file id: if the call has resolved, one of the acknowledgements that came says that
    -- the last chunk has arrived (its number is at least the number of chunks less one), the call
    -- was not aborted, and the messages with the data of the file that it sent are the metadata
    -- followed by every chunk once, in order.
    pub resolved_after_last_ack :
        (es : List Event)
        → AllNumbered es
        → resolves (run c fresh es).1 ≡ true
        → LastIsAcked es
          × ((run c fresh es).0.aborted ≡ none)
          × (data_of (run c fresh es).1 ≡ transcript c (total c))
    resolved_after_last_ack es h e =
        let (complete, sent) = resolved-IsComplete c laws key_length id_length es e in
        (LastIsAcked-of es (run c fresh es).0 h complete.2 (run-From fresh es), complete.1, sent)
