-- ===== src/Sender/Window.antt =====
-- Flow control: how far the sender runs ahead of the acknowledgements.
use quicksend.Base.{
  min, ◌+◌, ◌*◌, ◌≡◌, refl, true, false, List, [], ◌∷◌, Option, none, some, arith, if-cases,
}
use quicksend.Base.Results.{Failure, Result, ok, throw}
use quicksend.Base.Bytes.{Bytes}
use quicksend.Crypto.{metadata_chunk_index, derive_file_key, encrypt_chunk}
use quicksend.Hex.{to_hex}
use quicksend.Wire.{Kind, Payload, Envelope, Incoming, chunk_ack, file_abort, parse_envelope}
use quicksend.Sender.State.{
  Call, Phase, Sender, Event, Effect, keying, window, draining, settled, sealing_meta, reading,
  sealing, message, close, signal_abort, computed, read, fresh, send_meta, send_frame, progress,
  rejected,
}
use quicksend.Sender.{
  chunk_size, seal_frame, file_size, meta_text, have_key, have_meta, have_chunk, next_chunk, fail,
  on_payload, on_message, on_close, on_signal_abort, on_computed, on_read, step, run, settle,
  is_listening, is_ours, acknowledged,
}
use quicksend.Sender.Room.{
  InWindow, Fits, FitsAfter, InWindow-pred, Grown, fail-Fits, next_chunk-Fits, wake-Fits,
  Grown-Fits, same-Fits,
}

module _ (c : Call) where
  -- What an event asks of an acknowledgement of this file; other messages may say anything.
  abbrev pub PayloadGrows : Sender → Kind → Payload → Type 0
  PayloadGrows s chunk_ack p = is_ours c p ≡ true → Grown s.acked_up_to (acknowledged c p)
  PayloadGrows s _ p = Unit {0}

  abbrev pub EnvelopeGrows : Sender → Option Envelope → Type 0
  EnvelopeGrows s none = Unit {0}
  EnvelopeGrows s (some env) = (p : Payload) → env.payload ≡ some p → PayloadGrows s env.kind p

  abbrev pub Grows : Sender → Event → Type 0
  Grows s (message incoming) = EnvelopeGrows s (parse_envelope incoming)
  Grows s close = Unit {0}
  Grows s signal_abort = Unit {0}
  Grows s computed = Unit {0}
  Grows s (read failure) = Unit {0}

  unfoldable pub AllGrow : Sender → List Event → Type 0
  AllGrow s [] = Unit {0}
  AllGrow s (e ∷ es) = Grows s e × AllGrow (step c s e).0 es

  on_payload-Fits :
      (s : Sender) (kind : Kind) (p : Payload)
      → PayloadGrows s kind p
      → Fits s s.phase
      → FitsAfter (on_payload c s kind p)
  unfolding on_payload
  on_payload-Fits s chunk_ack p g h =
      if-cases FitsAfter (is_ours c p) _ _
        (λ ours.
          wake-Fits c (record s { acked_up_to = acknowledged c p })
            (Grown-Fits c s (acknowledged c p) (g ours) h))
        (λ _. h)
  on_payload-Fits s file_abort p g h =
      if-cases FitsAfter (is_ours c p) _ _
        (λ _.
          wake-Fits c (record s { aborted = some (record { remote = true; reason = p.reason }) })
            (same-Fits c s s.connection_lost (some (record { remote = true; reason = p.reason }))
              h))
        (λ _. h)
  on_payload-Fits s _ p g h = h

  on_message-Fits :
      (s : Sender) (incoming : Incoming)
      → EnvelopeGrows s (parse_envelope incoming)
      → Fits s s.phase
      → FitsAfter (on_message c s incoming)
  unfolding on_message
  on_message-Fits s incoming g h = envelope (parse_envelope incoming) g
    where
      payload :
          (kind : Kind) (q : Option Payload)
          → ((p : Payload) → q ≡ some p → PayloadGrows s kind p)
          → FitsAfter (elim q as (λ x. Sender × List Effect) [
            | none ↦ (s, [])
            | some p ↦ on_payload c s kind p
          ])
      payload kind none g = h
      payload kind (some p) g = on_payload-Fits s kind p (g p refl) h

      envelope :
          (o : Option Envelope)
          → EnvelopeGrows s o
          → FitsAfter (elim o as (λ x. Sender × List Effect) [
            | none ↦ (s, [])
            | some env ↦ elim env.payload [ none ↦ (s, []) | some p ↦ on_payload c s env.kind p ]
          ])
      envelope none g = h
      envelope (some env) g = payload env.kind env.payload g

  have_key-Fits : (s : Sender) → InWindow s.index s.acked_up_to → FitsAfter (have_key c s)
  unfolding have_key
  have_key-Fits s h = go (derive_file_key c.crypto c.epoch_key c.file_id)
    where
      go :
          (r : Result Bytes)
          → FitsAfter (elim r as (λ x. Sender × List Effect) [
            | throw e ↦ (settle c s, rejected e ∷ [])
            | ok key ↦ (record s { phase = sealing_meta key; key = key }, [])
          ])
      go (throw e) = h
      go (ok key) = h

  have_meta-Fits :
      (s : Sender) (key : Bytes) → InWindow s.index s.acked_up_to → FitsAfter (have_meta c s key)
  unfolding have_meta
  have_meta-Fits s key h =
      go (encrypt_chunk c.crypto key c.file_id metadata_chunk_index true (meta_text c))
    where
      go :
          (r : Result Bytes)
          → FitsAfter (elim r as (λ x. Sender × List Effect) [
            | throw e ↦ (settle c s, rejected e ∷ [])
            | ok ciphertext ↦
                let (s', effects) = next_chunk c s in
                (s', send_meta (to_hex c.file_id) ciphertext ∷ effects)
          ])
      go (throw e) = h
      go (ok ciphertext) = next_chunk-Fits c s h

  have_chunk-Fits :
      (s : Sender) (key plaintext : Bytes)
      → InWindow (s.index + 1) s.acked_up_to
      → FitsAfter (have_chunk c s key plaintext)
  unfolding have_chunk
  have_chunk-Fits s key plaintext h = go (seal_frame c s key plaintext)
    where
      go :
          (r : Result Bytes)
          → FitsAfter (elim r as (λ x. Sender × List Effect) [
            | throw e ↦ fail c s e
            | ok frame ↦
                let end = min (s.index * chunk_size + chunk_size) (file_size c) in
                let (s', effects) = next_chunk c (record s { index = s.index + 1 }) in
                (s', send_frame frame ∷ progress end (file_size c) ∷ effects)
          ])
      go (throw e) = fail-Fits c s e (InWindow-pred s.index s.acked_up_to h)
      go (ok frame) = next_chunk-Fits c (record s { index = s.index + 1 }) h

  on_computed-Fits : (s : Sender) → Fits s s.phase → FitsAfter (on_computed c s)
  unfolding on_computed
  on_computed-Fits s h = go s.phase h
    where
      go : (p : Phase) → Fits s p → FitsAfter (on_computed c (record s { phase = p }))
      go keying h = have_key-Fits (record s { phase = keying }) h
      go (sealing_meta k) h = have_meta-Fits (record s { phase = sealing_meta k }) k h
      go (sealing k p) h = have_chunk-Fits (record s { phase = sealing k p }) k p h
      go window h = h
      go draining h = h
      go settled h = h
      go (reading k) h = h

  on_read-Fits :
      (s : Sender) (failure : Option Failure) → Fits s s.phase → FitsAfter (on_read c s failure)
  unfolding on_read
  on_read-Fits s failure h = go s.phase failure h
    where
      go :
          (p : Phase) (f : Option Failure)
          → Fits s p
          → FitsAfter (on_read c (record s { phase = p }) f)
      go (reading k) none h = h
      go (reading k) (some e) h =
          fail-Fits c (record s { phase = reading k }) e (InWindow-pred s.index s.acked_up_to h)
      go keying f h = h
      go window f h = h
      go draining f h = h
      go settled f h = h
      go (sealing_meta k) f h = h
      go (sealing k p) f h = h

  step-Fits : (s : Sender) (e : Event) → Grows s e → Fits s s.phase → FitsAfter (step c s e)
  unfolding step on_close on_signal_abort
  step-Fits s (message incoming) g h =
      if-cases FitsAfter (is_listening c s.phase) _ _ (λ _. on_message-Fits s incoming g h) (λ _. h)
  step-Fits s close g h =
      if-cases FitsAfter (is_listening c s.phase) _ _
        (λ _. wake-Fits c (record s { connection_lost = true }) (same-Fits c s true s.aborted h))
        (λ _. h)
  step-Fits s signal_abort g h =
      if-cases FitsAfter (is_listening c s.phase) _ _
        (λ _.
          wake-Fits c (record s { aborted = some (record { remote = false; reason = none }) })
            (same-Fits c s s.connection_lost (some (record { remote = false; reason = none })) h))
        (λ _. h)
  step-Fits s computed g h = on_computed-Fits s h
  step-Fits s (read failure) g h = on_read-Fits s failure h

  run-Fits : (s : Sender) (es : List Event) → AllGrow s es → Fits s s.phase → FitsAfter (run c s es)
  unfolding run AllGrow
  run-Fits s [] g h = h
  run-Fits s (e ∷ es) g h = run-Fits (step c s e).0 es g.1 (step-Fits s e g.0 h)

  Fits-InWindow : (s : Sender) → Fits s s.phase → InWindow s.index s.acked_up_to
  Fits-InWindow s h = go s.phase h
    where
      go : (p : Phase) → Fits s p → InWindow s.index s.acked_up_to
      go (reading k) h = InWindow-pred s.index s.acked_up_to h
      go (sealing k p) h = InWindow-pred s.index s.acked_up_to h
      go keying h = h
      go window h = h
      go draining h = h
      go settled h = h
      go (sealing_meta k) h = h

  -- Over every run of sendFile in which each acknowledgement of the file carries a number, and one
  -- that is not below the last: at most eight of the chunks that were sent are unacknowledged, i.e.
  -- the number of chunks sent is at most ackedUpTo + 1 + 8.
  pub run-InWindow :
      (es : List Event)
      → AllGrow fresh es
      → InWindow (run c fresh es).0.index (run c fresh es).0.acked_up_to
  run-InWindow es g =
      Fits-InWindow (run c fresh es).0 (run-Fits fresh es g (unfold fresh in omega arith))
