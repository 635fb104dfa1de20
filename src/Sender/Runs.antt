-- ===== src/Sender/Runs.antt =====
-- The invariant of the transcript, over every step and every run of one call.
use quicksend.Base.{
  ℕ, suc, ◌+◌, ◌≡◌, subst, refl, sym, ap, ◌∙◌, Bool, true, false, List, [], ◌∷◌, ◌++◌, Option, none,
  some, arith, length, append-nil, if-cases,
}
use mathlib.Core.Path.{ap₂}
use quicksend.Base.Bytes.{Bytes}
use quicksend.Base.Int.{ℤ}
use quicksend.Base.Results.{Failure}
use quicksend.Hex.{to_hex}
use quicksend.Crypto.Platform.{CryptoLaws}
use quicksend.Wire.{Kind, Payload, Envelope, Incoming, chunk_ack, file_abort, parse_envelope}
use quicksend.Sender.State.{
  Call, Abort, Phase, Sender, Event, Effect, keying, window, draining, settled, sealing_meta,
  reading, sealing, message, close, signal_abort, computed, read, send_meta, fresh,
}
use quicksend.Sender.Transcript.{
  data_of, resolves, data_of-append, resolves-append, transcript, frames_upto, meta_ciphertext,
  meta_message, Sent,
}
use quicksend.Sender.{
  have_key, have_meta, have_chunk, next_chunk, on_payload, on_message, on_close, on_signal_abort,
  on_computed, on_read, step, run, is_listening, is_ours, acknowledged,
}
use quicksend.Sender.Loops.{
  SentAfter, Runs-quiet, fail-Sent, next_chunk-Sent, unmoved-Sent, wake-Sent, before-Sent,
}
use quicksend.Sender.Sealing.{have_key_lem, have_meta_lem, chunk_sent, have_chunk_lem}

module _ (c : Call) (laws : CryptoLaws c.crypto) (key_length : length c.epoch_key ≡ 32)
    (id_length : length c.file_id ≡ 16) where
  open c use {crypto as w, codec, epoch_key, file_id, file}

  -- While the listeners are attached, what an event sets is not what the invariant speaks of.
  changed-Sent :
      (s : Sender) (log : List Effect) (acked : Option ℤ) (lost : Bool) (a : Option Abort)
      → is_listening c s.phase ≡ true
      → Sent c s log s.phase
      → Sent c (record s { acked_up_to = acked; connection_lost = lost; aborted = a }) log s.phase
  changed-Sent s log acked lost a on h = go s.phase on h
    where
      go :
          (p : Phase)
          → is_listening c p ≡ true
          → Sent c s log p
          → Sent c (record s { acked_up_to = acked; connection_lost = lost; aborted = a }) log p
      go keying on h = absurd (cc)
      go settled on h = absurd (cc)
      go (sealing_meta k) on h = absurd (cc)
      go window on h = h
      go draining on h = h
      go (reading k) on h = h
      go (sealing k p) on h = h

  on_payload-Sent :
      (s : Sender) (log : List Effect) (kind : Kind) (p : Payload)
      → is_listening c s.phase ≡ true
      → Sent c s log s.phase
      → SentAfter c log (on_payload c s kind p)
  unfolding on_payload
  on_payload-Sent s log chunk_ack p on h =
      if-cases (SentAfter c log) (is_ours c p) _ _
        (λ _.
          wake-Sent c _ log
            (changed-Sent s log (acknowledged c p) s.connection_lost s.aborted on h))
        (λ _. unmoved-Sent c s log h)
  on_payload-Sent s log file_abort p on h =
      if-cases (SentAfter c log) (is_ours c p) _ _
        (λ _. wake-Sent c _ log (changed-Sent s log s.acked_up_to s.connection_lost _ on h))
        (λ _. unmoved-Sent c s log h)
  on_payload-Sent s log _ p on h = unmoved-Sent c s log h

  on_message-Sent :
      (s : Sender) (log : List Effect) (incoming : Incoming)
      → is_listening c s.phase ≡ true
      → Sent c s log s.phase
      → SentAfter c log (on_message c s incoming)
  unfolding on_message
  on_message-Sent s log incoming on h = envelope (parse_envelope incoming)
    where
      payload :
          (kind : Kind) (q : Option Payload)
          → SentAfter c log (elim q as (λ x. Sender × List Effect) [
            | none ↦ (s, [])
            | some p ↦ on_payload c s kind p
          ])
      payload kind none = unmoved-Sent c s log h
      payload kind (some p) = on_payload-Sent s log kind p on h

      envelope :
          (o : Option Envelope)
          → SentAfter c log (elim o as (λ x. Sender × List Effect) [
            | none ↦ (s, [])
            | some env ↦ elim env.payload [ none ↦ (s, []) | some p ↦ on_payload c s env.kind p ]
          ])
      envelope none = unmoved-Sent c s log h
      envelope (some env) = payload env.kind env.payload

  have_key-Sent :
      (s : Sender) (log : List Effect) → Sent c s log keying → SentAfter c log (have_key c s)
  have_key-Sent s log h =
      subst (SentAfter c log) (sym (have_key_lem c laws key_length id_length s))
        (rw (append-nil log) (refl, refl, h.0, h.1, h.2))

  -- Sending the metadata begins the transcript.
  have_meta-Sent :
      (s : Sender) (log : List Effect) (key : Bytes)
      → Sent c s log (sealing_meta key)
      → SentAfter c log (have_meta c s key)
  have_meta-Sent s log key h =
      subst (SentAfter c log)
        (sym (ap (have_meta c s) h.0 ∙ have_meta_lem c laws key_length id_length s))
        (before-Sent c log (meta_sent ∷ []) (next_chunk c s)
          (next_chunk-Sent c s (log ++ (meta_sent ∷ [])) (h.1, begun, silent) (omega arith)))
    where
      meta_sent : Effect
      meta_sent = send_meta (to_hex file_id) (meta_ciphertext c)

      begun : data_of (log ++ (meta_sent ∷ [])) ≡ transcript c s.index
      begun =
          data_of-append log (meta_sent ∷ [])
          ∙ ap (λ t. t ++ data_of (meta_sent ∷ [])) h.3
          ∙ unfold data_of transcript in
            ap (λ n. meta_message (to_hex file_id) (meta_ciphertext c) ∷ frames_upto c n) (sym h.2)

      silent : resolves (log ++ (meta_sent ∷ [])) ≡ false
      silent = resolves-append log (meta_sent ∷ []) h.4 ∙ unfold resolves in refl

  -- Sending a chunk extends the transcript by its frame.
  have_chunk-Sent :
      (s : Sender) (log : List Effect) (key plaintext : Bytes)
      → Sent c s log (sealing key plaintext)
      → SentAfter c log (have_chunk c s key plaintext)
  have_chunk-Sent s log key plaintext h =
      subst (SentAfter c log)
        (sym (ap₂ (have_chunk c s) h.0 h.1 ∙ have_chunk_lem c laws key_length id_length s))
        (before-Sent c log (chunk_sent c s) (next_chunk c (record s { index = s.index + 1 })) (
          next_chunk-Sent c (record s { index = s.index + 1 }) (log ++ chunk_sent c s)
            (h.3.0, extended, silent) (omega arith)))
    where
      suc_is : (n : ℕ) → suc n ≡ n + 1
      suc_is n = omega arith

      extended : data_of (log ++ chunk_sent c s) ≡ transcript c (s.index + 1)
      extended =
          data_of-append log (chunk_sent c s)
          ∙ ap (λ t. t ++ data_of (chunk_sent c s)) h.3.1
          ∙ unfold data_of transcript in ap (transcript c) (suc_is s.index)

      silent : resolves (log ++ chunk_sent c s) ≡ false
      silent = resolves-append log (chunk_sent c s) h.3.2 ∙ unfold resolves in refl

  on_computed-Sent :
      (s : Sender) (log : List Effect) → Sent c s log s.phase → SentAfter c log (on_computed c s)
  unfolding on_computed
  on_computed-Sent s log h = go s.phase h
    where
      go : (p : Phase) → Sent c s log p → SentAfter c log (on_computed c (record s { phase = p }))
      go keying h = have_key-Sent (record s { phase = keying }) log h
      go (sealing_meta k) h = have_meta-Sent (record s { phase = sealing_meta k }) log k h
      go (sealing k p) h = have_chunk-Sent (record s { phase = sealing k p }) log k p h
      go window h = unmoved-Sent c (record s { phase = window }) log h
      go draining h = unmoved-Sent c (record s { phase = draining }) log h
      go settled h = unmoved-Sent c (record s { phase = settled }) log h
      go (reading k) h = unmoved-Sent c (record s { phase = reading k }) log h

  on_read-Sent :
      (s : Sender) (log : List Effect) (failure : Option Failure)
      → Sent c s log s.phase
      → SentAfter c log (on_read c s failure)
  unfolding on_read
  on_read-Sent s log failure h = go s.phase failure h
    where
      go :
          (p : Phase) (f : Option Failure)
          → Sent c s log p
          → SentAfter c log (on_read c (record s { phase = p }) f)
      go (reading k) none h = (h.0, refl, h.1, Runs-quiet c s log h.2)
      go (reading k) (some e) h =
          fail-Sent c (record s { phase = reading k }) log e h.2 (omega arith)
      go keying f h = unmoved-Sent c (record s { phase = keying }) log h
      go window f h = unmoved-Sent c (record s { phase = window }) log h
      go draining f h = unmoved-Sent c (record s { phase = draining }) log h
      go settled f h = unmoved-Sent c (record s { phase = settled }) log h
      go (sealing_meta k) f h = unmoved-Sent c (record s { phase = sealing_meta k }) log h
      go (sealing k p) f h = unmoved-Sent c (record s { phase = sealing k p }) log h

  step-Sent :
      (s : Sender) (log : List Effect) (e : Event)
      → Sent c s log s.phase
      → SentAfter c log (step c s e)
  unfolding step on_close on_signal_abort
  step-Sent s log (message incoming) h =
      if-cases (SentAfter c log) (is_listening c s.phase) _ _
        (λ on. on_message-Sent s log incoming on h) (λ _. unmoved-Sent c s log h)
  step-Sent s log close h =
      if-cases (SentAfter c log) (is_listening c s.phase) _ _
        (λ on. wake-Sent c _ log (changed-Sent s log s.acked_up_to true s.aborted on h))
        (λ _. unmoved-Sent c s log h)
  step-Sent s log signal_abort h =
      if-cases (SentAfter c log) (is_listening c s.phase) _ _
        (λ on. wake-Sent c _ log (changed-Sent s log s.acked_up_to s.connection_lost _ on h))
        (λ _. unmoved-Sent c s log h)
  step-Sent s log computed h = on_computed-Sent s log h
  step-Sent s log (read failure) h = on_read-Sent s log failure h

  run-Sent :
      (s : Sender) (log : List Effect) (es : List Event)
      → Sent c s log s.phase
      → SentAfter c log (run c s es)
  unfolding run
  run-Sent s log [] h = unmoved-Sent c s log h
  run-Sent s log (e ∷ es) h =
      before-Sent c log (step c s e).1 (run c (step c s e).0 es)
        (run-Sent (step c s e).0 (log ++ (step c s e).1) es (step-Sent s log e h))

  pub run-fresh-Sent :
      (es : List Event) → Sent c (run c fresh es).0 (run c fresh es).1 (run c fresh es).0.phase
  unfolding fresh data_of resolves
  run-fresh-Sent es = run-Sent fresh [] es (refl, refl, refl)
