-- ===== src/Sender/Stalls.antt =====
-- web/transfer.js, sendFile: a socket that closes while no acknowledgement is waited for.
use quicksend.Base.{
  ◌+◌, ◌≡◌, refl, sym, ap, subst, ◌∙◌, Bool, true, false, List, [], ◌∷◌, Option, none, some, ltb,
  length, if-cases,
}
use mathlib.Core.Path.{ap₂}
use quicksend.Crypto.Platform.{CryptoLaws}
use quicksend.Sender.State.{
  Call, Abort, Phase, Sender, Event, Effect, keying, sealing_meta, reading, sealing, window,
  draining, settled, message, close, signal_abort, computed, read,
}
use quicksend.Sender.{
  chunk_size, chunk_at, is_unacked, is_window_full, next_chunk, begin_chunk, await_acks, have_chunk,
  on_computed, on_read, on_close, wake, step, run,
}
use quicksend.Sender.Transcript.{total, file_key_of}
use quicksend.Sender.Sealing.{have_chunk_lem}

-- Only the promises of a read and of Web Crypto go on, and they succeed.
unfoldable pub AllComputed : List Event → Type 0
AllComputed [] = Unit
AllComputed (computed ∷ es) = AllComputed es
AllComputed (read none ∷ es) = AllComputed es
AllComputed (_ ∷ es) = ⊥

abbrev pub is_settled : Phase → Bool
is_settled settled = true
is_settled _ = false

module _ (c : Call) (laws : CryptoLaws c.crypto) (key_length : length c.epoch_key ≡ 32)
    (id_length : length c.file_id ≡ 16) where
  open c use {file}

  -- In a round or behind one, with the file's key.
  abbrev pub InLoops : Sender → Phase → Type 0
  InLoops s (reading key) = key ≡ file_key_of c
  InLoops s (sealing key plaintext) =
      (key ≡ file_key_of c) × (plaintext ≡ chunk_at chunk_size file.content s.index)
  InLoops s window = Unit
  InLoops s draining = Unit
  InLoops s keying = ⊥
  InLoops s settled = ⊥
  InLoops s (sealing_meta key) = ⊥

  abbrev pub Unsettled : Sender → Phase → Type 0
  Unsettled s p =
      (s.aborted ≡ none)
      × (is_unacked s.acked_up_to (total c) ≡ true)
      × (s.key ≡ file_key_of c)
      × InLoops s p

  abbrev UnsettledAfter : Sender × List Effect → Type 0
  UnsettledAfter out = Unsettled out.0 out.0.phase

  abbrev Keeps : Sender → Type 0
  Keeps s =
      (s.aborted ≡ none) × (is_unacked s.acked_up_to (total c) ≡ true) × (s.key ≡ file_key_of c)

  await_acks-Unsettled : (s : Sender) → Keeps s → UnsettledAfter (await_acks c s)
  unfolding await_acks
  await_acks-Unsettled s h = go s.aborted h.0
    where
      go : (a : Option Abort) → a ≡ none → UnsettledAfter (await_acks c (record s { aborted = a }))
      go none e =
          if-cases UnsettledAfter (is_unacked s.acked_up_to (total c)) _ _
            (λ _. (refl, h.1, h.2, tt)) (λ no. cc)
      go (some a) e = cc

  begin_chunk-Unsettled : (s : Sender) → Keeps s → UnsettledAfter (begin_chunk c s)
  unfolding begin_chunk
  begin_chunk-Unsettled s h = go s.aborted h.0
    where
      go : (a : Option Abort) → a ≡ none → UnsettledAfter (begin_chunk c (record s { aborted = a }))
      go none e = (refl, h.1, h.2, h.2)
      go (some a) e = cc

  next_chunk-Unsettled : (s : Sender) → Keeps s → UnsettledAfter (next_chunk c s)
  unfolding next_chunk
  next_chunk-Unsettled s h =
      if-cases UnsettledAfter (ltb s.index (total c)) _ _
        (λ _.
          if-cases UnsettledAfter (is_window_full s.index s.acked_up_to) _ _
            (λ _. (h.0, h.1, h.2, tt)) (λ _. begin_chunk-Unsettled s h))
        (λ _. await_acks-Unsettled s h)

  step-Unsettled :
      (s : Sender) (e : Event)
      → AllComputed (e ∷ [])
      → Unsettled s s.phase
      → UnsettledAfter (step c s e)
  unfolding step on_computed on_read AllComputed
  step-Unsettled s e q h = go s.phase e q h
    where
      go :
          (p : Phase) (e : Event)
          → AllComputed (e ∷ [])
          → Unsettled s p
          → UnsettledAfter (step c (record s { phase = p }) e)
      go (reading k) computed q h = h
      go (reading k) (read none) q h = (h.0, h.1, h.2, (h.3, refl))
      go (sealing k p) computed q h =
          subst UnsettledAfter
            (sym (
              ap₂ (have_chunk c (record s { phase = sealing k p })) h.3.0 h.3.1
              ∙ have_chunk_lem c laws key_length id_length (record s { phase = sealing k p })))
            (next_chunk-Unsettled (record s { phase = sealing k p; index = s.index + 1 })
              (h.0, h.1, h.2))
      go (sealing k p) (read none) q h = h
      go window computed q h = h
      go window (read none) q h = h
      go draining computed q h = h
      go draining (read none) q h = h
      go keying computed q h = absurd h.3
      go keying (read none) q h = absurd h.3
      go settled computed q h = absurd h.3
      go settled (read none) q h = absurd h.3
      go (sealing_meta k) computed q h = absurd h.3
      go (sealing_meta k) (read none) q h = absurd h.3
      go p (read (some f)) q h = absurd q
      go p (message m) q h = absurd q
      go p close q h = absurd q
      go p signal_abort q h = absurd q

  run-Unsettled :
      (s : Sender) (es : List Event)
      → AllComputed es
      → Unsettled s s.phase
      → UnsettledAfter (run c s es)
  unfolding run AllComputed
  run-Unsettled s [] q h = h
  run-Unsettled s (computed ∷ es) q h =
      run-Unsettled (step c s computed).0 es q (step-Unsettled s computed tt h)
  run-Unsettled s (read none ∷ es) q h =
      run-Unsettled (step c s (read none)).0 es q (step-Unsettled s (read none) tt h)
  run-Unsettled s (read (some f) ∷ es) q h = absurd q
  run-Unsettled s (message m ∷ es) q h = absurd q
  run-Unsettled s (close ∷ es) q h = absurd q
  run-Unsettled s (signal_abort ∷ es) q h = absurd q

  Unsettled-is_settled : (s : Sender) (p : Phase) → Unsettled s p → is_settled p ≡ false
  Unsettled-is_settled s (reading k) h = refl
  Unsettled-is_settled s (sealing k p) h = refl
  Unsettled-is_settled s window h = refl
  Unsettled-is_settled s draining h = refl
  Unsettled-is_settled s keying h = absurd h.3
  Unsettled-is_settled s settled h = absurd h.3
  Unsettled-is_settled s (sealing_meta k) h = absurd h.3

  -- If the socket closes while sendFile reads a chunk, not aborted and with the last chunk
  -- unacknowledged, over a Web Crypto with its laws, a 32-byte epoch key and a 16-byte file id:
  -- whatever reads and encryptions succeed afterwards, with no further message, the call has not
  -- settled.
  pub lost_while_reading :
      (s : Sender) (es : List Event)
      → s.phase ≡ reading (file_key_of c)
      → Keeps s
      → AllComputed es
      → is_settled (run c s (close ∷ es)).0.phase ≡ false
  unfolding run step on_close wake
  lost_while_reading s es e h q =
      let s' = record s { phase = reading (file_key_of c); connection_lost = true } in
      ap (λ p. is_settled (run c (record s { phase = p }) (close ∷ es)).0.phase) e
      ∙ Unsettled-is_settled (run c s' es).0 (run c s' es).0.phase
          (run-Unsettled s' es q (h.0, h.1, h.2, refl))
