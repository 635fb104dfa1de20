-- ===== src/Sender/Keeps.antt =====
-- web/transfer.js, sendFile: the loops and the promises leave `ackedUpTo` alone.
use quicksend.Base.{
  ◌+◌, ◌≡◌, refl, true, List, ◌∷◌, [], Option, none, some, if-cases, ltb, min, ◌*◌,
}
use quicksend.Base.Bytes.{Bytes}
use quicksend.Base.Results.{Failure, result-cases}
use quicksend.Hex.{to_hex}
use quicksend.Crypto.{metadata_chunk_index, derive_file_key, encrypt_chunk}
use quicksend.Sender.State.{
  Call, Abort, Phase, Sender, Effect, keying, window, draining, settled, sealing_meta, reading,
  sealing, send_meta, send_frame, progress, rejected,
}
use quicksend.Sender.{
  chunk_size, file_size, meta_text, is_window_full, is_unacked, total_chunks, next_chunk, fail,
  finish, leave_window, await_acks, begin_chunk, wake, have_key, have_meta, have_chunk, on_computed,
  on_read, settle, seal_frame,
}

module _ (c : Call) where
  abbrev pub Keeps : Sender → Sender × List Effect → Type 0
  Keeps s out = out.0.acked_up_to ≡ s.acked_up_to

  finish-Keeps : (s : Sender) → Keeps s (finish c s)
  unfolding finish
  finish-Keeps s = go s.aborted
    where
      go : (a : Option Abort) → Keeps s (finish c (record s { aborted = a }))
      go none = refl
      go (some a) = refl

  await_acks-Keeps : (s : Sender) → Keeps s (await_acks c s)
  unfolding await_acks
  await_acks-Keeps s = go s.aborted
    where
      go : (a : Option Abort) → Keeps s (await_acks c (record s { aborted = a }))
      go none =
          if-cases (Keeps s) (is_unacked s.acked_up_to (total_chunks c)) _ _ (λ _. refl)
            (λ _. finish-Keeps (record s { aborted = none }))
      go (some a) = finish-Keeps (record s { aborted = some a })

  next_chunk-Keeps : (s : Sender) → Keeps s (next_chunk c s)
  unfolding next_chunk begin_chunk
  next_chunk-Keeps s =
      if-cases (Keeps s) (ltb s.index (total_chunks c)) _ _
        (λ _.
          if-cases (Keeps s) (is_window_full s.index s.acked_up_to) _ _ (λ _. refl)
            (λ _. go s.aborted))
        (λ _. await_acks-Keeps s)
    where
      go : (a : Option Abort) → Keeps s (begin_chunk c (record s { aborted = a }))
      go none = refl
      go (some a) = finish-Keeps (record s { aborted = some a })

  leave_window-Keeps : (s : Sender) → Keeps s (leave_window c s)
  unfolding leave_window
  leave_window-Keeps s = go s.aborted
    where
      go : (a : Option Abort) → Keeps s (leave_window c (record s { aborted = a }))
      go none = next_chunk-Keeps (record s { aborted = none })
      go (some a) = finish-Keeps (record s { aborted = some a })

  pub wake-Keeps : (s : Sender) → Keeps s (wake c s)
  unfolding wake fail
  wake-Keeps s = go s.phase
    where
      go : (p : Phase) → Keeps s (wake c (record s { phase = p }))
      go window =
          if-cases (Keeps s) s.connection_lost _ _ (λ _. refl)
            (λ _. leave_window-Keeps (record s { phase = window }))
      go draining =
          if-cases (Keeps s) s.connection_lost _ _ (λ _. refl)
            (λ _. await_acks-Keeps (record s { phase = draining }))
      go keying = refl
      go settled = refl
      go (sealing_meta k) = refl
      go (reading k) = refl
      go (sealing k p) = refl

  have_key-Keeps : (s : Sender) → Keeps s (have_key c s)
  unfolding have_key
  have_key-Keeps s =
      result-cases (Keeps s) (derive_file_key c.crypto c.epoch_key c.file_id)
        (λ e. (settle c s, rejected e ∷ []))
        (λ key. (record s { phase = sealing_meta key; key = key }, [])) (λ e _. refl)
        (λ key _. refl)

  have_meta-Keeps : (s : Sender) (key : Bytes) → Keeps s (have_meta c s key)
  unfolding have_meta
  have_meta-Keeps s key =
      result-cases (Keeps s)
        (encrypt_chunk c.crypto key c.file_id metadata_chunk_index true (meta_text c))
        (λ e. (settle c s, rejected e ∷ []))
        (λ ciphertext.
          let (s', effects) = next_chunk c s in
          (s', send_meta (to_hex c.file_id) ciphertext ∷ effects))
        (λ e _. refl) (λ ciphertext _. next_chunk-Keeps s)

  have_chunk-Keeps : (s : Sender) (key plaintext : Bytes) → Keeps s (have_chunk c s key plaintext)
  unfolding have_chunk fail
  have_chunk-Keeps s key plaintext =
      result-cases (Keeps s) (seal_frame c s key plaintext) (λ e. fail c s e)
        (λ frame.
          let end = min (s.index * chunk_size + chunk_size) (file_size c) in
          let (s', effects) = next_chunk c (record s { index = s.index + 1 }) in
          (s', send_frame frame ∷ progress end (file_size c) ∷ effects))
        (λ e _. refl) (λ frame _. next_chunk-Keeps (record s { index = s.index + 1 }))

  pub on_computed-Keeps : (s : Sender) → Keeps s (on_computed c s)
  unfolding on_computed
  on_computed-Keeps s = go s.phase
    where
      go : (p : Phase) → Keeps s (on_computed c (record s { phase = p }))
      go keying = have_key-Keeps (record s { phase = keying })
      go (sealing_meta k) = have_meta-Keeps (record s { phase = sealing_meta k }) k
      go (sealing k p) = have_chunk-Keeps (record s { phase = sealing k p }) k p
      go window = refl
      go draining = refl
      go settled = refl
      go (reading k) = refl

  pub on_read-Keeps : (s : Sender) (failure : Option Failure) → Keeps s (on_read c s failure)
  unfolding on_read fail
  on_read-Keeps s failure = go s.phase failure
    where
      go : (p : Phase) (f : Option Failure) → Keeps s (on_read c (record s { phase = p }) f)
      go (reading k) none = refl
      go (reading k) (some e) = refl
      go keying f = refl
      go window f = refl
      go draining f = refl
      go settled f = refl
      go (sealing_meta k) f = refl
      go (sealing k p) f = refl
