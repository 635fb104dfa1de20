-- ===== src/Sender/Transcript.antt =====
-- What one call of sendFile puts on the socket, and the state that goes with it, at every point of
-- every run.
use quicksend.Base.{
  ℕ, zero, suc, ◌-◌, ◌≤◌, ◌<◌, ◌≡◌, refl, ap, ◌⊎◌, Bool, true, false, List, [], ◌∷◌, ◌++◌, none,
  some, ◌==◌,
}
use quicksend.Base.Bytes.{Bytes, Text}
use quicksend.Hex.{to_hex}
use quicksend.Crypto.{file_info, metadata_chunk_index}
use quicksend.Crypto.Chunks.{nonce_of, aad_of}
use quicksend.Frame.RoundTrip.{layout}
use quicksend.Wire.{Incoming, text, binary, file_meta, no_fields}
use quicksend.Sender.State.{
  Call, Phase, Sender, Effect, keying, window, draining, settled, sealing_meta, reading, sealing,
  send_meta, send_frame, send_abort, progress, resolved, rejected, rejected_abort,
}
use quicksend.Sender.{chunk_size, chunk_at, is_unacked, total_chunks, meta_text}

-- The message that a call of sendEnvelope or of socket.send makes of the file's data.
abbrev pub meta_message : Text → Bytes → Incoming
meta_message id ciphertext = text (
    some (record {
      kind = file_meta;
      payload =
          some (record no_fields { file_id = some id; ciphertext = some (to_hex ciphertext) });
    }))

unfoldable pub data_of : List Effect → List Incoming
data_of [] = []
data_of (send_meta id ciphertext ∷ es) = meta_message id ciphertext ∷ data_of es
data_of (send_frame frame ∷ es) = binary frame ∷ data_of es
data_of (send_abort id ∷ es) = data_of es
data_of (progress a b ∷ es) = data_of es
data_of (resolved ∷ es) = data_of es
data_of (rejected e ∷ es) = data_of es
data_of (rejected_abort r ∷ es) = data_of es

unfoldable pub resolves : List Effect → Bool
resolves [] = false
resolves (resolved ∷ es) = true
resolves (send_meta id ciphertext ∷ es) = resolves es
resolves (send_frame frame ∷ es) = resolves es
resolves (send_abort id ∷ es) = resolves es
resolves (progress a b ∷ es) = resolves es
resolves (rejected e ∷ es) = resolves es
resolves (rejected_abort r ∷ es) = resolves es

pub data_of-append : (es fs : List Effect) → data_of (es ++ fs) ≡ data_of es ++ data_of fs
unfolding data_of
data_of-append [] fs = refl
data_of-append (send_meta id c ∷ es) fs = ap (◌∷◌ (meta_message id c)) (data_of-append es fs)
data_of-append (send_frame f ∷ es) fs = ap (◌∷◌ (binary f)) (data_of-append es fs)
data_of-append (send_abort id ∷ es) fs = data_of-append es fs
data_of-append (progress a b ∷ es) fs = data_of-append es fs
data_of-append (resolved ∷ es) fs = data_of-append es fs
data_of-append (rejected e ∷ es) fs = data_of-append es fs
data_of-append (rejected_abort r ∷ es) fs = data_of-append es fs

pub resolves-append :
    (es fs : List Effect) → resolves es ≡ false → resolves (es ++ fs) ≡ resolves fs
unfolding resolves
resolves-append [] fs h = refl
resolves-append (resolved ∷ es) fs h = cc
resolves-append (send_meta id c ∷ es) fs h = resolves-append es fs h
resolves-append (send_frame f ∷ es) fs h = resolves-append es fs h
resolves-append (send_abort id ∷ es) fs h = resolves-append es fs h
resolves-append (progress a b ∷ es) fs h = resolves-append es fs h
resolves-append (rejected e ∷ es) fs h = resolves-append es fs h
resolves-append (rejected_abort r ∷ es) fs h = resolves-append es fs h

module _ (c : Call) where
  open c use {crypto as w, epoch_key, file_id, file}

  abbrev pub file_key_of : Bytes
  file_key_of = w.derive_bits epoch_key file_id file_info 256

  abbrev pub total : ℕ
  total = total_chunks c

  abbrev pub is_last_at : ℕ → Bool
  is_last_at i = i == total - 1

  -- The ciphertexts of the metadata and of chunk `i`.
  abbrev pub meta_ciphertext : Bytes
  meta_ciphertext =
      w.seal file_key_of (nonce_of metadata_chunk_index) (aad_of file_id metadata_chunk_index true)
        (meta_text c)

  unfoldable pub ciphertext_at : ℕ → Bytes
  ciphertext_at i =
      w.seal file_key_of (nonce_of i) (aad_of file_id i (is_last_at i))
        (chunk_at chunk_size file.content i)

  unfoldable pub frame_at : ℕ → Bytes
  frame_at i = layout file_id i (is_last_at i) (ciphertext_at i)

  unfoldable pub frames_upto : ℕ → List Incoming
  frames_upto zero = []
  frames_upto (suc n) = frames_upto n ++ (binary (frame_at n) ∷ [])

  -- The metadata and the first `n` chunks.
  unfoldable pub transcript : ℕ → List Incoming
  unfolding frames_upto
  transcript n = meta_message (to_hex file_id) meta_ciphertext ∷ frames_upto n

  -- In the middle of the loops: `key` is the file's, and exactly the chunks below `index` are out.
  abbrev pub Running : Sender → List Effect → Type 0
  Running s log =
      (s.key ≡ file_key_of) × (data_of log ≡ transcript s.index) × (resolves log ≡ false)

  -- Where the loops end without an abort: every chunk is sent, and the test of the last one is false.
  abbrev pub IsComplete : Sender → Type 0
  IsComplete s = (s.index ≡ total) × (s.aborted ≡ none) × (is_unacked s.acked_up_to total ≡ false)

  abbrev pub Sent : Sender → List Effect → Phase → Type 0
  Sent s log keying = (s.index ≡ 0) × (data_of log ≡ []) × (resolves log ≡ false)
  Sent s log (sealing_meta key) =
      (key ≡ file_key_of)
      × (s.key ≡ file_key_of)
      × (s.index ≡ 0)
      × (data_of log ≡ [])
      × (resolves log ≡ false)
  Sent s log (reading key) = (key ≡ file_key_of) × (s.index < total) × Running s log
  Sent s log (sealing key plaintext) =
      (key ≡ file_key_of)
      × (plaintext ≡ chunk_at chunk_size file.content s.index)
      × (s.index < total)
      × Running s log
  Sent s log window = (s.index < total) × Running s log
  Sent s log draining = (s.index ≡ total) × Running s log
  Sent s log settled =
      (s.index ≤ total)
      × ((data_of log ≡ []) ⊎ (data_of log ≡ transcript s.index))
      × (resolves log ≡ true → IsComplete s × (data_of log ≡ transcript s.index))
