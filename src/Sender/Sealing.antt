-- ===== src/Sender/Sealing.antt =====
-- What sendFile goes on with once a promise of Web Crypto has settled.
use quicksend.Base.{◌+◌, ◌*◌, ◌≡◌, refl, true, List, [], ◌∷◌, min, length}
use quicksend.Hex.{to_hex}
use quicksend.Crypto.Platform.{CryptoLaws}
use quicksend.Crypto.{file_info, metadata_chunk_index}
use quicksend.Crypto.Chunks.{encrypt_chunk_lem, derive_file_key_lem}
use quicksend.Frame.RoundTrip.{build_chunk_frame_lem}
use quicksend.Sender.State.{Call, Sender, Effect, sealing_meta, send_meta, send_frame, progress}
use quicksend.Sender.Transcript.{frame_at, ciphertext_at, meta_ciphertext, file_key_of, is_last_at}
use quicksend.Sender.{
  chunk_size, chunk_at, meta_text, have_key, have_meta, have_chunk, seal_frame, next_chunk,
}
use quicksend.Sender.Loops.{before}

module _ (c : Call) where
  open c use {file}

  abbrev pub chunk_sent : Sender → List Effect
  chunk_sent s =
      send_frame (frame_at c s.index)
      ∷ progress (min (s.index * chunk_size + chunk_size) (length file.content))
          (length file.content)
      ∷ []

module _ (c : Call) (laws : CryptoLaws c.crypto) (key_length : length c.epoch_key ≡ 32)
    (id_length : length c.file_id ≡ 16) where
  open c use {crypto as w, codec, epoch_key, file_id, file}

  file_key_length : length (file_key_of c) ≡ 32
  file_key_length = laws.length-derive_bits epoch_key file_id file_info 256

  pub have_key_lem :
      (s : Sender)
      → have_key c s ≡ (record s { phase = sealing_meta (file_key_of c); key = file_key_of c }, [])
  unfolding have_key
  have_key_lem s = rw (derive_file_key_lem w epoch_key file_id key_length id_length, have_key) refl

  pub have_meta_lem :
      (s : Sender)
      → have_meta c s (file_key_of c)
        ≡ before c (send_meta (to_hex file_id) (meta_ciphertext c) ∷ []) (next_chunk c s)
  unfolding have_meta
  have_meta_lem s =
      rw
        (
          encrypt_chunk_lem w (file_key_of c) file_id metadata_chunk_index true (meta_text c)
              file_key_length id_length,
          have_meta,
        )
        refl

  pub have_chunk_lem :
      (s : Sender)
      → have_chunk c s (file_key_of c) (chunk_at chunk_size file.content s.index)
        ≡ before c (chunk_sent c s) (next_chunk c (record s { index = s.index + 1 }))
  unfolding have_chunk frame_at ciphertext_at
  have_chunk_lem s =
      rw
        (
          encrypt_chunk_lem w (file_key_of c) file_id s.index (is_last_at c s.index)
              (chunk_at chunk_size file.content s.index) file_key_length id_length,
          build_chunk_frame_lem file_id s.index (is_last_at c s.index) (ciphertext_at c s.index)
              id_length,
          seal_frame,
          have_chunk,
        )
        refl
