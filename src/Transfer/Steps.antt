-- ===== src/Transfer/Steps.antt =====
-- The steps of a receiver that takes the messages of a whole file.
use quicksend.Base.{
  ℕ, ◌+◌, ◌^◌, ◌≤◌, ◌<◌, ◌≡◌, refl, ap, ◌∙◌, true, false, List, [], ◌∷◌, ◌++◌, Option, none, some,
  replicate, arith, ◌==◌, length, All, All-append,
}
use quicksend.Base.Bytes.{Text, IsByte, zeros, be64, big_endian-IsByte}
use quicksend.Base.Results.{ok, or_throw, operation_error}
use quicksend.Base.Tables.{list_eq_refl}
use quicksend.Hex.{to_hex, from_hex}
use quicksend.Hex.RoundTrip.{from_hex-to_hex}
use quicksend.Crypto.Platform.{CryptoLaws}
use quicksend.Crypto.{file_info, metadata_chunk_index, decrypt_chunk}
use quicksend.Crypto.Chunks.{nonce_of, aad_of, decrypt_chunk_lem, derive_file_key_lem}
use quicksend.Frame.{ChunkFrame, parse_chunk_frame}
use quicksend.Frame.RoundTrip.{frame_of, parse-layout}
use quicksend.Wire.{binary}
use quicksend.Receiver.State.{
  Current, Await, Receiver, Event, Effect, fresh, message, computed, handled, keying, opening,
  starting, decrypting, writing, on_file_start, on_chunk, on_file_complete, send_ack,
}
use quicksend.Receiver.{
  chunk_for, handle_chunk_frame, after_crypto, deliver, start_file, proceed, step,
}
use quicksend.Sender.State.{Call}
use quicksend.Sender.{chunk_size, chunk_at, meta_text}
use quicksend.Sender.Transcript.{
  is_last_at, total, file_key_of, meta_ciphertext, ciphertext_at, frame_at, meta_message,
}
use quicksend.Transfer.{sent_metadata}

module _ (c : Call) where
  open c use {crypto as w, codec, epoch_key, file_id}

  abbrev pub hex : Text
  hex = to_hex file_id

  abbrev pub step_of : Receiver → Event → Receiver × List Effect
  step_of = step w codec epoch_key

  -- Between two chunks: `n` chunks have been handled.
  abbrev pub between : ℕ → Receiver
  between n = record {
    attached = true;
    current = some (record { file_id_hex = hex; file_key = file_key_of c; expected_index = n });
    running = none;
    queue = [];
  }

  abbrev pub taken : ℕ → ChunkFrame
  taken n = frame_of file_id n (is_last_at c n) (ciphertext_at c n)

  abbrev pub receiving : ℕ → Option Current
  receiving n = (between n).current

  abbrev pub waits : Await → Receiver
  waits await = record { attached = true; current = none; running = some await; queue = [] }

module _ (c : Call) (laws : CryptoLaws c.crypto) (key_length : length c.epoch_key ≡ 32)
    (id_length : length c.file_id ≡ 16) (id_bytes : All IsByte c.file_id)
    (chunks : total c ≤ 2 ^ 64) where
  open c use {crypto as w, codec, epoch_key, file_id, file}

  key_is_long : length (file_key_of c) ≡ 32
  key_is_long = laws.length-derive_bits epoch_key file_id file_info 256

  pub frame_parses : (n : ℕ) → n < total c → parse_chunk_frame (frame_at c n) ≡ some (taken c n)
  unfolding frame_at
  frame_parses n l =
      parse-layout file_id n (is_last_at c n) (ciphertext_at c n) id_length (omega arith)

  pub chunk_opens :
      (n : ℕ)
      → decrypt_chunk w (file_key_of c) file_id n (is_last_at c n) (ciphertext_at c n)
        ≡ ok (chunk_at chunk_size file.content n)
  unfolding ciphertext_at
  chunk_opens n =
      decrypt_chunk_lem w (file_key_of c) file_id n (is_last_at c n) _ key_is_long id_length
      ∙ ap (or_throw operation_error) (
          laws.unseal-seal (file_key_of c) (nonce_of n) (aad_of file_id n (is_last_at c n))
            (chunk_at chunk_size file.content n))

  eq_self : (n : ℕ) → (n == n) ≡ true
  eq_self n = ground arith

  frame_expected :
      (n : ℕ)
      → chunk_for (receiving c n) (taken c n) ≡ record {
        current = receiving c n;
        await = some (decrypting (taken c n) (file_key_of c));
        effects = [];
      }
  unfolding chunk_for
  frame_expected n = rw (list_eq_refl (hex c), eq_self n, chunk_for) refl

  pub takes_frame :
      (n : ℕ)
      → n < total c
      → step_of c (between c n) (message (binary (frame_at c n)))
        ≡ (record (between c n) { running = some (decrypting (taken c n) (file_key_of c)) }, [])
  unfolding step
  takes_frame n l = ap (proceed true []) (begun ∙ frame_expected n)
    where
      begun :
          handle_chunk_frame (receiving c n) (frame_at c n) ≡ chunk_for (receiving c n) (taken c n)
      begun = rw (frame_parses n l, handle_chunk_frame) refl

  pub hands_chunk :
      (n : ℕ)
      → step_of c
          (record (between c n) { running = some (decrypting (taken c n) (file_key_of c)) })
          computed
        ≡ (
          record (between c n) { running = some (writing (hex c) n (is_last_at c n)) },
          on_chunk (hex c) n (is_last_at c n) (chunk_at chunk_size file.content n) ∷ [],
        )
  unfolding step
  hands_chunk n = ap (proceed true []) opened
    where
      opened :
          after_crypto w codec epoch_key (receiving c n) (decrypting (taken c n) (file_key_of c))
          ≡ deliver (receiving c n) (taken c n) (chunk_at chunk_size file.content n)
      opened = rw (chunk_opens n, after_crypto) refl

  pub acknowledges :
      (n : ℕ)
      → is_last_at c n ≡ false
      → step_of c
          (record (between c n) { running = some (writing (hex c) n (is_last_at c n)) })
          (handled none)
        ≡ (between c (n + 1), send_ack (hex c) n ∷ [])
  unfolding step
  acknowledges n e = rw e refl

  pub completes :
      (n : ℕ)
      → is_last_at c n ≡ true
      → step_of c
          (record (between c n) { running = some (writing (hex c) n (is_last_at c n)) })
          (handled none)
        ≡ (fresh, send_ack (hex c) n ∷ on_file_complete (hex c) ∷ [])
  unfolding step fresh
  completes n e = rw e refl

  meta_bytes : All IsByte (meta_ciphertext c)
  unfolding replicate
  meta_bytes =
      laws.seal-IsByte _ _ _ _ (laws.derive_bits-IsByte epoch_key file_id file_info 256)
        (All-append IsByte (zeros 4) (be64 metadata_chunk_index) (omega arith)
          (big_endian-IsByte 8 metadata_chunk_index))
        (All-append IsByte file_id (be64 metadata_chunk_index ++ (1 ∷ [])) id_bytes (
          All-append IsByte (be64 metadata_chunk_index) (1 ∷ [])
            (big_endian-IsByte 8 metadata_chunk_index) (omega arith)))
        (codec.print-IsByte (sent_metadata c))

  pub takes_meta :
      step_of c fresh (message (meta_message (hex c) (meta_ciphertext c)))
      ≡ (waits c (keying (hex c) (some (to_hex (meta_ciphertext c))) file_id), [])
  unfolding step fresh
  takes_meta =
      ap (λ b. (waits c (keying (hex c) (some (to_hex (meta_ciphertext c))) b), []))
        (from_hex-to_hex file_id id_bytes)

  pub has_key :
      step_of c (waits c (keying (hex c) (some (to_hex (meta_ciphertext c))) file_id)) computed
      ≡ (waits c (opening (hex c) file_id (file_key_of c) (meta_ciphertext c)), [])
  unfolding step
  has_key =
      ap (proceed true []) keyed
      ∙ ap (λ b. (waits c (opening (hex c) file_id (file_key_of c) b), []))
          (from_hex-to_hex (meta_ciphertext c) meta_bytes)
    where
      keyed :
          after_crypto w codec epoch_key none
            (keying (hex c) (some (to_hex (meta_ciphertext c))) file_id)
          ≡ record {
            current = none;
            await =
                some
                  (opening (hex c) file_id (file_key_of c) (from_hex (to_hex (meta_ciphertext c))));
            effects = [];
          }
      keyed = rw (derive_file_key_lem w epoch_key file_id key_length id_length, after_crypto) refl

  meta_opens :
      decrypt_chunk w (file_key_of c) file_id metadata_chunk_index true (meta_ciphertext c)
      ≡ ok (meta_text c)
  meta_opens =
      decrypt_chunk_lem w (file_key_of c) file_id metadata_chunk_index true _ key_is_long id_length
      ∙ ap (or_throw operation_error) (laws.unseal-seal _ _ _ (meta_text c))

  pub has_meta :
      step_of c (waits c (opening (hex c) file_id (file_key_of c) (meta_ciphertext c))) computed ≡ (
        record (between c 0) { running = some starting },
        on_file_start (hex c) (sent_metadata c) ∷ [],
      )
  unfolding step
  has_meta = ap (proceed true []) (opened ∙ parsed)
    where
      opened :
          after_crypto w codec epoch_key none
            (opening (hex c) file_id (file_key_of c) (meta_ciphertext c))
          ≡ start_file w codec epoch_key none (hex c) (file_key_of c) (meta_text c)
      opened = rw (meta_opens, after_crypto) refl

      parsed : start_file w codec epoch_key none (hex c) (file_key_of c) (meta_text c) ≡ record {
        current = receiving c 0;
        await = some starting;
        effects = on_file_start (hex c) (sent_metadata c) ∷ [];
      }
      parsed = rw (codec.parse-print (sent_metadata c), start_file) refl

  pub started :
      step_of c (record (between c 0) { running = some starting }) (handled none)
      ≡ (between c 0, [])
  unfolding step
  started = refl
