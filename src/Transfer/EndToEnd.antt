-- ===== src/Transfer/EndToEnd.antt =====
-- web/transfer.js from end to end: what a call of sendFile that resolves has handed to the receiver.
use quicksend.Base.{
  ℕ, zero, suc, ◌+◌, ◌-◌, ◌^◌, ◌≤◌, ◌≡◌, refl, sym, ap, subst, ◌∙◌, true, List, [], ◌∷◌, ◌++◌,
  arith, length, All, append-nil, append_assoc,
}
use quicksend.Base.Bytes.{IsByte}
use quicksend.Hex.{to_hex}
use quicksend.Crypto.Platform.{CryptoLaws}
use quicksend.Wire.{binary}
use quicksend.Receiver as Receiving
use quicksend.Receiver.State.{
  Receiver, Event, Effect, fresh, on_file_start, on_chunk, on_file_complete, on_aborted, on_error,
  send_ack, send_abort,
}
use quicksend.Sender
use quicksend.Sender.State as Sending
use quicksend.Sender.State.{Call}
use quicksend.Sender.{chunk_size, chunk_count, chunk_at}
use quicksend.Sender.Slices.{chunks_upto, chunks_partition}
use quicksend.Sender.Transcript.{
  total, is_last_at, frame_at, transcript, frames_upto, meta_ciphertext, meta_message, data_of,
  resolves,
}
use quicksend.Sender.Outcomes.{resolved-IsComplete}
use quicksend.Transfer.{handle_each, delivered, sent_metadata, calls_upto, file_calls}
use quicksend.Transfer.Delivery.{starts, handles_upto, handles_last, run_append, handle_each-append}

delivered-append : (xs ys : List Effect) → delivered (xs ++ ys) ≡ delivered xs ++ delivered ys
unfolding delivered
delivered-append [] ys = refl
delivered-append (on_chunk id n last plaintext ∷ xs) ys =
    ap (◌++◌ plaintext) (delivered-append xs ys)
    ∙ sym (append_assoc plaintext (delivered xs) (delivered ys))
delivered-append (on_file_start id m ∷ xs) ys = delivered-append xs ys
delivered-append (on_file_complete id ∷ xs) ys = delivered-append xs ys
delivered-append (on_aborted id reason ∷ xs) ys = delivered-append xs ys
delivered-append (on_error e ∷ xs) ys = delivered-append xs ys
delivered-append (send_ack id n ∷ xs) ys = delivered-append xs ys
delivered-append (send_abort id ∷ xs) ys = delivered-append xs ys

delivered-calls_upto :
    (c : Call) (n : ℕ) → delivered (calls_upto c n) ≡ chunks_upto chunk_size c.file.content n
unfolding calls_upto chunks_upto
delivered-calls_upto c zero = unfold delivered in refl
delivered-calls_upto c (suc n) =
    delivered-append (calls_upto c n) _
    ∙ ap (λ bytes. bytes ++ delivered (chunk_calls n)) (delivered-calls_upto c n)
    ∙ ap (chunks_upto chunk_size c.file.content n ++◌) (one n)
  where
    chunk_calls : ℕ → List Effect
    chunk_calls n =
        on_chunk (to_hex c.file_id) n (is_last_at c n) (chunk_at chunk_size c.file.content n)
        ∷ send_ack (to_hex c.file_id) n
        ∷ []

    one : (n : ℕ) → delivered (chunk_calls n) ≡ chunk_at chunk_size c.file.content n
    one n = unfold delivered in append-nil (chunk_at chunk_size c.file.content n)

pub delivered-file_calls : (c : Call) → delivered (file_calls c) ≡ c.file.content
unfolding delivered
delivered-file_calls c =
    delivered-append (calls_upto c (total c)) (on_file_complete (to_hex c.file_id) ∷ [])
    ∙ append-nil _
    ∙ delivered-calls_upto c (total c)
    ∙ (chunks_partition chunk_size c.file.content (omega arith)).0

module _ (c : Call) (laws : CryptoLaws c.crypto) (key_length : length c.epoch_key ≡ 32)
    (id_length : length c.file_id ≡ 16) (id_bytes : All IsByte c.file_id)
    (chunks : total c ≤ 2 ^ 64) where
  open c use {crypto as w, codec, epoch_key, file_id}

  abbrev run_of : Receiver → List Event → Receiver × List Effect
  run_of = Receiving.run w codec epoch_key

  takes_rest :
      (n : ℕ)
      → n + 1 ≡ total c
      → run_of fresh (handle_each (transcript c (suc n))) ≡ (
        fresh,
        on_file_start (to_hex file_id) (sent_metadata c)
            ∷ (calls_upto c (suc n) ++ (on_file_complete (to_hex file_id) ∷ [])),
      )
  unfolding transcript frames_upto calls_upto
  takes_rest n e =
      ap (run_of fresh) (
        handle_each-append (meta_message (to_hex file_id) (meta_ciphertext c) ∷ [])
          (frames_upto c n ++ (binary (frame_at c n) ∷ []))
        ∙ ap (handle_each (meta_message (to_hex file_id) (meta_ciphertext c) ∷ []) ++◌)
            (handle_each-append (frames_upto c n) (binary (frame_at c n) ∷ [])))
      ∙ run_append c _ _ _ _ _ _ _ (starts c laws key_length id_length id_bytes chunks) (
          run_append c _ _ _ _ _ _ _
            (handles_upto c laws key_length id_length id_bytes chunks n (omega arith))
            (handles_last c laws key_length id_length id_bytes chunks n e))
      ∙ ap (λ calls. (fresh, on_file_start (to_hex file_id) (sent_metadata c) ∷ calls))
          (sym (append_assoc (calls_upto c n) _ _))

  total-suc : suc (total c - 1) ≡ total c
  unfolding chunk_count
  total-suc = omega arith

  -- Over a Web Crypto with its laws, a 32-byte epoch key, a 16-byte file id of bytes and at most
  -- 2^64 chunks: a fresh receiver that takes the metadata and every frame of a file in order makes
  -- exactly the calls of a whole file, and is fresh again.
  pub takes_transcript : run_of fresh (handle_each (transcript c (total c))) ≡ (fresh, file_calls c)
  takes_transcript =
      subst
        (λ n. run_of fresh (handle_each (transcript c n)) ≡ (
          fresh,
          on_file_start (to_hex file_id) (sent_metadata c)
              ∷ (calls_upto c n ++ (on_file_complete (to_hex file_id) ∷ [])),
        ))
        total-suc (takes_rest (total c - 1) (omega (arith, total-suc)))

  -- For every sequence of events of a call of sendFile that resolves, over a Web Crypto with its
  -- laws, a 32-byte epoch key, a 16-byte file id of bytes and at most 2^64 chunks: a fresh receiver
  -- with the same keys and codec that takes the sent messages in order, each handled to its end
  -- before the next, makes exactly the calls of a whole file (the start with the sent metadata,
  -- each chunk and its acknowledgement in order, the completion), is fresh again, and has been
  -- handed, byte for byte, the content of the file.
  pub delivers_file :
      (es : List Sending.Event)
      → resolves (Sender.run c Sending.fresh es).1 ≡ true
      → let received = run_of fresh (handle_each (data_of (Sender.run c Sending.fresh es).1)) in
        (received ≡ (fresh, file_calls c)) × (delivered received.1 ≡ c.file.content)
  delivers_file es e =
      let taken =
        ap (λ messages. run_of fresh (handle_each messages))
          (resolved-IsComplete c laws key_length id_length es e).1
        ∙ takes_transcript in
      (taken, ap (λ received. delivered received.1) taken ∙ delivered-file_calls c)
