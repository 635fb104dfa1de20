-- ===== src/Transfer/Delivery.antt =====
-- A receiver that takes the transcript of a whole file hands over exactly that file.
use quicksend.Base.{
  ℕ, zero, suc, ◌+◌, ◌^◌, ◌≤◌, ◌<◌, ◌≡◌, refl, sym, ap, ◌∙◌, false, List, [], ◌∷◌, ◌++◌, none,
  arith, length, All, append_assoc,
}
use quicksend.Base.Bytes.{IsByte}
use quicksend.Crypto.Platform.{CryptoLaws}
use quicksend.Wire.{Incoming, text, binary}
use quicksend.Receiver.State.{
  Receiver, Event, Effect, fresh, message, computed, handled, on_file_start, on_chunk,
  on_file_complete, send_ack,
}
use quicksend.Receiver.{run}
use quicksend.Sender.State.{Call}
use quicksend.Sender.{chunk_size, chunk_at}
use quicksend.Sender.Transcript.{
  is_last_at, total, meta_ciphertext, frame_at, frames_upto, meta_message,
}
use quicksend.Transfer.{handle_each, sent_metadata, calls_upto}
use quicksend.Transfer.Steps.{
  hex, step_of, between, takes_frame, hands_chunk, acknowledges, completes, takes_meta, has_key,
  has_meta, started,
}

pub handle_each-append :
    (ms ns : List Incoming) → handle_each (ms ++ ns) ≡ handle_each ms ++ handle_each ns
unfolding handle_each
handle_each-append [] ns = refl
handle_each-append (text t ∷ ms) ns =
    ap (λ es. message (text t) ∷ computed ∷ computed ∷ handled none ∷ es) (handle_each-append ms ns)
handle_each-append (binary b ∷ ms) ns =
    ap (λ es. message (binary b) ∷ computed ∷ handled none ∷ es) (handle_each-append ms ns)

module _ (c : Call) where
  open c use {crypto as w, codec, epoch_key}

  abbrev pub run_of : Receiver → List Event → Receiver × List Effect
  run_of = run w codec epoch_key

  pub run_cons :
      (r r' r'' : Receiver) (e : Event) (es : List Event) (xs ys : List Effect)
      → step_of c r e ≡ (r', xs)
      → run_of r' es ≡ (r'', ys)
      → run_of r (e ∷ es) ≡ (r'', xs ++ ys)
  unfolding run
  run_cons r r' r'' e es xs ys p q =
      ap (λ out. let (r₁, later) = run_of out.0 es in (r₁, out.1 ++ later)) p
      ∙ ap (λ out. (out.0, xs ++ out.1)) q

  pub run_nil : (r : Receiver) → run_of r [] ≡ (r, [])
  unfolding run
  run_nil r = refl

  abbrev after_run : Receiver × List Effect → List Event → Receiver × List Effect
  after_run out es = let (r, ys) = run_of out.0 es in (r, out.1 ++ ys)

  run-append :
      (r : Receiver) (es fs : List Event) → run_of r (es ++ fs) ≡ after_run (run_of r es) fs
  unfolding run
  run-append r [] fs = refl
  run-append r (e ∷ es) fs =
      let (r', xs) = step_of c r e in
      ap (λ out. (out.0, xs ++ out.1)) (run-append r' es fs)
      ∙ ap (λ ys. ((run_of (run_of r' es).0 fs).0, ys))
          (sym (append_assoc xs (run_of r' es).1 (run_of (run_of r' es).0 fs).1))

  pub run_append :
      (r r' r'' : Receiver) (es fs : List Event) (xs ys : List Effect)
      → run_of r es ≡ (r', xs)
      → run_of r' fs ≡ (r'', ys)
      → run_of r (es ++ fs) ≡ (r'', xs ++ ys)
  run_append r r' r'' es fs xs ys p q =
      run-append r es fs ∙ ap (λ out. after_run out fs) p ∙ ap (λ out. (out.0, xs ++ out.1)) q

module _ (c : Call) (laws : CryptoLaws c.crypto) (key_length : length c.epoch_key ≡ 32)
    (id_length : length c.file_id ≡ 16) (id_bytes : All IsByte c.file_id)
    (chunks : total c ≤ 2 ^ 64) where
  open c use {crypto as w, codec, epoch_key, file_id, file}

  -- The metadata makes the file the current one.
  pub starts :
      run_of c fresh (handle_each (meta_message (hex c) (meta_ciphertext c) ∷ []))
      ≡ (between c 0, on_file_start (hex c) (sent_metadata c) ∷ [])
  unfolding handle_each
  starts = run_cons c _ _ _ _ _ _ _ (takes_meta c laws key_length id_length id_bytes chunks) (
      run_cons c _ _ _ _ _ _ _ (has_key c laws key_length id_length id_bytes chunks) (
        run_cons c _ _ _ _ _ _ _ (has_meta c laws key_length id_length id_bytes chunks) (
          run_cons c _ _ _ _ _ _ _ (started c laws key_length id_length id_bytes chunks)
            (run_nil c (between c 0)))))

  last_lt : (n : ℕ) → n + 1 < total c → is_last_at c n ≡ false
  last_lt n l = ground arith

  -- A chunk that is not the last.
  pub handles_chunk :
      (n : ℕ)
      → n + 1 < total c
      → run_of c (between c n) (handle_each (binary (frame_at c n) ∷ [])) ≡ (
        between c (n + 1),
        on_chunk (hex c) n (is_last_at c n) (chunk_at chunk_size file.content n)
            ∷ send_ack (hex c) n
            ∷ [],
      )
  unfolding handle_each
  handles_chunk n l =
      run_cons c _ _ _ _ _ _ _
        (takes_frame c laws key_length id_length id_bytes chunks n (omega arith))
        (run_cons c _ _ _ _ _ _ _ (hands_chunk c laws key_length id_length id_bytes chunks n) (
          run_cons c _ _ _ _ _ _ _
            (acknowledges c laws key_length id_length id_bytes chunks n (last_lt n l))
            (run_nil c (between c (n + 1)))))

  pub handles_last :
      (n : ℕ)
      → n + 1 ≡ total c
      → run_of c (between c n) (handle_each (binary (frame_at c n) ∷ [])) ≡ (
        fresh,
        on_chunk (hex c) n (is_last_at c n) (chunk_at chunk_size file.content n)
            ∷ send_ack (hex c) n
            ∷ on_file_complete (hex c)
            ∷ [],
      )
  unfolding handle_each
  handles_last n e =
      run_cons c _ _ _ _ _ _ _
        (takes_frame c laws key_length id_length id_bytes chunks n (omega arith))
        (run_cons c _ _ _ _ _ _ _ (hands_chunk c laws key_length id_length id_bytes chunks n) (
          run_cons c _ _ _ _ _ _ _
            (completes c laws key_length id_length id_bytes chunks n (ground arith))
            (run_nil c fresh)))

  pub handles_upto :
      (n : ℕ)
      → n < total c
      → run_of c (between c 0) (handle_each (frames_upto c n)) ≡ (between c n, calls_upto c n)
  unfolding frames_upto calls_upto
  handles_upto zero l = unfold handle_each in run_nil c (between c 0)
  handles_upto (suc n) l =
      ap (run_of c (between c 0))
        (handle_each-append (frames_upto c n) (binary (frame_at c n) ∷ []))
      ∙ run_append c _ _ _ _ _ _ _ (handles_upto n (omega arith)) (handles_chunk n (omega arith))
      ∙ ap
          (λ k. (
            between c k,
            calls_upto c n
                ++ (on_chunk (hex c) n (is_last_at c n) (chunk_at chunk_size file.content n)
                    ∷ send_ack (hex c) n
                    ∷ []),
          ))
          (omega arith)
