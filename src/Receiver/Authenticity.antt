-- ===== src/Receiver/Authenticity.antt =====
-- Whose chunks the receiver hands on, whatever arrives: only what it could decrypt under the key of
-- the file, at the place where it stands.
pub mod Runs
pub mod Completion
use quicksend.Base.{
  ℕ, ◌≡◌, ◌∙◌, refl, sym, ap, subst, Bool, true, false, inl, inr, List, [], ◌∷◌, ◌++◌, Option, none,
  some, arith, Bool-cases, if-cases, option-cases, if◌then◌else◌, All, All-append,
}
use quicksend.Base.Bytes.{Bytes, Text}
use quicksend.Base.Results.{Failure, Result, ok, throw}
use quicksend.Base.Tables.{list_eq, list_eq_sound}
use quicksend.Hex.{to_hex, from_hex}
use quicksend.Crypto.Platform.{WebCrypto}
use quicksend.Crypto.{metadata_chunk_index, derive_file_key, decrypt_chunk}
use quicksend.Frame.{ChunkFrame, parse_chunk_frame}
use quicksend.Wire.{
  Kind, Payload, Envelope, Incoming, text, binary, file_meta, file_abort, parse_envelope,
}
use quicksend.Receiver.State.{
  Metadata, MetadataCodec, Current, Task, Await, Effect, Receiver, Event, fresh, take_meta,
  take_abort, take_chunk, keying, opening, starting, decrypting, writing, on_file_start, on_chunk,
  on_file_complete, on_aborted, on_error, send_ack, send_abort, message, close, cancel, detach,
  computed, handled,
}
use quicksend.Receiver.{
  Outcome, handle_file_meta, chunk_for, handle_chunk_frame, handle_file_abort, begin, hold_or,
  drain, proceed, task_of, enqueue, on_message, on_close, abort_current, resume_crypto,
  resume_handler, start_file, deliver, after_crypto, acknowledge, after_handler, is_expected, step,
  run,
}
use quicksend.Receiver.Stages.{Coherent}

module _ (w : WebCrypto) (codec : MetadataCodec) (epoch_key : Bytes) (hex : Text) (key : Bytes)
    (IsGenuine : ℕ → Bool → Bytes → Type 0) where
  -- What the frame decrypts to under the key of the file, if it is one of the file, is genuine.
  abbrev pub IsTrusted : ChunkFrame → Type 0
  IsTrusted f =
      to_hex f.file_id ≡ hex
      → (plaintext : Bytes)
      → decrypt_chunk w key f.file_id f.index f.is_last f.ciphertext ≡ ok plaintext
      → IsGenuine f.index f.is_last plaintext

  abbrev pub BytesAreTrusted : Bytes → Type 0
  BytesAreTrusted bytes = (f : ChunkFrame) → parse_chunk_frame bytes ≡ some f → IsTrusted f

  abbrev pub EventIsTrusted : Event → Type 0
  EventIsTrusted (message (binary bytes)) = BytesAreTrusted bytes
  EventIsTrusted _ = Unit {0}

  abbrev pub TaskIsTrusted : Task → Type 0
  TaskIsTrusted (take_chunk bytes) = BytesAreTrusted bytes
  TaskIsTrusted _ = Unit {0}

  -- The key of the current file is the one of its id.
  abbrev pub IsKeyed : Option Current → Type 0
  IsKeyed none = Unit {0}
  IsKeyed (some c) = c.file_id_hex ≡ hex → c.file_key ≡ key

  abbrev pub AwaitIsTrusted : Option Await → Type 0
  AwaitIsTrusted (some (keying id ciphertext bytes)) = bytes ≡ from_hex id
  AwaitIsTrusted (some (opening id bytes k ciphertext)) = id ≡ hex → k ≡ key
  AwaitIsTrusted (some (decrypting f k)) = IsTrusted f
  AwaitIsTrusted _ = Unit {0}

  abbrev pub CallIsGenuine : Effect → Type 0
  CallIsGenuine (on_chunk id index last plaintext) = id ≡ hex → IsGenuine index last plaintext
  CallIsGenuine _ = Unit {0}

  abbrev pub ReceiverIsTrusted : Receiver → Type 0
  ReceiverIsTrusted r = IsKeyed r.current × AwaitIsTrusted r.running × All TaskIsTrusted r.queue

  abbrev pub OutIsTrusted : Receiver × List Effect → Type 0
  OutIsTrusted out = ReceiverIsTrusted out.0 × All CallIsGenuine out.1

  abbrev pub OutcomeIsTrusted : Outcome → Type 0
  OutcomeIsTrusted o = IsKeyed o.current × AwaitIsTrusted o.await × All CallIsGenuine o.effects

  handle_file_meta-Trusted :
      (current : Option Current) (payload : Option Payload)
      → IsKeyed current
      → OutcomeIsTrusted (handle_file_meta current payload)
  unfolding handle_file_meta
  handle_file_meta-Trusted current none h = (h, tt, (tt, tt))
  handle_file_meta-Trusted current (some p) h =
      option-cases OutcomeIsTrusted p.file_id _ _ (λ _. (h, tt, (tt, tt))) (λ id _. (h, refl, tt))

  chunk_for-Trusted :
      (current : Option Current) (f : ChunkFrame)
      → IsKeyed current
      → IsTrusted f
      → OutcomeIsTrusted (chunk_for current f)
  unfolding chunk_for
  chunk_for-Trusted none f h t = (h, tt, tt)
  chunk_for-Trusted (some c) f h t =
      if-cases OutcomeIsTrusted (is_expected c f) _ _ (λ _. (h, t, tt)) (λ _. (h, tt, (tt, tt)))

  handle_chunk_frame-Trusted :
      (current : Option Current) (bytes : Bytes)
      → IsKeyed current
      → BytesAreTrusted bytes
      → OutcomeIsTrusted (handle_chunk_frame current bytes)
  unfolding handle_chunk_frame
  handle_chunk_frame-Trusted current bytes h t =
      option-cases OutcomeIsTrusted (parse_chunk_frame bytes) _ _ (λ _. (h, tt, tt))
        (λ f parsed. chunk_for-Trusted current f h (t f parsed))

  handle_file_abort-Trusted :
      (current : Option Current) (payload : Option Payload)
      → IsKeyed current
      → OutcomeIsTrusted (handle_file_abort current payload)
  unfolding handle_file_abort
  handle_file_abort-Trusted none payload h = (h, tt, tt)
  handle_file_abort-Trusted (some c) none h = (h, tt, (tt, tt))
  handle_file_abort-Trusted (some c) (some p) h =
      option-cases OutcomeIsTrusted p.file_id _ _ (λ _. (h, tt, tt))
        (λ id _.
          if-cases OutcomeIsTrusted (list_eq id c.file_id_hex) _ _ (λ _. (tt, tt, (tt, tt)))
            (λ _. (h, tt, tt)))

  begin-Trusted :
      (current : Option Current) (task : Task)
      → IsKeyed current
      → TaskIsTrusted task
      → OutcomeIsTrusted (begin current task)
  unfolding begin
  begin-Trusted current (take_meta payload) h t = handle_file_meta-Trusted current payload h
  begin-Trusted current (take_abort payload) h t = handle_file_abort-Trusted current payload h
  begin-Trusted current (take_chunk bytes) h t = handle_chunk_frame-Trusted current bytes h t

  hold_or-Trusted :
      (attached : Bool) (queue : List Task) (o : Outcome) (rest : Receiver × List Effect)
      → OutcomeIsTrusted o
      → All TaskIsTrusted queue
      → OutIsTrusted rest
      → OutIsTrusted (hold_or attached queue o rest)
  unfolding hold_or
  hold_or-Trusted attached queue o rest h q r = go o.await h.1
    where
      go :
          (await : Option Await)
          → AwaitIsTrusted await
          → OutIsTrusted (hold_or attached queue (record o { await = await }) rest)
      go none a = r
      go (some await) a = ((h.0, a, q), h.2)

  pub drain-Trusted :
      (attached : Bool) (current : Option Current) (tasks : List Task) (before : List Effect)
      → IsKeyed current
      → All TaskIsTrusted tasks
      → All CallIsGenuine before
      → OutIsTrusted (drain attached current tasks before)
  unfolding drain
  drain-Trusted attached current [] before h q b = ((h, tt, tt), b)
  drain-Trusted attached current (task ∷ tasks) before h q b =
      let next = begin current task in
      let k = begin-Trusted current task h q.0 in
      let calls = All-append CallIsGenuine before next.effects b k.2 in
      hold_or-Trusted attached tasks (record next { effects = before ++ next.effects }) _
        (k.0, k.1, calls) q.1
        (drain-Trusted attached next.current tasks (before ++ next.effects) k.0 q.1 calls)

  pub proceed-Trusted :
      (attached : Bool) (queue : List Task) (o : Outcome)
      → All TaskIsTrusted queue
      → OutcomeIsTrusted o
      → OutIsTrusted (proceed attached queue o)
  unfolding proceed
  proceed-Trusted attached queue o q h =
      hold_or-Trusted attached queue o _ h q
        (drain-Trusted attached o.current queue o.effects h.0 q h.2)

  pub deliver-Trusted :
      (current : Option Current) (f : ChunkFrame) (k plaintext : Bytes)
      → IsKeyed current
      → Coherent current (some (decrypting f k))
      → IsTrusted f
      → decrypt_chunk w k f.file_id f.index f.is_last f.ciphertext ≡ ok plaintext
      → OutcomeIsTrusted (deliver current f plaintext)
  unfolding deliver
  deliver-Trusted none f k plaintext h same t opened = (tt, tt, (tt, tt))
  deliver-Trusted (some c) f k plaintext h same t opened = (
    h,
    tt,
    (
      λ e.
          let its_key : k ≡ key = same.2 ∙ h (sym same.0 ∙ e) in
          subst (λ n. IsGenuine n f.is_last plaintext) same.1
            (t e plaintext (
              subst (λ x. decrypt_chunk w x f.file_id f.index f.is_last f.ciphertext ≡ ok plaintext)
                its_key opened)),
      tt,
    ),
  )

  acknowledge-Trusted :
      (current : Option Current) (id : Text) (index : ℕ) (last : Bool)
      → IsKeyed current
      → OutcomeIsTrusted (acknowledge current id index last)
  unfolding acknowledge
  acknowledge-Trusted none id index last h = (tt, tt, (tt, (tt, tt)))
  acknowledge-Trusted (some c) id index last h =
      if-cases OutcomeIsTrusted last _ _ (λ _. (tt, tt, (tt, (tt, tt)))) (λ _. (h, tt, (tt, tt)))

  pub after_handler-Trusted :
      (current : Option Current) (await : Await) (failure : Option Failure)
      → IsKeyed current
      → AwaitIsTrusted (some await)
      → OutcomeIsTrusted (after_handler current await failure)
  unfolding after_handler
  after_handler-Trusted current starting none h a = (h, tt, tt)
  after_handler-Trusted current starting (some e) h a = (h, tt, (tt, tt))
  after_handler-Trusted current (writing id index last) none h a =
      acknowledge-Trusted current id index last h
  after_handler-Trusted current (writing id index last) (some e) h a = (h, tt, (tt, tt))
  after_handler-Trusted current (keying id x b) failure h a = (h, a, tt)
  after_handler-Trusted current (opening id b k x) failure h a = (h, a, tt)
  after_handler-Trusted current (decrypting f k) failure h a = (h, a, tt)
