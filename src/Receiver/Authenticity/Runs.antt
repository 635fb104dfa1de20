-- ===== src/Receiver/Authenticity/Runs.antt =====
-- Every step of the receiver, and so every run, hands on genuine chunks only.
use quicksend.Base.{
  ℕ, ◌≡◌, ◌∙◌, sym, ap, Bool, true, List, [], ◌∷◌, ◌++◌, Option, none, some, if-cases, option-cases,
  All, All-append,
}
use quicksend.Base.Bytes.{Bytes, Text}
use quicksend.Base.Results.{Failure, ok, result-cases}
use quicksend.Hex.{from_hex}
use quicksend.Crypto.Platform.{WebCrypto}
use quicksend.Crypto.Layout.{ok-injective}
use quicksend.Crypto.{metadata_chunk_index, derive_file_key, decrypt_chunk}
use quicksend.Wire.{Kind, Envelope, Incoming, text, binary, file_meta, file_abort, parse_envelope}
use quicksend.Receiver.State.{
  MetadataCodec, Current, Task, take_meta, take_abort, take_chunk, Await, Effect, Receiver, Event,
  fresh, keying, opening, starting, decrypting, writing, message, close, cancel, detach, computed,
  handled,
}
use quicksend.Receiver.{
  task_of, enqueue, on_message, on_close, abort_current, resume_crypto, resume_handler, Outcome,
  start_file, after_crypto, step, run,
}
use quicksend.Receiver.Stages.{Coherent}
use quicksend.Receiver.Refinement.{step-Reaches}
use quicksend.Receiver.Authenticity.{
  EventIsTrusted, TaskIsTrusted, IsKeyed, AwaitIsTrusted, CallIsGenuine, ReceiverIsTrusted,
  OutIsTrusted, OutcomeIsTrusted, proceed-Trusted, drain-Trusted, deliver-Trusted,
  after_handler-Trusted,
}

module _ (w : WebCrypto) (codec : MetadataCodec) (epoch_key : Bytes) (hex : Text) (key : Bytes)
    (IsGenuine : ℕ → Bool → Bytes → Type 0)
    (its_key : derive_file_key w epoch_key (from_hex hex) ≡ ok key) where
  abbrev Keyed : Option Current → Type 0
  Keyed = IsKeyed w codec epoch_key hex key IsGenuine

  abbrev Awaits : Option Await → Type 0
  Awaits = AwaitIsTrusted w codec epoch_key hex key IsGenuine

  abbrev Trusted : Receiver → Type 0
  Trusted = ReceiverIsTrusted w codec epoch_key hex key IsGenuine

  abbrev OutTrusted : Receiver × List Effect → Type 0
  OutTrusted = OutIsTrusted w codec epoch_key hex key IsGenuine

  abbrev OutcomeTrusted : Outcome → Type 0
  OutcomeTrusted = OutcomeIsTrusted w codec epoch_key hex key IsGenuine

  start_file-Trusted :
      (current : Option Current) (id : Text) (k plaintext : Bytes)
      → Keyed current
      → (id ≡ hex → k ≡ key)
      → OutcomeTrusted (start_file w codec epoch_key current id k plaintext)
  unfolding start_file
  start_file-Trusted current id k plaintext h a =
      option-cases OutcomeTrusted (codec.parse plaintext) _ _ (λ _. (h, tt, (tt, tt)))
        (λ meta _. (a, tt, (tt, tt)))

  after_crypto-Trusted :
      (current : Option Current) (await : Await)
      → Keyed current
      → Coherent current (some await)
      → Awaits (some await)
      → OutcomeTrusted (after_crypto w codec epoch_key current await)
  unfolding after_crypto
  after_crypto-Trusted current (keying id ciphertext bytes) h same a =
      result-cases OutcomeTrusted (derive_file_key w epoch_key bytes) _ _ (λ e _. (h, tt, (tt, tt)))
        (λ k derived.
          option-cases OutcomeTrusted ciphertext _ _ (λ _. (h, tt, (tt, tt)))
            (λ x _. (
              h,
              λ e.
                  ok-injective
                    (sym derived ∙ ap (derive_file_key w epoch_key) (a ∙ ap from_hex e) ∙ its_key),
              tt,
            )))
  after_crypto-Trusted current (opening id bytes k ciphertext) h same a =
      result-cases OutcomeTrusted (decrypt_chunk w k bytes metadata_chunk_index true ciphertext) _ _
        (λ e _. (h, tt, (tt, tt))) (λ plaintext _. start_file-Trusted current id k plaintext h a)
  after_crypto-Trusted current (decrypting f k) h same a =
      result-cases OutcomeTrusted (decrypt_chunk w k f.file_id f.index f.is_last f.ciphertext) _ _
        (λ e _. (h, tt, (tt, tt)))
        (λ plaintext opened.
          deliver-Trusted w codec epoch_key hex key IsGenuine current f k plaintext h same a opened)
  after_crypto-Trusted current starting h same a = (h, a, tt)
  after_crypto-Trusted current (writing id index last) h same a = (h, a, tt)

  resume_crypto-Trusted :
      (r : Receiver)
      → Coherent r.current r.running
      → Trusted r
      → OutTrusted (resume_crypto w codec epoch_key r)
  unfolding resume_crypto
  resume_crypto-Trusted r same h = go r.running same h.1
    where
      go :
          (await : Option Await)
          → Coherent r.current await
          → Awaits await
          → OutTrusted (resume_crypto w codec epoch_key (record r { running = await }))
      go none same a = ((h.0, a, h.2), tt)
      go (some await) same a =
          proceed-Trusted w codec epoch_key hex key IsGenuine r.attached r.queue _ h.2
            (after_crypto-Trusted r.current await h.0 same a)

  resume_handler-Trusted :
      (r : Receiver) (failure : Option Failure) → Trusted r → OutTrusted (resume_handler r failure)
  unfolding resume_handler
  resume_handler-Trusted r failure h = go r.running h.1
    where
      go :
          (await : Option Await)
          → Awaits await
          → OutTrusted (resume_handler (record r { running = await }) failure)
      go none a = ((h.0, a, h.2), tt)
      go (some await) a =
          proceed-Trusted w codec epoch_key hex key IsGenuine r.attached r.queue _ h.2 (
            after_handler-Trusted w codec epoch_key hex key IsGenuine r.current await failure h.0 a)

  enqueue-Trusted :
      (r : Receiver) (task : Task)
      → Trusted r
      → TaskIsTrusted w codec epoch_key hex key IsGenuine task
      → OutTrusted (enqueue r task)
  unfolding enqueue
  enqueue-Trusted r task h t = go r.running h.1
    where
      queue : All (TaskIsTrusted w codec epoch_key hex key IsGenuine) (r.queue ++ (task ∷ []))
      queue =
          All-append (TaskIsTrusted w codec epoch_key hex key IsGenuine) r.queue (task ∷ []) h.2
            (t, tt)

      go :
          (await : Option Await)
          → Awaits await
          → OutTrusted (enqueue (record r { running = await }) task)
      go none a =
          drain-Trusted w codec epoch_key hex key IsGenuine r.attached r.current
            (r.queue ++ (task ∷ [])) [] h.0 queue tt
      go (some await) a = ((h.0, a, queue), tt)

  on_message-Trusted :
      (r : Receiver) (incoming : Incoming)
      → Trusted r
      → EventIsTrusted w codec epoch_key hex key IsGenuine (message incoming)
      → OutTrusted (on_message r incoming)
  unfolding on_message task_of
  on_message-Trusted r (binary bytes) h t = enqueue-Trusted r (take_chunk bytes) h t
  on_message-Trusted r (text envelope) h t =
      option-cases OutTrusted (task_of (text envelope)) _ _ (λ _. (h, tt))
        (λ task e. enqueue-Trusted r task h (no_chunk (parse_envelope (text envelope)) task e))
    where
      of_kind :
          (kind : Kind) (env : Envelope) (task : Task)
          → (elim kind as (λ k. Option Task) [
            | file_meta ↦ some (take_meta env.payload)
            | file_abort ↦ some (take_abort env.payload)
            | _ ↦ none
          ])
            ≡ some task
          → TaskIsTrusted w codec epoch_key hex key IsGenuine task
      of_kind file_meta env (take_meta p) e = tt
      of_kind file_meta env (take_abort p) e = tt
      of_kind file_meta env (take_chunk b) e = cc
      of_kind file_abort env (take_meta p) e = tt
      of_kind file_abort env (take_abort p) e = tt
      of_kind file_abort env (take_chunk b) e = cc
      of_kind _ env task e = cc

      no_chunk :
          (o : Option Envelope) (task : Task)
          → (elim o as (λ x. Option Task) [
            | none ↦ none
            | some env ↦ elim env.kind [
              | file_meta ↦ some (take_meta env.payload)
              | file_abort ↦ some (take_abort env.payload)
              | _ ↦ none
            ]
          ])
            ≡ some task
          → TaskIsTrusted w codec epoch_key hex key IsGenuine task
      no_chunk none task e = cc
      no_chunk (some env) task e = of_kind env.kind env task e

  on_close-Trusted : (r : Receiver) → Trusted r → OutTrusted (on_close r)
  unfolding on_close
  on_close-Trusted r h =
      option-cases OutTrusted r.current _ _ (λ _. (h, tt)) (λ c _. ((tt, h.1, h.2), (tt, tt)))

  abort_current-Trusted : (r : Receiver) → Trusted r → OutTrusted (abort_current r)
  unfolding abort_current
  abort_current-Trusted r h =
      option-cases OutTrusted r.current _ _ (λ _. (h, tt)) (λ c _. ((tt, h.1, h.2), (tt, (tt, tt))))

  step-Trusted :
      (r : Receiver) (e : Event)
      → Coherent r.current r.running
      → Trusted r
      → EventIsTrusted w codec epoch_key hex key IsGenuine e
      → OutTrusted (step w codec epoch_key r e)
  unfolding step
  step-Trusted r (message incoming) same h t =
      if-cases OutTrusted r.attached _ _ (λ _. on_message-Trusted r incoming h t) (λ _. (h, tt))
  step-Trusted r close same h t =
      if-cases OutTrusted r.attached _ _ (λ _. on_close-Trusted r h) (λ _. (h, tt))
  step-Trusted r cancel same h t = abort_current-Trusted r h
  step-Trusted r detach same h t = (h, tt)
  step-Trusted r computed same h t = resume_crypto-Trusted r same h
  step-Trusted r (handled failure) same h t = resume_handler-Trusted r failure h

  run-Trusted :
      (es : List Event) (r : Receiver)
      → Coherent r.current r.running
      → Trusted r
      → All (EventIsTrusted w codec epoch_key hex key IsGenuine) es
      → OutTrusted (run w codec epoch_key r es)
  unfolding run
  run-Trusted [] r same h t = (h, tt)
  run-Trusted (e ∷ es) r same h t =
      let now = step-Trusted r e same h t.0 in
      let r' = (step w codec epoch_key r e).0 in
      let later = run-Trusted es r' (step-Reaches w codec epoch_key r e same).coherent now.0 t.1 in
      (
        later.0,
        All-append (CallIsGenuine w codec epoch_key hex key IsGenuine)
            (step w codec epoch_key r e).1 (run w codec epoch_key r' es).1 now.1 later.1,
      )

  pub run-Genuine :
      (es : List Event)
      → All (EventIsTrusted w codec epoch_key hex key IsGenuine) es
      → All (CallIsGenuine w codec epoch_key hex key IsGenuine) (run w codec epoch_key fresh es).1
  unfolding fresh
  run-Genuine es t = (run-Trusted es fresh tt (tt, tt, tt) t).1
