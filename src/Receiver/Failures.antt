-- ===== src/Receiver/Failures.antt =====
-- web/transfer.js, attachReceiver: a file that is given up, or cannot be written, while its chunk is
-- with `onChunk`.
use quicksend.Base.{
  ℕ, zero, suc, ◌+◌, ◌≡◌, refl, sym, ap, arith, append-nil, append_assoc, ◌∙◌, Bool, true, false,
  ◌&&◌, List, [], ◌∷◌, ◌++◌, Option, none, some, ◌==◌, length, replicate,
}
use quicksend.Base.Bytes.{Bytes, Text}
use quicksend.Base.Results.{Failure, type_error, out_of_order}
use quicksend.Base.Tables.{list_eq}
use quicksend.Hex.{to_hex}
use quicksend.Crypto.Platform.{WebCrypto}
use quicksend.Frame.{ChunkFrame, parse_chunk_frame}
use quicksend.Wire.{binary}
use quicksend.Receiver.State.{
  MetadataCodec, Current, Receiver, Event, Effect, Task, take_chunk, writing, on_aborted, on_error,
  send_ack, send_abort, message, cancel, handled,
}
use quicksend.Receiver.{
  Outcome, stop, drain, hold_or, chunk_for, is_expected, handle_chunk_frame, proceed, step, run,
}

-- The frames that arrive are well formed, and none is the expected one.
unfoldable pub AllUnexpected : ℕ → List Bytes → Type 0
AllUnexpected n [] = Unit
AllUnexpected n (bytes ∷ more) =
    ((frame : ChunkFrame) × (parse_chunk_frame bytes ≡ some frame) × ((frame.index == n) ≡ false))
    × AllUnexpected n more

unfoldable pub arrivals : List Bytes → List Event
arrivals [] = []
arrivals (bytes ∷ more) = message (binary bytes) ∷ arrivals more

unfoldable pub queued : List Bytes → List Task
queued [] = []
queued (bytes ∷ more) = take_chunk bytes ∷ queued more

queued-snoc :
    (early : List Bytes) (bytes : Bytes)
    → queued early ++ (take_chunk bytes ∷ []) ≡ queued (early ++ (bytes ∷ []))
unfolding queued
queued-snoc [] bytes = refl
queued-snoc (b ∷ early) bytes = ap (λ rest. take_chunk b ∷ rest) (queued-snoc early bytes)

replicate-add :
    {A : Type 0} → (m n : ℕ) (x : A) → replicate m x ++ replicate n x ≡ replicate (m + n) x
unfolding replicate
replicate-add zero n x = ap (λ k. replicate k x) (omega arith)
replicate-add (suc m) n x = rw suc-plus (ap (λ rest. x ∷ rest) (replicate-add m n x))
  where
    suc-plus : suc m + n ≡ suc (m + n)
    suc-plus = omega arith

and_false : (b : Bool) → (b && false) ≡ false
and_false true = refl
and_false false = refl

module _ (w : WebCrypto) (codec : MetadataCodec) (epoch_key : Bytes) where
  -- The receiver with no file in progress and nothing to do, or with one.
  abbrev pub at_rest : Option Current → Receiver
  at_rest current = record { attached = true; current = current; running = none; queue = [] }

  -- `onChunk` is awaited, and the frames `early` have arrived meanwhile.
  abbrev pub awaiting_chunk : Option Current → Text → ℕ → Bool → List Bytes → Receiver
  awaiting_chunk current id n last early = record (at_rest current) {
    running = some (writing id n last);
    queue = queued early;
  }

  refuses :
      (c : Current) (bytes : Bytes) (frame : ChunkFrame)
      → parse_chunk_frame bytes ≡ some frame
      → (frame.index == c.expected_index) ≡ false
      → handle_chunk_frame (some c) bytes
        ≡ record { current = some c; await = none; effects = on_error out_of_order ∷ [] }
  unfolding handle_chunk_frame chunk_for
  refuses c bytes frame p e = begun ∙ refused
    where
      begun : handle_chunk_frame (some c) bytes ≡ chunk_for (some c) frame
      begun = rw (p, handle_chunk_frame) refl

      not_expected : is_expected c frame ≡ false
      not_expected =
          ap (λ b. list_eq (to_hex frame.file_id) c.file_id_hex && b) e
          ∙ and_false (list_eq (to_hex frame.file_id) c.file_id_hex)

      refused :
          chunk_for (some c) frame
          ≡ record { current = some c; await = none; effects = on_error out_of_order ∷ [] }
      refused = rw (not_expected, chunk_for) refl

  unexpected :
      (c : Current) (bytes : Bytes) (frame : ChunkFrame)
      → parse_chunk_frame bytes ≡ some frame
      → (frame.index == c.expected_index) ≡ false
      → step w codec epoch_key (at_rest (some c)) (message (binary bytes))
        ≡ (at_rest (some c), on_error out_of_order ∷ [])
  unfolding step
  unexpected c bytes frame p e = ap (proceed true []) (refuses c bytes frame p e)

  -- The chain after a handler that has returned.
  drains_unexpected :
      (c : Current) (early : List Bytes) (before : List Effect)
      → AllUnexpected c.expected_index early
      → drain true (some c) (queued early) before
        ≡ (at_rest (some c), before ++ replicate (length early) (on_error out_of_order))
  unfolding drain AllUnexpected queued replicate
  drains_unexpected c [] before h = ap (λ log. (at_rest (some c), log)) (sym (append-nil before))
  drains_unexpected c (bytes ∷ early) before h =
      ap
        (λ next.
          hold_or true (queued early) (record next { effects = before ++ next.effects })
            (drain true next.current (queued early) (before ++ next.effects)))
        (refuses c bytes h.0.0 h.0.1 h.0.2)
      ∙ drains_unexpected c early (before ++ (on_error out_of_order ∷ [])) h.1
      ∙ ap (λ log. (at_rest (some c), log))
          (append_assoc before (on_error out_of_order ∷ [])
            (replicate (length early) (on_error out_of_order)))

  rejects_rest :
      (c : Current) (more : List Bytes)
      → AllUnexpected c.expected_index more
      → run w codec epoch_key (at_rest (some c)) (arrivals more)
        ≡ (at_rest (some c), replicate (length more) (on_error out_of_order))
  unfolding run AllUnexpected arrivals replicate
  rejects_rest c [] h = refl
  rejects_rest c (bytes ∷ more) h =
      ap
        (λ out. let (r, later) = run w codec epoch_key out.0 (arrivals more) in (r, out.1 ++ later))
        (unexpected c bytes h.0.0 h.0.1 h.0.2)
      ∙ ap (λ out. (out.0, on_error out_of_order ∷ out.1)) (rejects_rest c more h.1)

  -- If onChunk rejects while nothing waits in the queue but well-formed frames with an index other
  -- than the expected one, and only such frames arrive afterwards: the receiver reports the error
  -- and then each of these frames as out of order, those of the queue and the later ones, one error
  -- each; nothing is sent to the sender, and the file stays current at the same index.
  pub failed_write :
      (c : Current) (id : Text) (n : ℕ) (last : Bool) (e : Failure) (early more : List Bytes)
      → AllUnexpected c.expected_index early
      → AllUnexpected c.expected_index more
      → run w codec epoch_key
          (awaiting_chunk (some c) id n last early)
          (handled (some e) ∷ arrivals more)
        ≡ (
          at_rest (some c),
          on_error e ∷ replicate (length early + length more) (on_error out_of_order),
        )
  unfolding run step
  failed_write c id n last e early more h h' =
      ap
        (λ out. let (r, later) = run w codec epoch_key out.0 (arrivals more) in (r, out.1 ++ later))
        (drains_unexpected c early (on_error e ∷ []) h)
      ∙ ap
          (λ out. (out.0, (on_error e ∷ replicate (length early) (on_error out_of_order)) ++ out.1))
          (rejects_rest c more h')
      ∙ ap (λ log. (at_rest (some c), on_error e ∷ log))
          (replicate-add (length early) (length more) (on_error out_of_order))

  ignores : (bytes : Bytes) → handle_chunk_frame none bytes ≡ stop none []
  unfolding handle_chunk_frame
  ignores bytes = go (parse_chunk_frame bytes)
    where
      go :
          (o : Option ChunkFrame)
          → elim o as (λ x. Outcome) [ none ↦ stop none [] | some frame ↦ chunk_for none frame ]
            ≡ stop none []
      go none = refl
      go (some frame) = refl

  drains_ignored :
      (early : List Bytes) (before : List Effect)
      → drain true none (queued early) before ≡ (at_rest none, before)
  unfolding drain queued
  drains_ignored [] before = refl
  drains_ignored (bytes ∷ early) before =
      ap
        (λ next.
          hold_or true (queued early) (record next { effects = before ++ next.effects })
            (drain true next.current (queued early) (before ++ next.effects)))
        (ignores bytes)
      ∙ drains_ignored early (before ++ [])
      ∙ ap (λ log. (at_rest none, log)) (append-nil before)

  abbrev canceled_chunk : Text → ℕ → List Effect
  canceled_chunk id n = send_ack id n ∷ on_error type_error ∷ []

  -- The canceled file's frames wait behind `onChunk`, and are then ignored.
  waits_out :
      (id : Text) (n : ℕ) (last : Bool) (early more : List Bytes)
      → run w codec epoch_key
          (awaiting_chunk none id n last early)
          (arrivals more ++ (handled none ∷ []))
        ≡ (at_rest none, canceled_chunk id n)
  unfolding run step arrivals
  waits_out id n last early [] =
      ap (λ out. (out.0, out.1 ++ [])) (drains_ignored early (canceled_chunk id n))
  waits_out id n last early (bytes ∷ more) =
      ap
        (λ queue.
          run w codec epoch_key
            (record (at_rest none) { running = some (writing id n last); queue = queue })
            (arrivals more ++ (handled none ∷ [])))
        (queued-snoc early bytes)
      ∙ waits_out id n last (early ++ (bytes ∷ [])) more

  -- If the file is canceled while onChunk is awaited and onChunk then succeeds, whatever binary
  -- messages wait in the queue and whatever binary messages arrive in between: the receiver sends
  -- file_abort and reports the cancellation, then still acknowledges the chunk and reports a
  -- TypeError, takes all those messages off the queue without a call or an answer, and is left with
  -- no file in progress.
  pub canceled_while_writing :
      (c : Current) (id : Text) (n : ℕ) (last : Bool) (early more : List Bytes)
      → run w codec epoch_key
          (awaiting_chunk (some c) id n last early)
          (cancel ∷ (arrivals more ++ (handled none ∷ [])))
        ≡ (
          at_rest none,
          send_abort c.file_id_hex
              ∷ on_aborted c.file_id_hex none
              ∷ send_ack id n
              ∷ on_error type_error
              ∷ [],
        )
  unfolding run step
  canceled_while_writing c id n last early more =
      ap (λ out. (out.0, send_abort c.file_id_hex ∷ on_aborted c.file_id_hex none ∷ out.1))
        (waits_out id n last early more)
