-- ===== src/Sender.antt =====
-- web/transfer.js, sendFile. One call is a state machine: an event is a socket event, the caller's
-- abort signal, or the settling of the promise that is awaited. A waiter that an event wakes goes
-- on at once, before any later event: promises resume before the next task of the event loop.
pub mod State
pub mod Slices
pub mod Transcript
pub mod Loops
pub mod Sealing
pub mod Runs
pub mod Room
pub mod Window
pub mod Outcomes
pub mod Keeps
pub mod Acks
pub mod Stalls
use quicksend.Base.{
  ℕ, suc, ◌+◌, ◌-◌, ◌*◌, ◌/◌, min, max, Bool, true, false, ◌&&◌, not, List, [], ◌∷◌, ◌++◌, Option,
  none, some, ltb, leb, ◌==◌, if◌then◌else◌, length, take, drop,
}
use quicksend.Base.Int.{ℤ, pos, negsuc, ◌-ℤ◌, leb_ℤ, ltb_ℤ}
use quicksend.Base.Bytes.{Bytes, Text}
use quicksend.Base.Results.{Failure, Result, ok, throw, ◌>>=◌}
use quicksend.Base.Results
use quicksend.Base.Tables.{list_eq}
use quicksend.Hex.{to_hex}
use quicksend.Crypto.Platform.{WebCrypto}
use quicksend.Crypto.{metadata_chunk_index, derive_file_key, encrypt_chunk}
use quicksend.Frame.{build_chunk_frame}
use quicksend.Wire.{Kind, Payload, Envelope, Incoming, chunk_ack, file_abort, parse_envelope}
use quicksend.Receiver.State.{MetadataCodec}
use quicksend.Sender.State.{
  Call, Abort, Phase, Sender, Event, Effect, keying, window, draining, settled, sealing_meta,
  reading, sealing, message, close, signal_abort, computed, read, send_meta, send_frame, send_abort,
  progress, resolved, rejected, rejected_abort,
}

abbrev pub chunk_size : ℕ
chunk_size = 256 * 1024

abbrev pub window_size : ℕ
window_size = 8

-- Math.max(1, Math.ceil(size / chunk)).
unfoldable pub chunk_count : ℕ → ℕ → ℕ
chunk_count chunk size = max 1 ((size + (chunk - 1)) / chunk)

-- file.slice(start, end) for chunk `index`.
unfoldable pub chunk_at : ℕ → Bytes → ℕ → Bytes
chunk_at chunk content index =
    let start = index * chunk in
    take (min (start + chunk) (length content) - start) (drop start content)

-- `index - 1 - ackedUpTo >= WINDOW_SIZE`, which is false of `undefined`.
abbrev pub is_window_full : ℕ → Option ℤ → Bool
is_window_full index none = false
is_window_full index (some acked) = leb_ℤ (pos window_size) (pos index -ℤ pos 1 -ℤ acked)

-- `ackedUpTo < totalChunks - 1`.
abbrev pub is_unacked : Option ℤ → ℕ → Bool
is_unacked none total = false
is_unacked (some acked) total = ltb_ℤ acked (pos total -ℤ pos 1)

module _ (c : Call) where
  open c use {crypto as w, codec, epoch_key, file_id, file}

  abbrev pub file_size : ℕ
  file_size = length file.content

  abbrev pub total_chunks : ℕ
  total_chunks = chunk_count chunk_size file_size

  abbrev pub settle : Sender → Sender
  settle s = record s { phase = settled }

  -- The `catch` around the loops: the peer is told, unless the connection is gone.
  unfoldable pub fail : Sender → Failure → Sender × List Effect
  fail s e = (
    settle s,
    if s.connection_lost then rejected e ∷ [] else send_abort (to_hex file_id) ∷ rejected e ∷ [],
  )

  -- After both loops: an abort is passed on if it is ours, and rejects the promise.
  unfoldable pub finish : Sender → Sender × List Effect
  finish s = elim s.aborted [
    | none ↦ (settle s, resolved ∷ [])
    | some a ↦ (
      settle s,
      if a.remote
          then rejected_abort a.reason ∷ []
          else send_abort (to_hex file_id) ∷ rejected_abort a.reason ∷ [],
    )
  ]

  -- The test of the loop that waits for the last acknowledgements.
  unfoldable pub await_acks : Sender → Sender × List Effect
  unfolding finish
  await_acks s = elim s.aborted [
    | none ↦
        if is_unacked s.acked_up_to total_chunks
        then (record s { phase = draining }, [])
        else finish s
    | some a ↦ finish s
  ]

  -- The head of the `for` loop, behind the `while` that waits for room in the window.
  unfoldable pub begin_chunk : Sender → Sender × List Effect
  unfolding finish
  begin_chunk s = elim s.aborted [
    | none ↦ (record s { phase = reading s.key }, [])
    | some a ↦ finish s
  ]

  unfoldable pub next_chunk : Sender → Sender × List Effect
  unfolding begin_chunk await_acks
  next_chunk s =
      if ltb s.index total_chunks
      then if is_window_full s.index s.acked_up_to
        then (record s { phase = window }, [])
        else begin_chunk s
      else await_acks s

  -- `if (aborted) break` leaves both loops; otherwise the window is tested again.
  unfoldable pub leave_window : Sender → Sender × List Effect
  unfolding finish next_chunk
  leave_window s = elim s.aborted [ none ↦ next_chunk s | some a ↦ finish s ]

  -- A waiter has been woken: the checks behind its `await`.
  unfoldable pub wake : Sender → Sender × List Effect
  unfolding fail leave_window await_acks
  wake s = elim s.phase [
    | window ↦ if s.connection_lost then fail s Results.connection_lost else leave_window s
    | draining ↦ if s.connection_lost then fail s Results.connection_lost else await_acks s
    | _ ↦ (s, [])
  ]

  abbrev pub is_ours : Payload → Bool
  is_ours p = elim p.file_id [ none ↦ false | some id ↦ list_eq id (to_hex file_id) ]

  abbrev pub acknowledged : Payload → Option ℤ
  acknowledged p = elim p.acked_up_to [ none ↦ none | some n ↦ some (pos n) ]

  -- An acknowledgement or an abort of this file.
  unfoldable pub on_payload : Sender → Kind → Payload → Sender × List Effect
  unfolding wake
  on_payload s chunk_ack p =
      if is_ours p then wake (record s { acked_up_to = acknowledged p }) else (s, [])
  on_payload s file_abort p =
      if is_ours p
      then wake (record s { aborted = some (record { remote = true; reason = p.reason }) })
      else (s, [])
  on_payload s _ p = (s, [])

  -- `onMessage`. A payload that is missing throws in the listener, which changes nothing.
  unfoldable pub on_message : Sender → Incoming → Sender × List Effect
  unfolding on_payload parse_envelope
  on_message s incoming = elim (parse_envelope incoming) [
    | none ↦ (s, [])
    | some env ↦ elim env.payload [ none ↦ (s, []) | some p ↦ on_payload s env.kind p ]
  ]

  unfoldable pub on_close : Sender → Sender × List Effect
  unfolding wake
  on_close s = wake (record s { connection_lost = true })

  unfoldable pub on_signal_abort : Sender → Sender × List Effect
  unfolding wake
  on_signal_abort s = wake (record s { aborted = some (record { remote = false; reason = none }) })

  -- The listeners are attached from the first round on, until the promise settles.
  abbrev pub is_listening : Phase → Bool
  is_listening keying = false
  is_listening (sealing_meta key) = false
  is_listening settled = false
  is_listening _ = true

  -- What stands before the `try`: a failure there only rejects.
  unfoldable pub have_key : Sender → Sender × List Effect
  have_key s = elim (derive_file_key w epoch_key file_id) [
    | throw e ↦ (settle s, rejected e ∷ [])
    | ok key ↦ (record s { phase = sealing_meta key; key = key }, [])
  ]

  abbrev pub meta_text : Bytes
  meta_text = codec.print (record { name = file.name; size = file_size; mime = file.mime })

  unfoldable pub have_meta : Sender → Bytes → Sender × List Effect
  unfolding next_chunk
  have_meta s key = elim (encrypt_chunk w key file_id metadata_chunk_index true meta_text) [
    | throw e ↦ (settle s, rejected e ∷ [])
    | ok ciphertext ↦
        let (s', effects) = next_chunk s in (s', send_meta (to_hex file_id) ciphertext ∷ effects)
  ]

  -- The frame of the chunk that was read.
  unfoldable pub seal_frame : Sender → Bytes → Bytes → Result Bytes
  seal_frame s key plaintext = do
    let last = s.index == total_chunks - 1
    ciphertext ← encrypt_chunk w key file_id s.index last plaintext
    build_chunk_frame file_id s.index last ciphertext

  -- The rest of a round: the frame goes out, progress is reported, the next round begins.
  unfoldable pub have_chunk : Sender → Bytes → Bytes → Sender × List Effect
  unfolding seal_frame next_chunk fail
  have_chunk s key plaintext = elim (seal_frame s key plaintext) [
    | throw e ↦ fail s e
    | ok frame ↦
        let end = min (s.index * chunk_size + chunk_size) file_size in
        let (s', effects) = next_chunk (record s { index = s.index + 1 }) in
        (s', send_frame frame ∷ progress end file_size ∷ effects)
  ]

  unfoldable pub on_computed : Sender → Sender × List Effect
  unfolding have_key have_meta have_chunk
  on_computed s = elim s.phase [
    | keying ↦ have_key s
    | sealing_meta key ↦ have_meta s key
    | sealing key plaintext ↦ have_chunk s key plaintext
    | _ ↦ (s, [])
  ]

  unfoldable pub on_read : Sender → Option Failure → Sender × List Effect
  unfolding fail chunk_at
  on_read s failure = elim s.phase [
    | reading key ↦ elim failure [
      | none ↦ (record s { phase = sealing key (chunk_at chunk_size file.content s.index) }, [])
      | some e ↦ fail s e
    ]
    | _ ↦ (s, [])
  ]

  unfoldable pub step : Sender → Event → Sender × List Effect
  unfolding on_message on_close on_signal_abort on_computed on_read
  step s (message incoming) = if is_listening s.phase then on_message s incoming else (s, [])
  step s close = if is_listening s.phase then on_close s else (s, [])
  step s signal_abort = if is_listening s.phase then on_signal_abort s else (s, [])
  step s computed = on_computed s
  step s (read failure) = on_read s failure

  unfoldable pub run : Sender → List Event → Sender × List Effect
  unfolding step
  run s [] = (s, [])
  run s (e ∷ es) =
      let (s', effects) = step s e in let (s'', later) = run s' es in (s'', effects ++ later)
