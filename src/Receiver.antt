-- ===== src/Receiver.antt =====
-- web/transfer.js, attachReceiver. The receiver is a state machine: an event is a socket event, a
-- call of `abortCurrent` or `detach`, or the settling of the promise that the running handler
-- awaits. Handlers run one after the other on the promise chain, but `onClose` and `abortCurrent`
-- run between their awaits. All five callbacks are given, as the only caller (transfer-ui.js) does.
pub mod State
pub mod Protocol
pub mod Stages
pub mod Handlers
pub mod Refinement
pub mod Failures
pub mod Authenticity
use quicksend.Base.{
  ℕ, suc, ◌+◌, Bool, true, false, ◌&&◌, List, [], ◌∷◌, ◌++◌, Option, none, some, ◌==◌,
  if◌then◌else◌,
}
use quicksend.Base.Bytes.{Bytes, Text}
use quicksend.Base.Results.{
  Failure, type_error, syntax_error, connection_lost, out_of_order, Result, ok, throw,
}
use quicksend.Base.Tables.{list_eq}
use quicksend.Hex.{to_hex, from_hex}
use quicksend.Crypto.Platform.{WebCrypto}
use quicksend.Crypto.{metadata_chunk_index, derive_file_key, decrypt_chunk}
use quicksend.Frame.{ChunkFrame, parse_chunk_frame}
use quicksend.Wire.{
  Payload, Envelope, Incoming, text, binary, file_meta, file_abort, parse_envelope,
}
use quicksend.Receiver.State.{
  Metadata, MetadataCodec, Current, Task, Await, Effect, Receiver, Event, take_meta, take_abort,
  take_chunk, keying, opening, starting, decrypting, writing, on_file_start, on_chunk,
  on_file_complete, on_aborted, on_error, send_ack, send_abort, message, close, cancel, detach,
  computed, handled,
}

-- What a handler's next piece of synchronous code leaves: `current`, what it awaits (`none` where it
-- has returned), and the calls that it made.
pub record Outcome : Type 0 where
  pub current : Option Current
  pub await : Option Await
  pub effects : List Effect

abbrev pub stop : Option Current → List Effect → Outcome
stop current effects = record { current = current; await = none; effects = effects }

abbrev wait : Option Current → Await → List Effect → Outcome
wait current await effects = record { current = current; await = some await; effects = effects }

-- handleFileMeta up to its first `await`; reading a field of `undefined` throws.
unfoldable pub handle_file_meta : Option Current → Option Payload → Outcome
handle_file_meta current none = stop current (on_error type_error ∷ [])
handle_file_meta current (some p) = elim p.file_id [
  | none ↦ stop current (on_error type_error ∷ [])
  | some id ↦ wait current (keying id p.ciphertext (from_hex id)) []
]

abbrev is_expected : Current → ChunkFrame → Bool
is_expected c frame =
    list_eq (to_hex frame.file_id) c.file_id_hex && frame.index == c.expected_index

-- handleChunkFrame up to its first `await`.
unfoldable pub chunk_for : Option Current → ChunkFrame → Outcome
chunk_for none frame = stop none []
chunk_for (some c) frame =
    if is_expected c frame
    then wait (some c) (decrypting frame c.file_key) []
    else stop (some c) (on_error out_of_order ∷ [])

unfoldable pub handle_chunk_frame : Option Current → Bytes → Outcome
unfolding chunk_for
handle_chunk_frame current buffer = elim (parse_chunk_frame buffer) [
  | none ↦ stop current []
  | some frame ↦ chunk_for current frame
]

-- handleFileAbort, which awaits nothing.
unfoldable pub handle_file_abort : Option Current → Option Payload → Outcome
handle_file_abort none payload = stop none []
handle_file_abort (some c) none = stop (some c) (on_error type_error ∷ [])
handle_file_abort (some c) (some p) = elim p.file_id [
  | none ↦ stop (some c) []
  | some id ↦
      if list_eq id c.file_id_hex
      then stop none (on_aborted c.file_id_hex p.reason ∷ [])
      else stop (some c) []
]

unfoldable pub begin : Option Current → Task → Outcome
unfolding handle_file_meta handle_chunk_frame handle_file_abort
begin current (take_meta payload) = handle_file_meta current payload
begin current (take_abort payload) = handle_file_abort current payload
begin current (take_chunk buffer) = handle_chunk_frame current buffer

-- A handler that awaits keeps the chain waiting; one that has returned lets it go on.
unfoldable pub hold_or :
    Bool → List Task → Outcome → Receiver × List Effect → Receiver × List Effect
hold_or attached queue o rest = elim o.await [
  | none ↦ rest
  | some await ↦ (
    record { attached = attached; current = o.current; running = some await; queue = queue },
    o.effects,
  )
]

-- The promise chain: the waiting handlers run until one awaits. `before` are the calls made so far.
unfoldable pub drain : Bool → Option Current → List Task → List Effect → Receiver × List Effect
unfolding begin hold_or
drain attached current [] before =
    (record { attached = attached; current = current; running = none; queue = [] }, before)
drain attached current (task ∷ tasks) before =
    let next = begin current task in
    let o = record next { effects = before ++ next.effects } in
    hold_or attached tasks o (drain attached o.current tasks o.effects)

-- The next `await`, or the end of the handler and the rest of the chain.
unfoldable pub proceed : Bool → List Task → Outcome → Receiver × List Effect
unfolding drain hold_or
proceed attached queue o = hold_or attached queue o (drain attached o.current queue o.effects)

-- A chunk has been decrypted: `current.expectedIndex` throws where `current` is gone.
unfoldable pub deliver : Option Current → ChunkFrame → Bytes → Outcome
deliver none frame plaintext = stop none (on_error type_error ∷ [])
deliver (some c) frame plaintext =
    wait (some c) (writing (to_hex frame.file_id) c.expected_index frame.is_last)
      (on_chunk (to_hex frame.file_id) c.expected_index frame.is_last plaintext ∷ [])

-- A chunk has been handled: it is acknowledged, and the next one is expected.
unfoldable pub acknowledge : Option Current → Text → ℕ → Bool → Outcome
acknowledge none id index is_last = stop none (send_ack id index ∷ on_error type_error ∷ [])
acknowledge (some c) id index is_last =
    if is_last
    then stop none (send_ack id index ∷ on_file_complete id ∷ [])
    else stop (some (record c { expected_index = c.expected_index + 1 })) (send_ack id index ∷ [])

-- The promise of `onFileStart` or `onChunk` has settled, with an error or without.
unfoldable pub after_handler : Option Current → Await → Option Failure → Outcome
unfolding acknowledge
after_handler current starting none = stop current []
after_handler current starting (some e) = stop current (on_error e ∷ [])
after_handler current (writing id index is_last) none = acknowledge current id index is_last
after_handler current (writing id index is_last) (some e) = stop current (on_error e ∷ [])
after_handler current await failure = wait current await []

-- What the chain does with a message: `onMessage`.
unfoldable pub task_of : Incoming → Option Task
unfolding parse_envelope
task_of (binary bytes) = some (take_chunk bytes)
task_of (text envelope) = elim (parse_envelope (text envelope)) [
  | none ↦ none
  | some env ↦ elim env.kind [
    | file_meta ↦ some (take_meta env.payload)
    | file_abort ↦ some (take_abort env.payload)
    | _ ↦ none
  ]
]

unfoldable pub enqueue : Receiver → Task → Receiver × List Effect
unfolding drain
enqueue r task = elim r.running [
  | none ↦ drain r.attached r.current (r.queue ++ (task ∷ [])) []
  | some await ↦ (record r { queue = r.queue ++ (task ∷ []) }, [])
]

unfoldable pub on_message : Receiver → Incoming → Receiver × List Effect
unfolding task_of enqueue
on_message r incoming = elim (task_of incoming) [ none ↦ (r, []) | some task ↦ enqueue r task ]

unfoldable pub on_close : Receiver → Receiver × List Effect
on_close r = elim r.current [
  | none ↦ (r, [])
  | some c ↦ (record r { current = none }, on_error connection_lost ∷ [])
]

unfoldable pub abort_current : Receiver → Receiver × List Effect
abort_current r = elim r.current [
  | none ↦ (r, [])
  | some c ↦
      (record r { current = none }, send_abort c.file_id_hex ∷ on_aborted c.file_id_hex none ∷ [])
]

unfoldable pub resume_handler : Receiver → Option Failure → Receiver × List Effect
unfolding after_handler proceed
resume_handler r failure = elim r.running [
  | none ↦ (r, [])
  | some await ↦ proceed r.attached r.queue (after_handler r.current await failure)
]

module _ (w : WebCrypto) (codec : MetadataCodec) (epoch_key : Bytes) where
  -- The metadata has been decrypted: it is parsed, and the file becomes the current one.
  unfoldable pub start_file : Option Current → Text → Bytes → Bytes → Outcome
  start_file current id key plaintext = elim (codec.parse plaintext) [
    | none ↦ stop current (on_error syntax_error ∷ [])
    | some meta ↦
        wait (some (record { file_id_hex = id; file_key = key; expected_index = 0 })) starting
          (on_file_start id meta ∷ [])
  ]

  -- The promise of a key or of a decryption has settled.
  unfoldable pub after_crypto : Option Current → Await → Outcome
  unfolding start_file deliver
  after_crypto current (keying id ciphertext bytes) = elim (derive_file_key w epoch_key bytes) [
    | throw e ↦ stop current (on_error e ∷ [])
    | ok key ↦ elim ciphertext [
      | none ↦ stop current (on_error type_error ∷ [])
      | some hex ↦ wait current (opening id bytes key (from_hex hex)) []
    ]
  ]
  after_crypto current (opening id bytes key ciphertext) =
      elim (decrypt_chunk w key bytes metadata_chunk_index true ciphertext) [
        | throw e ↦ stop current (on_error e ∷ [])
        | ok plaintext ↦ start_file current id key plaintext
      ]
  after_crypto current (decrypting frame key) =
      elim (decrypt_chunk w key frame.file_id frame.index frame.is_last frame.ciphertext) [
        | throw e ↦ stop current (on_error e ∷ [])
        | ok plaintext ↦ deliver current frame plaintext
      ]
  after_crypto current await = wait current await []

  unfoldable pub resume_crypto : Receiver → Receiver × List Effect
  unfolding after_crypto proceed
  resume_crypto r = elim r.running [
    | none ↦ (r, [])
    | some await ↦ proceed r.attached r.queue (after_crypto r.current await)
  ]

  unfoldable pub step : Receiver → Event → Receiver × List Effect
  unfolding on_message on_close abort_current resume_crypto resume_handler
  step r (message incoming) = if r.attached then on_message r incoming else (r, [])
  step r close = if r.attached then on_close r else (r, [])
  step r cancel = abort_current r
  step r detach = (record r { attached = false }, [])
  step r computed = resume_crypto r
  step r (handled failure) = resume_handler r failure

  unfoldable pub run : Receiver → List Event → Receiver × List Effect
  unfolding step
  run r [] = (r, [])
  run r (e ∷ es) =
      let (r', effects) = step r e in let (r'', later) = run r' es in (r'', effects ++ later)
