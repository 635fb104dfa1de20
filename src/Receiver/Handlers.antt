-- ===== src/Receiver/Handlers.antt =====
-- Each handler of the receiver, from one `await` to the next, makes calls that its stage allows.
use quicksend.Base.{
  ℕ, ◌≡◌, refl, Bool, true, false, inl, inr, Option, none, some, arith, Bool-cases,
}
use quicksend.Base.Bytes.{Bytes, Text}
use quicksend.Base.Results.{Failure, Result, ok, throw, type_error}
use quicksend.Base.Tables.{list_eq, list_eq_sound}
use quicksend.Hex.{to_hex}
use quicksend.Crypto.Platform.{WebCrypto}
use quicksend.Crypto.{metadata_chunk_index, derive_file_key, decrypt_chunk}
use quicksend.Frame.{ChunkFrame, parse_chunk_frame}
use quicksend.Wire.{Payload}
use quicksend.Receiver.State.{
  MetadataCodec, Current, Task, Await, take_meta, take_abort, take_chunk, keying, opening, starting,
  decrypting, writing,
}
use quicksend.Receiver.Protocol.{
  start, hand, ack, ack_last, complete, ack_orphan, error_faulty, error_handing, error_orphan,
  abort, done, call,
}
use quicksend.Receiver.{
  handle_file_meta, chunk_for, handle_chunk_frame, handle_file_abort, begin, start_file, deliver,
  after_crypto, acknowledge, after_handler, is_expected,
}
use quicksend.Receiver.Stages.{
  Coherent, Follows, Coherent-none, Coherent-keying, Coherent-opening, fails, free, free_stage,
  handing_stage, stage_of,
}

pub handle_file_meta-Follows :
    (current : Option Current) (p : Option Payload)
    → Follows (free_stage current) (handle_file_meta current p)
unfolding handle_file_meta
handle_file_meta-Follows current none = fails current type_error
handle_file_meta-Follows current (some p) = go p.file_id
  where
    go :
        (id : Option Text)
        → Follows (free_stage current) (handle_file_meta current (some (record p { file_id = id })))
    go none = fails current type_error
    go (some id) = record { moves = done; coherent = Coherent-keying current id _ _ }

pub chunk_for-Follows :
    (current : Option Current) (frame : ChunkFrame)
    → Follows (free_stage current) (chunk_for current frame)
unfolding chunk_for
chunk_for-Follows none frame = record { moves = done; coherent = tt }
chunk_for-Follows (some c) frame = elim (Bool-cases (is_expected c frame)) [
  | inl here ↦
      rw (here, chunk_for)
        (record {
          moves = done;
          coherent = (
            list_eq_sound (to_hex frame.file_id) c.file_id_hex (ground arith),
            ground arith,
            refl,
          );
        })
  | inr other ↦ rw (other, chunk_for) (fails (some c) _)
]

pub handle_chunk_frame-Follows :
    (current : Option Current) (buffer : Bytes)
    → Follows (free_stage current) (handle_chunk_frame current buffer)
unfolding handle_chunk_frame
handle_chunk_frame-Follows current buffer = go (parse_chunk_frame buffer) refl
  where
    go :
        (o : Option ChunkFrame)
        → parse_chunk_frame buffer ≡ o
        → Follows (free_stage current) (handle_chunk_frame current buffer)
    go none e =
        rw (e, handle_chunk_frame) (record { moves = done; coherent = Coherent-none current })
    go (some frame) e = rw (e, handle_chunk_frame) (chunk_for-Follows current frame)

pub handle_file_abort-Follows :
    (current : Option Current) (p : Option Payload)
    → Follows (free_stage current) (handle_file_abort current p)
unfolding handle_file_abort
handle_file_abort-Follows none p = record { moves = done; coherent = tt }
handle_file_abort-Follows (some c) none = fails (some c) type_error
handle_file_abort-Follows (some c) (some p) = go p.file_id
  where
    go :
        (id : Option Text)
        → Follows
            (free_stage (some c))
            (handle_file_abort (some c) (some (record p { file_id = id })))
    go none = record { moves = done; coherent = tt }
    go (some id) = elim (Bool-cases (list_eq id c.file_id_hex)) [
      | inl same ↦
          rw (same, handle_file_abort)
            (record {
              moves = call (abort c.file_id_hex c.expected_index p.reason) done;
              coherent = tt;
            })
      | inr other ↦ rw (other, handle_file_abort) (record { moves = done; coherent = tt })
    ]

pub begin-Follows :
    (current : Option Current) (task : Task) → Follows (free_stage current) (begin current task)
unfolding begin
begin-Follows current (take_meta p) = handle_file_meta-Follows current p
begin-Follows current (take_abort p) = handle_file_abort-Follows current p
begin-Follows current (take_chunk b) = handle_chunk_frame-Follows current b

pub acknowledge-Follows :
    (current : Option Current) (id : Text) (n : ℕ) (last : Bool)
    → Coherent current (some (writing id n last))
    → Follows (handing_stage current id n last) (acknowledge current id n last)
unfolding acknowledge
acknowledge-Follows none id n last h = record {
  moves = call (ack_orphan id n) (call (error_faulty _) done);
  coherent = tt;
}
acknowledge-Follows (some c) id n true h = record {
  moves = call (ack_last id n) (call (complete id) done);
  coherent = tt;
}
acknowledge-Follows (some c) id n false h = record {
  moves = rw (← h.0, ← h.1) (call (ack id n) done);
  coherent = tt;
}

pub after_handler-Follows :
    (current : Option Current) (await : Await) (failure : Option Failure)
    → Coherent current (some await)
    → Follows (stage_of current (some await)) (after_handler current await failure)
unfolding after_handler
after_handler-Follows current starting none h = record {
  moves = done;
  coherent = Coherent-none current;
}
after_handler-Follows current starting (some e) h = fails current e
after_handler-Follows current (writing id n last) none h = acknowledge-Follows current id n last h
after_handler-Follows none (writing id n last) (some e) h = record {
  moves = call (error_orphan id n e) done;
  coherent = tt;
}
after_handler-Follows (some c) (writing id n last) (some e) h = record {
  moves = rw (← h.0, ← h.1) (call (error_handing id n last e) done);
  coherent = tt;
}
after_handler-Follows current (keying id x b) failure h = record { moves = done; coherent = h }
after_handler-Follows current (opening id b k x) failure h = record { moves = done; coherent = h }
after_handler-Follows current (decrypting f k) failure h = record { moves = done; coherent = h }

pub deliver-Follows :
    (current : Option Current) (frame : ChunkFrame) (key plaintext : Bytes)
    → Coherent current (some (decrypting frame key))
    → Follows (free_stage current) (deliver current frame plaintext)
unfolding deliver
deliver-Follows none frame key plaintext h = fails none type_error
deliver-Follows (some c) frame key plaintext h = record {
  moves = rw (h.0) (call (hand c.file_id_hex c.expected_index frame.is_last plaintext) done);
  coherent = (h.0, refl);
}

module _ (w : WebCrypto) (codec : MetadataCodec) (epoch_key : Bytes) where
  pub start_file-Follows :
      (current : Option Current) (id : Text) (key plaintext : Bytes)
      → Follows (free_stage current) (start_file w codec epoch_key current id key plaintext)
  unfolding start_file
  start_file-Follows current id key plaintext = go (codec.parse plaintext) refl
    where
      go :
          (o : Option _)
          → codec.parse plaintext ≡ o
          → Follows (free_stage current) (start_file w codec epoch_key current id key plaintext)
      go none e = rw (e, start_file) (fails current _)
      go (some meta) e =
          rw (e, start_file)
            (record { moves = call (start id meta (free current)) done; coherent = tt })

  pub after_crypto-Follows :
      (current : Option Current) (await : Await)
      → Coherent current (some await)
      → Follows (stage_of current (some await)) (after_crypto w codec epoch_key current await)
  unfolding after_crypto
  after_crypto-Follows current starting h = record { moves = done; coherent = h }
  after_crypto-Follows current (writing id n last) h = record { moves = done; coherent = h }
  after_crypto-Follows current (keying id x b) h = go x (derive_file_key w epoch_key b) refl
    where
      go :
          (y : Option Text) (r : Result Bytes)
          → derive_file_key w epoch_key b ≡ r
          → Follows (free_stage current) (after_crypto w codec epoch_key current (keying id y b))
      go y (throw e) p = rw (p, after_crypto) (fails current e)
      go none (ok key) p = rw (p, after_crypto) (fails current type_error)
      go (some hex) (ok key) p =
          rw (p, after_crypto)
            (record { moves = done; coherent = Coherent-opening current id b key _ })
  after_crypto-Follows current (opening id b k x) h =
      go (decrypt_chunk w k b metadata_chunk_index true x) refl
    where
      go :
          (r : Result Bytes)
          → decrypt_chunk w k b metadata_chunk_index true x ≡ r
          → Follows (free_stage current) (after_crypto w codec epoch_key current (opening id b k x))
      go (throw e) p = rw (p, after_crypto) (fails current e)
      go (ok plaintext) p = rw (p, after_crypto) (start_file-Follows current id k plaintext)
  after_crypto-Follows current (decrypting f k) h =
      go (decrypt_chunk w k f.file_id f.index f.is_last f.ciphertext) refl
    where
      go :
          (r : Result Bytes)
          → decrypt_chunk w k f.file_id f.index f.is_last f.ciphertext ≡ r
          → Follows (free_stage current) (after_crypto w codec epoch_key current (decrypting f k))
      go (throw e) p = rw (p, after_crypto) (fails current e)
      go (ok plaintext) p = rw (p, after_crypto) (deliver-Follows current f k plaintext h)
