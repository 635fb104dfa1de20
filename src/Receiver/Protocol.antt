-- ===== src/Receiver/Protocol.antt =====
-- What a receiver promises to its callbacks and to the sender, with no file keys, no queue and no
-- promises in it: the stages of one file, and which call may be made at which stage.
use quicksend.Base.{ℕ, ◌+◌, Bool, true, false, List, [], ◌∷◌, ◌++◌, Option}
use quicksend.Base.Bytes.{Bytes, Text}
use quicksend.Base.Results.{Failure}
use quicksend.Receiver.State.{
  Metadata, Effect, on_file_start, on_chunk, on_file_complete, on_aborted, on_error, send_ack,
  send_abort,
}

-- `expecting id n`: chunks 0 to n - 1 of the file were handed over and acknowledged.
-- `handing id n last`: chunk n was handed over too, and is not acknowledged.
-- `finished id`: the last chunk is acknowledged, and the end not yet reported.
-- `orphaned id n`: the file was given up while chunk n was with `onChunk`.
-- `faulty`: that chunk was acknowledged all the same.
pub data Stage : Type 0 where
  idle faulty : Stage
  expecting : Text → ℕ → Stage
  handing : Text → ℕ → Bool → Stage
  finished : Text → Stage
  orphaned : Text → ℕ → Stage

-- A file can be started while another is unfinished: that one is forgotten.
pub data IsFree : Stage → Type 0 where
  free_idle : IsFree idle
  free_expecting : {id : Text} {n : ℕ} → IsFree (expecting id n)

pub data Move : Stage → Effect → Stage → Type 0 where
  start :
      {s : Stage} (id : Text) (meta : Metadata)
      → IsFree s
      → Move s (on_file_start id meta) (expecting id 0)
  hand :
      (id : Text) (n : ℕ) (last : Bool) (plaintext : Bytes)
      → Move (expecting id n) (on_chunk id n last plaintext) (handing id n last)
  ack : (id : Text) (n : ℕ) → Move (handing id n false) (send_ack id n) (expecting id (n + 1))
  ack_last : (id : Text) (n : ℕ) → Move (handing id n true) (send_ack id n) (finished id)
  complete : (id : Text) → Move (finished id) (on_file_complete id) idle
  ack_orphan : (id : Text) (n : ℕ) → Move (orphaned id n) (send_ack id n) faulty
  error_faulty : (e : Failure) → Move faulty (on_error e) idle
  error_free : {s : Stage} (e : Failure) → IsFree s → Move s (on_error e) s
  error_handing :
      (id : Text) (n : ℕ) (last : Bool) (e : Failure)
      → Move (handing id n last) (on_error e) (expecting id n)
  error_orphan : (id : Text) (n : ℕ) (e : Failure) → Move (orphaned id n) (on_error e) idle
  lose : (id : Text) (n : ℕ) (e : Failure) → Move (expecting id n) (on_error e) idle
  lose_handing :
      (id : Text) (n : ℕ) (last : Bool) (e : Failure)
      → Move (handing id n last) (on_error e) (orphaned id n)
  tell : (id : Text) (n : ℕ) → Move (expecting id n) (send_abort id) (expecting id n)
  tell_handing :
      (id : Text) (n : ℕ) (last : Bool)
      → Move (handing id n last) (send_abort id) (handing id n last)
  abort :
      (id : Text) (n : ℕ) (reason : Option Text) → Move (expecting id n) (on_aborted id reason) idle
  abort_handing :
      (id : Text) (n : ℕ) (last : Bool) (reason : Option Text)
      → Move (handing id n last) (on_aborted id reason) (orphaned id n)

-- The calls of a whole run.
pub data Moves : Stage → List Effect → Stage → Type 0 where
  done : {s : Stage} → Moves s [] s
  call :
      {s t u : Stage} {e : Effect} {es : List Effect}
      → Move s e t
      → Moves t es u
      → Moves s (e ∷ es) u

pub Moves-append :
    {s t u : Stage} {es fs : List Effect} → Moves s es t → Moves t fs u → Moves s (es ++ fs) u
Moves-append done q = q
Moves-append (call m p) q = call m (Moves-append p q)
