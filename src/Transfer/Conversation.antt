-- ===== src/Transfer/Conversation.antt =====
-- web/transfer.js on both ends of one connection: what the sender puts on the socket reaches the
-- receiver, what the receiver answers reaches the sender, and no promise rejects.
pub mod Sending
pub mod Rounds
pub mod Completion
use quicksend.Base.{ℕ, zero, suc, List, [], ◌∷◌, ◌++◌, Option, none, some, map}
use quicksend.Base.Bytes.{Text}
use quicksend.Wire.{Incoming, text, no_fields, chunk_ack, file_abort}
use quicksend.Receiver.State.{
  Receiver, on_file_start, on_chunk, on_file_complete, on_aborted, on_error, send_ack, send_abort,
}
use quicksend.Receiver.State as Receiving
use quicksend.Receiver
use quicksend.Sender.State.{
  Call, Phase, Sender, Event, Effect, keying, window, draining, settled, sealing_meta, reading,
  sealing, message, computed, read,
}
use quicksend.Sender.{step, run}
use quicksend.Sender.Transcript.{data_of}
use quicksend.Transfer.{handle_each}

-- The promise that the sender awaits, with a success.
abbrev pub next_event : Phase → Option Event
next_event keying = some computed
next_event (sealing_meta key) = some computed
next_event (reading key) = some (read none)
next_event (sealing key plaintext) = some computed
next_event window = none
next_event draining = none
next_event settled = none

-- The messages of the receiver's calls of sendEnvelope.
abbrev pub ack_message : Text → ℕ → Incoming
ack_message id n = text (
    some (record {
      kind = chunk_ack;
      payload = some (record no_fields { file_id = some id; acked_up_to = some n });
    }))

abbrev pub abort_message : Text → Incoming
abort_message id =
    text
      (some (record { kind = file_abort; payload = some (record no_fields { file_id = some id }) }))

unfoldable pub answers_of : List Receiving.Effect → List Incoming
answers_of [] = []
answers_of (send_ack id n ∷ es) = ack_message id n ∷ answers_of es
answers_of (send_abort id ∷ es) = abort_message id ∷ answers_of es
answers_of (on_file_start id meta ∷ es) = answers_of es
answers_of (on_chunk id index last plaintext ∷ es) = answers_of es
answers_of (on_file_complete id ∷ es) = answers_of es
answers_of (on_aborted id reason ∷ es) = answers_of es
answers_of (on_error e ∷ es) = answers_of es

-- Both ends, with what they have done so far.
pub record Ends : Type 0 where
  pub sender : Sender
  pub receiver : Receiver
  pub sent : List Effect
  pub calls : List Receiving.Effect

module _ (c : Call) where
  open c use {crypto as w, codec, epoch_key}

  -- The receiver takes what was sent, and the sender its answers.
  unfoldable pub exchange : Ends → Sender × List Effect → Ends
  exchange ends out =
      let (r, calls) = Receiver.run w codec epoch_key ends.receiver (handle_each (data_of out.1)) in
      let (s, later) = run c out.0 (map message (answers_of calls)) in
      record {
        sender = s;
        receiver = r;
        sent = ends.sent ++ (out.1 ++ later);
        calls = ends.calls ++ calls;
      }

  -- One promise of the sender settles, and the messages go to and fro. Where it waits for a message
  -- none is under way, and nothing happens any more.
  unfoldable pub round : Ends → Ends
  unfolding exchange
  round ends = elim (next_event ends.sender.phase) [
    | none ↦ ends
    | some e ↦ exchange ends (step c ends.sender e)
  ]

  unfoldable pub converse : ℕ → Ends → Ends
  unfolding round
  converse zero ends = ends
  converse (suc n) ends = converse n (round ends)
