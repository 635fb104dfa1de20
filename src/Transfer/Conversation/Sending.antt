-- ===== src/Transfer/Conversation/Sending.antt =====
-- The sender's part of a conversation, round by round.
use quicksend.Base.{
  ℕ, ◌+◌, ◌<◌, ◌≡◌, refl, ap, ◌∙◌, true, false, List, [], ◌∷◌, ◌++◌, none, some, map, arith,
  append-nil, ltb, lt→ltb,
}
use mathlib.Core.Path.{ap₂}
use quicksend.Base.Int.{ℤ, pos, negsuc, pos_part, neg_part, ◌-ℤ◌}
use quicksend.Base.Tables.{list_eq_refl}
use quicksend.Hex.{to_hex}
use quicksend.Wire.{parse_envelope}
use quicksend.Receiver
use quicksend.Receiver.State.{Receiver, on_file_start, on_chunk, on_file_complete, send_ack}
use quicksend.Receiver.State as Receiving
use quicksend.Sender.State.{
  Call, Phase, Sender, Effect, fresh, draining, settled, sealing_meta, reading, sealing, message,
  read, send_meta, resolved,
}
use quicksend.Sender.{
  chunk_size, chunk_at, is_window_full, is_unacked, next_chunk, on_message, on_payload, wake, step,
  run,
}
use quicksend.Sender.Sealing.{chunk_sent}
use quicksend.Sender.Transcript.{total, file_key_of, meta_ciphertext, data_of, is_last_at}
use quicksend.Transfer.{handle_each, sent_metadata, calls_upto}
use quicksend.Transfer.Steps.{between}
use quicksend.Transfer.Conversation.{Ends, ack_message, answers_of, exchange, round}

-- `a` is n - 1.
abbrev pub IsBefore : ℤ → ℕ → Type 0
IsBefore a n = pos_part a + 1 ≡ n + neg_part a

pub has_room : (n : ℕ) (a : ℤ) → IsBefore a n → is_window_full (n + 1) (some a) ≡ false
unfolding ◌-ℤ◌
has_room n a h = ground arith

pub has_room_first : is_window_full 0 (some (negsuc 0)) ≡ false
unfolding ◌-ℤ◌
has_room_first = refl

pub waits_for_last : (n : ℕ) (a : ℤ) → IsBefore a n → is_unacked (some a) (n + 1) ≡ true
unfolding ◌-ℤ◌
waits_for_last n a h = ground arith

pub has_last : (n : ℕ) → is_unacked (some (pos n)) (n + 1) ≡ false
unfolding ◌-ℤ◌
has_last n = ground arith

module _ (c : Call) where
  open c use {crypto as w, codec, epoch_key, file_id, file}

  -- The sender at the head of a round, with the last acknowledgement that it has.
  abbrev pub at_round : ℕ → ℤ → Sender
  at_round n a = record {
    phase = reading (file_key_of c);
    key = file_key_of c;
    index = n;
    acked_up_to = some a;
    connection_lost = false;
    aborted = none;
  }

  pub reads :
      (n : ℕ) (a : ℤ)
      → step c (at_round n a) (read none) ≡ (
        record (at_round n a) {
          phase = sealing (file_key_of c) (chunk_at chunk_size file.content n);
        },
        [],
      )
  unfolding step
  reads n a = refl

  pub begins :
      (n : ℕ) (a : ℤ) (p : Phase)
      → n < total c
      → is_window_full n (some a) ≡ false
      → next_chunk c (record (at_round n a) { phase = p }) ≡ (at_round n a, [])
  unfolding next_chunk
  begins n a p l room = rw (lt→ltb n (total c) l, room) refl

  pub drains :
      (n : ℕ) (a : ℤ) (p : Phase)
      → n ≡ total c
      → is_unacked (some a) (total c) ≡ true
      → next_chunk c (record (at_round n a) { phase = p })
        ≡ (record (at_round n a) { phase = draining }, [])
  unfolding next_chunk
  drains n a p e open' = let no : ltb n (total c) ≡ false = ground arith in rw (no, open') refl

  -- An acknowledgement that comes while the sender reads.
  pub notes_ack :
      (n m : ℕ) (a : ℤ)
      → run c (at_round n a) (message (ack_message (to_hex file_id) m) ∷ [])
        ≡ (at_round n (pos m), [])
  unfolding run step on_message on_payload wake parse_envelope
  notes_ack n m a = rw (list_eq_refl (to_hex file_id)) refl

  -- The last one.
  pub ends_ack :
      (n m : ℕ) (a : ℤ)
      → is_unacked (some (pos m)) (total c) ≡ false
      → run c
          (record (at_round n a) { phase = draining })
          (message (ack_message (to_hex file_id) m) ∷ [])
        ≡ (record (at_round n (pos m)) { phase = settled }, resolved ∷ [])
  unfolding run step on_message on_payload wake parse_envelope
  ends_ack n m a last = rw (list_eq_refl (to_hex file_id), last) refl

  -- What an exchange comes to, from what both ends do.
  pub exchanged :
      (ends : Ends) (out : Sender × List Effect) (r : Receiver) (calls : List Receiving.Effect)
      (s : Sender) (later : List Effect)
      → Receiver.run w codec epoch_key ends.receiver (handle_each (data_of out.1)) ≡ (r, calls)
      → run c out.0 (map message (answers_of calls)) ≡ (s, later)
      → exchange c ends out ≡ record {
        sender = s;
        receiver = r;
        sent = ends.sent ++ (out.1 ++ later);
        calls = ends.calls ++ calls;
      }
  unfolding exchange
  exchanged ends out r calls s later p q =
      ap
        (λ (got : Receiver × List Receiving.Effect).
          let (s', later') = run c out.0 (map message (answers_of got.1)) in
          let e : Ends = record {
            sender = s';
            receiver = got.0;
            sent = ends.sent ++ (out.1 ++ later');
            calls = ends.calls ++ got.1;
          } in
          e)
        p
      ∙ ap
          (λ (back : Sender × List Effect).
            let e : Ends = record {
              sender = back.0;
              receiver = r;
              sent = ends.sent ++ (out.1 ++ back.1);
              calls = ends.calls ++ calls;
            } in
            e)
          q

  -- Before and after the file is read, at chunk `n`.
  abbrev pub heading : ℕ → ℤ → List Effect → List Receiving.Effect → Ends
  heading n a sent calls = record {
    sender = at_round n a;
    receiver = between c n;
    sent = sent;
    calls = calls;
  }

  abbrev pub with_slice : ℕ → ℤ → Sender
  with_slice n a = record (at_round n a) {
    phase = sealing (file_key_of c) (chunk_at chunk_size file.content n);
  }

  abbrev pub sealing_at : ℕ → ℤ → List Effect → List Receiving.Effect → Ends
  sealing_at n a sent calls = record (heading n a sent calls) { sender = with_slice n a }

  abbrev pub ends_of : Sender → Receiver → List Effect → List Receiving.Effect → Ends
  ends_of s r sent calls = record { sender = s; receiver = r; sent = sent; calls = calls }

  -- A round in which nothing is sent.
  pub silent :
      (s s' : Sender) (r : Receiver) (sent : List Effect) (calls : List Receiving.Effect)
      → exchange c (ends_of s r sent calls) (s', []) ≡ ends_of s' r sent calls
  silent s s' r sent calls =
      exchanged (ends_of s r sent calls) (s', []) r [] s' []
        (unfold handle_each data_of in unfold Receiver.run in refl)
        (unfold answers_of in unfold run in refl)
      ∙ ap₂ (ends_of s' r) (append-nil sent) (append-nil calls)

  pub read_round :
      (n : ℕ) (a : ℤ) (sent : List Effect) (calls : List Receiving.Effect)
      → round c (heading n a sent calls) ≡ sealing_at n a sent calls
  unfolding round
  read_round n a sent calls =
      ap (exchange c (heading n a sent calls)) (reads n a)
      ∙ silent (at_round n a) (with_slice n a) (between c n) sent calls

  abbrev pub chunk_effects : ℕ → ℤ → List Effect
  chunk_effects n a = chunk_sent c (at_round n a)

  abbrev pub chunk_calls : ℕ → List Receiving.Effect
  chunk_calls n =
      on_chunk (to_hex file_id) n (is_last_at c n) (chunk_at chunk_size file.content n)
      ∷ send_ack (to_hex file_id) n
      ∷ []

  abbrev pub last_calls : ℕ → List Receiving.Effect
  last_calls n =
      on_chunk (to_hex file_id) n (is_last_at c n) (chunk_at chunk_size file.content n)
      ∷ send_ack (to_hex file_id) n
      ∷ on_file_complete (to_hex file_id)
      ∷ []

  abbrev pub calls_before : ℕ → List Receiving.Effect
  calls_before n = on_file_start (to_hex file_id) (sent_metadata c) ∷ calls_upto c n

  abbrev pub start : Ends
  start = ends_of fresh Receiving.fresh [] []

  abbrev pub meta_sent : List Effect
  meta_sent = send_meta (to_hex file_id) (meta_ciphertext c) ∷ []

  abbrev pub keyed : Sender
  keyed = record fresh { phase = sealing_meta (file_key_of c); key = file_key_of c }
