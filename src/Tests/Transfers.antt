-- ===== src/Tests/Transfers.antt =====
-- web/transfer.js on a three-byte file, over the toy Web Crypto.
use quicksend.Base.{
  ℕ, zero, suc, ◌^◌, ◌≤◌, ◌<◌, ◌≡◌, refl, sym, ap, ◌∙◌, subst, ◌⊎◌, inl, inr, Option, true, false,
  List, [], ◌∷◌, none, some, arith, length, replicate, All,
}
use quicksend.Base.{take, drop}
use quicksend.Base.Int.{negsuc, ◌-ℤ◌}
use quicksend.Base.Bytes.{set_at, big_endian}
use quicksend.Base.Tables.{list_eq}
use quicksend.Crypto.{derive_file_key, encrypt_chunk, import_aes_key, chunk_nonce, chunk_aad}
use quicksend.Base.Bytes.{Bytes, IsByte, zeros}
use quicksend.Hex.{to_hex}
use quicksend.Wire.{Payload, Envelope, text, chunk_ack, no_fields, parse_envelope}
use quicksend.Frame.{build_chunk_frame}
use quicksend.Receiver as Receiving
use quicksend.Receiver.State.{fresh}
use quicksend.Receiver.Protocol.{Moves, idle}
use quicksend.Receiver.Stages.{stage}
use quicksend.Receiver.Refinement.{run-Moves}
use quicksend.Sender as Sending
use quicksend.Sender.{chunk_size, chunk_at, chunk_count, total_chunks, is_unacked, acknowledged}
use quicksend.Sender.State as Calls
use quicksend.Sender.State.{Event, Sender, message, computed, read, reading, draining, settled}
use quicksend.Sender.Slices.{chunks_upto, chunks_partition}
use quicksend.Sender.Transcript.{total, transcript, data_of, resolves, file_key_of}
use quicksend.Sender.Outcomes.{sends_prefix}
use quicksend.Sender.Acks.{HasAck, AllNumbered, LastIsAcked, resolved_after_last_ack}
use quicksend.Sender.Room.{InWindow, Grown}
use quicksend.Sender.Window.{AllGrow, run-InWindow}
use quicksend.Sender.Stalls.{AllComputed, is_settled, lost_while_reading}
use quicksend.Transfer.{handle_each, delivered, file_calls}
use quicksend.Transfer.EndToEnd.{delivers_file}
use quicksend.Tests.Instances.{toy_crypto, toy_laws, toy_codec, toy_call, some-injective}

abbrev pub id : Bytes
id = replicate 16 171

pub id_bytes : All IsByte id
unfolding replicate
id_bytes = all 16
  where
    all : (n : ℕ) → All IsByte (replicate n 171)
    all zero = tt
    all (suc n) = (omega arith, all n)

pub one_chunk : total toy_call ≤ 2 ^ 64
unfolding chunk_count
one_chunk = omega arith

abbrev first_acked : Payload
first_acked = record no_fields { file_id = some (to_hex id); acked_up_to = some 0 }

abbrev ack : Event
ack = message (text (some (record { kind = chunk_ack; payload = some first_acked })))

-- The whole call: the key, the metadata, the one chunk, and its acknowledgement.
abbrev pub whole_call : List Event
whole_call = computed ∷ computed ∷ read none ∷ computed ∷ ack ∷ []

pub whole_call-resolves : resolves (Sending.run toy_call Calls.fresh whole_call).1 ≡ true
unfolding Sending.run Calls.fresh resolves to_hex parse_envelope derive_file_key encrypt_chunk
    import_aes_key chunk_nonce set_at big_endian chunk_aad take drop chunk_count ◌-ℤ◌
    build_chunk_frame list_eq
whole_call-resolves = refl

abbrev pub sent : Sender × List Calls.Effect
sent = Sending.run toy_call Calls.fresh whole_call

pub sixteen : length id ≡ 16
unfolding replicate
sixteen = refl

pub key_length : length (zeros 32) ≡ 32
unfolding replicate
key_length = refl

delivers_file_example :
    let received =
      Receiving.run toy_crypto toy_codec (zeros 32) fresh (handle_each (data_of sent.1)) in
    (received ≡ (fresh, file_calls toy_call)) × (delivered received.1 ≡ 1 ∷ 2 ∷ 255 ∷ [])
delivers_file_example =
    delivers_file toy_call toy_laws key_length sixteen id_bytes one_chunk whole_call
      whole_call-resolves

whole_call_numbered : AllNumbered toy_call whole_call
unfolding HasAck parse_envelope
whole_call_numbered p (inl never) = absurd never
whole_call_numbered p (inr (inl never)) = absurd never
whole_call_numbered p (inr (inr (inl never))) = absurd never
whole_call_numbered p (inr (inr (inr (inl never)))) = absurd never
whole_call_numbered p (inr (inr (inr (inr (inr never))))) = absurd never
whole_call_numbered p (inr (inr (inr (inr (inl (env, e, kind, q, ours)))))) =
    (0, ap acked_up_to_of (sym q ∙ ap payload_of (sym (some-injective e))))
  where
    acked_up_to_of : Option Payload → Option ℕ
    acked_up_to_of none = none
    acked_up_to_of (some payload) = payload.acked_up_to

    payload_of : Envelope → Option Payload
    payload_of envelope = envelope.payload

resolved_after_last_ack_example :
    LastIsAcked toy_call whole_call
    × (sent.0.aborted ≡ none)
    × (data_of sent.1 ≡ transcript toy_call (total toy_call))
resolved_after_last_ack_example =
    resolved_after_last_ack toy_call toy_laws key_length sixteen whole_call whole_call_numbered
      whole_call-resolves

-- An acknowledgement that carries no number ends the call just the same.
abbrev bare_ack : Event
bare_ack = message (
    text (
      some (record {
        kind = chunk_ack;
        payload = some (record no_fields { file_id = some (to_hex id) });
      })))

resolves_on_bare_ack :
    resolves
      (Sending.run toy_call Calls.fresh
        (computed ∷ computed ∷ read none ∷ computed ∷ bare_ack ∷ [])).1
    ≡ true
unfolding Sending.run Calls.fresh resolves to_hex parse_envelope derive_file_key encrypt_chunk
    import_aes_key chunk_nonce set_at big_endian chunk_aad take drop chunk_count ◌-ℤ◌
    build_chunk_frame list_eq
resolves_on_bare_ack = refl

sends_prefix_example :
    (data_of sent.1 ≡ [])
    ⊎ ((n : ℕ) × (n ≤ total toy_call) × (data_of sent.1 ≡ transcript toy_call n))
sends_prefix_example = sends_prefix toy_call toy_laws key_length sixteen whole_call

whole_call_grows : AllGrow toy_call Calls.fresh whole_call
unfolding AllGrow Sending.step Calls.fresh to_hex parse_envelope derive_file_key encrypt_chunk
    import_aes_key chunk_nonce set_at big_endian chunk_aad take drop chunk_count ◌-ℤ◌
    build_chunk_frame list_eq
whole_call_grows = (
  tt,
  (
    tt,
    (
      tt,
      (
        tt,
        (
          λ p e ours.
              subst (λ q. Grown (some (negsuc 0)) (acknowledged toy_call q)) (some-injective e)
                (omega arith),
          tt,
        ),
      ),
    ),
  ),
)

run-InWindow_example : InWindow sent.0.index sent.0.acked_up_to
run-InWindow_example = run-InWindow toy_call whole_call whole_call_grows

chunks_partition_example :
    let count = chunk_count 2 3 in
    (chunks_upto 2 (1 ∷ 2 ∷ 255 ∷ []) count ≡ 1 ∷ 2 ∷ 255 ∷ [])
    × ((i : ℕ)
        → i < count
        → (length (chunk_at 2 (1 ∷ 2 ∷ 255 ∷ []) i) ≤ 2)
          × (0 < i → 0 < length (chunk_at 2 (1 ∷ 2 ∷ 255 ∷ []) i)))
chunks_partition_example = chunks_partition 2 (1 ∷ 2 ∷ 255 ∷ []) (omega arith)

run-Moves_example :
    Moves idle
      (Receiving.run toy_crypto toy_codec (zeros 32) fresh (handle_each (data_of sent.1))).1
      (stage (Receiving.run toy_crypto toy_codec (zeros 32) fresh (handle_each (data_of sent.1))).0)
run-Moves_example = run-Moves toy_crypto toy_codec (zeros 32) (handle_each (data_of sent.1))

abbrev reading_now : Sender
reading_now = record Calls.fresh {
  phase = reading (file_key_of toy_call);
  key = file_key_of toy_call;
}

lost_while_reading_example :
    is_settled (Sending.run toy_call reading_now (Calls.close ∷ read none ∷ computed ∷ [])).0.phase
    ≡ false
unfolding Calls.fresh AllComputed chunk_count ◌-ℤ◌
lost_while_reading_example =
    lost_while_reading toy_call toy_laws key_length sixteen reading_now (read none ∷ computed ∷ [])
      refl (refl, refl, refl) tt
