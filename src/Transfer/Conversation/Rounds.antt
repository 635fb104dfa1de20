-- ===== src/Transfer/Conversation/Rounds.antt =====
-- The rounds of a conversation: the start, a chunk, the last chunk.
use quicksend.Base.{
  ℕ, ◌+◌, ◌^◌, ◌≤◌, ◌<◌, ◌≡◌, refl, ap, subst, ◌∙◌, true, false, List, [], ◌∷◌, ◌++◌, some, map,
  arith, length, All,
}
use quicksend.Base.Int.{ℤ, pos, negsuc}
use quicksend.Base.Bytes.{IsByte}
use quicksend.Crypto.Platform.{CryptoLaws}
use quicksend.Hex.{to_hex}
use quicksend.Receiver
use quicksend.Receiver.State.{Receiver, on_file_start, on_chunk, on_file_complete, send_ack}
use quicksend.Receiver.State as Receiving
use quicksend.Sender.State.{Call, Effect, fresh, draining, settled, message, computed, resolved}
use quicksend.Sender.{is_unacked, on_computed, step, run, chunk_count}
use quicksend.Sender.Loops.{before}
use quicksend.Sender.Sealing.{have_key_lem, have_meta_lem, have_chunk_lem}
use quicksend.Sender.Transcript.{total, data_of}
use quicksend.Transfer.{handle_each, sent_metadata, calls_upto}
use quicksend.Transfer.Steps.{between}
use quicksend.Transfer.Delivery.{starts, handles_chunk, handles_last}
use quicksend.Transfer.Conversation.{answers_of, exchange, round}
use quicksend.Transfer.Conversation.Sending.{
  IsBefore, has_room, has_room_first, waits_for_last, has_last, at_round, begins, drains, notes_ack,
  ends_ack, exchanged, heading, with_slice, sealing_at, ends_of, silent, chunk_effects, chunk_calls,
  last_calls, calls_before, start, meta_sent, keyed,
}

module _ (c : Call) (laws : CryptoLaws c.crypto) (key_length : length c.epoch_key ≡ 32)
    (id_length : length c.file_id ≡ 16) (id_bytes : All IsByte c.file_id)
    (chunks : total c ≤ 2 ^ 64) where
  open c use {crypto as w, codec, epoch_key, file_id, file}

  seals :
      (n : ℕ) (a : ℤ)
      → n + 1 < total c
      → IsBefore a n
      → step c (with_slice c n a) computed ≡ (at_round c (n + 1) a, chunk_effects c n a)
  unfolding step on_computed
  seals n a l h =
      have_chunk_lem c laws key_length id_length (with_slice c n a)
      ∙ ap (before c (chunk_effects c n a))
          (begins c (n + 1) a (with_slice c n a).phase l (has_room n a h))

  pub seal_round :
      (n : ℕ) (a : ℤ) (sent : List Effect) (calls : List Receiving.Effect)
      → n + 1 < total c
      → IsBefore a n
      → round c (sealing_at c n a sent calls)
        ≡ heading c (n + 1) (pos n) (sent ++ (chunk_effects c n a ++ [])) (calls ++ chunk_calls c n)
  unfolding round
  seal_round n a sent calls l h =
      ap (exchange c (sealing_at c n a sent calls)) (seals n a l h)
      ∙ exchanged c (sealing_at c n a sent calls) (at_round c (n + 1) a, chunk_effects c n a)
          (between c (n + 1)) (chunk_calls c n) (at_round c (n + 1) (pos n)) [] taken answered
    where
      taken :
          Receiver.run w codec epoch_key (between c n) (handle_each (data_of (chunk_effects c n a)))
          ≡ (between c (n + 1), chunk_calls c n)
      taken = unfold data_of in handles_chunk c laws key_length id_length id_bytes chunks n l

      answered :
          run c (at_round c (n + 1) a) (map message (answers_of (chunk_calls c n)))
          ≡ (at_round c (n + 1) (pos n), [])
      answered = unfold answers_of in notes_ack c (n + 1) n a

  seals_last :
      (n : ℕ) (a : ℤ)
      → n + 1 ≡ total c
      → IsBefore a n
      → step c (with_slice c n a) computed
        ≡ (record (at_round c (n + 1) a) { phase = draining }, chunk_effects c n a)
  unfolding step on_computed
  seals_last n a e h =
      have_chunk_lem c laws key_length id_length (with_slice c n a)
      ∙ ap (before c (chunk_effects c n a)) (
          drains c (n + 1) a (with_slice c n a).phase e
            (subst (λ t. is_unacked (some a) t ≡ true) e (waits_for_last n a h)))

  pub last_round :
      (n : ℕ) (a : ℤ) (sent : List Effect) (calls : List Receiving.Effect)
      → n + 1 ≡ total c
      → IsBefore a n
      → round c (sealing_at c n a sent calls)
        ≡ ends_of c
            (record (at_round c (n + 1) (pos n)) { phase = settled })
            Receiving.fresh
            (sent ++ (chunk_effects c n a ++ (resolved ∷ [])))
            (calls ++ last_calls c n)
  unfolding round
  last_round n a sent calls e h =
      ap (exchange c (sealing_at c n a sent calls)) (seals_last n a e h)
      ∙ exchanged c (sealing_at c n a sent calls)
          (record (at_round c (n + 1) a) { phase = draining }, chunk_effects c n a) Receiving.fresh
          (last_calls c n) (record (at_round c (n + 1) (pos n)) { phase = settled }) (resolved ∷ [])
          taken answered
    where
      taken :
          Receiver.run w codec epoch_key (between c n) (handle_each (data_of (chunk_effects c n a)))
          ≡ (Receiving.fresh, last_calls c n)
      taken = unfold data_of in handles_last c laws key_length id_length id_bytes chunks n e

      answered :
          run c
            (record (at_round c (n + 1) a) { phase = draining })
            (map message (answers_of (last_calls c n)))
          ≡ (record (at_round c (n + 1) (pos n)) { phase = settled }, resolved ∷ [])
      answered =
          unfold answers_of in
          ends_ack c (n + 1) n a (subst (λ t. is_unacked (some (pos n)) t ≡ false) e (has_last n))

  keys : step c fresh computed ≡ ((keyed c), [])
  unfolding step on_computed fresh
  keys = have_key_lem c laws key_length id_length fresh

  pub key_round : round c (start c) ≡ ends_of c (keyed c) Receiving.fresh [] []
  unfolding round fresh
  key_round = ap (exchange c (start c)) keys ∙ silent c fresh (keyed c) Receiving.fresh [] []

  pub some_chunk : 0 < total c
  unfolding chunk_count
  some_chunk = omega arith

  metas : step c (keyed c) computed ≡ (at_round c 0 (negsuc 0), (meta_sent c))
  unfolding step on_computed fresh
  metas =
      have_meta_lem c laws key_length id_length (keyed c)
      ∙ ap (before c (meta_sent c))
          (begins c 0 (negsuc 0) (keyed c).phase some_chunk has_room_first)

  pub meta_round :
      round c (ends_of c (keyed c) Receiving.fresh [] [])
      ≡ heading c 0 (negsuc 0) (meta_sent c) (calls_before c 0)
  unfolding round calls_upto
  meta_round =
      ap (exchange c (ends_of c (keyed c) Receiving.fresh [] [])) metas
      ∙ exchanged c (ends_of c (keyed c) Receiving.fresh [] [])
          (at_round c 0 (negsuc 0), (meta_sent c)) (between c 0)
          (on_file_start (to_hex file_id) (sent_metadata c) ∷ []) (at_round c 0 (negsuc 0)) [] taken
          (unfold answers_of in unfold run in refl)
    where
      taken :
          Receiver.run w codec epoch_key Receiving.fresh (handle_each (data_of (meta_sent c)))
          ≡ (between c 0, on_file_start (to_hex file_id) (sent_metadata c) ∷ [])
      taken = unfold data_of in starts c laws key_length id_length id_bytes chunks
