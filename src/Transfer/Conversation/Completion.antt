-- ===== src/Transfer/Conversation/Completion.antt =====
-- A file that is sent while nothing fails arrives, and the call of sendFile resolves.
use quicksend.Base.{
  ℕ, zero, suc, ◌+◌, ◌*◌, ◌-◌, ◌^◌, ◌≤◌, ◌≡◌, refl, sym, ap, subst, ◌∙◌, true, false, List, [], ◌∷◌,
  ◌++◌, arith, length, All, append_assoc,
}
use quicksend.Base.Int.{ℤ, pos, negsuc}
use quicksend.Base.Bytes.{IsByte}
use quicksend.Crypto.Platform.{CryptoLaws}
use quicksend.Hex.{to_hex}
use quicksend.Receiver.State.{Receiver, on_file_start, on_chunk, on_file_complete, send_ack}
use quicksend.Receiver.State as Receiving
use quicksend.Sender.State.{Call, Effect, settled, resolved}
use quicksend.Sender.Transcript.{total, resolves, resolves-append}
use quicksend.Transfer.{delivered, sent_metadata, calls_upto, file_calls}
use quicksend.Transfer.Conversation.{Ends, round, converse}
use quicksend.Transfer.EndToEnd.{delivered-file_calls}
use quicksend.Transfer.Conversation.Rounds.{
  seal_round, last_round, key_round, meta_round, some_chunk,
}
use quicksend.Transfer.Conversation.Sending.{
  IsBefore, at_round, heading, ends_of, read_round, chunk_effects, chunk_calls, last_calls,
  calls_before, start, meta_sent,
}

module _ (c : Call) where
  open c use {file_id}

  -- How the conversation ends.
  abbrev pub IsDone : Ends → Type 0
  IsDone ends =
      (ends.sender.phase ≡ settled)
      × (resolves ends.sent ≡ true)
      × (ends.receiver ≡ Receiving.fresh)
      × (ends.calls ≡ file_calls c)

module _ (c : Call) (laws : CryptoLaws c.crypto) (key_length : length c.epoch_key ≡ 32)
    (id_length : length c.file_id ≡ 16) (id_bytes : All IsByte c.file_id)
    (chunks : total c ≤ 2 ^ 64) where
  open c use {crypto as w, codec, epoch_key, file_id, file}

  resolves_last :
      (sent : List Effect) (n : ℕ) (a : ℤ)
      → resolves sent ≡ false
      → resolves (sent ++ (chunk_effects c n a ++ (resolved ∷ []))) ≡ true
  resolves_last sent n a quiet = resolves-append sent _ quiet ∙ unfold resolves in refl

  quiet_chunk :
      (sent : List Effect) (n : ℕ) (a : ℤ)
      → resolves sent ≡ false
      → resolves (sent ++ (chunk_effects c n a ++ [])) ≡ false
  quiet_chunk sent n a quiet = resolves-append sent _ quiet ∙ unfold resolves in refl

  all_calls : (n : ℕ) → n + 1 ≡ total c → calls_before c n ++ last_calls c n ≡ file_calls c
  all_calls n e =
      let last : suc n ≡ total c = omega arith in
      subst
        (λ t.
          calls_before c n ++ last_calls c n
          ≡ on_file_start (to_hex file_id) (sent_metadata c)
            ∷ (calls_upto c t ++ (on_file_complete (to_hex file_id) ∷ [])))
        last
        (ap (◌∷◌ (on_file_start (to_hex file_id) (sent_metadata c)))
          (unfold calls_upto in sym (append_assoc (calls_upto c n) _ _)))

  more_calls : (n : ℕ) → calls_before c n ++ chunk_calls c n ≡ calls_before c (n + 1)
  unfolding calls_upto
  more_calls n = let next : suc n ≡ n + 1 = omega arith in ap (calls_before c) next

  two_rounds :
      (m : ℕ) (ends : Ends) → converse c (suc (suc m)) ends ≡ converse c m (round c (round c ends))
  unfolding converse
  two_rounds m ends = refl

  -- `k` chunks after this one are left.
  goes_on :
      (k n : ℕ) (a : ℤ) (sent : List Effect)
      → n + suc k ≡ total c
      → IsBefore a n
      → resolves sent ≡ false
      → IsDone c (converse c (2 * suc k) (heading c n a sent (calls_before c n)))
  goes_on zero n a sent e h quiet =
      subst (IsDone c) (sym finished) (refl, resolves_last sent n a quiet, refl, all_calls n e)
    where
      finished :
          converse c 2 (heading c n a sent (calls_before c n))
          ≡ ends_of c
              (record (at_round c (n + 1) (pos n)) { phase = settled })
              Receiving.fresh
              (sent ++ (chunk_effects c n a ++ (resolved ∷ [])))
              (calls_before c n ++ last_calls c n)
      finished =
          unfold converse in
          ap (round c) (read_round c n a sent (calls_before c n))
          ∙ last_round c laws key_length id_length id_bytes chunks n a sent (calls_before c n) e h
  goes_on (suc k) n a sent e h quiet =
      let count : suc (suc (2 * suc k)) ≡ 2 * suc (suc k) = omega arith in
      subst (λ m. (IsDone c) (converse c m (heading c n a sent (calls_before c n)))) count
        (subst (IsDone c) (sym advanced) (
          goes_on k (n + 1) (pos n) (sent ++ (chunk_effects c n a ++ [])) (omega arith)
            (omega arith) (quiet_chunk sent n a quiet)))
    where
      advanced :
          converse c (suc (suc (2 * suc k))) (heading c n a sent (calls_before c n))
          ≡ converse c (2 * suc k) (
              heading c
                (n + 1)
                (pos n)
                (sent ++ (chunk_effects c n a ++ []))
                (calls_before c (n + 1)))
      advanced =
          two_rounds (2 * suc k) (heading c n a sent (calls_before c n))
          ∙ ap (converse c (2 * suc k)) (
              ap (round c) (read_round c n a sent (calls_before c n))
              ∙ seal_round c laws key_length id_length id_bytes chunks n a sent (calls_before c n)
                  (omega arith) h
              ∙ ap (heading c (n + 1) (pos n) (sent ++ (chunk_effects c n a ++ []))) (more_calls n))

  all_rounds : IsDone c (converse c (2 + 2 * total c) (start c))
  all_rounds =
      subst (λ m. IsDone c (converse c m (start c))) count
        (subst (IsDone c) (sym begun) (
          goes_on (total c - 1) 0 (negsuc 0) (meta_sent c)
            (omega (arith, some_chunk c laws key_length id_length id_bytes chunks)) refl
            (unfold resolves in refl)))
    where
      count : suc (suc (2 * suc (total c - 1))) ≡ 2 + 2 * total c
      count = omega (arith, some_chunk c laws key_length id_length id_bytes chunks)

      begun :
          converse c (suc (suc (2 * suc (total c - 1)))) (start c)
          ≡ converse c
              (2 * suc (total c - 1))
              (heading c 0 (negsuc 0) (meta_sent c) (calls_before c 0))
      begun =
          two_rounds (2 * suc (total c - 1)) (start c)
          ∙ ap (converse c (2 * suc (total c - 1))) (
              ap (round c) (key_round c laws key_length id_length id_bytes chunks)
              ∙ (meta_round c laws key_length id_length id_bytes chunks))

  -- For every call of sendFile over a Web Crypto with its laws, a 32-byte epoch key, a 16-byte file
  -- id of bytes and at most 2^64 chunks: where no promise rejects, the receiver takes what is sent
  -- and the sender takes the answers, after 2 + 2 * chunks settled promises of the sender the call
  -- has resolved, the receiver is fresh again and has made exactly the calls of a whole file, and
  -- the content that it was handed is the content of the file.
  pub conversation_completes :
      let ends = converse c (2 + 2 * total c) (start c) in
      IsDone c ends × (delivered ends.calls ≡ file.content)
  conversation_completes = (all_rounds, ap delivered all_rounds.3 ∙ delivered-file_calls c)
