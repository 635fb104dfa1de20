-- ===== src/Sender/Outcomes.antt =====
-- web/transfer.js, sendFile: what has been sent at every point of a call, and when it resolves.
use quicksend.Base.{ℕ, ◌≤◌, ◌≡◌, ap, ◌∙◌, ◌⊎◌, inl, inr, true, List, [], length, arith}
use quicksend.Crypto.Platform.{CryptoLaws}
use quicksend.Sender.State.{
  Call, Phase, Sender, Event, Effect, keying, sealing_meta, reading, sealing, window, draining,
  settled, fresh,
}
use quicksend.Sender.{run}
use quicksend.Sender.Transcript.{total, transcript, data_of, resolves, Sent, IsComplete}
use quicksend.Sender.Runs.{run-fresh-Sent}

module _ (c : Call) (laws : CryptoLaws c.crypto) (key_length : length c.epoch_key ≡ 32)
    (id_length : length c.file_id ≡ 16) where
  abbrev SentPrefix : List Effect → Type 0
  SentPrefix log = (data_of log ≡ []) ⊎ ((n : ℕ) × (n ≤ total c) × (data_of log ≡ transcript c n))

  prefix_of : (s : Sender) (log : List Effect) (p : Phase) → Sent c s log p → SentPrefix log
  prefix_of s log keying h = inl h.1
  prefix_of s log (sealing_meta k) h = inl h.3
  prefix_of s log (reading k) h = inr (s.index, omega arith, h.2.1)
  prefix_of s log (sealing k p) h = inr (s.index, omega arith, h.3.1)
  prefix_of s log window h = inr (s.index, omega arith, h.1.1)
  prefix_of s log draining h = inr (s.index, omega arith, h.1.1)
  prefix_of s log settled h = elim h.1 [ inl e ↦ inl e | inr e ↦ inr (s.index, h.0, e) ]

  abbrev Complete : Sender → List Effect → Type 0
  Complete s log = IsComplete c s × (data_of log ≡ transcript c (total c))

  Complete-of :
      (s : Sender) (log : List Effect) (p : Phase)
      → Sent c s log p
      → resolves log ≡ true
      → Complete s log
  Complete-of s log keying h e = cc
  Complete-of s log (sealing_meta k) h e = cc
  Complete-of s log (reading k) h e = cc
  Complete-of s log (sealing k p) h e = cc
  Complete-of s log window h e = cc
  Complete-of s log draining h e = cc
  Complete-of s log settled h e = let done = h.2 e in (done.0, done.1 ∙ ap (transcript c) done.0.0)

  -- At every point of every call of sendFile, over a Web Crypto with its laws, a 32-byte epoch key
  -- and a 16-byte file id, whatever events came: nothing of the file was sent, or exactly the
  -- metadata and the first n chunks in order, for an n that is at most the number of chunks.
  pub sends_prefix : (es : List Event) → SentPrefix (run c fresh es).1
  sends_prefix es =
      prefix_of (run c fresh es).0 _ (run c fresh es).0.phase
        (run-fresh-Sent c laws key_length id_length es)

  pub resolved-IsComplete :
      (es : List Event)
      → resolves (run c fresh es).1 ≡ true
      → Complete (run c fresh es).0 (run c fresh es).1
  resolved-IsComplete es e =
      Complete-of (run c fresh es).0 _ (run c fresh es).0.phase
        (run-fresh-Sent c laws key_length id_length es) e
