-- ===== src/Sender/Loops.antt =====
-- The invariant of the transcript over the loops of sendFile and their ends.
use quicksend.Base.{
  ℕ, ◌≤◌, ◌<◌, ◌≡◌, refl, sym, ap, ◌∙◌, inr, Bool, true, false, List, [], ◌∷◌, ◌++◌, Option, none,
  some, arith, ltb, append-nil, append_assoc, if-cases, ltb→lt,
}
use quicksend.Base.Results.{Failure}
use quicksend.Hex.{to_hex}
use quicksend.Sender.State.{
  Call, Abort, Phase, Sender, Effect, keying, window, draining, settled, sealing_meta, reading,
  sealing, send_abort, resolved, rejected, rejected_abort,
}
use quicksend.Sender.Transcript.{
  data_of, resolves, data_of-append, resolves-append, Running, IsComplete, Sent, total,
}
use quicksend.Sender.{
  is_unacked, is_window_full, next_chunk, fail, finish, leave_window, settle, await_acks,
  begin_chunk, wake,
}

data_of_quiet : (log es : List Effect) → data_of es ≡ [] → data_of (log ++ es) ≡ data_of log
data_of_quiet log es h =
    data_of-append log es ∙ ap (◌++◌ (data_of log)) h ∙ append-nil (data_of log)

module _ (c : Call) where
  open c use {file_id}

  -- The invariant of a step's result, with what it adds to the log.
  abbrev pub SentAfter : List Effect → Sender × List Effect → Type 0
  SentAfter log out = Sent c out.0 (log ++ out.1) out.0.phase

  abbrev pub Runs : Sender → List Effect → Type 0
  Runs s log = Running c s log

  abbrev pub all_chunks : ℕ
  all_chunks = total c

  -- Nothing is added to a log that goes on.
  pub Runs-quiet : (s : Sender) (log : List Effect) → Runs s log → Runs s (log ++ [])
  Runs-quiet s log h = rw (append-nil log) h

  pub settled-Sent :
      (s : Sender) (log es : List Effect)
      → Runs s log
      → s.index ≤ all_chunks
      → data_of es ≡ []
      → (resolves es ≡ true → IsComplete c s)
      → SentAfter log (settle c s, es)
  settled-Sent s log es h le quiet complete = (
    le,
    inr (data_of_quiet log es quiet ∙ h.1),
    λ r. (complete (sym (resolves-append log es h.2) ∙ r), data_of_quiet log es quiet ∙ h.1),
  )

  pub fail-Sent :
      (s : Sender) (log : List Effect) (e : Failure)
      → Runs s log
      → s.index ≤ all_chunks
      → SentAfter log (fail c s e)
  unfolding fail
  fail-Sent s log e h le = go s.connection_lost
    where
      go : (b : Bool) → SentAfter log (fail c (record s { connection_lost = b }) e)
      go true =
          settled-Sent (record s { connection_lost = true }) log (rejected e ∷ []) h le
            (unfold data_of in refl) (λ r. unfold resolves in cc)
      go false =
          settled-Sent (record s { connection_lost = false }) log
            (send_abort (to_hex file_id) ∷ rejected e ∷ []) h le (unfold data_of in refl)
            (λ r. unfold resolves in cc)

  pub finish-Sent :
      (s : Sender) (log : List Effect)
      → Runs s log
      → s.index ≤ all_chunks
      → (s.aborted ≡ none → (s.index ≡ all_chunks) × (is_unacked s.acked_up_to all_chunks ≡ false))
      → SentAfter log (finish c s)
  unfolding finish
  finish-Sent s log h le complete = go s.aborted complete
    where
      go :
          (a : Option Abort)
          → (a ≡ none → (s.index ≡ all_chunks) × (is_unacked s.acked_up_to all_chunks ≡ false))
          → SentAfter log (finish c (record s { aborted = a }))
      go none k =
          settled-Sent (record s { aborted = none }) log (resolved ∷ []) h le
            (unfold data_of in refl) (λ r. ((k refl).0, refl, (k refl).1))
      go (some a) k =
          if-cases (λ es. SentAfter log (settle c (record s { aborted = some a }), es)) a.remote _ _
            (λ _.
              settled-Sent (record s { aborted = some a }) log (rejected_abort a.reason ∷ []) h le
                (unfold data_of in refl) (λ r. unfold resolves in cc))
            (λ _.
              settled-Sent (record s { aborted = some a }) log
                (send_abort (to_hex file_id) ∷ rejected_abort a.reason ∷ []) h le
                (unfold data_of in refl) (λ r. unfold resolves in cc))

  pub await_acks-Sent :
      (s : Sender) (log : List Effect)
      → Runs s log
      → s.index ≡ all_chunks
      → SentAfter log (await_acks c s)
  unfolding await_acks
  await_acks-Sent s log h e = go s.aborted
    where
      le : s.index ≤ all_chunks
      le = omega arith

      go : (a : Option Abort) → SentAfter log (await_acks c (record s { aborted = a }))
      go none =
          if-cases (SentAfter log) (is_unacked s.acked_up_to all_chunks) _ _
            (λ _. (e, Runs-quiet s log h))
            (λ acked. finish-Sent (record s { aborted = none }) log h le (λ _. (e, acked)))
      go (some a) = finish-Sent (record s { aborted = some a }) log h le (λ n. cc)

  pub begin_chunk-Sent :
      (s : Sender) (log : List Effect)
      → Runs s log
      → s.index < all_chunks
      → SentAfter log (begin_chunk c s)
  unfolding begin_chunk
  begin_chunk-Sent s log h l = go s.aborted
    where
      go : (a : Option Abort) → SentAfter log (begin_chunk c (record s { aborted = a }))
      go none = (h.0, l, Runs-quiet s log h)
      go (some a) = finish-Sent (record s { aborted = some a }) log h (omega arith) (λ n. cc)

  pub next_chunk-Sent :
      (s : Sender) (log : List Effect)
      → Runs s log
      → s.index ≤ all_chunks
      → SentAfter log (next_chunk c s)
  unfolding next_chunk
  next_chunk-Sent s log h le =
      if-cases (SentAfter log) (ltb s.index all_chunks) _ _
        (λ more.
          let l = ltb→lt _ _ more in
          if-cases (SentAfter log) (is_window_full s.index s.acked_up_to) _ _
            (λ _. (l, Runs-quiet s log h)) (λ _. begin_chunk-Sent s log h l))
        (λ last. await_acks-Sent s log h (ground arith))

  pub unmoved-Sent : (s : Sender) (log : List Effect) → Sent c s log s.phase → SentAfter log (s, [])
  unmoved-Sent s log h = rw (append-nil log) h

  pub leave_window-Sent :
      (s : Sender) (log : List Effect)
      → Runs s log
      → s.index < all_chunks
      → SentAfter log (leave_window c s)
  unfolding leave_window
  leave_window-Sent s log h l = go s.aborted
    where
      go : (a : Option Abort) → SentAfter log (leave_window c (record s { aborted = a }))
      go none = next_chunk-Sent (record s { aborted = none }) log h (omega arith)
      go (some a) = finish-Sent (record s { aborted = some a }) log h (omega arith) (λ n. cc)

  pub wake-Sent : (s : Sender) (log : List Effect) → Sent c s log s.phase → SentAfter log (wake c s)
  unfolding wake
  wake-Sent s log h = go s.phase h
    where
      go : (p : Phase) → Sent c s log p → SentAfter log (wake c (record s { phase = p }))
      go window h =
          if-cases (SentAfter log) s.connection_lost _ _
            (λ _. fail-Sent (record s { phase = window }) log _ h.1 (omega arith))
            (λ _. leave_window-Sent (record s { phase = window }) log h.1 h.0)
      go draining h =
          if-cases (SentAfter log) s.connection_lost _ _
            (λ _. fail-Sent (record s { phase = draining }) log _ h.1 (omega arith))
            (λ _. await_acks-Sent (record s { phase = draining }) log h.1 h.0)
      go keying h = unmoved-Sent (record s { phase = keying }) log h
      go settled h = unmoved-Sent (record s { phase = settled }) log h
      go (sealing_meta k) h = unmoved-Sent (record s { phase = sealing_meta k }) log h
      go (reading k) h = unmoved-Sent (record s { phase = reading k }) log h
      go (sealing k p) h = unmoved-Sent (record s { phase = sealing k p }) log h

  -- A message that is sent in front of the calls of a later piece of code.
  abbrev pub before : List Effect → Sender × List Effect → Sender × List Effect
  before es out = (out.0, es ++ out.1)

  pub before-Sent :
      (log es : List Effect) (out : Sender × List Effect)
      → SentAfter (log ++ es) out
      → SentAfter log (before es out)
  before-Sent log es out h = rw (← append_assoc log es out.1) h
