-- ===== src/Sender/Room.antt =====
-- Flow control: what holds of the window between two events, and that the loop keeps it.
use quicksend.Base.{ℕ, ◌+◌, ◌≤◌, ◌≡◌, Bool, false, List, Option, none, some, arith, ltb, if-cases}
use quicksend.Base.Int.{ℤ, pos_part, neg_part, ◌≤ℤ◌, ◌-ℤ◌}
use quicksend.Base.Results.{Failure, Result, ok, throw}
use quicksend.Base.Results
use quicksend.Sender.State.{
  Call, Abort, Phase, Sender, Effect, keying, window, draining, settled, sealing_meta, reading,
  sealing,
}
use quicksend.Sender.{
  window_size, is_window_full, is_unacked, total_chunks, next_chunk, fail, finish, leave_window,
  await_acks, begin_chunk, wake,
}

-- At most `window_size` of the chunks 0 to n - 1 are not acknowledged: n <= ackedUpTo + 1 + 8.
abbrev pub InWindow : ℕ → Option ℤ → Type 0
InWindow n none = ⊥
InWindow n (some acked) = n + neg_part acked ≤ pos_part acked + 1 + window_size

-- A chunk that is being read or encrypted still has its place.
abbrev pub Fits : Sender → Phase → Type 0
Fits s (reading key) = InWindow (s.index + 1) s.acked_up_to
Fits s (sealing key plaintext) = InWindow (s.index + 1) s.acked_up_to
Fits s keying = InWindow s.index s.acked_up_to
Fits s window = InWindow s.index s.acked_up_to
Fits s draining = InWindow s.index s.acked_up_to
Fits s settled = InWindow s.index s.acked_up_to
Fits s (sealing_meta key) = InWindow s.index s.acked_up_to

abbrev pub FitsAfter : Sender × List Effect → Type 0
FitsAfter out = Fits out.0 out.0.phase

room :
    (n : ℕ) (acked : Option ℤ)
    → InWindow n acked
    → is_window_full n acked ≡ false
    → InWindow (n + 1) acked
unfolding ◌-ℤ◌
room n none h e = h
room n (some a) h e = ground arith

pub InWindow-pred : (n : ℕ) (acked : Option ℤ) → InWindow (n + 1) acked → InWindow n acked
InWindow-pred n none h = h
InWindow-pred n (some a) h = omega arith

-- An acknowledgement never takes one back. (What the receiver sends are growing numbers.)
abbrev pub Grown : Option ℤ → Option ℤ → Type 0
Grown none new = ⊥
Grown (some old) none = ⊥
Grown (some old) (some new) = old ≤ℤ new

Grown-InWindow : (n : ℕ) (old new : Option ℤ) → Grown old new → InWindow n old → InWindow n new
Grown-InWindow n none new g h = absurd g
Grown-InWindow n (some a) none g h = absurd g
Grown-InWindow n (some a) (some b) g h = omega arith

Grown-self : (n : ℕ) (acked : Option ℤ) → InWindow n acked → Grown acked acked
Grown-self n none h = h
Grown-self n (some a) h = omega arith

module _ (c : Call) where
  pub fail-Fits :
      (s : Sender) (e : Failure) → InWindow s.index s.acked_up_to → FitsAfter (fail c s e)
  unfolding fail
  fail-Fits s e h = h

  finish-Fits : (s : Sender) → InWindow s.index s.acked_up_to → FitsAfter (finish c s)
  unfolding finish
  finish-Fits s h = go s.aborted
    where
      go : (a : Option Abort) → FitsAfter (finish c (record s { aborted = a }))
      go none = h
      go (some a) = h

  await_acks-Fits : (s : Sender) → InWindow s.index s.acked_up_to → FitsAfter (await_acks c s)
  unfolding await_acks
  await_acks-Fits s h = go s.aborted
    where
      go : (a : Option Abort) → FitsAfter (await_acks c (record s { aborted = a }))
      go none =
          if-cases FitsAfter (is_unacked s.acked_up_to (total_chunks c)) _ _ (λ _. h)
            (λ _. finish-Fits (record s { aborted = none }) h)
      go (some a) = finish-Fits (record s { aborted = some a }) h

  pub next_chunk-Fits : (s : Sender) → InWindow s.index s.acked_up_to → FitsAfter (next_chunk c s)
  unfolding next_chunk begin_chunk
  next_chunk-Fits s h =
      if-cases FitsAfter (ltb s.index (total_chunks c)) _ _
        (λ _.
          if-cases FitsAfter (is_window_full s.index s.acked_up_to) _ _ (λ _. h)
            (λ free. go s.aborted (room s.index s.acked_up_to h free)))
        (λ _. await_acks-Fits s h)
    where
      go :
          (a : Option Abort)
          → InWindow (s.index + 1) s.acked_up_to
          → FitsAfter (begin_chunk c (record s { aborted = a }))
      go none r = r
      go (some a) r = finish-Fits (record s { aborted = some a }) h

  leave_window-Fits : (s : Sender) → InWindow s.index s.acked_up_to → FitsAfter (leave_window c s)
  unfolding leave_window
  leave_window-Fits s h = go s.aborted
    where
      go : (a : Option Abort) → FitsAfter (leave_window c (record s { aborted = a }))
      go none = next_chunk-Fits (record s { aborted = none }) h
      go (some a) = finish-Fits (record s { aborted = some a }) h

  pub wake-Fits : (s : Sender) → Fits s s.phase → FitsAfter (wake c s)
  unfolding wake
  wake-Fits s h = go s.phase h
    where
      go : (p : Phase) → Fits s p → FitsAfter (wake c (record s { phase = p }))
      go window h =
          if-cases FitsAfter s.connection_lost _ _
            (λ _. fail-Fits (record s { phase = window }) Results.connection_lost h)
            (λ _. leave_window-Fits (record s { phase = window }) h)
      go draining h =
          if-cases FitsAfter s.connection_lost _ _
            (λ _. fail-Fits (record s { phase = draining }) Results.connection_lost h)
            (λ _. await_acks-Fits (record s { phase = draining }) h)
      go keying h = h
      go settled h = h
      go (sealing_meta k) h = h
      go (reading k) h = h
      go (sealing k p) h = h

  pub Grown-Fits :
      (s : Sender) (acked : Option ℤ)
      → Grown s.acked_up_to acked
      → Fits s s.phase
      → Fits (record s { acked_up_to = acked }) s.phase
  Grown-Fits s acked g h = go s.phase h
    where
      more : (n : ℕ) → InWindow n s.acked_up_to → InWindow n acked
      more n = Grown-InWindow n s.acked_up_to acked g

      go : (p : Phase) → Fits s p → Fits (record s { acked_up_to = acked }) p
      go window h = more _ h
      go draining h = more _ h
      go keying h = more _ h
      go settled h = more _ h
      go (sealing_meta k) h = more _ h
      go (reading k) h = more _ h
      go (sealing k p) h = more _ h

  pub same-Fits :
      (s : Sender) (lost : Bool) (a : Option Abort)
      → Fits s s.phase
      → Fits (record s { connection_lost = lost; aborted = a }) s.phase
  same-Fits s lost a h = go s.phase h
    where
      go : (p : Phase) → Fits s p → Fits (record s { connection_lost = lost; aborted = a }) p
      go window h = h
      go draining h = h
      go keying h = h
      go settled h = h
      go (sealing_meta k) h = h
      go (reading k) h = h
      go (sealing k p) h = h
