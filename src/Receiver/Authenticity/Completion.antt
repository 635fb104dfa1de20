-- ===== src/Receiver/Authenticity/Completion.antt =====
-- A file is only completed after each of its chunks was handed on.
use quicksend.Base.{
  ℕ, ◌+◌, ◌<◌, ◌≡◌, ◌⊎◌, inl, inr, refl, sym, subst, Bool, true, List, [], ◌∷◌, ◌++◌, arith, ltb,
  Bool-cases, All, append_assoc, append-nil,
}
use quicksend.Base.Bytes.{Bytes, Text}
use quicksend.Receiver.State.{
  Effect, on_file_start, on_chunk, on_file_complete, on_aborted, on_error, send_ack, send_abort,
}
use quicksend.Receiver.Protocol.{
  Stage, idle, faulty, expecting, handing, finished, orphaned, Move, start, hand, ack, ack_last,
  complete, ack_orphan, error_faulty, error_free, error_handing, error_orphan, lose, lose_handing,
  tell, tell_handing, abort, abort_handing, Moves, done, call,
}

-- Chunk `n` of the file was handed to `onChunk`.
abbrev pub Handed : Text → ℕ → List Effect → Type 0
Handed id n [] = ⊥
Handed id n (on_chunk id' m last plaintext ∷ es) = ((id' ≡ id) × (m ≡ n)) ⊎ Handed id n es
Handed id n (_ ∷ es) = Handed id n es

Handed-append : (id : Text) (n : ℕ) (es fs : List Effect) → Handed id n es → Handed id n (es ++ fs)
Handed-append id n [] fs h = absurd h
Handed-append id n (on_chunk id' m last p ∷ es) fs (inl here) = inl here
Handed-append id n (on_chunk id' m last p ∷ es) fs (inr later) =
    inr (Handed-append id n es fs later)
Handed-append id n (on_file_start id' meta ∷ es) fs h = Handed-append id n es fs h
Handed-append id n (on_file_complete id' ∷ es) fs h = Handed-append id n es fs h
Handed-append id n (on_aborted id' reason ∷ es) fs h = Handed-append id n es fs h
Handed-append id n (on_error e ∷ es) fs h = Handed-append id n es fs h
Handed-append id n (send_ack id' m ∷ es) fs h = Handed-append id n es fs h
Handed-append id n (send_abort id' ∷ es) fs h = Handed-append id n es fs h

Handed-last :
    (id : Text) (n : ℕ) (es : List Effect) (last : Bool) (p : Bytes)
    → Handed id n (es ++ (on_chunk id n last p ∷ []))
Handed-last id n [] last p = inl (refl, refl)
Handed-last id n (on_chunk id' m l q ∷ es) last p = inr (Handed-last id n es last p)
Handed-last id n (on_file_start id' meta ∷ es) last p = Handed-last id n es last p
Handed-last id n (on_file_complete id' ∷ es) last p = Handed-last id n es last p
Handed-last id n (on_aborted id' reason ∷ es) last p = Handed-last id n es last p
Handed-last id n (on_error e ∷ es) last p = Handed-last id n es last p
Handed-last id n (send_ack id' m ∷ es) last p = Handed-last id n es last p
Handed-last id n (send_abort id' ∷ es) last p = Handed-last id n es last p

lt_or_eq : (m n : ℕ) → m < n + 1 → (m < n) ⊎ (m ≡ n)
lt_or_eq m n l = elim (Bool-cases (ltb m n)) [
  | inl less ↦ inl (ground arith)
  | inr other ↦ inr (ground arith)
]

abbrev AllHanded : Text → ℕ → List Effect → Type 0
AllHanded id n es = (m : ℕ) → m < n → Handed id m es

module _ (hex : Text) (total : ℕ) where
  -- A chunk of the file that is marked as the last one is the last one.
  abbrev pub LastIsLast : Effect → Type 0
  LastIsLast (on_chunk id n last plaintext) = id ≡ hex → last ≡ true → n + 1 ≡ total
  LastIsLast _ = Unit {0}

  -- What was handed on at a stage.
  abbrev Knows : Stage → List Effect → Type 0
  Knows (expecting id n) es = AllHanded id n es
  Knows (handing id n last) es = AllHanded id (n + 1) es × (id ≡ hex → last ≡ true → n + 1 ≡ total)
  Knows (finished id) es = id ≡ hex → AllHanded id total es
  Knows _ es = Unit {0}

  AllHanded-append :
      (id : Text) (n : ℕ) (es fs : List Effect) → AllHanded id n es → AllHanded id n (es ++ fs)
  AllHanded-append id n es fs h m l = Handed-append id m es fs (h m l)

  Knows-append : (s : Stage) (es fs : List Effect) → Knows s es → Knows s (es ++ fs)
  Knows-append idle es fs h = tt
  Knows-append faulty es fs h = tt
  Knows-append (expecting id n) es fs h = AllHanded-append id n es fs h
  Knows-append (handing id n last) es fs h = (AllHanded-append id (n + 1) es fs h.0, h.1)
  Knows-append (finished id) es fs h = λ e. AllHanded-append id total es fs (h e)
  Knows-append (orphaned id n) es fs h = tt

  -- A stage after a call, from what was handed on before it.
  moved :
      {s t : Stage} {e : Effect} (es : List Effect)
      → Move s e t
      → Knows s es
      → LastIsLast e
      → Knows t (es ++ (e ∷ []))
  moved es (start id meta f) h g = λ m l. absurd (omega arith)
  moved es (hand id n last p) h g = (
    λ m l. elim (lt_or_eq m n l) [
      | inl before ↦ Handed-append id m es _ (h m before)
      | inr now ↦
          subst (λ k. Handed id k (es ++ (on_chunk id n last p ∷ []))) (sym now)
            (Handed-last id n es last p)
    ],
    g,
  )
  moved es (ack id n) h g = AllHanded-append id (n + 1) es _ h.0
  moved es (ack_last id n) h g =
      λ e. AllHanded-append id total es _ (subst (λ k. AllHanded id k es) (h.1 e refl) h.0)
  moved es (complete id) h g = tt
  moved es (ack_orphan id n) h g = tt
  moved es (error_faulty e) h g = tt
  moved es (error_free {s} e f) h g = Knows-append s es _ h
  moved es (error_handing id n last e) h g = AllHanded-append id n es _ (λ m l. h.0 m (omega arith))
  moved es (error_orphan id n e) h g = tt
  moved es (lose id n e) h g = tt
  moved es (lose_handing id n last e) h g = tt
  moved es (tell id n) h g = AllHanded-append id n es _ h
  moved es (tell_handing id n last) h g = Knows-append (handing id n last) es _ h
  moved es (abort id n reason) h g = tt
  moved es (abort_handing id n last reason) h g = tt

  all_moved :
      {s t : Stage} {fs : List Effect} (es : List Effect)
      → Moves s fs t
      → Knows s es
      → All LastIsLast fs
      → Knows t (es ++ fs)
  all_moved {s} es done h g = subst (Knows s) (sym (append-nil es)) h
  all_moved {t = t} es (call {e = e} {es = fs} m ms) h g =
      subst (Knows t) (append_assoc es (e ∷ []) fs)
        (all_moved (es ++ (e ∷ [])) ms (moved es m h g.0) g.1)

  split :
      {s u : Stage} (es fs : List Effect)
      → Moves s (es ++ fs) u
      → (t : Stage) × Moves s es t × Moves t fs u
  split {s} [] fs m = (s, done, m)
  split (e ∷ es) fs (call m ms) = let (t, first, rest) = split es fs ms in (t, call m first, rest)

  completes_from : {s t : Stage} (id : Text) → Move s (on_file_complete id) t → s ≡ finished id
  completes_from id (complete _) = refl

  from_finished :
      {s t : Stage} (id : Text) (es : List Effect)
      → Moves s (on_file_complete id ∷ es) t
      → s ≡ finished id
  from_finished id es (call m ms) = completes_from id m

  All-front : (es fs : List Effect) → All LastIsLast (es ++ fs) → All LastIsLast es
  All-front [] fs h = tt
  All-front (e ∷ es) fs h = (h.0, All-front es fs h.1)

  pub complete-Handed :
      {t : Stage} (before after : List Effect)
      → Moves idle (before ++ (on_file_complete hex ∷ after)) t
      → All LastIsLast (before ++ (on_file_complete hex ∷ after))
      → (n : ℕ) → n < total
      → Handed hex n before
  complete-Handed before after m g =
      let (s, first, rest) = split before (on_file_complete hex ∷ after) m in
      let known = all_moved [] first tt (All-front before _ g) in
      subst (λ x. Knows x before) (from_finished hex after rest) known refl
