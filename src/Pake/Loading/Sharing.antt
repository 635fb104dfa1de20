-- ===== src/Pake/Loading/Sharing.antt =====
-- The module is loaded once for all calls, none of which is lost.
use quicksend.Base.{
  ℕ, suc, ◌+◌, ◌≤◌, ◌≡◌, refl, sym, subst, Bool, true, false, List, [], ◌∷◌, ◌++◌, arith, if-cases,
  ltb, ◌-◌,
}
use quicksend.Pake.Loading.Counts.{
  Tally, no_effects, tally, count, calls, plus, own, tally-resolved, tally-refused, call_of,
  tally-append, count-append,
}
use quicksend.Pake.Loading.{
  Stage, Loader, Event, Effect, unloaded, importing, fetching, loaded, failed, polling, call,
  imported, instantiated, poll, go_run, timeout_ms, fresh, resolve, reject, poll_once, load,
  ensure_loaded, on_imported, after, on_instantiated, on_poll, step, run,
}

-- Whether nobody was answered yet.
abbrev pub Unanswered : Tally → Type 0
Unanswered t = (t.resolves ≡ 0) × (t.refusals ≡ 0)

-- What was imported and started so far, how often the caller waits, and how it was answered, by the
-- stage.
abbrev pub StageIsSound : Stage → Bool → ℕ → Tally → Type 0
StageIsSound unloaded started waiting t =
    (started ≡ false) × (waiting ≡ 0) × (t.imports ≡ 0) × (t.starts ≡ 0) × Unanswered t
StageIsSound importing started waiting t =
    (started ≡ false) × (t.imports ≡ 1) × (t.starts ≡ 0) × Unanswered t
StageIsSound fetching started waiting t =
    (started ≡ false) × (t.imports ≡ 1) × (t.starts ≡ 0) × Unanswered t
StageIsSound (polling start) started waiting t = (t.imports ≡ 1) × (t.starts ≡ 1) × Unanswered t
StageIsSound loaded started waiting t =
    (waiting ≡ 0) × (t.imports ≡ 1) × (t.starts ≡ 1) × (t.refusals ≡ 0)
StageIsSound failed started waiting t =
    (waiting ≡ 0) × (t.imports ≡ 1) × (t.starts ≤ 1) × (t.resolves ≡ 0)

module _ (k : ℕ) where
  -- Each of the caller's `n` calls so far waits or was answered.
  abbrev pub LoadIsSound : Loader → ℕ → Tally → Type 0
  LoadIsSound s n t =
      StageIsSound s.stage s.started (count k s.waiting) t
      × (n ≡ count k s.waiting + t.resolves + t.refusals)

  abbrev OutIsSound : ℕ → Tally → Loader × List Effect → Type 0
  OutIsSound n t out = LoadIsSound out.0 n (plus t (tally k out.1))

module _ (k : ℕ) (s : Loader) (n : ℕ) (t : Tally)
    (all : n ≡ count k s.waiting + t.resolves + t.refusals) (one : t.imports ≡ 1)
    (none_yet : Unanswered t) where
  resolve-LoadIsSound : t.starts ≡ 1 → OutIsSound k n t (resolve s)
  resolve-LoadIsSound h =
      rw (tally-resolved k s.waiting) ((refl, omega arith, omega arith, omega arith), omega arith)

  reject-LoadIsSound : t.starts ≤ 1 → OutIsSound k n t (reject s)
  reject-LoadIsSound h =
      rw (tally-refused k s.waiting) ((refl, omega arith, omega arith, omega arith), omega arith)

  poll_once-LoadIsSound :
      (start now : ℕ) (ready : Bool) → t.starts ≡ 1 → OutIsSound k n t (poll_once s start ready now)
  unfolding poll_once
  poll_once-LoadIsSound start now ready h =
      if-cases (OutIsSound k n t) ready _ _ (λ _. resolve-LoadIsSound h)
        (λ _.
          if-cases (OutIsSound k n t) (ltb timeout_ms (now - start)) _ _
            (λ _. reject-LoadIsSound (omega arith))
            (λ _. ((omega arith, omega arith, (omega arith, omega arith)), omega arith)))

-- A step that only changes the loader.
quiet : (k : ℕ) (s : Loader) (n : ℕ) (t : Tally) → LoadIsSound k s n t → OutIsSound k n t (s, [])
quiet k s n t h =
    let e : t ≡ plus t (tally k []) = ground arith in subst (λ u. LoadIsSound k s n u) e h

module _ (k : ℕ) (s : Loader) (n : ℕ) (t : Tally) where
  -- The invariant, where the stage is known.
  abbrev At : Stage → Type 0
  At st =
      StageIsSound st s.started (count k s.waiting) t
      × (n ≡ count k s.waiting + t.resolves + t.refusals)

  stays : (st : Stage) → s.stage ≡ st → At st → (m : ℕ) → n ≡ m → OutIsSound k m t (s, [])
  stays st at h m e =
      subst (λ k'. OutIsSound k k' t (s, [])) e (quiet k s n t (subst At (sym at) h))

  zero_more : (out : Loader × List Effect) → OutIsSound k n t out → OutIsSound k (n + 0) t out
  zero_more out h = let e : n ≡ n + 0 = omega arith in subst (λ m. OutIsSound k m t out) e h

  ensure_loaded-LoadIsSound :
      (st : Stage) (j : ℕ) (ready : Bool) (now : ℕ)
      → s.stage ≡ st
      → At st
      → OutIsSound k (n + own k j) t (ensure_loaded st s j ready now)
  unfolding ensure_loaded load
  ensure_loaded-LoadIsSound unloaded j ready now at h = rw h.0.0 (
    (refl, omega arith, omega arith, (omega arith, omega arith)),
    omega (arith, count-append k s.waiting (j ∷ [])),
  )
  ensure_loaded-LoadIsSound loaded j ready now at h = rw at (omega arith)
  ensure_loaded-LoadIsSound failed j ready now at h = rw at (omega arith)
  ensure_loaded-LoadIsSound importing j ready now at h = rw at (
    (h.0.0, omega arith, omega arith, (omega arith, omega arith)),
    omega (arith, count-append k s.waiting (j ∷ [])),
  )
  ensure_loaded-LoadIsSound fetching j ready now at h = rw at (
    (h.0.0, omega arith, omega arith, (omega arith, omega arith)),
    omega (arith, count-append k s.waiting (j ∷ [])),
  )
  ensure_loaded-LoadIsSound (polling start) j ready now at h = rw at (
    (omega arith, omega arith, (omega arith, omega arith)),
    omega (arith, count-append k s.waiting (j ∷ [])),
  )

  on_imported-LoadIsSound :
      (st : Stage) (worked : Bool)
      → s.stage ≡ st
      → At st
      → OutIsSound k n t (on_imported st s worked)
  unfolding on_imported
  on_imported-LoadIsSound importing worked at h =
      if-cases (OutIsSound k n t) worked _ _
        (λ _. ((h.0.0, omega arith, omega arith, (omega arith, omega arith)), omega arith))
        (λ _. reject-LoadIsSound k s n t h.1 h.0.1 h.0.3 (omega arith))
  on_imported-LoadIsSound st worked at h = stays st at h n refl

  on_instantiated-LoadIsSound :
      (st : Stage) (worked ready : Bool) (now : ℕ)
      → s.stage ≡ st
      → At st
      → OutIsSound k n t (on_instantiated st s worked ready now)
  unfolding on_instantiated
  on_instantiated-LoadIsSound fetching worked ready now at h =
      if-cases (OutIsSound k n t) worked _ _ (λ _. starts_now)
        (λ _. reject-LoadIsSound k s n t h.1 h.0.1 h.0.3 (omega arith))
    where
      out : Loader × List Effect
      out = poll_once (record s { started = true }) now ready now

      same :
          plus (record t { starts = suc t.starts }) (tally k out.1)
          ≡ plus t (tally k (go_run ∷ out.1))
      same = ground arith

      starts_now : OutIsSound k n t (after (go_run ∷ []) out)
      starts_now =
          subst (λ u. LoadIsSound k out.0 n u) same
            (poll_once-LoadIsSound k (record s { started = true }) n
              (record t { starts = suc t.starts }) h.1 h.0.1 h.0.3 now now ready (omega arith))
  on_instantiated-LoadIsSound st worked ready now at h = stays st at h n refl

  on_poll-LoadIsSound :
      (st : Stage) (ready : Bool) (now : ℕ)
      → s.stage ≡ st
      → At st
      → OutIsSound k n t (on_poll st s ready now)
  unfolding on_poll
  on_poll-LoadIsSound (polling start) ready now at h =
      poll_once-LoadIsSound k s n t h.1 h.0.0 h.0.2 start now ready h.0.1
  on_poll-LoadIsSound st ready now at h = stays st at h n refl

  step-LoadIsSound : (e : Event) → LoadIsSound k s n t → OutIsSound k (n + call_of k e) t (step s e)
  unfolding step
  step-LoadIsSound (call j ready now) h = ensure_loaded-LoadIsSound s.stage j ready now refl h
  step-LoadIsSound (imported worked) h =
      zero_more (on_imported s.stage s worked) (on_imported-LoadIsSound s.stage worked refl h)
  step-LoadIsSound (instantiated worked ready now) h =
      zero_more (on_instantiated s.stage s worked ready now)
        (on_instantiated-LoadIsSound s.stage worked ready now refl h)
  step-LoadIsSound (poll ready now) h =
      zero_more (on_poll s.stage s ready now) (on_poll-LoadIsSound s.stage ready now refl h)

module _ (k : ℕ) where
  run_from-LoadIsSound :
      (es : List Event) (s : Loader) (n : ℕ) (t : Tally)
      → LoadIsSound k s n t
      → OutIsSound k (n + calls k es) t (run s es)
  unfolding run
  run_from-LoadIsSound [] s n t h = zero_more k s n t (s, []) (quiet k s n t h)
  run_from-LoadIsSound (e ∷ es) s n t h =
      let now = tally k (step s e).1 in
      let rest = run (step s e).0 es in
      let sum : plus (plus t now) (tally k rest.1) ≡ plus t (tally k ((step s e).1 ++ rest.1)) =
        ground (arith, tally-append k (step s e).1 rest.1) in
      let total : n + call_of k e + calls k es ≡ n + calls k (e ∷ es) = omega arith in
      subst (λ m. LoadIsSound k rest.0 m (plus t (tally k ((step s e).1 ++ rest.1)))) total
        (subst (λ u. LoadIsSound k rest.0 (n + call_of k e + calls k es) u) sum
          (run_from-LoadIsSound es (step s e).0 (n + call_of k e) (plus t now)
            (step-LoadIsSound k s n t e h)))

-- For every caller of ensureLoaded and in every run, however many calls there are and whatever
-- import, fetch and polls come to: each call of that caller waits or was answered, once; nobody is
-- answered before the load has ended, nobody is refused if it has succeeded, nobody is told that it
-- has loaded if it has failed, and no call waits once it has ended; and the script is imported at
-- most once and the module started at most once, each exactly once if the load has succeeded.
pub run-LoadIsSound :
    (k : ℕ) (es : List Event)
    → LoadIsSound k (run fresh es).0 (calls k es) (tally k (run fresh es).1)
unfolding fresh
run-LoadIsSound k es =
    let later = tally k (run fresh es).1 in
    let sum : plus no_effects later ≡ later = ground arith in
    let total : 0 + calls k es ≡ calls k es = omega arith in
    subst (λ m. LoadIsSound k (run fresh es).0 m later) total
      (subst (λ u. LoadIsSound k (run fresh es).0 (0 + calls k es) u) sum
        (run_from-LoadIsSound k es fresh 0 no_effects
          ((refl, refl, refl, refl, (refl, refl)), refl)))
