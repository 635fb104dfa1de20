-- ===== src/Pake/Loading/Failure.antt =====
-- A load that has failed is final: nothing is tried again, and every later call is refused.
use quicksend.Base.{ℕ, ◌<◌, ◌≡◌, refl, ap, ◌∙◌, List, [], ◌∷◌, arith, Bool}
use quicksend.Pake.Loading.Counts.{Tally, no_effects, tally, calls, plus, call_of, tally-append}
use quicksend.Pake.Loading.Sharing.{StageIsSound, run-LoadIsSound}
use quicksend.Pake.Loading.{
  Stage, Loader, Event, Effect, unloaded, importing, fetching, loaded, failed, polling, call,
  imported, instantiated, poll, refused, ensure_loaded, on_imported, on_instantiated, on_poll, step,
  run, fresh,
}

abbrev refusal : Event → List Effect
refusal (call k ready now) = refused k ∷ []
refusal _ = []

step_failed : (s : Loader) (e : Event) → s.stage ≡ failed → step s e ≡ (s, refusal e)
unfolding step ensure_loaded on_imported on_instantiated on_poll
step_failed s (call k ready now) at = ap (λ st. ensure_loaded st s k ready now) at
step_failed s (imported worked) at = ap (λ st. on_imported st s worked) at
step_failed s (instantiated worked ready now) at =
    ap (λ st. on_instantiated st s worked ready now) at
step_failed s (poll ready now) at = ap (λ st. on_poll st s ready now) at

-- The stage in which somebody was refused.
refused_stage :
    (st : Stage) (started : Bool) (waiting : ℕ) (t : Tally)
    → StageIsSound st started waiting t
    → 0 < t.refusals
    → st ≡ failed
refused_stage unloaded started waiting t h r = absurd (omega arith)
refused_stage importing started waiting t h r = absurd (omega arith)
refused_stage fetching started waiting t h r = absurd (omega arith)
refused_stage loaded started waiting t h r = absurd (omega arith)
refused_stage (polling start) started waiting t h r = absurd (omega arith)
refused_stage failed started waiting t h r = refl

module _ (k : ℕ) where
  only_refused : (e : Event) → tally k (refusal e) ≡ record no_effects { refusals = call_of k e }
  only_refused (call j ready now) = ground arith
  only_refused (imported worked) = refl
  only_refused (instantiated worked ready now) = refl
  only_refused (poll ready now) = refl

  stays_failed :
      (s : Loader) (es : List Event)
      → s.stage ≡ failed
      → ((run s es).0 ≡ s) × (tally k (run s es).1 ≡ record no_effects { refusals = calls k es })
  unfolding run
  stays_failed s [] at = (refl, refl)
  stays_failed s (e ∷ es) at =
      let (same, later) = stays_failed s es at in
      rw (step_failed s e at) (
        same,
        tally-append k (refusal e) (run s es).1
            ∙ ap (plus (tally k (refusal e))) later
            ∙ ap (λ t. plus t (record no_effects { refusals = calls k es })) (only_refused e),
      )

-- If any call of ensureLoaded was refused in a run from the start, then whatever happens
-- afterwards: nothing is imported or started again, the loader stays as it is, and each later call
-- of every caller is refused, once, and no other answer is given.
pub failed_load :
    (es later : List Event) (j k : ℕ)
    → 0 < (tally j (run fresh es).1).refusals
    → ((run (run fresh es).0 later).0 ≡ (run fresh es).0)
      × (tally k (run (run fresh es).0 later).1 ≡ record no_effects { refusals = calls k later })
failed_load es later j k h =
    stays_failed k (run fresh es).0 later
      (refused_stage (run fresh es).0.stage _ _ _ (run-LoadIsSound j es).0 h)
