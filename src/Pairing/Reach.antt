-- ===== src/Pairing/Reach.antt =====
-- web/pairing.js: the states that the module can come to. A retry fires only if its timer was set.
use quicksend.Base.{ℕ, ◌≡◌, Bool, true, false, List, [], ◌∷◌, ◌++◌, Option, ◌==◌, if◌then◌else◌}
use quicksend.Base.Bytes.{Bytes, Text}
use quicksend.Pairing.State.{Client, Effect, Event, retry_later, retry_timer}
use quicksend.Pairing.Steps.{init_pairing, step}

-- The timers that attemptReconnect sets, by the attempt that each will make.
abbrev pub retries : List Effect → List ℕ
retries [] = []
retries (retry_later attempt ∷ es) = attempt ∷ retries es
retries (_ ∷ es) = retries es

abbrev pub is_set : ℕ → List ℕ → Bool
is_set attempt [] = false
is_set attempt (a ∷ timers) = if a == attempt then true else is_set attempt timers

abbrev pub CanHappen : List ℕ → Event → Type 0
CanHappen timers (retry_timer attempt) = is_set attempt timers ≡ true
CanHappen timers _ = Unit

pub data Reach : Client → List ℕ → Type 0 where
  loaded :
      (is_secure : Bool) (link : Option (Text × Bytes)) → Reach (init_pairing is_secure link).0 []
  moved :
      {c : Client} {timers : List ℕ}
      → Reach c timers
      → (e : Event) → CanHappen timers e
      → Reach (step c e).0 (timers ++ retries (step c e).1)
