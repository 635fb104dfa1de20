-- ===== src/Pake/Loading.antt =====
-- web/pake.js: loading the WebAssembly module (waitFor, ensureLoaded), cut at its awaits.
pub mod Counts
pub mod Sharing
pub mod Failure
use quicksend.Base.{ℕ, ◌+◌, ◌-◌, Bool, true, false, List, [], ◌∷◌, ◌++◌, map, ltb, if◌then◌else◌}

-- Where the one run of the loader stands; `polling` keeps the `start` of waitFor.
pub data Stage : Type 0 where
  unloaded importing fetching loaded failed : Stage
  polling : ℕ → Stage

-- `stage` is also what `readyPromise` is: null while unloaded, then one promise that settles.
-- `waiting` are the calls that await it.
pub record Loader : Type 0 where
  pub stage : Stage
  pub started : Bool
  pub waiting : List ℕ

-- What the outside answers: whether an import or a fetch has worked, whether `quicksendPake` is
-- defined at a poll, and the clock.
pub data Event : Type 0 where
  call : ℕ → Bool → ℕ → Event
  imported : Bool → Event
  instantiated : Bool → Bool → ℕ → Event
  poll : Bool → ℕ → Event

pub data Effect : Type 0 where
  import_script fetch_module go_run poll_later : Effect
  resolved refused : ℕ → Effect

abbrev pub timeout_ms : ℕ
timeout_ms = 5000

unfoldable pub fresh : Loader
fresh = record { stage = unloaded; started = false; waiting = [] }

abbrev pub resolve : Loader → Loader × List Effect
resolve s = (record s { stage = loaded; waiting = [] }, map resolved s.waiting)

abbrev pub reject : Loader → Loader × List Effect
reject s = (record s { stage = failed; waiting = [] }, map refused s.waiting)

-- One round of waitFor.
unfoldable pub poll_once : Loader → ℕ → Bool → ℕ → Loader × List Effect
poll_once s start ready now =
    if ready
    then resolve s
    else if ltb timeout_ms (now - start)
    then reject s
    else (record s { stage = polling start }, poll_later ∷ [])

-- The body of `readyPromise`, called where it is null.
unfoldable pub load : Loader → Bool → ℕ → Loader × List Effect
unfolding poll_once
load s ready now =
    if s.started
    then poll_once s now ready now
    else (record s { stage = importing }, import_script ∷ [])

abbrev pub wait : Loader → ℕ → Loader
wait s k = record s { waiting = s.waiting ++ (k ∷ []) }

-- ensureLoaded.
unfoldable pub ensure_loaded : Stage → Loader → ℕ → Bool → ℕ → Loader × List Effect
unfolding load
ensure_loaded unloaded s k ready now = load (wait s k) ready now
ensure_loaded loaded s k ready now = (s, resolved k ∷ [])
ensure_loaded failed s k ready now = (s, refused k ∷ [])
ensure_loaded _ s k ready now = (wait s k, [])

unfoldable pub on_imported : Stage → Loader → Bool → Loader × List Effect
on_imported importing s worked =
    if worked then (record s { stage = fetching }, fetch_module ∷ []) else reject s
on_imported _ s worked = (s, [])

abbrev pub after : List Effect → Loader × List Effect → Loader × List Effect
after effects out = (out.0, effects ++ out.1)

unfoldable pub on_instantiated : Stage → Loader → Bool → Bool → ℕ → Loader × List Effect
unfolding poll_once
on_instantiated fetching s worked ready now =
    if worked
    then after (go_run ∷ []) (poll_once (record s { started = true }) now ready now)
    else reject s
on_instantiated _ s worked ready now = (s, [])

unfoldable pub on_poll : Stage → Loader → Bool → ℕ → Loader × List Effect
unfolding poll_once
on_poll (polling start) s ready now = poll_once s start ready now
on_poll _ s ready now = (s, [])

unfoldable pub step : Loader → Event → Loader × List Effect
unfolding ensure_loaded on_imported on_instantiated on_poll
step s (call k ready now) = ensure_loaded s.stage s k ready now
step s (imported worked) = on_imported s.stage s worked
step s (instantiated worked ready now) = on_instantiated s.stage s worked ready now
step s (poll ready now) = on_poll s.stage s ready now

unfoldable pub run : Loader → List Event → Loader × List Effect
unfolding step
run s [] = (s, [])
run s (e ∷ es) =
    let (s', effects) = step s e in let (s'', later) = run s' es in (s'', effects ++ later)
