-- ===== src/Receiver/Stages.antt =====
-- The stage of the protocol that a state of the receiver is in, and what ties `current` to the
-- handler that is running.
use quicksend.Base.{ℕ, ◌≡◌, Bool, List, [], ◌∷◌, Option, none, some}
use quicksend.Base.Bytes.{Bytes, Text}
use quicksend.Base.Results.{Failure}
use quicksend.Hex.{to_hex}
use quicksend.Receiver.State.{
  Current, Await, Effect, Receiver, keying, opening, starting, decrypting, writing, on_error,
}
use quicksend.Receiver.Protocol.{
  Stage, idle, expecting, handing, orphaned, IsFree, free_idle, free_expecting, error_free, Moves,
  done, call,
}
use quicksend.Receiver.{Outcome}

-- The stage that a state is in.
abbrev pub free_stage : Option Current → Stage
free_stage none = idle
free_stage (some c) = expecting c.file_id_hex c.expected_index

abbrev pub handing_stage : Option Current → Text → ℕ → Bool → Stage
handing_stage none id n last = orphaned id n
handing_stage (some c) id n last = handing id n last

abbrev pub stage_of : Option Current → Option Await → Stage
stage_of current none = free_stage current
stage_of current (some (writing id n last)) = handing_stage current id n last
stage_of current (some (keying id c b)) = free_stage current
stage_of current (some (opening id b k c)) = free_stage current
stage_of current (some starting) = free_stage current
stage_of current (some (decrypting f k)) = free_stage current

abbrev pub stage : Receiver → Stage
stage r = stage_of r.current r.running

-- Between two awaits only the current file can have been given up: a chunk that is being decrypted
-- or handled is the expected chunk of the current file, if there still is one.
abbrev pub Coherent : Option Current → Option Await → Type 0
Coherent none a = Unit {0}
Coherent (some c) none = Unit {0}
Coherent (some c) (some (keying id x b)) = Unit {0}
Coherent (some c) (some (opening id b k x)) = Unit {0}
Coherent (some c) (some starting) = Unit {0}
Coherent (some c) (some (decrypting f k)) =
    (to_hex f.file_id ≡ c.file_id_hex) × (f.index ≡ c.expected_index) × (k ≡ c.file_key)
Coherent (some c) (some (writing id n last)) = (id ≡ c.file_id_hex) × (n ≡ c.expected_index)

-- What one piece of a handler's code does from a stage on.
pub record Follows (s : Stage) (o : Outcome) : Type 0 where
  pub moves : Moves s o.effects (stage_of o.current o.await)
  pub coherent : Coherent o.current o.await

pub free : (current : Option Current) → IsFree (free_stage current)
free none = free_idle
free (some c) = free_expecting

pub error-Moves :
    (current : Option Current) (e : Failure)
    → Moves (free_stage current) (on_error e ∷ []) (free_stage current)
error-Moves current e = call (error_free e (free current)) done

pub Coherent-none : (current : Option Current) → Coherent current none
Coherent-none none = tt
Coherent-none (some c) = tt

pub Coherent-keying :
    (current : Option Current) (id : Text) (x : Option Text) (b : Bytes)
    → Coherent current (some (keying id x b))
Coherent-keying none id x b = tt
Coherent-keying (some c) id x b = tt

pub Coherent-opening :
    (current : Option Current) (id : Text) (b k x : Bytes)
    → Coherent current (some (opening id b k x))
Coherent-opening none id b k x = tt
Coherent-opening (some c) id b k x = tt

pub fails :
    (current : Option Current) (e : Failure)
    → Follows
        (free_stage current)
        (record { current = current; await = none; effects = on_error e ∷ [] })
fails current e = record { moves = error-Moves current e; coherent = Coherent-none current }

-- A whole state with the calls that led to it.
pub record Reaches (s : Stage) (out : Receiver × List Effect) : Type 0 where
  pub moves : Moves s out.1 (stage out.0)
  pub coherent : Coherent out.0.current out.0.running
