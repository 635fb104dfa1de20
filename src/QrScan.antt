-- ===== src/QrScan.antt =====
-- web/qr-scan.js: startScanning, cut at its awaits and at its timer. The vendored reader's answer
-- for a frame comes with the event.
pub mod Camera
use quicksend.Base.{
  ℕ, suc, ◌+◌, Bool, true, false, not, List, [], ◌∷◌, ◌++◌, Option, none, some, ◌==◌, if◌then◌else◌,
}
use quicksend.Base.Bytes.{Text}

-- The variables of the scan once the video plays. `pending` are the timers that are set, `made`
-- counts those that were.
pub record Loop : Type 0 where
  pub stopped : Bool
  pub timer : Option ℕ
  pub pending : List ℕ
  pub made : ℕ

-- Where the call stands: it awaits getUserMedia or `play()`, has ended without a scan, has
-- rejected, or has returned `stop`.
pub data Stage : Type 0 where
  asking starting denied rejected : Stage
  running : Loop → Stage

-- `tracks_on` says that the camera is in use, `has_source` that the video shows it.
pub record Scanner : Type 0 where
  pub stage : Stage
  pub tracks_on : Bool
  pub has_source : Bool

-- What the reader finds in the picture of the moment: `none` where the video has none yet.
abbrev pub Frame : Type 0
Frame = Option (Option Text)

pub data Event : Type 0 where
  granted refused play_failed stop_called : Event
  playing : Frame → Event
  timer_fired : ℕ → Frame → Event

pub data Effect : Type 0 where
  on_error : Effect
  on_decode : Text → Effect

unfoldable pub fresh : Scanner
fresh = record { stage = asking; tracks_on = false; has_source = false }

unfoldable pub remove : ℕ → List ℕ → List ℕ
remove n [] = []
remove n (m ∷ ms) = if m == n then remove n ms else m ∷ remove n ms

-- `if (timer) clearTimeout(timer)`.
abbrev pub clear_timer : Option ℕ → List ℕ → List ℕ
clear_timer none pending = pending
clear_timer (some n) pending = remove n pending

-- `stop`.
unfoldable pub stop : Scanner → Loop → Scanner
unfolding remove
stop s l = if l.stopped then s else record {
  stage = running (record l { stopped = true; pending = clear_timer l.timer l.pending });
  tracks_on = false;
  has_source = false;
}

-- `timer = setTimeout(tick, SCAN_INTERVAL_MS)`.
unfoldable pub wait_again : Scanner → Loop → Scanner
wait_again s l = record s {
  stage =
      running
        (record l { timer = some l.made; pending = l.pending ++ (l.made ∷ []); made = suc l.made });
}

-- `result && result.data`, with an empty text as false.
abbrev pub found_text : Frame → Option Text
found_text none = none
found_text (some none) = none
found_text (some (some [])) = none
found_text (some (some (c ∷ cs))) = some (c ∷ cs)

unfoldable pub look : Scanner → Loop → Option Text → Scanner × List Effect
unfolding stop wait_again
look s l none = (wait_again s l, [])
look s l (some text) = (stop s l, on_decode text ∷ [])

unfoldable pub tick : Scanner → Loop → Frame → Scanner × List Effect
unfolding look
tick s l frame =
    if l.stopped then (record s { stage = running l }, []) else look s l (found_text frame)

abbrev pub first_loop : Loop
first_loop = record { stopped = false; timer = none; pending = []; made = 0 }

abbrev pub member : ℕ → List ℕ → Bool
member n [] = false
member n (m ∷ ms) = if m == n then true else member n ms

-- A timer that was cleared, or has fired already, does not fire.
unfoldable pub fire : Scanner → Loop → ℕ → Frame → Scanner × List Effect
unfolding tick remove
fire s l n frame =
    if member n l.pending then tick s (record l { pending = remove n l.pending }) frame else (s, [])

unfoldable pub step_running : Scanner → Loop → Event → Scanner × List Effect
unfolding fire stop
step_running s l (timer_fired n frame) = fire s l n frame
step_running s l stop_called = (stop s l, [])
step_running s l _ = (s, [])

unfoldable pub step_asking : Scanner → Event → Scanner × List Effect
step_asking s granted = (record { stage = starting; tracks_on = true; has_source = true }, [])
step_asking s refused = (record s { stage = denied }, on_error ∷ [])
step_asking s _ = (s, [])

unfoldable pub step_starting : Scanner → Event → Scanner × List Effect
unfolding tick
step_starting s (playing frame) = tick s first_loop frame
step_starting s play_failed = (record s { stage = rejected }, [])
step_starting s _ = (s, [])

unfoldable pub step_at : Stage → Scanner → Event → Scanner × List Effect
unfolding step_asking step_starting step_running
step_at asking s e = step_asking s e
step_at starting s e = step_starting s e
step_at (running l) s e = step_running s l e
step_at denied s e = (s, [])
step_at rejected s e = (s, [])

unfoldable pub step : Scanner → Event → Scanner × List Effect
unfolding step_at
step s e = step_at s.stage s e

unfoldable pub run : Scanner → List Event → Scanner × List Effect
unfolding step
run s [] = (s, [])
run s (e ∷ es) =
    let (s', effects) = step s e in let (s'', later) = run s' es in (s'', effects ++ later)
