-- ===== src/QrScan/Camera.antt =====
-- web/qr-scan.js, startScanning: the camera is released with the end of the scan, and a code is
-- reported once.
use quicksend.Base.{
  ℕ, suc, ◌+◌, ◌≤◌, ◌≡◌, refl, Bool, true, false, List, [], ◌∷◌, ◌++◌, Option, none, some, arith,
  Bool-cases, if-cases, ◌⊎◌, ◌∙◌, subst, sym, ap, if◌then◌else◌, inl, inr,
}
use quicksend.Base.Bytes.{Text}
use quicksend.QrScan.{
  Loop, Stage, Scanner, Frame, Event, Effect, asking, starting, denied, rejected, running, granted,
  refused, play_failed, stop_called, playing, timer_fired, on_error, on_decode, fresh, stop,
  wait_again, look, tick, clear_timer, found_text, first_loop, fire, member, remove, step_running,
  step_at, step, run,
}

abbrev pub decodes : List Effect → ℕ
decodes [] = 0
decodes (on_error ∷ rest) = decodes rest
decodes (on_decode text ∷ rest) = suc (decodes rest)

-- A scan that goes on uses the camera, and one timer is set, the one that `stop` would clear.
abbrev pub LoopIsSound : Bool → Loop → Bool → Bool → ℕ → Type 0
LoopIsSound true l on source n = (on ≡ false) × (source ≡ false) × (l.pending ≡ []) × (n ≤ 1)
LoopIsSound false l on source n =
    (on ≡ true) × (source ≡ true) × (n ≡ 0) × ((t : ℕ) × (l.timer ≡ some t) × (l.pending ≡ t ∷ []))

abbrev pub StageIsSound : Stage → Bool → Bool → ℕ → Type 0
StageIsSound asking on source n = (on ≡ false) × (source ≡ false) × (n ≡ 0)
StageIsSound starting on source n = (on ≡ true) × (source ≡ true) × (n ≡ 0)
StageIsSound denied on source n = (on ≡ false) × (source ≡ false) × (n ≡ 0)
StageIsSound rejected on source n = (on ≡ true) × (source ≡ true) × (n ≡ 0)
StageIsSound (running l) on source n = LoopIsSound l.stopped l on source n

abbrev pub ScanIsSound : Scanner → ℕ → Type 0
ScanIsSound s n = StageIsSound s.stage s.tracks_on s.has_source n

clear_timer-nil : (timer : Option ℕ) → clear_timer timer [] ≡ []
unfolding remove
clear_timer-nil none = refl
clear_timer-nil (some n) = refl

-- One look at a picture while no timer is set.
look-ScanIsSound :
    (s : Scanner) (l : Loop) (found : Option Text)
    → l.stopped ≡ false
    → l.pending ≡ []
    → s.tracks_on ≡ true
    → s.has_source ≡ true
    → ScanIsSound (look s l found).0 (decodes (look s l found).1)
unfolding look stop wait_again
look-ScanIsSound s l none going idle on source =
    rw going (on, source, refl, (l.made, refl, rw idle))
look-ScanIsSound s l (some text) going idle on source =
    rw going (refl, refl, rw idle (clear_timer-nil l.timer), omega arith)

tick-ScanIsSound :
    (s : Scanner) (l : Loop) (frame : Frame)
    → l.stopped ≡ false
    → l.pending ≡ []
    → s.tracks_on ≡ true
    → s.has_source ≡ true
    → ScanIsSound (tick s l frame).0 (decodes (tick s l frame).1)
unfolding tick
tick-ScanIsSound s l frame going idle on source =
    subst (λ (out : Scanner × List Effect). ScanIsSound out.0 (decodes out.1)) (sym looks)
      (look-ScanIsSound s l (found_text frame) going idle on source)
  where
    looks : tick s l frame ≡ look s l (found_text frame)
    looks =
        ap (λ b. if b then (record s { stage = running l }, []) else look s l (found_text frame))
          going

-- The same of a step, where `n` codes were reported before it.
abbrev OutIsSound : ℕ → Scanner × List Effect → Type 0
OutIsSound n out = ScanIsSound out.0 (n + decodes out.1)

remove-member : (k t : ℕ) → member k (t ∷ []) ≡ true → remove k (t ∷ []) ≡ []
unfolding remove
remove-member k t h = ground arith

remove_one : (t : ℕ) → remove t (t ∷ []) ≡ []
unfolding remove
remove_one t = ground arith

unchanged :
    (s : Scanner) (st : Stage) (n : ℕ)
    → s.stage ≡ st
    → StageIsSound st s.tracks_on s.has_source n
    → ScanIsSound s (n + 0)
unchanged s st n at h =
    let e : n ≡ n + 0 = omega arith in
    subst (λ m. ScanIsSound s m) e
      (subst (λ stage. StageIsSound stage s.tracks_on s.has_source n) (sym at) h)

LoopIsSound-idle :
    (l : Loop) (on source : Bool) (n : ℕ)
    → l.stopped ≡ true
    → LoopIsSound l.stopped l on source n
    → l.pending ≡ []
LoopIsSound-idle l on source n e h = (subst (λ b. LoopIsSound b l on source n) e h).2

fire-ScanIsSound :
    (s : Scanner) (l : Loop) (k : ℕ) (frame : Frame) (n : ℕ)
    → s.stage ≡ running l
    → LoopIsSound l.stopped l s.tracks_on s.has_source n
    → ScanIsSound (fire s l k frame).0 (n + decodes (fire s l k frame).1)
unfolding fire remove
fire-ScanIsSound s l k frame n at h =
    if-cases (OutIsSound n) (member k l.pending) _ _ (λ set. fired (Bool-cases l.stopped) set)
      (λ _. unchanged s (running l) n at h)
  where
    fired :
        (l.stopped ≡ true) ⊎ (l.stopped ≡ false)
        → member k l.pending ≡ true
        → OutIsSound n (tick s (record l { pending = remove k l.pending }) frame)
    fired (inl ended) set =
        cc (sym (ap (member k) (LoopIsSound-idle l s.tracks_on s.has_source n ended h)) ∙ set)
    fired (inr going) set =
        let (on, source, z, (t, timer, pending)) =
          subst (λ b. LoopIsSound b l s.tracks_on s.has_source n) going h in
        let none_left : remove k l.pending ≡ [] =
          rw pending (remove-member k t (rw pending at set)) in
        let plus : decodes (tick s (record l { pending = remove k l.pending }) frame).1
            ≡ n + decodes (tick s (record l { pending = remove k l.pending }) frame).1 =
          omega arith in
        subst (λ m. ScanIsSound (tick s (record l { pending = remove k l.pending }) frame).0 m) plus
          (tick-ScanIsSound s (record l { pending = remove k l.pending }) frame going none_left on
            source)

stop-ScanIsSound :
    (s : Scanner) (l : Loop) (n : ℕ)
    → s.stage ≡ running l
    → LoopIsSound l.stopped l s.tracks_on s.has_source n
    → ScanIsSound (stop s l) (n + 0)
unfolding stop remove
stop-ScanIsSound s l n at h =
    if-cases (λ r. ScanIsSound r (n + 0)) l.stopped _ _ (λ _. unchanged s (running l) n at h)
      (λ going.
        let (on, source, z, (t, timer, pending)) =
          subst (λ b. LoopIsSound b l s.tracks_on s.has_source n) going h in
        (refl, refl, rw (timer, pending) (remove_one t), omega arith))

-- What a step of a running scan leaves sound, given how often a code was reported before.
step_running-ScanIsSound :
    (s : Scanner) (l : Loop) (e : Event) (n : ℕ)
    → s.stage ≡ running l
    → LoopIsSound l.stopped l s.tracks_on s.has_source n
    → ScanIsSound (step_running s l e).0 (n + decodes (step_running s l e).1)
unfolding step_running
step_running-ScanIsSound s l (timer_fired k frame) n at h = fire-ScanIsSound s l k frame n at h
step_running-ScanIsSound s l stop_called n at h = stop-ScanIsSound s l n at h
step_running-ScanIsSound s l (playing frame) n at h = unchanged s (running l) n at h
step_running-ScanIsSound s l granted n at h = unchanged s (running l) n at h
step_running-ScanIsSound s l refused n at h = unchanged s (running l) n at h
step_running-ScanIsSound s l play_failed n at h = unchanged s (running l) n at h

step-ScanIsSound : (s : Scanner) (e : Event) (n : ℕ) → ScanIsSound s n → OutIsSound n (step s e)
unfolding step
step-ScanIsSound s e n h = go s.stage refl h e
  where
    go :
        (st : Stage)
        → s.stage ≡ st
        → StageIsSound st s.tracks_on s.has_source n
        → (e : Event) → OutIsSound n (step_at st s e)
    go asking at k granted = (refl, refl, omega arith)
    go asking at k refused = (k.0, k.1, omega arith)
    go asking at k _ = unchanged s asking n at k
    go starting at k (playing frame) =
        let plus : decodes (tick s first_loop frame).1 ≡ n + decodes (tick s first_loop frame).1 =
          omega arith in
        subst (λ m. ScanIsSound (tick s first_loop frame).0 m) plus
          (tick-ScanIsSound s first_loop frame refl refl k.0 k.1)
    go starting at k play_failed = (k.0, k.1, omega arith)
    go starting at k _ = unchanged s starting n at k
    go (running l) at k e = step_running-ScanIsSound s l e n at k
    go denied at k e = unchanged s denied n at k
    go rejected at k e = unchanged s rejected n at k

decodes-append : (xs ys : List Effect) → decodes (xs ++ ys) ≡ decodes xs + decodes ys
decodes-append [] ys = omega arith
decodes-append (on_error ∷ xs) ys = decodes-append xs ys
decodes-append (on_decode text ∷ xs) ys = omega (arith, decodes-append xs ys)

run_from-ScanIsSound :
    (es : List Event) (s : Scanner) (n : ℕ) → ScanIsSound s n → OutIsSound n (run s es)
unfolding run
run_from-ScanIsSound [] s n h = unchanged s s.stage n refl h
run_from-ScanIsSound (e ∷ es) s n h =
    let now = (step s e).1 in
    let later = (run (step s e).0 es).1 in
    let sum : n + decodes now + decodes later ≡ n + decodes (now ++ later) =
      omega (arith, decodes-append now later) in
    subst (λ m. ScanIsSound (run (step s e).0 es).0 m) sum
      (run_from-ScanIsSound es (step s e).0 (n + decodes now) (step-ScanIsSound s e n h))

-- In every run of startScanning, whatever happens: at most one code is reported; while the scan
-- goes on the camera is in use, nothing was reported and exactly one timer is set, the one that
-- stop clears; and once it was stopped, by its caller or by a code, the camera is released, the
-- video shows it no more and no timer is set.
pub run-ScanIsSound : (es : List Event) → ScanIsSound (run fresh es).0 (decodes (run fresh es).1)
unfolding fresh
run-ScanIsSound es =
    let plus : 0 + decodes (run fresh es).1 ≡ decodes (run fresh es).1 = omega arith in
    subst (λ m. ScanIsSound (run fresh es).0 m) plus
      (run_from-ScanIsSound es fresh 0 (refl, refl, refl))
