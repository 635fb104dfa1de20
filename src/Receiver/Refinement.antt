-- ===== src/Receiver/Refinement.antt =====
-- The receiver keeps to the protocol, whatever arrives and however its handlers interleave with a
-- close, an abort or a detach.
use quicksend.Base.{
  ◌≡◌, refl, Bool, true, false, List, [], ◌∷◌, ◌++◌, Option, none, some, if◌then◌else◌,
}
use quicksend.Base.Bytes.{Bytes}
use quicksend.Base.Results.{Failure}
use quicksend.Crypto.Platform.{WebCrypto}
use quicksend.Wire.{Incoming}
use quicksend.Receiver.State.{
  MetadataCodec, Current, Task, Await, Effect, Receiver, Event, fresh, keying, opening, starting,
  decrypting, writing, message, close, cancel, detach, computed, handled,
}
use quicksend.Receiver.Protocol.{
  Stage, idle, expecting, lose, lose_handing, tell, tell_handing, abort, abort_handing, Moves, done,
  call, Moves-append,
}
use quicksend.Receiver.{
  Outcome, begin, hold_or, drain, proceed, task_of, enqueue, on_message, on_close, abort_current,
  resume_crypto, resume_handler, step, run,
}
use quicksend.Receiver.Stages.{
  Coherent, Follows, Reaches, Coherent-none, free_stage, stage, stage_of,
}
use quicksend.Receiver.Handlers.{after_crypto-Follows, after_handler-Follows, begin-Follows}

hold_or-Reaches :
    (s : Stage) (attached : Bool) (queue : List Task) (current : Option Current)
    (await : Option Await) (es : List Effect) (rest : Receiver × List Effect)
    → Moves s es (stage_of current await)
    → Coherent current await
    → (Moves s es (free_stage current) → Reaches s rest)
    → Reaches s
        (hold_or attached queue (record { current = current; await = await; effects = es }) rest)
unfolding hold_or
hold_or-Reaches s attached queue current none es rest m h ih = ih m
hold_or-Reaches s attached queue current (some await) es rest m h ih = record {
  moves = m;
  coherent = h;
}

drain-Reaches :
    (s : Stage) (attached : Bool) (current : Option Current) (tasks : List Task) (es : List Effect)
    → Moves s es (free_stage current)
    → Reaches s (drain attached current tasks es)
unfolding drain
drain-Reaches s attached current [] es m = record { moves = m; coherent = Coherent-none current }
drain-Reaches s attached current (task ∷ tasks) es m =
    let next = begin current task in
    let f = begin-Follows current task in
    hold_or-Reaches s attached tasks next.current next.await (es ++ next.effects) _
      (Moves-append m f.moves) f.coherent
      (drain-Reaches s attached next.current tasks (es ++ next.effects))

proceed-Reaches :
    (s : Stage) (attached : Bool) (queue : List Task) (o : Outcome)
    → Follows s o
    → Reaches s (proceed attached queue o)
unfolding proceed
proceed-Reaches s attached queue o f =
    hold_or-Reaches s attached queue o.current o.await o.effects _ f.moves f.coherent
      (drain-Reaches s attached o.current queue o.effects)

on_close-Reaches : (r : Receiver) → Coherent r.current r.running → Reaches (stage r) (on_close r)
unfolding on_close
on_close-Reaches r h = go r.current r.running h
  where
    go :
        (current : Option Current) (await : Option Await)
        → Coherent current await
        → Reaches
            (stage_of current await)
            (on_close (record r { current = current; running = await }))
    go none await h = record { moves = done; coherent = tt }
    go (some c) none h = record {
      moves = call (lose c.file_id_hex c.expected_index _) done;
      coherent = tt;
    }
    go (some c) (some (keying id x b)) h = record {
      moves = call (lose c.file_id_hex c.expected_index _) done;
      coherent = tt;
    }
    go (some c) (some (opening id b k x)) h = record {
      moves = call (lose c.file_id_hex c.expected_index _) done;
      coherent = tt;
    }
    go (some c) (some starting) h = record {
      moves = call (lose c.file_id_hex c.expected_index _) done;
      coherent = tt;
    }
    go (some c) (some (decrypting f k)) h = record {
      moves = call (lose c.file_id_hex c.expected_index _) done;
      coherent = tt;
    }
    go (some c) (some (writing id n last)) h = record {
      moves = call (lose_handing id n last _) done;
      coherent = tt;
    }

abort_current-Reaches :
    (r : Receiver) → Coherent r.current r.running → Reaches (stage r) (abort_current r)
unfolding abort_current
abort_current-Reaches r h = go r.current r.running h
  where
    given_up :
        (c : Current) (await : Option Await)
        → stage_of none await ≡ idle
        → stage_of (some c) await ≡ expecting c.file_id_hex c.expected_index
        → Reaches
            (stage_of (some c) await)
            (abort_current (record r { current = some c; running = await }))
    given_up c await e f = record {
      moves =
          rw (e, f)
            (call (tell c.file_id_hex c.expected_index)
              (call (abort c.file_id_hex c.expected_index none) done));
      coherent = tt;
    }

    go :
        (current : Option Current) (await : Option Await)
        → Coherent current await
        → Reaches
            (stage_of current await)
            (abort_current (record r { current = current; running = await }))
    go none await h = record { moves = done; coherent = tt }
    go (some c) none h = given_up c none refl refl
    go (some c) (some (keying id x b)) h = given_up c (some (keying id x b)) refl refl
    go (some c) (some (opening id b k x)) h = given_up c (some (opening id b k x)) refl refl
    go (some c) (some starting) h = given_up c (some starting) refl refl
    go (some c) (some (decrypting f k)) h = given_up c (some (decrypting f k)) refl refl
    go (some c) (some (writing id n last)) h = record {
      moves = rw (← h.0) (call (tell_handing id n last) (call (abort_handing id n last none) done));
      coherent = tt;
    }

enqueue-Reaches :
    (r : Receiver) (task : Task) → Coherent r.current r.running → Reaches (stage r) (enqueue r task)
unfolding enqueue
enqueue-Reaches r task h = go r.running h
  where
    go :
        (await : Option Await)
        → Coherent r.current await
        → Reaches (stage_of r.current await) (enqueue (record r { running = await }) task)
    go none h =
        drain-Reaches (free_stage r.current) r.attached r.current (r.queue ++ (task ∷ [])) [] done
    go (some a) h = record { moves = done; coherent = h }

on_message-Reaches :
    (r : Receiver) (incoming : Incoming)
    → Coherent r.current r.running
    → Reaches (stage r) (on_message r incoming)
unfolding on_message
on_message-Reaches r incoming h = go (task_of incoming)
  where
    go :
        (o : Option Task)
        → Reaches (stage r) (elim o as (λ x. Receiver × List Effect) [
          | none ↦ (r, [])
          | some task ↦ enqueue r task
        ])
    go none = record { moves = done; coherent = h }
    go (some task) = enqueue-Reaches r task h

resume_handler-Reaches :
    (r : Receiver) (failure : Option Failure)
    → Coherent r.current r.running
    → Reaches (stage r) (resume_handler r failure)
unfolding resume_handler
resume_handler-Reaches r failure h = go r.running h
  where
    go :
        (await : Option Await)
        → Coherent r.current await
        → Reaches (stage_of r.current await) (resume_handler (record r { running = await }) failure)
    go none h = record { moves = done; coherent = h }
    go (some a) h =
        proceed-Reaches _ r.attached r.queue _ (after_handler-Follows r.current a failure h)

if-Reaches :
    (s : Stage) (b : Bool) (x y : Receiver × List Effect)
    → Reaches s x
    → Reaches s y
    → Reaches s (if b then x else y)
if-Reaches s true x y p q = p
if-Reaches s false x y p q = q

unmoved : (r : Receiver) → Coherent r.current r.running → Reaches (stage r) (r, [])
unmoved r h = record { moves = done; coherent = h }

module _ (w : WebCrypto) (codec : MetadataCodec) (epoch_key : Bytes) where
  resume_crypto-Reaches :
      (r : Receiver)
      → Coherent r.current r.running
      → Reaches (stage r) (resume_crypto w codec epoch_key r)
  unfolding resume_crypto
  resume_crypto-Reaches r h = go r.running h
    where
      go :
          (await : Option Await)
          → Coherent r.current await
          → Reaches
              (stage_of r.current await)
              (resume_crypto w codec epoch_key (record r { running = await }))
      go none h = record { moves = done; coherent = h }
      go (some a) h =
          proceed-Reaches _ r.attached r.queue _
            (after_crypto-Follows w codec epoch_key r.current a h)

  pub step-Reaches :
      (r : Receiver) (e : Event)
      → Coherent r.current r.running
      → Reaches (stage r) (step w codec epoch_key r e)
  unfolding step
  step-Reaches r (message incoming) h =
      if-Reaches _ r.attached _ _ (on_message-Reaches r incoming h) (unmoved r h)
  step-Reaches r close h = if-Reaches _ r.attached _ _ (on_close-Reaches r h) (unmoved r h)
  step-Reaches r cancel h = abort_current-Reaches r h
  step-Reaches r detach h = record { moves = done; coherent = h }
  step-Reaches r computed h = resume_crypto-Reaches r h
  step-Reaches r (handled failure) h = resume_handler-Reaches r failure h

  run-Reaches :
      (r : Receiver) (es : List Event)
      → Coherent r.current r.running
      → Reaches (stage r) (run w codec epoch_key r es)
  unfolding run
  run-Reaches r [] h = record { moves = done; coherent = h }
  run-Reaches r (e ∷ es) h =
      let first = step-Reaches r e h in
      let rest = run-Reaches (step w codec epoch_key r e).0 es first.coherent in
      record { moves = Moves-append first.moves rest.moves; coherent = rest.coherent }

  -- Over every sequence of events, from a fresh receiver on, the calls of the callbacks and the
  -- messages to the sender keep to the protocol: they are a sequence of moves of the abstract
  -- stages from idle to the stage of the final state.
  pub run-Moves :
      (es : List Event)
      → Moves idle (run w codec epoch_key fresh es).1 (stage (run w codec epoch_key fresh es).0)
  unfolding fresh
  run-Moves es = (run-Reaches fresh es tt).moves
