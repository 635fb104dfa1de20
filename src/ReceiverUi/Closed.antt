-- ===== src/ReceiverUi/Closed.antt =====
-- web/transfer-ui.js: a file that has been given up is not written any more.
use quicksend.Base.{
  ◌≡◌, refl, sym, ap, ◌∙◌, Bool, true, false, List, [], ◌∷◌, Option, none, some, map, if◌then◌else◌,
}
use quicksend.Base.Bytes.{Bytes, Text}
use quicksend.Base.Tables.{list_eq}
use quicksend.FileSink.{abort}
use quicksend.ReceiverUi.{
  Row, Ui, lookup, set, chunk, aborted, errored, fail_row, abort_status_text,
}
use quicksend.ReceiverUi.Saving.{lookup-set}

-- A chunk of a file whose row is done, or that has no row, changes nothing.
chunk-done :
    (ui : Ui) (id : Text) (plaintext : Bytes)
    → ((row : Row) → lookup id ui.rows ≡ some row → row.done ≡ true)
    → chunk ui id plaintext ≡ ui
unfolding chunk
chunk-done ui id plaintext h = go (lookup id ui.rows) refl
  where
    go : (o : Option Row) → lookup id ui.rows ≡ o → chunk ui id plaintext ≡ ui
    go none e = rw (e, chunk) refl
    go (some row) e = rw (e, chunk) (over _ row.done (h row e))
      where
        over : (x : Ui) (b : Bool) → b ≡ true → (if b then ui else x) ≡ ui
        over x true e = refl
        over x false e = cc

some-injective : {x y : Row} → some x ≡ some y → x ≡ y
some-injective e = cc

-- The error of a row: what it becomes, and that it is done.
fail_row-done : (entry : Text × Row) → (fail_row entry).1.done ≡ true
fail_row-done entry = go entry.1.done
  where
    go : (d : Bool) → (fail_row (entry.0, record entry.1 { done = d })).1.done ≡ true
    go true = refl
    go false = refl

lookup-failed :
    (id : Text) (rows : List (Text × Row)) (row : Row)
    → lookup id (map fail_row rows) ≡ some row
    → row.done ≡ true
unfolding lookup
lookup-failed id [] row e = cc
lookup-failed id (entry ∷ rest) row e = pick (list_eq id entry.0) e (lookup-failed id rest row)
  where
    pick :
        (b : Bool)
        → (if b then some (fail_row entry).1 else lookup id (map fail_row rest)) ≡ some row
        → (lookup id (map fail_row rest) ≡ some row → row.done ≡ true)
        → row.done ≡ true
    pick true e later = ap Row.done (sym (some-injective e)) ∙ fail_row-done entry
    pick false e later = later e

aborted-done :
    (ui : Ui) (id : Text) (reason : Option Text) (row : Row)
    → lookup id (aborted ui id reason).rows ≡ some row
    → row.done ≡ true
unfolding aborted
aborted-done ui id reason row e = go (lookup id ui.rows) refl
  where
    go : (o : Option Row) → lookup id ui.rows ≡ o → row.done ≡ true
    go none f = cc (f, e, ap (λ u. lookup id u.rows) unknown)
      where
        unknown : aborted ui id reason ≡ record ui { receiving = false }
        unknown = rw (f, aborted) refl
    go (some old) f = ap Row.done (
        sym (
          some-injective
            (sym (lookup-set id closed ui.rows) ∙ sym (ap (λ u. lookup id u.rows) known) ∙ e)))
      where
        closed : Row
        closed = record old {
          done = true;
          status = abort_status_text reason;
          sink = abort old.sink;
        }

        known : aborted ui id reason ≡ record { receiving = false; rows = set id closed ui.rows }
        known = rw (f, aborted) refl

-- After an error, and after the cancellation of a file, in every state of the receiver screen: a
-- chunk of any file after the error, and of that file after its cancellation, changes nothing, so
-- that nothing is written to a sink that was aborted.
pub late_chunks_ignored :
    (ui : Ui) (id : Text) (reason : Option Text) (plaintext : Bytes)
    → (chunk (errored ui) id plaintext ≡ errored ui)
      × (chunk (aborted ui id reason) id plaintext ≡ aborted ui id reason)
unfolding errored
late_chunks_ignored ui id reason plaintext = (
  chunk-done (errored ui) id plaintext (lookup-failed id ui.rows),
  chunk-done (aborted ui id reason) id plaintext (aborted-done ui id reason),
)
