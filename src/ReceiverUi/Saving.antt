-- ===== src/ReceiverUi/Saving.antt =====
-- The file that is saved is the file that was sent.
use quicksend.Base.{
  ℕ, zero, suc, ◌+◌, ◌≡◌, refl, sym, ap, ◌∙◌, subst, Bool, true, false, ◌&&◌, ltb, List, [], ◌∷◌,
  ◌++◌, none, some, if◌then◌else◌, if-cases, Bool-cases, inl, inr, length, length-append,
  append-nil, arith,
}
use quicksend.Base.Bytes.{Bytes, Text}
use quicksend.Base.Tables.{list_eq, list_eq_refl}
use quicksend.Hex.{to_hex}
use quicksend.Receiver.State.{
  Effect, on_file_start, on_chunk, on_file_complete, on_aborted, on_error, send_ack, send_abort,
}
use quicksend.Sender.State.{Call}
use quicksend.Sender.{chunk_size, chunk_at}
use quicksend.Sender.Slices.{chunks_upto, chunks_partition}
use quicksend.Sender.Transcript.{total}
use quicksend.Transfer.{sent_metadata, calls_upto, file_calls}
use quicksend.FileSink.{
  Sink, Answers, create_file_sink, concat, concat-append, write, close, is_blob,
}
use quicksend.ReceiverUi
use quicksend.ReceiverUi.{
  Row, Ui, large_file_warning, no_text, blob_fallback_warn_bytes, downloaded, saved_to_disk, lookup,
  set, file_start, chunk, file_complete, apply,
}

pub lookup-set :
    (id : Text) (row : Row) (rows : List (Text × Row)) → lookup id (set id row rows) ≡ some row
unfolding lookup set
lookup-set id row [] = rw (list_eq_refl id) refl
lookup-set id row (entry ∷ rest) = elim (Bool-cases (list_eq id entry.0)) [
  | inl same ↦ rw (same, lookup, same) refl
  | inr other ↦ rw (other, lookup, other) (lookup-set id row rest)
]

set-set :
    (id : Text) (row row' : Row) (rows : List (Text × Row))
    → set id row' (set id row rows) ≡ set id row' rows
unfolding set
set-set id row row' [] = rw (list_eq_refl id) refl
set-set id row row' (entry ∷ rest) = elim (Bool-cases (list_eq id entry.0)) [
  | inl same ↦ rw (same, set, same) refl
  | inr other ↦ rw (other, set, other) (ap (entry ∷◌) (set-set id row row' rest))
]

apply-append :
    (a : Answers) (ui : Ui) (xs ys : List Effect)
    → apply a ui (xs ++ ys) ≡ apply a (apply a ui xs) ys
unfolding apply
apply-append a ui [] ys = refl
apply-append a ui (on_file_start id m ∷ xs) ys = apply-append a (file_start a ui id m) xs ys
apply-append a ui (on_chunk id n last p ∷ xs) ys = apply-append a (chunk ui id p) xs ys
apply-append a ui (on_file_complete id ∷ xs) ys = apply-append a (file_complete ui id) xs ys
apply-append a ui (on_aborted id r ∷ xs) ys = apply-append a (ReceiverUi.aborted ui id r) xs ys
apply-append a ui (on_error e ∷ xs) ys = apply-append a (ReceiverUi.errored ui) xs ys
apply-append a ui (send_ack id n ∷ xs) ys = apply-append a ui xs ys
apply-append a ui (send_abort id ∷ xs) ys = apply-append a ui xs ys

abbrev with_row : Text → Row → List (Text × Row) → Ui
with_row id row rows = record { receiving = true; rows = set id row rows }

pub if-false : {A : Type 0} (x y : A) (b : Bool) → b ≡ false → (if b then x else y) ≡ y
if-false x y true e = cc
if-false x y false e = refl

chunk_lem :
    (id : Text) (row : Row) (rows : List (Text × Row)) (plaintext : Bytes)
    → row.done ≡ false
    → chunk (with_row id row rows) id plaintext
      ≡ with_row id
          (record row {
            sink = write row.sink plaintext;
            received = row.received + length plaintext;
          })
          rows
unfolding chunk
chunk_lem id row rows plaintext h =
    found
    ∙ if-false _ _ row.done h
    ∙ ap (λ rs. record { receiving = true; rows = rs }) (set-set id row _ rows)
  where
    written : Row
    written = record row {
      sink = write row.sink plaintext;
      received = row.received + length plaintext;
    }

    found : chunk (with_row id row rows) id plaintext ≡ (
        if row.done
        then with_row id row rows
        else record { receiving = true; rows = set id written (set id row rows) })
    found = rw (lookup-set id row rows, chunk) refl

-- The end of a file: its parts are saved.
file_complete_lem :
    (id : Text) (row : Row) (rows : List (Text × Row))
    → (done : Row) × (file_complete (with_row id row rows) id
        ≡ record { receiving = false; rows = set id done rows })
      × (done.done ≡ true)
      × (done.received ≡ row.received)
      × (done.sink.saved ≡ some (concat row.sink.parts))
unfolding file_complete close
file_complete_lem id row rows =
    let done : Row = record row {
      done = true;
      sink = close row.sink;
      status = if is_blob row.sink then downloaded else saved_to_disk;
      open_link = (close row.sink).preview;
    } in
    (
      done,
      found done refl
          ∙ ap (λ rs. record { receiving = false; rows = rs }) (set-set id row done rows),
      refl,
      refl,
      refl,
    )
  where
    found :
        (done : Row)
        → done ≡ record row {
          done = true;
          sink = close row.sink;
          status = if is_blob row.sink then downloaded else saved_to_disk;
          open_link = (close row.sink).preview;
        }
        → file_complete (with_row id row rows) id
          ≡ record { receiving = false; rows = set id done (set id row rows) }
    found done e = rw (lookup-set id row rows, file_complete, e) refl

create_file_sink-empty :
    (a : Answers) → ((create_file_sink a).parts ≡ []) × ((create_file_sink a).saved ≡ none)
unfolding create_file_sink
create_file_sink-empty a =
    if-cases (λ (s : Sink). (s.parts ≡ []) × (s.saved ≡ none))
      (a.has_directory && a.directory_opens) _ _ (λ _. (refl, refl))
      (λ _.
        if-cases (λ (s : Sink). (s.parts ≡ []) × (s.saved ≡ none)) (a.has_picker && a.picker_opens)
          _ _ (λ _. (refl, refl)) (λ _. (refl, refl)))

module _ (c : Call) (answers : Answers) (ui : Ui) where
  abbrev id : Text
  id = to_hex c.file_id

  abbrev parts_upto : ℕ → List Bytes
  parts_upto zero = []
  parts_upto (suc n) = parts_upto n ++ (chunk_at chunk_size c.file.content n ∷ [])

  -- The row once the first `n` chunks are written.
  abbrev row_at : Row → ℕ → Row
  row_at row n = record row {
    sink = record row.sink { parts = parts_upto n };
    received = length (chunks_upto chunk_size c.file.content n);
  }

  concat-parts_upto : (n : ℕ) → concat (parts_upto n) ≡ chunks_upto chunk_size c.file.content n
  unfolding chunks_upto
  concat-parts_upto zero = refl
  concat-parts_upto (suc n) =
      concat-append (parts_upto n) (chunk_at chunk_size c.file.content n ∷ [])
      ∙ ap (λ front. front ++ (chunk_at chunk_size c.file.content n ++ [])) (concat-parts_upto n)
      ∙ ap (chunks_upto chunk_size c.file.content n ++◌)
          (append-nil (chunk_at chunk_size c.file.content n))

  writes_chunks :
      (row : Row) (n : ℕ)
      → row.done ≡ false
      → apply answers (with_row id (row_at row 0) ui.rows) (calls_upto c n)
        ≡ with_row id (row_at row n) ui.rows
  unfolding apply calls_upto chunks_upto write
  writes_chunks row zero h = refl
  writes_chunks row (suc n) h =
      apply-append answers (with_row id (row_at row 0) ui.rows) (calls_upto c n) _
      ∙ ap (λ u. chunk u id (chunk_at chunk_size c.file.content n)) (writes_chunks row n h)
      ∙ chunk_lem id (row_at row n) ui.rows (chunk_at chunk_size c.file.content n) h
      ∙ ap (λ k. with_row id (record (row_at row (suc n)) { received = k }) ui.rows)
          (sym (
            length-append (chunks_upto chunk_size c.file.content n)
              (chunk_at chunk_size c.file.content n)))

  abbrev first_row : Row
  first_row = record {
    sink = create_file_sink answers;
    received = 0;
    size = (sent_metadata c).size;
    done = false;
    status =
        if is_blob (create_file_sink answers) && ltb blob_fallback_warn_bytes (sent_metadata c).size
        then large_file_warning
        else no_text;
    open_link = false;
  }

  begins : file_start answers ui id (sent_metadata c) ≡ with_row id (row_at first_row 0) ui.rows
  unfolding file_start chunks_upto
  begins =
      ap
        (λ ps.
          with_row id (record first_row { sink = record first_row.sink { parts = ps } }) ui.rows)
        (create_file_sink-empty answers).0

  -- The file is saved under its id, whole.
  abbrev pub Saved : Ui → Type 0
  Saved after =
      (after.receiving ≡ false)
      × ((row : Row) × (lookup id after.rows ≡ some row)
          × (row.done ≡ true)
          × (row.received ≡ length c.file.content)
          × (row.sink.saved ≡ some c.file.content))

  whole : chunks_upto chunk_size c.file.content (total c) ≡ c.file.content
  whole = (chunks_partition chunk_size c.file.content (omega arith)).0

  pub saves_file : Saved (apply answers ui (file_calls c))
  saves_file = subst Saved (sym applied) (
    refl,
    (
      last.0,
      lookup-set id last.0 ui.rows,
      last.2,
      last.3 ∙ ap length whole,
      last.4 ∙ ap some (concat-parts_upto (total c) ∙ whole),
    ),
  )
    where
      last :
          (done : Row) × (file_complete (with_row id (row_at first_row (total c)) ui.rows) id
            ≡ record { receiving = false; rows = set id done ui.rows })
          × (done.done ≡ true)
          × (done.received ≡ length (chunks_upto chunk_size c.file.content (total c)))
          × (done.sink.saved ≡ some (concat (parts_upto (total c))))
      last = file_complete_lem id (row_at first_row (total c)) ui.rows

      applied :
          apply answers ui (file_calls c)
          ≡ record { receiving = false; rows = set id last.0 ui.rows }
      applied =
          unfold apply in
          ap (λ u. apply answers u (calls_upto c (total c) ++ (on_file_complete id ∷ []))) begins
          ∙ apply-append answers (with_row id (row_at first_row 0) ui.rows) (calls_upto c (total c))
              (on_file_complete id ∷ [])
          ∙ ap (λ u. file_complete u id) (writes_chunks first_row (total c) refl)
          ∙ last.1
