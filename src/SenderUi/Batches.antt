-- ===== src/SenderUi/Batches.antt =====
-- A batch of files is sent whole and in order.
use quicksend.Base.{
  suc, ◌≡◌, refl, ap, ◌∙◌, true, false, List, [], ◌∷◌, ◌++◌, map, none, some, length, append_assoc,
  arith,
}
use quicksend.Base.Bytes.{Text}
use quicksend.SenderUi.{
  Ending, SentStatus, SenderUi, UiEffect, send_file, next_file, send_files, handle_picked,
  status_of, file_ended, end_all,
}

-- In the loop: `file` is being sent, `files` are still to come.
abbrev in_loop : SenderUi → Text → List Text → List SentStatus → SenderUi
in_loop ui file files rows = record ui {
  sending = true;
  input_disabled = true;
  detached = false;
  current = some file;
  queue = files;
  rows = rows;
}

abbrev all_over : SenderUi → List SentStatus → SenderUi
all_over ui rows = record ui {
  sending = false;
  input_disabled = false;
  detached = false;
  current = none;
  queue = [];
  rows = rows;
}

ends_all :
    (ui : SenderUi) (file : Text) (files : List Text) (rows : List SentStatus)
    (endings : List Ending)
    → length endings ≡ suc (length files)
    → end_all (in_loop ui file files rows) endings
      ≡ (all_over ui (rows ++ map status_of endings), map send_file files)
unfolding end_all file_ended next_file
ends_all ui file files rows [] l = absurd (omega arith)
ends_all ui file [] rows (e ∷ []) l = refl
ends_all ui file [] rows (e ∷ e' ∷ es) l = absurd (omega arith)
ends_all ui file (next ∷ files) rows (e ∷ es) l =
    ap (λ out. (out.0, send_file next ∷ out.1))
      (ends_all ui next files (rows ++ (status_of e ∷ [])) es (omega arith))
    ∙ ap (λ rs. (all_over ui rs, send_file next ∷ map send_file files))
        (append_assoc rows (status_of e ∷ []) (map status_of es))

abbrev pub after_batch : SenderUi → List Text → List Ending → SenderUi × List UiEffect
after_batch ui files endings =
    let picked = handle_picked ui files true in
    let (rest, later) = end_all picked.0 endings in (rest, picked.1 ++ later)

-- For a sender screen that is attached and not sending, and a pick of one or more files on an open
-- socket: once as many calls of sendFile have ended as files were picked, in whatever way each has
-- ended, every file was sent once and in order, there is one more row for each with the text of its
-- ending, and the screen is ready for the next pick.
pub sends_batch :
    (ui : SenderUi) (file : Text) (files : List Text) (endings : List Ending)
    → ui.sending ≡ false
    → ui.detached ≡ false
    → length endings ≡ suc (length files)
    → after_batch ui (file ∷ files) endings
      ≡ (all_over ui (ui.rows ++ map status_of endings), map send_file (file ∷ files))
sends_batch ui file files endings idle attached l =
    ap (λ picked. let (rest, later) = end_all picked.0 endings in (rest, picked.1 ++ later)) begun
    ∙ ap (λ out. (out.0, send_file file ∷ out.1)) (ends_all ui file files ui.rows endings l)
  where
    begun :
        handle_picked ui (file ∷ files) true ≡ (in_loop ui file files ui.rows, send_file file ∷ [])
    begun =
        ap (λ d. handle_picked (record ui { detached = d }) (file ∷ files) true) attached
        ∙ ap (λ b. handle_picked (record ui { detached = false; sending = b }) (file ∷ files) true)
            idle
        ∙ unfold handle_picked send_files next_file in refl
