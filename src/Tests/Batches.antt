-- ===== src/Tests/Batches.antt =====
-- web/transfer-ui.js: two files, of which the first is canceled.
use quicksend.Base.{◌≡◌, refl, false, [], ◌∷◌, none}
use quicksend.Base.Bytes.{codes}
use quicksend.SenderUi.{SenderUi, resolved, aborted, sent, canceled, send_file, fresh_sender_ui}
use quicksend.SenderUi.Batches.{after_batch, sends_batch}

abbrev idle : SenderUi
idle = record {
  sending = false;
  input_disabled = false;
  detached = false;
  current = none;
  queue = [];
  rows = [];
}

idle-fresh_sender_ui : fresh_sender_ui ≡ idle
unfolding fresh_sender_ui
idle-fresh_sender_ui = refl

sends_batch_example :
    after_batch idle (codes "a" ∷ codes "b" ∷ []) (aborted none ∷ resolved ∷ []) ≡ (
      record idle { rows = canceled ∷ sent ∷ [] },
      send_file (codes "a") ∷ send_file (codes "b") ∷ [],
    )
sends_batch_example =
    sends_batch idle (codes "a") (codes "b" ∷ []) (aborted none ∷ resolved ∷ []) refl refl refl
