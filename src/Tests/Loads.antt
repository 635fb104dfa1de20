-- ===== src/Tests/Loads.antt =====
-- web/qr-scan.js, web/pake.js and web/strings.js on short runs, and a whole conversation.
use quicksend.Base.{◌<◌, arith, ◌+◌, ◌*◌, ◌≡◌, refl, true, false, List, [], ◌∷◌, none, some}
use quicksend.Base.Bytes.{Text, codes}
use quicksend.Base.Tables.{list_eq}
use quicksend.QrScan as Scan
use quicksend.QrScan.{granted, play_failed, playing, timer_fired, on_decode, rejected}
use quicksend.QrScan.Camera.{ScanIsSound, decodes, run-ScanIsSound}
use quicksend.Pake.Loading as Loading
use quicksend.Pake.Loading.{Loader, call, imported, instantiated, poll, failed, refused, resolved}
use quicksend.Pake.Loading.Counts.{tally, calls, no_effects}
use quicksend.Pake.Loading.Sharing.{LoadIsSound, run-LoadIsSound}
use quicksend.Pake.Loading.Failure.{failed_load}
use quicksend.Pairing.Messages.{error_message_key}
use quicksend.Strings.{Page, lookup, table, t, show_locale}
use quicksend.Base.Objects.{is_inherited}
use quicksend.Strings.Complete.{error_text}
use quicksend.Transfer.{delivered}
use quicksend.Transfer.Conversation.{converse}
use quicksend.Transfer.Conversation.Sending.{start}
use quicksend.Transfer.Conversation.Completion.{IsDone, conversation_completes}
use quicksend.Sender.Transcript.{total}
use quicksend.Tests.Instances.{toy_laws, toy_call}
use quicksend.Tests.Transfers.{key_length, sixteen, id_bytes, one_chunk}

abbrev scan : List Scan.Event
scan =
    granted
    ∷ playing none
    ∷ timer_fired 0 (some none)
    ∷ timer_fired 1 (some (some (codes "x")))
    ∷ []

scan_test : (Scan.run Scan.fresh scan).1 ≡ on_decode (codes "x") ∷ []
unfolding Scan.run Scan.fresh
scan_test = refl

run-ScanIsSound_example :
    ScanIsSound (Scan.run Scan.fresh scan).0 (decodes (Scan.run Scan.fresh scan).1)
run-ScanIsSound_example = run-ScanIsSound scan

abbrev two_calls : List Loading.Event
two_calls =
    call 1 false 0 ∷ imported true ∷ call 2 false 3 ∷ instantiated true false 5 ∷ poll true 15 ∷ []

load_test :
    (Loading.run Loading.fresh two_calls).1
    ≡ Loading.import_script
      ∷ Loading.fetch_module
      ∷ Loading.go_run
      ∷ Loading.poll_later
      ∷ resolved 1
      ∷ resolved 2
      ∷ []
unfolding Loading.run Loading.fresh
load_test = refl

run-LoadIsSound_example :
    LoadIsSound 2
      (Loading.run Loading.fresh two_calls).0
      (calls 2 two_calls)
      (tally 2 (Loading.run Loading.fresh two_calls).1)
run-LoadIsSound_example = run-LoadIsSound 2 two_calls

-- The script cannot be imported; then two more calls come.
abbrev lost_import : List Loading.Event
lost_import = call 1 false 0 ∷ imported false ∷ []

one_refused : 0 < (tally 1 (Loading.run Loading.fresh lost_import).1).refusals
unfolding Loading.run Loading.fresh
one_refused = omega arith

failed_load_example :
    ((Loading.run (Loading.run Loading.fresh lost_import).0 two_calls).0
      ≡ (Loading.run Loading.fresh lost_import).0)
    × (tally 2 (Loading.run (Loading.run Loading.fresh lost_import).0 two_calls).1
        ≡ record no_effects { refusals = 1 })
failed_load_example = failed_load lost_import two_calls 1 2 one_refused

abbrev some_page : Page
some_page = record {
  lang = [];
  elements = (codes "tryAgain", codes "...") ∷ (codes "unknown", codes "kept") ∷ [];
  theme_labels = record { group = []; buttons = [] };
  lang_labels = record { group = []; buttons = [] };
}

english_test :
    (show_locale (codes "en") some_page).elements
    ≡ (codes "tryAgain", codes "Try again") ∷ (codes "unknown", codes "kept") ∷ []
unfolding show_locale list_eq
english_test = refl

own_code : is_inherited (some (codes "session_full")) ≡ false
unfolding is_inherited list_eq
own_code = refl

error_text_example :
    let key = error_message_key (some (codes "session_full")) in
    (text : Text) × (lookup key (table (codes "pl")) ≡ some text) × (t (codes "pl") key ≡ text)
error_text_example = error_text (codes "pl") (some (codes "session_full")) own_code

conversation_completes_example :
    let ends = converse toy_call (2 + 2 * total toy_call) (start toy_call) in
    IsDone toy_call ends × (delivered ends.calls ≡ 1 ∷ 2 ∷ 255 ∷ [])
conversation_completes_example =
    conversation_completes toy_call toy_laws key_length sixteen id_bytes one_chunk
