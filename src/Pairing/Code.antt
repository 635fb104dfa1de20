-- ===== src/Pairing/Code.antt =====
-- web/pairing.js: how the code of a session is shown and typed (renderCodeReceiverWaiting and
-- renderCodeSenderEntry), and how a link or a code is handed on (shareOrCopy).
pub mod Entry
use quicksend.Base.{
  ℕ, Bool, true, false, ◌&&◌, List, [], ◌∷◌, ◌++◌, Option, none, some, ltb, ◌==◌, if◌then◌else◌,
  length, take, drop,
}
use quicksend.Base.Bytes.{Text, codes}
use quicksend.Pairing.Buttons.{digits_of}

-- `code.slice(0, 3) + "-" + code.slice(3)`.
unfoldable pub dashed : Text → Text
dashed code = take 3 code ++ (b'-' ∷ drop 3 code)

-- The listener of the field.
unfoldable pub on_input : Text → Text
unfolding digits_of dashed
on_input value =
    let digits = take 6 (digits_of value) in if ltb 3 (length digits) then dashed digits else digits

-- What a call of the browser came to: `shared` and `copied` are promises that resolved.
pub data ShareAnswer : Type 0 where
  shared dismissed share_failed : ShareAnswer

-- `none` where the browser has no such function; the clipboard answers whether it has worked.
pub record ShareBrowser : Type 0 where
  pub share : Option ShareAnswer
  pub clipboard : Option Bool

-- The calls of the browser, and the key of the text of the status line if it is shown.
pub data ShareEffect : Type 0 where
  share_sheet write_text : Text → ShareEffect
  status : Text → ShareEffect

abbrev pub copy_manually : List ShareEffect
copy_manually = status (codes "shareCopyManually") ∷ []

unfoldable pub copy : ShareBrowser → Text → List ShareEffect
copy b secret = elim b.clipboard [
  | none ↦ copy_manually
  | some worked ↦
      write_text secret ∷ (if worked then status (codes "shareCopied") ∷ [] else copy_manually)
]

-- `secret` is the link or the code: of `url` and `text` each call gives one.
unfoldable pub share_or_copy : ShareBrowser → Text → List ShareEffect
unfolding copy
share_or_copy b secret = elim b.share [
  | none ↦ copy b secret
  | some answer ↦
      share_sheet secret
      ∷ (elim answer [ shared ↦ [] | dismissed ↦ [] | share_failed ↦ copy b secret ])
]
