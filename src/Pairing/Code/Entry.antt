-- ===== src/Pairing/Code/Entry.antt =====
-- The code that the receiver shows can be typed, and pasted, as it is shown.
use quicksend.Base.{
  ◌≡◌, refl, sym, ap, ◌∙◌, true, [], ◌∷◌, ◌++◌, arith, length, take, drop, All, take-append-drop,
  take_all,
}
use quicksend.Base.Bytes.{Text}
use quicksend.Pairing.State.{Client}
use quicksend.Pairing.Buttons.{is_digit, digits_of, enter_code}
use quicksend.Pairing.Flows.{start_join_by_code}
use quicksend.Pairing.Code.{dashed, on_input}

digits_of-digits : (text : Text) → All (λ x. is_digit x ≡ true) text → digits_of text ≡ text
unfolding digits_of
digits_of-digits [] h = refl
digits_of-digits (x ∷ xs) h = rw (h.0, digits_of-digits xs h.1)

digits_of-append : (xs ys : Text) → digits_of (xs ++ ys) ≡ digits_of xs ++ digits_of ys
unfolding digits_of
digits_of-append [] ys = refl
digits_of-append (x ∷ xs) ys = ground (arith, digits_of-append xs ys)

digits_of-dash : (ys : Text) → digits_of (b'-' ∷ ys) ≡ digits_of ys
unfolding digits_of
digits_of-dash ys = refl

digits_of-dashed :
    (code : Text) → All (λ x. is_digit x ≡ true) code → digits_of (dashed code) ≡ code
unfolding dashed
digits_of-dashed code h =
    digits_of-append (take 3 code) (b'-' ∷ drop 3 code)
    ∙ ap (λ rest. digits_of (take 3 code) ++ rest) (digits_of-dash (drop 3 code))
    ∙ sym (digits_of-append (take 3 code) (drop 3 code))
    ∙ ap digits_of (take-append-drop 3 code)
    ∙ digits_of-digits code h

-- For a code of six digits: the text that the receiver shows for it, with its dash, is left as it
-- is by the listener of the input field, and the button of the sender then joins with exactly this
-- code.
pub enter-dashed :
    (c : Client) (code : Text)
    → All (λ x. is_digit x ≡ true) code
    → length code ≡ 6
    → (enter_code c (dashed code) ≡ start_join_by_code c code)
      × (on_input (dashed code) ≡ dashed code)
unfolding enter_code on_input
enter-dashed c code h len = (
  rw (digits_of-dashed code h, len) refl,
  rw (digits_of-dashed code h, take_all 6 code (omega arith), len) refl,
)
