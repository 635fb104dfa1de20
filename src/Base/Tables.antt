-- ===== src/Base/Tables.antt =====
-- Facts about every number below a bound, checked by evaluation.
use quicksend.Base.{
  ℕ, zero, suc, ◌<◌, ◌≡◌, Bool, true, ◌&&◌, arith, List, [], ◌∷◌, refl, false, ◌==◌,
}

-- `every_below test n` runs the test on n - 1, ..., 0.
unfoldable pub every_below : (ℕ → Bool) → ℕ → Bool
every_below test zero = true
every_below test (suc n) = every_below test n && test n

pub every_below_sound :
    (test : ℕ → Bool) (n x : ℕ) → x < n → every_below test n ≡ true → test x ≡ true
unfolding every_below
every_below_sound test zero x lt h = absurd (omega arith)
every_below_sound test (suc n) x lt h = ground (arith, every_below_sound test n x)

-- Equality of byte lists as a test.
unfoldable pub list_eq : List ℕ → List ℕ → Bool
list_eq [] [] = true
list_eq [] (y ∷ ys) = false
list_eq (x ∷ xs) [] = false
list_eq (x ∷ xs) (y ∷ ys) = x == y && list_eq xs ys

pub list_eq_sound : (xs ys : List ℕ) → list_eq xs ys ≡ true → xs ≡ ys
unfolding list_eq
list_eq_sound [] [] h = refl
list_eq_sound [] (y ∷ ys) h = cc
list_eq_sound (x ∷ xs) [] h = cc
list_eq_sound (x ∷ xs) (y ∷ ys) h = ground (arith, list_eq_sound xs ys)

pub list_eq_refl : (xs : List ℕ) → list_eq xs xs ≡ true
unfolding list_eq
list_eq_refl [] = refl
list_eq_refl (x ∷ xs) = ground (arith, list_eq_refl xs)
