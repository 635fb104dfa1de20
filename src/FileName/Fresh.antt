-- ===== src/FileName/Fresh.antt =====
-- The loop of dedupeFilename ends, and with a name that was not used.
use quicksend.Base.{
  ℕ, zero, suc, ◌+◌, ◌-◌, ◌*◌, ◌/◌, ◌%◌, ◌≤◌, ◌<◌, ◌≡◌, refl, sym, ap, ◌∙◌, ◌⊎◌, inl, inr, Bool,
  true, false, ◌||◌, List, [], ◌∷◌, ◌++◌, ltb, if◌then◌else◌, if-cases, Bool-cases, length,
  length-append, append-injective, arith,
}
use quicksend.Base.Bytes.{Text, codes}
use quicksend.Base.Tables.{list_eq, list_eq_sound}
use quicksend.FileName.{
  has, decimal_digits, decimal, candidate, first_free, dedupe_filename, base_of, extension_of,
}

-- The number that decimal digits stand for.
value_from : ℕ → Text → ℕ
value_from acc [] = acc
value_from acc (d ∷ ds) = value_from (acc * 10 + (d - b'0')) ds

value_from-append :
    (acc d : ℕ) (ds : Text) → value_from acc (ds ++ (d ∷ [])) ≡ value_from acc ds * 10 + (d - b'0')
unfolding value_from
value_from-append acc d [] = refl
value_from-append acc d (x ∷ ds) = value_from-append (acc * 10 + (x - b'0')) d ds

value_of_decimal : (fuel n : ℕ) → n ≤ fuel → value_from 0 (decimal_digits fuel n) ≡ n
unfolding value_from decimal_digits
value_of_decimal zero n h = omega arith
value_of_decimal (suc fuel) n h =
    if-cases (λ t. value_from 0 t ≡ n) (ltb n 10) _ _ (λ small. omega arith)
      (λ big.
        value_from-append 0 (b'0' + n % 10) (decimal_digits fuel (n / 10))
        ∙ ground (arith, value_of_decimal fuel (n / 10) (ground arith)))

decimal-injective : (i j : ℕ) → decimal i ≡ decimal j → i ≡ j
decimal-injective i j e =
    sym (value_of_decimal i i (omega arith))
    ∙ ap (value_from 0) e
    ∙ value_of_decimal j j (omega arith)

candidate-injective :
    (base ext : Text) (i j : ℕ) → candidate base ext i ≡ candidate base ext j → i ≡ j
unfolding candidate
candidate-injective base ext i j e =
    decimal-injective i j (append-injective (decimal i) _ (decimal j) _ lengths rest).0
  where
    rest : decimal i ++ (codes ")" ++ ext) ≡ decimal j ++ (codes ")" ++ ext)
    rest =
        (append-injective (codes " (") _ (codes " (") _ refl
          (append-injective base _ base _ refl e).1).1

    lengths : length (decimal i) ≡ length (decimal j)
    lengths = omega (
      arith,
      ap length rest,
      length-append (decimal i) (codes ")" ++ ext),
      length-append (decimal j) (codes ")" ++ ext),
    )

-- Without one name.
remove : Text → List Text → List Text
remove x [] = []
remove x (y ∷ ys) = let rest = remove x ys in if list_eq x y then ys else y ∷ rest

length-remove :
    (x : Text) (ys : List Text) → has x ys ≡ true → suc (length (remove x ys)) ≡ length ys
unfolding remove has
length-remove x [] h = cc
length-remove x (y ∷ ys) h =
    if-cases (λ (rest : List Text). suc (length rest) ≡ suc (length ys)) (list_eq x y) _ _
      (λ same. refl)
      (λ other. ap suc (length-remove x ys (ap (λ b. b || has x ys) (sym other) ∙ h)))

has-remove :
    (x z : Text) (ys : List Text)
    → list_eq z x ≡ false
    → has z ys ≡ true
    → has z (remove x ys) ≡ true
unfolding remove has
has-remove x z [] d h = cc
has-remove x z (y ∷ ys) d h =
    if-cases (λ (rest : List Text). has z rest ≡ true) (list_eq x y) _ _
      (λ same.
        ap (λ b. b || has z ys) (sym (ap (list_eq z) (sym (list_eq_sound x y same)) ∙ d)) ∙ h)
      (λ other. elsewhere (list_eq z y) (has-remove x z ys d) h)
  where
    elsewhere :
        (b : Bool)
        → (has z ys ≡ true → has z (remove x ys) ≡ true)
        → (b || has z ys) ≡ true
        → (b || has z (remove x ys)) ≡ true
    elsewhere true later e = refl
    elsewhere false later e = later e

module _ (base ext : Text) where
  abbrev name : ℕ → Text
  name i = candidate base ext i

  -- The names of `m` numbers from `i` on are all used.
  AllUsed : ℕ → ℕ → List Text → Type 0
  AllUsed zero i used = Unit {0}
  AllUsed (suc m) i used = (has (name i) used ≡ true) × AllUsed m (suc i) used

  distinct : (i j : ℕ) → j < i → list_eq (name i) (name j) ≡ false
  distinct i j l = elim (Bool-cases (list_eq (name i) (name j))) [
    | inl same ↦
        absurd
          (omega (arith, candidate-injective base ext i j (list_eq_sound (name i) (name j) same)))
    | inr other ↦ other
  ]

  AllUsed-remove :
      (m i j : ℕ) (used : List Text) → j < i → AllUsed m i used → AllUsed m i (remove (name j) used)
  unfolding AllUsed
  AllUsed-remove zero i j used l h = tt
  AllUsed-remove (suc m) i j used l h = (
    has-remove (name j) (name i) used (distinct i j l) h.0,
    AllUsed-remove m (suc i) j used (omega arith) h.1,
  )

  -- There are no more used names than names.
  used-bound : (m i : ℕ) (used : List Text) → AllUsed m i used → m ≤ length used
  unfolding AllUsed
  used-bound zero i used h = omega arith
  used-bound (suc m) i used h = omega (
    arith,
    length-remove (name i) used h.0,
    used-bound m (suc i) (remove (name i) used) (AllUsed-remove m (suc i) i used (omega arith) h.1),
  )

  first_free-or :
      (fuel i : ℕ) (used : List Text)
      → (has (first_free fuel used base ext i) used ≡ false) ⊎ AllUsed (suc fuel) i used
  unfolding first_free AllUsed
  first_free-or zero i used = elim (Bool-cases (has (name i) used)) [
    | inl used_up ↦ inr (used_up, tt)
    | inr free ↦ inl free
  ]
  first_free-or (suc fuel) i used =
      if-cases
        (λ t. (has t used ≡ false) ⊎ ((has (name i) used ≡ true) × AllUsed (suc fuel) (suc i) used))
        (has (name i) used) _ _
        (λ used_up. elim (first_free-or fuel (suc i) used) [
          | inl free ↦ inl free
          | inr all ↦ inr (used_up, all)
        ])
        (λ free. inl free)

  first_free_lem : (used : List Text) → has (first_free (length used) used base ext 1) used ≡ false
  first_free_lem used = elim (first_free-or (length used) 1 used) [
    | inl free ↦ free
    | inr all ↦ absurd (omega (arith, used-bound (suc (length used)) 1 used all))
  ]

-- For every list of used names and every name, the loop of dedupeFilename finds, within as many
-- rounds as there are used names, a name that was not used; that name is returned and recorded, and
-- it is the given one if that was not used.
pub dedupe_filename_lem :
    (used : List Text) (name : Text)
    → let (used', result) = dedupe_filename used name in
      (has result used ≡ false) × (used' ≡ result ∷ used) × (has name used ≡ false → result ≡ name)
unfolding dedupe_filename
dedupe_filename_lem used name =
    if-cases
      (λ (out : List Text × Text).
        (has out.1 used ≡ false) × (out.0 ≡ out.1 ∷ used) × (has name used ≡ false → out.1 ≡ name))
      (has name used) _ _
      (λ taken. (first_free_lem (base_of name) (extension_of name) used, refl, λ free. cc))
      (λ free. (free, refl, λ _. refl))
