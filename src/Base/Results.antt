-- ===== src/Base/Results.antt =====
-- Exceptions as values: what the modelled functions throw, and the chain of awaited calls.
use quicksend.Base.{ℕ, ◌≡◌, ◌⊎◌, inl, inr, Option, none, some, refl}

-- Whose length `assertLength` complains about.
pub data Field : Type 0 where
  session_key epoch_key file_id file_key : Field

pub data Failure : Type 0 where
  bad_length : Field → ℕ → ℕ → Failure
  range_error type_error syntax_error operation_error read_error : Failure
  connection_lost out_of_order code_mismatch pake_error : Failure

pub data Result {ℓ} (A : Type ℓ) : Type ℓ where
  ok : A → Result A
  throw : Failure → Result A

-- A promise that rejects ends the chain; one whose value is not used is only waited for.
infixl 5 ◌>>=◌
abbrev pub ◌>>=◌ {ℓ κ} : {B : Type ℓ} {A : Type κ} → Result A → (A → Result B) → Result B
throw failure >>= next = throw failure
ok value >>= next = next value

infixl 5 ◌>>◌
abbrev pub ◌>>◌ {ℓ} : {B : Type ℓ} → Result (Unit {0}) → Result B → Result B
first >> next = first >>= λ done. next

-- A step that gives nothing throws the failure.
abbrev pub or_throw {ℓ} : {A : Type ℓ} → Failure → Option A → Result A
or_throw e none = throw e
or_throw e (some a) = ok a

pub Result-cases {ℓ} :
    {A : Type ℓ} (r : Result A) → ((a : A) × (r ≡ ok a)) ⊎ ((e : Failure) × (r ≡ throw e))
Result-cases (ok a) = inl (a, refl)
Result-cases (throw e) = inr (e, refl)

-- What holds of both cases holds of the elimination.
pub result-cases {ℓ κ ρ} :
    {A : Type ℓ} {B : Type κ} (P : B → Type ρ) (r : Result A) (f : Failure → B) (g : A → B)
    → ((e : Failure) → r ≡ throw e → P (f e))
    → ((a : A) → r ≡ ok a → P (g a))
    → P (elim r [ throw e ↦ f e | ok a ↦ g a ])
result-cases P (throw e) f g p q = p e refl
result-cases P (ok a) f g p q = q a refl
