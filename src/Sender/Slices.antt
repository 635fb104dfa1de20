-- ===== src/Sender/Slices.antt =====
-- The slices that sendFile reads cover the file: none is too long, and together they are its content.
use quicksend.Base.{
  ℕ, zero, suc, ◌+◌, ◌-◌, ◌*◌, ◌/◌, ◌≤◌, ◌<◌, ◌≡◌, refl, sym, ap, ◌∙◌, ◌⊎◌, inl, inr, Bool-cases,
  leb, List, [], ◌∷◌, ◌++◌, arith, min, max, length, take, drop, length-take, length-drop, take_all,
}
use mathlib.Core.Path.{ap₂}
use native.Mathlib.Nat.{zero-mul, suc-mul, div-add-mod', mod-lt, mul-le-mul_right}
use quicksend.Base.Bytes.{Bytes}
use quicksend.Sender.{chunk_count, chunk_at}

-- The chunks before `n`, one after the other.
unfoldable pub chunks_upto : ℕ → Bytes → ℕ → Bytes
chunks_upto chunk content zero = []
chunks_upto chunk content (suc n) = chunks_upto chunk content n ++ chunk_at chunk content n

take-cut {ℓ} :
    {A : Type ℓ} (n m : ℕ) (xs : List A)
    → (n ≡ m) ⊎ ((length xs ≤ n) × (length xs ≤ m))
    → take n xs ≡ take m xs
take-cut n m xs (inl e) = rw e
take-cut n m xs (inr h) = take_all n xs h.0 ∙ sym (take_all m xs h.1)

take-take-drop {ℓ} :
    {A : Type ℓ} (m n : ℕ) (xs : List A) → take m xs ++ take n (drop m xs) ≡ take (m + n) xs
unfolding take drop
take-take-drop zero n xs = ap (λ k. take k xs) (omega arith)
take-take-drop (suc m) zero [] = sym (take_all (suc m + zero) [] (omega arith))
take-take-drop (suc m) (suc n) [] = sym (take_all (suc m + suc n) [] (omega arith))
take-take-drop (suc m) n (x ∷ xs) = rw suc-plus (ap (◌∷◌ x) (take-take-drop m n xs))
  where
    suc-plus : suc m + n ≡ suc (m + n)
    suc-plus = omega arith

-- A slice is what is left after its start, cut at the chunk's size.
pub chunk_at_lem :
    (chunk : ℕ) (content : Bytes) (i : ℕ)
    → chunk_at chunk content i ≡ take chunk (drop (i * chunk) content)
unfolding chunk_at
chunk_at_lem chunk content i = take-cut _ chunk (drop (i * chunk) content) (
    cut (i * chunk) chunk (length content) (length (drop (i * chunk) content))
      (length-drop (i * chunk) content))
  where
    cut :
        (start c total left : ℕ)
        → left ≡ total - start
        → (min (start + c) total - start ≡ c)
          ⊎ ((left ≤ min (start + c) total - start) × (left ≤ c))
    cut start c total left e = elim (Bool-cases (leb (start + c) total)) [
      | inl within ↦ inl (ground arith)
      | inr beyond ↦ inr (ground arith, ground arith)
    ]

chunks_upto-take :
    (chunk : ℕ) (content : Bytes) (n : ℕ) → chunks_upto chunk content n ≡ take (n * chunk) content
unfolding chunks_upto
chunks_upto-take chunk content zero = rw (zero-mul chunk) (unfold take in refl)
chunks_upto-take chunk content (suc n) =
    ap₂ ◌++◌ (chunks_upto-take chunk content n) (chunk_at_lem chunk content n)
    ∙ take-take-drop (n * chunk) chunk content
    ∙ ap (λ k. take k content) (grind arith)

count_covers : (chunk size : ℕ) → 0 < chunk → size ≤ chunk_count chunk size * chunk
unfolding chunk_count
count_covers chunk size h =
    covers ((size + (chunk - 1)) / chunk) _ (div-add-mod' (size + (chunk - 1)) chunk) (mod-lt _ h)
  where
    covers : (q r : ℕ) → q * chunk + r ≡ size + (chunk - 1) → r < chunk → size ≤ max 1 q * chunk
    covers zero r e l = grind arith
    covers (suc q) r e l = rw max_suc (omega arith)
      where
        max_suc : max 1 (suc q) ≡ suc q
        max_suc = omega arith

-- No chunk starts at or past the end of the file, but the first.
pub count_tight :
    (chunk size i : ℕ) → 0 < chunk → 0 < i → i < chunk_count chunk size → i * chunk < size
unfolding chunk_count
count_tight chunk size i h pos l =
    tight ((size + (chunk - 1)) / chunk) _ (div-add-mod' (size + (chunk - 1)) chunk) (mod-lt _ h)
      (omega arith)
  where
    tight : (q r : ℕ) → q * chunk + r ≡ size + (chunk - 1) → r < chunk → i < q → i * chunk < size
    tight q r e l m = omega (arith, mul-le-mul_right chunk m, suc-mul i chunk)

pub length-chunk_at :
    (chunk : ℕ) (content : Bytes) (i : ℕ)
    → length (chunk_at chunk content i) ≡ min chunk (length content - i * chunk)
length-chunk_at chunk content i =
    ap length (chunk_at_lem chunk content i)
    ∙ length-take chunk (drop (i * chunk) content)
    ∙ ap (min chunk) (length-drop (i * chunk) content)

-- For a positive chunk size, the slices that sendFile reads, one after the other, are the content
-- of the file; none is longer than the chunk size, and none but the first is empty.
pub chunks_partition :
    (chunk : ℕ) (content : Bytes)
    → 0 < chunk
    → let count = chunk_count chunk (length content) in
      (chunks_upto chunk content count ≡ content)
      × ((i : ℕ)
          → i < count
          → (length (chunk_at chunk content i) ≤ chunk)
            × (0 < i → 0 < length (chunk_at chunk content i)))
chunks_partition chunk content h = (
  chunks_upto-take chunk content (chunk_count chunk (length content))
      ∙ take_all _ content (count_covers chunk (length content) h),
  λ i l. (
    omega (arith, length-chunk_at chunk content i),
    λ pos.
        omega
          (arith, length-chunk_at chunk content i, count_tight chunk (length content) i h pos l),
  ),
)
