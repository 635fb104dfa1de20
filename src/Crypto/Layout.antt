-- ===== src/Crypto/Layout.antt =====
-- What the nonces and the associated data consist of, and that they tell chunks apart.
use quicksend.Base.{
  ℕ, ◌+◌, ◌-◌, ◌^◌, ◌<◌, ◌≡◌, refl, sym, ap, ◌∙◌, Bool, [], ◌∷◌, ◌++◌, arith, length, replicate,
  length-append, append-nil, append-injective, append_assoc, some,
}
use quicksend.Base.Bytes.{
  Bytes, zeros, be64, set_at, length-big_endian, set_at_middle, from_big_endian,
  from_big_endian-be64, zeros-append, length-zeros, set_at_parts,
}
use quicksend.Base.Results.{ok, or_throw, range_error}
use quicksend.Crypto.{chunk_nonce, chunk_aad, flag_byte}

pub chunk_nonce_lem : (index : ℕ) → chunk_nonce index ≡ ok (zeros 4 ++ be64 index)
unfolding chunk_nonce
chunk_nonce_lem index = ap (or_throw range_error) (
    set_at_parts (zeros 12) (zeros 4) (zeros 8) [] (be64 index) 4 (unfold replicate in refl)
      (unfold replicate in refl) (length-zeros 8 ∙ sym (length-big_endian 8 index))
    ∙ ap (λ t. some (zeros 4 ++ t)) (append-nil (be64 index)))

aad_id : (id : Bytes) → set_at (zeros (length id + 8 + 1)) 0 id ≡ some (id ++ (zeros 8 ++ zeros 1))
aad_id id =
    set_at_parts _ [] (zeros (length id)) (zeros 8 ++ zeros 1) id 0
      (zeros-append (length id + 8) 1
        ∙ ap (λ t. t ++ zeros 1) (zeros-append (length id) 8)
        ∙ append_assoc (zeros (length id)) (zeros 8) (zeros 1))
      refl (length-zeros (length id))

aad_flag :
    (id nums : Bytes) (flag : ℕ)
    → let arr = id ++ (nums ++ zeros 1) in
      set_at arr (length arr - 1) (flag ∷ []) ≡ some (id ++ (nums ++ (flag ∷ [])))
aad_flag id nums flag =
    set_at_parts _ (id ++ nums) (zeros 1) [] (flag ∷ []) _
      (sym (append_assoc id nums (zeros 1)) ∙ ap (◌++◌ (id ++ nums)) (sym (append-nil (zeros 1))))
      (omega (
        arith,
        length-append id (nums ++ zeros 1),
        length-append nums (zeros 1),
        length-append id nums,
        length-zeros 1,
      ))
      (length-zeros 1)
    ∙ ap some (append_assoc id nums (flag ∷ []))

pub chunk_aad_lem :
    (id : Bytes) (index : ℕ) (last : Bool)
    → chunk_aad id index last ≡ ok (id ++ (be64 index ++ (flag_byte last ∷ [])))
unfolding chunk_aad
chunk_aad_lem id index last =
    rw
      (
        aad_id id,
        set_at_middle id (zeros 8) (zeros 1) (be64 index) (length id) refl
            (length-zeros 8 ∙ sym (length-big_endian 8 index)),
        aad_flag id (be64 index) (flag_byte last),
      )
      refl

be64-injective : (i j : ℕ) → i < 2 ^ 64 → j < 2 ^ 64 → be64 i ≡ be64 j → i ≡ j
be64-injective i j hi hj e =
    omega (arith, from_big_endian-be64 i, from_big_endian-be64 j, ap from_big_endian e)

length-be64 : (i j : ℕ) → length (be64 i) ≡ length (be64 j)
length-be64 i j = length-big_endian 8 i ∙ sym (length-big_endian 8 j)

pub ok-injective {ℓ} : {A : Type ℓ} {a b : A} → ok a ≡ ok b → a ≡ b
ok-injective e = cc

-- Two indices below 2^64 with the same nonce are equal.
chunk_nonce-injective : (i j : ℕ) → i < 2 ^ 64 → j < 2 ^ 64 → chunk_nonce i ≡ chunk_nonce j → i ≡ j
chunk_nonce-injective i j hi hj e =
    be64-injective i j hi hj
      (append-injective (zeros 4) (be64 i) (zeros 4) (be64 j) refl
        (ok-injective (sym (chunk_nonce_lem i) ∙ e ∙ chunk_nonce_lem j))).1

-- The associated data of a chunk determines its file id, index and last-chunk flag, for file ids of
-- one length and indices below 2^64.
pub chunk_aad-injective :
    (id id' : Bytes) (i j : ℕ) (last last' : Bool)
    → length id ≡ length id'
    → i < 2 ^ 64
    → j < 2 ^ 64
    → chunk_aad id i last ≡ chunk_aad id' j last'
    → (id ≡ id') × (i ≡ j) × (last ≡ last')
chunk_aad-injective id id' i j last last' l hi hj e =
    let whole = ok-injective (sym (chunk_aad_lem id i last) ∙ e ∙ chunk_aad_lem id' j last') in
    let (ids, rest) = append-injective id _ id' _ l whole in
    let (nums, flags) = append-injective (be64 i) _ (be64 j) _ (length-be64 i j) rest in
    (ids, be64-injective i j hi hj nums, flag_of last last' flags)
  where
    flag_of : (x y : Bool) → flag_byte x ∷ [] ≡ flag_byte y ∷ [] → x ≡ y
    flag_of x y h = ground arith
