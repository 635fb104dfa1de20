-- ===== src/Tests/Instances.antt =====
-- A Web Crypto and a codec that keep their laws, and a call of sendFile with a three-byte file.
use quicksend.Base.{
  ℕ, zero, suc, ◌/◌, ◌≡◌, refl, sym, ◌∙◌, [], ◌∷◌, ◌++◌, Option, none, some, arith, if◌then◌else◌,
  length, take, drop, replicate, length-replicate, take-append, drop-append, take-append-drop, All,
  All-append, append_assoc, if-cases, map,
}
use mathlib.Core.Path.{ap₂}
use quicksend.Base.Options.{◌>>=◌}
use quicksend.Base.Bytes.{Bytes, Text, IsByte, codes, u8, zeros}
use quicksend.Base.Tables.{list_eq, list_eq_sound, list_eq_refl}
use quicksend.Crypto.Platform.{WebCrypto, CryptoLaws}
use quicksend.Receiver.State.{Metadata, MetadataCodec}
use quicksend.Sender.State.{Call}
use quicksend.Hex.{to_hex}
use quicksend.Pake.{PakeModule}

-- The ciphertext shows its key, nonce and associated data in front of the plaintext.
abbrev pub toy_unseal : Bytes → Bytes → Option Bytes
toy_unseal header sealed =
    if list_eq (take (length header) sealed) header
    then some (drop (length header) sealed)
    else none

abbrev toy_header : Bytes → Bytes → Bytes → Bytes
toy_header key nonce aad = key ++ (nonce ++ aad)

abbrev pub toy_crypto : WebCrypto
toy_crypto = record {
  derive_bits = λ ikm salt info bits. zeros (bits / 8);
  seal = λ key nonce aad plaintext. toy_header key nonce aad ++ plaintext;
  unseal = λ key nonce aad sealed. toy_unseal (toy_header key nonce aad) sealed;
  sign = λ key text. map u8 key;
}

pub toy_unseal-append :
    (header plaintext : Bytes) → toy_unseal header (header ++ plaintext) ≡ some plaintext
toy_unseal-append header plaintext =
    rw
      (
        take-append (length header) header plaintext refl,
        drop-append (length header) header plaintext refl,
        list_eq_refl header,
      )
      refl

pub some-injective : {A : Type 0} {x y : A} → some x ≡ some y → x ≡ y
some-injective e = cc

pub toy_unseal-some :
    (header sealed plaintext : Bytes)
    → toy_unseal header sealed ≡ some plaintext
    → sealed ≡ header ++ plaintext
toy_unseal-some header sealed plaintext e =
    if-cases (λ r. r ≡ some plaintext → sealed ≡ header ++ plaintext)
      (list_eq (take (length header) sealed) header) _ _
      (λ same e.
        sym (take-append-drop (length header) sealed)
        ∙ ap₂ ◌++◌ (list_eq_sound (take (length header) sealed) header same) (some-injective e))
      (λ other e. cc) e

pub zeros-IsByte : (n : ℕ) → All IsByte (zeros n)
unfolding replicate
zeros-IsByte zero = tt
zeros-IsByte (suc n) = (omega arith, zeros-IsByte n)

pub sign-IsByte : (key text : Bytes) → All IsByte (toy_crypto.sign key text)
sign-IsByte [] text = tt
sign-IsByte (b ∷ bs) text = (omega arith, sign-IsByte bs text)

abbrev pub toy_laws : CryptoLaws toy_crypto
toy_laws = record {
  length-derive_bits = λ ikm salt info bits. length-replicate (bits / 8) 0;
  unseal-seal = λ key nonce aad plaintext. toy_unseal-append (toy_header key nonce aad) plaintext;
  seal-unseal = λ key nonce aad sealed plaintext e.
      toy_unseal-some (toy_header key nonce aad) sealed plaintext e;
  derive_bits-IsByte = λ ikm salt info bits. zeros-IsByte (bits / 8);
  seal-IsByte = λ key nonce aad plaintext hk hn ha hp.
      All-append IsByte (key ++ (nonce ++ aad)) plaintext
        (All-append IsByte key (nonce ++ aad) hk (All-append IsByte nonce aad hn ha)) hp;
}

-- Numbers in unary, each closed by a zero; a text is its length and its code units.
abbrev unary : ℕ → Bytes
unary zero = 0 ∷ []
unary (suc n) = 1 ∷ unary n

abbrev units : Text → Bytes
units [] = []
units (c ∷ cs) = unary c ++ units cs

abbrev read_unary : Bytes → Option (ℕ × Bytes)
read_unary [] = none
read_unary (zero ∷ bs) = some (0, bs)
read_unary (suc b ∷ bs) = do (n, rest) ← read_unary bs; some (suc n, rest)

abbrev read_units : ℕ → Bytes → Option (Text × Bytes)
read_units zero bs = some ([], bs)
read_units (suc n) bs = do
  (c, more) ← read_unary bs
  (cs, rest) ← read_units n more
  some (c ∷ cs, rest)

abbrev print_text : Text → Bytes
print_text t = unary (length t) ++ units t

abbrev read_text : Bytes → Option (Text × Bytes)
read_text bs = do (n, rest) ← read_unary bs; read_units n rest

read_unary-unary : (n : ℕ) (rest : Bytes) → read_unary (unary n ++ rest) ≡ some (n, rest)
read_unary-unary zero rest = refl
read_unary-unary (suc n) rest = rw (read_unary-unary n rest) refl

read_units-units :
    (t : Text) (rest : Bytes) → read_units (length t) (units t ++ rest) ≡ some (t, rest)
read_units-units [] rest = refl
read_units-units (c ∷ cs) rest =
    rw
      (
        append_assoc (unary c) (units cs) rest,
        read_unary-unary c (units cs ++ rest),
        read_units-units cs rest,
      )
      refl

read_text-print_text : (t : Text) (rest : Bytes) → read_text (print_text t ++ rest) ≡ some (t, rest)
read_text-print_text t rest =
    rw
      (
        append_assoc (unary (length t)) (units t) rest,
        read_unary-unary (length t) (units t ++ rest),
      )
      (read_units-units t rest)

abbrev pub toy_print : Metadata → Bytes
toy_print meta = unary meta.size ++ (print_text meta.name ++ (print_text meta.mime ++ []))

abbrev pub toy_parse : Bytes → Option Metadata
toy_parse bs = do
  (size, named) ← read_unary bs
  (name, typed) ← read_text named
  (mime, rest) ← read_text typed
  some (record { name = name; size = size; mime = mime })

pub toy_parse-toy_print : (meta : Metadata) → toy_parse (toy_print meta) ≡ some meta
toy_parse-toy_print meta =
    rw
      (
        read_unary-unary meta.size (print_text meta.name ++ (print_text meta.mime ++ [])),
        read_text-print_text meta.name (print_text meta.mime ++ []),
        read_text-print_text meta.mime [],
      )
      refl

unary-IsByte : (n : ℕ) → All IsByte (unary n)
unary-IsByte zero = (omega arith, tt)
unary-IsByte (suc n) = (omega arith, unary-IsByte n)

print_text-IsByte : (t : Text) → All IsByte (print_text t)
print_text-IsByte t =
    All-append IsByte (unary (length t)) (units t) (unary-IsByte (length t)) (go t)
  where
    go : (t : Text) → All IsByte (units t)
    go [] = tt
    go (c ∷ cs) = All-append IsByte (unary c) (units cs) (unary-IsByte c) (go cs)

pub toy_print-IsByte : (meta : Metadata) → All IsByte (toy_print meta)
toy_print-IsByte meta =
    All-append IsByte (unary meta.size) (print_text meta.name ++ (print_text meta.mime ++ []))
      (unary-IsByte meta.size)
      (All-append IsByte (print_text meta.name) (print_text meta.mime ++ [])
        (print_text-IsByte meta.name)
        (All-append IsByte (print_text meta.mime) [] (print_text-IsByte meta.mime) tt))

abbrev pub toy_codec : MetadataCodec
toy_codec = record {
  print = toy_print;
  parse = toy_parse;
  parse-print = toy_parse-toy_print;
  print-IsByte = toy_print-IsByte;
}

abbrev pub toy_call : Call
toy_call = record {
  crypto = toy_crypto;
  codec = toy_codec;
  epoch_key = zeros 32;
  file_id = replicate 16 171;
  file = record { name = 97 ∷ []; mime = 98 ∷ []; content = 1 ∷ 2 ∷ 255 ∷ [] };
}

-- A PAKE in which the key is the code.
abbrev pub toy_pake : PakeModule Text
toy_pake = record {
  init = λ code role. some (code, codes "hello");
  update = λ handle text. some (handle, codes "answer");
  session_key = λ handle. some (to_hex handle);
}
