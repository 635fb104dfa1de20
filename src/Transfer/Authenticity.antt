-- ===== src/Transfer/Authenticity.antt =====
-- web/transfer.js: what a receiver hands on where the relay may drop, repeat, reorder, delay and
-- change what it likes.
use quicksend.Base.{
  ℕ, ◌+◌, ◌^◌, ◌≤◌, ◌<◌, ◌≡◌, ◌≢◌, ◌⊎◌, inl, inr, refl, sym, ap, ◌∙◌, subst, Bool, true, List, [],
  ◌∷◌, ◌++◌, Option, some, arith, length, All,
}
use quicksend.Base.Bytes.{Bytes, IsByte}
use quicksend.Base.Results.{ok}
use quicksend.Hex.{to_hex, from_hex}
use quicksend.Hex.RoundTrip.{from_hex-to_hex}
use quicksend.Crypto.Platform.{CryptoLaws}
use quicksend.Crypto.{derive_file_key, decrypt_chunk}
use quicksend.Crypto.Chunks.{derive_file_key_lem}
use quicksend.Crypto.Layout.{ok-injective}
use quicksend.Frame.{ChunkFrame, parse_chunk_frame}
use quicksend.Wire.{binary, text}
use quicksend.Receiver.State.{
  Event, Effect, fresh, message, close, cancel, detach, computed, handled, on_file_start, on_chunk,
  on_file_complete, on_aborted, on_error, send_ack, send_abort,
}
use quicksend.Receiver.{run}
use quicksend.Receiver.Protocol.{Moves, idle}
use quicksend.Receiver.Stages.{stage}
use quicksend.Receiver.Refinement.{run-Moves}
use quicksend.Receiver.Authenticity.{BytesAreTrusted, EventIsTrusted, CallIsGenuine}
use quicksend.Receiver.Authenticity.Runs.{run-Genuine}
use quicksend.Receiver.Authenticity.Completion.{Handed, LastIsLast, complete-Handed}
use quicksend.Sender.State.{Call}
use quicksend.Sender.{chunk_size, chunk_at}
use quicksend.Sender.Transcript.{is_last_at, total, file_key_of, frame_at}
use quicksend.Transfer.Steps.{hex, taken, frame_parses, chunk_opens}

module _ (c : Call) where
  open c use {crypto as w, codec, epoch_key, file_id, file}

  -- One of the frames of the file, whenever and however often it comes.
  abbrev pub FromSender : Bytes → Type 0
  FromSender bytes = (n : ℕ) × (n < total c) × (bytes ≡ frame_at c n)

  -- No frame of the file that its key accepts.
  abbrev pub NotAccepted : Bytes → Type 0
  NotAccepted bytes =
      (f : ChunkFrame)
      → parse_chunk_frame bytes ≡ some f
      → to_hex f.file_id ≡ hex c
      → (plaintext : Bytes)
      → decrypt_chunk w (file_key_of c) f.file_id f.index f.is_last f.ciphertext ≢ ok plaintext

  -- What comes is a frame of the file, or nothing that the key of the file accepts.
  abbrev pub IsUnforged : Event → Type 0
  IsUnforged (message (binary bytes)) = FromSender bytes ⊎ NotAccepted bytes
  IsUnforged _ = Unit {0}

  -- The chunk that stands at its place in the file, marked as the last one exactly if it is.
  abbrev pub IsChunk : ℕ → Bool → Bytes → Type 0
  IsChunk n last plaintext =
      (n < total c) × (last ≡ is_last_at c n) × (plaintext ≡ chunk_at chunk_size file.content n)

  abbrev pub HandsChunk : Effect → Type 0
  HandsChunk = CallIsGenuine w codec epoch_key (hex c) (file_key_of c) IsChunk

  some-injective : {f g : ChunkFrame} → ◌≡◌ {A = Option ChunkFrame} (some f) (some g) → f ≡ g
  some-injective h = cc

  last_of_chunk :
      (n : ℕ) (last : Bool) → n < total c → last ≡ is_last_at c n → last ≡ true → n + 1 ≡ total c
  last_of_chunk n last l e h = ground arith

  All-LastIsLast : (es : List Effect) → All HandsChunk es → All (LastIsLast (hex c) (total c)) es
  All-LastIsLast [] h = tt
  All-LastIsLast (on_chunk id n last p ∷ es) h = (
    λ same is_last. let (l, flag, _) = h.0 same in last_of_chunk n last l flag is_last,
    All-LastIsLast es h.1,
  )
  All-LastIsLast (on_file_start id meta ∷ es) h = (tt, All-LastIsLast es h.1)
  All-LastIsLast (on_file_complete id ∷ es) h = (tt, All-LastIsLast es h.1)
  All-LastIsLast (on_aborted id reason ∷ es) h = (tt, All-LastIsLast es h.1)
  All-LastIsLast (on_error e ∷ es) h = (tt, All-LastIsLast es h.1)
  All-LastIsLast (send_ack id n ∷ es) h = (tt, All-LastIsLast es h.1)
  All-LastIsLast (send_abort id ∷ es) h = (tt, All-LastIsLast es h.1)

module _ (c : Call) (laws : CryptoLaws c.crypto) (key_length : length c.epoch_key ≡ 32)
    (id_length : length c.file_id ≡ 16) (id_bytes : All IsByte c.file_id)
    (chunks : total c ≤ 2 ^ 64) where
  open c use {crypto as w, codec, epoch_key, file_id, file}

  its_key : derive_file_key w epoch_key (from_hex (hex c)) ≡ ok (file_key_of c)
  its_key =
      ap (derive_file_key w epoch_key) (from_hex-to_hex file_id id_bytes)
      ∙ derive_file_key_lem w epoch_key file_id key_length id_length

  abbrev OpensToChunk : ChunkFrame → Type 0
  OpensToChunk f =
      (plaintext : Bytes)
      → decrypt_chunk w (file_key_of c) f.file_id f.index f.is_last f.ciphertext ≡ ok plaintext
      → IsChunk c f.index f.is_last plaintext

  taken_opens : (n : ℕ) → n < total c → OpensToChunk (taken c n)
  taken_opens n l plaintext opened = (
    l,
    refl,
    ok-injective (sym opened ∙ chunk_opens c laws key_length id_length id_bytes chunks n),
  )

  bytes_trusted :
      (bytes : Bytes)
      → FromSender c bytes ⊎ NotAccepted c bytes
      → BytesAreTrusted w codec epoch_key (hex c) (file_key_of c) (IsChunk c) bytes
  bytes_trusted bytes (inl (n, l, e)) f parsed mine =
      let its_frame = some-injective c (
        sym (frame_parses c laws key_length id_length id_bytes chunks n l)
        ∙ ap parse_chunk_frame (sym e)
        ∙ parsed) in
      subst OpensToChunk its_frame (taken_opens n l)
  bytes_trusted bytes (inr refused) f parsed mine =
      λ p opened. absurd (refused f parsed mine p opened)

  events_trusted :
      (es : List Event)
      → All (IsUnforged c) es
      → All (EventIsTrusted w codec epoch_key (hex c) (file_key_of c) (IsChunk c)) es
  events_trusted [] h = tt
  events_trusted (message (binary bytes) ∷ es) h = (bytes_trusted bytes h.0, events_trusted es h.1)
  events_trusted (message (text envelope) ∷ es) h = (tt, events_trusted es h.1)
  events_trusted (close ∷ es) h = (tt, events_trusted es h.1)
  events_trusted (cancel ∷ es) h = (tt, events_trusted es h.1)
  events_trusted (detach ∷ es) h = (tt, events_trusted es h.1)
  events_trusted (computed ∷ es) h = (tt, events_trusted es h.1)
  events_trusted (handled failure ∷ es) h = (tt, events_trusted es h.1)

  -- For a call of sendFile over a Web Crypto with its laws, a 32-byte epoch key, a 16-byte file id
  -- of bytes and at most 2^64 chunks, and for every sequence of events at a fresh receiver with the
  -- same keys and codec in which each binary message is a frame of the file, in any order and any
  -- number of times, or holds no frame with its id that its key accepts, and every other message is
  -- arbitrary: each chunk that is handed to onChunk for the file has an index below the number of
  -- chunks, is the slice of the file at this index, and is marked as the last one exactly if it is.
  pub hands_on_the_file :
      (es : List Event)
      → All (IsUnforged c) es
      → All (HandsChunk c) (run w codec epoch_key fresh es).1
  hands_on_the_file es h =
      run-Genuine w codec epoch_key (hex c) (file_key_of c) (IsChunk c) its_key es
        (events_trusted es h)

  -- For a call of sendFile over a Web Crypto with its laws, a 32-byte epoch key, a 16-byte file id
  -- of bytes and at most 2^64 chunks, and for every sequence of events at a fresh receiver with the
  -- same keys and codec in which each binary message is a frame of the file or holds no frame with
  -- its id that its key accepts: every chunk of the file was handed to onChunk before the
  -- completion of the file is reported.
  pub completes_the_file :
      (es : List Event) (before after : List Effect) (n : ℕ)
      → All (IsUnforged c) es
      → (run w codec epoch_key fresh es).1 ≡ before ++ (on_file_complete (hex c) ∷ after)
      → n < total c
      → Handed (hex c) n before
  completes_the_file es before after n h e l =
      complete-Handed (hex c) (total c) before after
        (subst (λ x. Moves idle x (stage (run w codec epoch_key fresh es).0)) e
          (run-Moves w codec epoch_key es))
        (subst (All (LastIsLast (hex c) (total c))) e (All-LastIsLast c _ (hands_on_the_file es h)))
        n l
