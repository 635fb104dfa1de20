-- ===== src/Tests/Relays.antt =====
-- web/transfer.js: a relay that makes up a message and repeats a frame.
use quicksend.Base.{◌<◌, ◌≡◌, inl, inr, refl, ap, true, List, [], ◌∷◌, ◌++◌, none, arith, All}
use quicksend.Base.Bytes.{zeros}
use quicksend.Frame.{parse_chunk_frame}
use quicksend.Wire.{binary}
use quicksend.Receiver.State.{
  Event, Effect, fresh, message, close, computed, handled, on_file_complete, on_file_start,
  on_chunk, send_ack,
}
use quicksend.Receiver.{run}
use quicksend.Receiver.Authenticity.Completion.{Handed}
use quicksend.Sender.{chunk_size, chunk_at, chunk_count}
use quicksend.Sender.Transcript.{total, transcript, meta_ciphertext, meta_message, frame_at}
use quicksend.Transfer.Steps.{hex}
use quicksend.Transfer.{sent_metadata, handle_each, calls_upto}
use quicksend.Transfer.EndToEnd.{takes_transcript}
use quicksend.Transfer.Authenticity.{
  IsUnforged, NotAccepted, HandsChunk, hands_on_the_file, completes_the_file,
}
use quicksend.Tests.Instances.{toy_crypto, toy_codec, toy_laws, toy_call}
use quicksend.Tests.Transfers.{id_bytes, one_chunk, sixteen, key_length}

abbrev frame : Event
frame = message (binary (frame_at toy_call 0))

abbrev meddled : List Event
meddled =
    message (binary [])
    ∷ message (meta_message (hex toy_call) (meta_ciphertext toy_call))
    ∷ computed
    ∷ computed
    ∷ handled none
    ∷ frame
    ∷ frame
    ∷ computed
    ∷ handled none
    ∷ close
    ∷ []

some_chunk : 0 < total toy_call
unfolding chunk_count
some_chunk = omega arith

made_up : NotAccepted toy_call []
unfolding parse_chunk_frame
made_up f parsed mine p opened = cc

meddled-IsUnforged : All (IsUnforged toy_call) meddled
meddled-IsUnforged = (
  inr made_up,
  (
    tt,
    (
      tt,
      (tt, (tt, (inl (0, some_chunk, refl), (inl (0, some_chunk, refl), (tt, (tt, (tt, tt))))))),
    ),
  ),
)

hands_on_the_file_example :
    All (HandsChunk toy_call) (run toy_crypto toy_codec (zeros 32) fresh meddled).1
hands_on_the_file_example =
    hands_on_the_file toy_call toy_laws key_length sixteen id_bytes one_chunk meddled
      meddled-IsUnforged

-- The same file without the relay's doing.
abbrev unmeddled : List Event
unmeddled =
    message (meta_message (hex toy_call) (meta_ciphertext toy_call))
    ∷ computed
    ∷ computed
    ∷ handled none
    ∷ frame
    ∷ computed
    ∷ handled none
    ∷ []

unmeddled-IsUnforged : All (IsUnforged toy_call) unmeddled
unmeddled-IsUnforged = (tt, (tt, (tt, (tt, (inl (0, some_chunk, refl), (tt, (tt, tt)))))))

abbrev before_end : List Effect
before_end =
    on_file_start (hex toy_call) (sent_metadata toy_call)
    ∷ on_chunk (hex toy_call) 0 true (chunk_at chunk_size (1 ∷ 2 ∷ 255 ∷ []) 0)
    ∷ send_ack (hex toy_call) 0
    ∷ []

one_end :
    (run toy_crypto toy_codec (zeros 32) fresh unmeddled).1
    ≡ before_end ++ (on_file_complete (hex toy_call) ∷ [])
unfolding handle_each chunk_count transcript calls_upto
one_end =
    ap (λ out. out.1) (takes_transcript toy_call toy_laws key_length sixteen id_bytes one_chunk)

completes_the_file_example : Handed (hex toy_call) 0 before_end
completes_the_file_example =
    completes_the_file toy_call toy_laws key_length sixteen id_bytes one_chunk unmeddled before_end
      [] 0 unmeddled-IsUnforged one_end some_chunk
