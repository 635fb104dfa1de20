-- ===== src/Tests/Failures.antt =====
-- web/transfer.js, attachReceiver: chunks that cannot be written, and files that are given up.
use quicksend.Base.{ℕ, ◌≡◌, refl, true, false, List, [], ◌∷◌, ◌++◌, none, some, arith, replicate}
use quicksend.Base.Bytes.{Bytes, zeros}
use quicksend.Base.Results.{read_error, type_error, out_of_order}
use quicksend.Hex.{to_hex}
use quicksend.Frame.RoundTrip.{layout, frame_of, parse-layout}
use quicksend.Receiver as Receiving
use quicksend.Receiver.State.{Current, cancel, handled, on_aborted, on_error, send_ack, send_abort}
use quicksend.Receiver.Failures.{
  AllUnexpected, arrivals, at_rest, awaiting_chunk, canceled_while_writing, failed_write,
}
use quicksend.Tests.Instances.{toy_crypto, toy_codec}
use quicksend.Tests.Transfers.{id, sixteen}

abbrev current : Current
current = record { file_id_hex = to_hex id; file_key = zeros 32; expected_index = 4 }

-- Two frames wait behind the chunk, and one more comes after the cancellation.
abbrev waiting_frames : List Bytes
waiting_frames = layout id 5 false (3 ∷ []) ∷ layout id 6 false (4 ∷ []) ∷ []

canceled_while_writing_example :
    Receiving.run toy_crypto toy_codec
      (zeros 32)
      (awaiting_chunk toy_crypto toy_codec
        (zeros 32)
        (some current)
        (to_hex id)
        4
        false
        waiting_frames)
      (cancel ∷ (arrivals (layout id 7 true (5 ∷ []) ∷ []) ++ (handled none ∷ [])))
    ≡ (
      at_rest toy_crypto toy_codec (zeros 32) none,
      send_abort (to_hex id)
          ∷ on_aborted (to_hex id) none
          ∷ send_ack (to_hex id) 4
          ∷ on_error type_error
          ∷ [],
    )
canceled_while_writing_example =
    canceled_while_writing toy_crypto toy_codec (zeros 32) current (to_hex id) 4 false
      waiting_frames (layout id 7 true (5 ∷ []) ∷ [])

-- Chunk 5 arrives before the write of chunk 4 has failed, chunk 6 afterwards.
abbrev later_frame : ℕ → Bytes
later_frame index = layout id index false (1 ∷ 2 ∷ [])

five_is_unexpected : AllUnexpected 4 (later_frame 5 ∷ [])
unfolding AllUnexpected
five_is_unexpected = (
  (
    frame_of id 5 false (1 ∷ 2 ∷ []),
    parse-layout id 5 false (1 ∷ 2 ∷ []) sixteen (omega arith),
    refl,
  ),
  tt,
)

six_is_unexpected : AllUnexpected 4 (later_frame 6 ∷ [])
unfolding AllUnexpected
six_is_unexpected = (
  (
    frame_of id 6 false (1 ∷ 2 ∷ []),
    parse-layout id 6 false (1 ∷ 2 ∷ []) sixteen (omega arith),
    refl,
  ),
  tt,
)

failed_write_example :
    Receiving.run toy_crypto toy_codec
      (zeros 32)
      (awaiting_chunk toy_crypto toy_codec
        (zeros 32)
        (some current)
        (to_hex id)
        4
        false
        (later_frame 5 ∷ []))
      (handled (some read_error) ∷ arrivals (later_frame 6 ∷ []))
    ≡ (
      at_rest toy_crypto toy_codec (zeros 32) (some current),
      on_error read_error ∷ replicate 2 (on_error out_of_order),
    )
failed_write_example =
    failed_write toy_crypto toy_codec (zeros 32) current (to_hex id) 4 false read_error
      (later_frame 5 ∷ []) (later_frame 6 ∷ []) five_is_unexpected six_is_unexpected
