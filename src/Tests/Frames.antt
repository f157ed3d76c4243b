-- ===== src/Tests/Frames.antt =====
-- Frames at concrete inputs, with a codec for one message.
use mathlib.Core.Path.{subst}
use mathlib.Core.Option.{some-injective}
use rattler_sandbox.Prelude.{
  ℕ, zero, suc, ◌≡◌, refl, Option, none, some, List, [], ◌∷◌, ◌++◌, arith,
}
use rattler_sandbox.Framing.{
  FramedMessage, close_stdin, terminate, Message, Codec, done, failed, frame_too_large, to_le_bytes,
  write_frame, write_payload, read_frame,
}
use rattler_sandbox.Framing.Laws.{read_frame_short, read_frame_large, read_frame-write_frame}

abbrev framed : Message → ℕ → FramedMessage
framed message version = record { version = version; message = message }

-- Two messages, each by its kind and its version.
abbrev encode : Message → ℕ → Option (List ℕ)
encode terminate version = some (0 ∷ version ∷ [])
encode close_stdin version = some (1 ∷ version ∷ [])
encode _ version = none

abbrev decode : List ℕ → Option FramedMessage
decode (zero ∷ version ∷ []) = some (framed terminate version)
decode (suc _ ∷ version ∷ []) = some (framed close_stdin version)
decode _ = none

abbrev codec : Codec
codec = record { to_vec = λ m. encode m.message m.version; from_slice = decode }

decode-encode :
    (message : Message) (version : ℕ) (bytes : List ℕ)
    → encode message version ≡ some bytes
    → decode bytes ≡ some (framed message version)
decode-encode terminate version bytes h =
    subst (λ l. decode l ≡ some (framed terminate version)) (some-injective _ _ h) refl
decode-encode close_stdin version bytes h =
    subst (λ l. decode l ≡ some (framed close_stdin version)) (some-injective _ _ h) refl
decode-encode _ version bytes h = absurd (ground arith)

read_frame-write_frame_example :
    (frame : List ℕ) × (7 ∷ 2 ∷ 0 ∷ 0 ∷ 0 ∷ 0 ∷ 1 ∷ [] ≡ (7 ∷ []) ++ frame)
    × (read_frame codec (frame ++ 9 ∷ []) ≡ done (some (framed terminate 1), 9 ∷ []))
unfolding write_frame write_payload to_le_bytes
read_frame-write_frame_example =
    read_frame-write_frame codec (λ m bytes h. decode-encode m.message m.version bytes h) (7 ∷ [])
      (7 ∷ 2 ∷ 0 ∷ 0 ∷ 0 ∷ 0 ∷ 1 ∷ []) (9 ∷ []) (framed terminate 1) refl

read_frame_short_example : read_frame codec (2 ∷ 0 ∷ 0 ∷ []) ≡ done (none, [])
read_frame_short_example = read_frame_short codec (2 ∷ 0 ∷ 0 ∷ []) (omega arith)

read_frame_large_example :
    read_frame codec (to_le_bytes 8388609 ++ []) ≡ failed (frame_too_large 8388609)
read_frame_large_example = read_frame_large codec 8388609 [] (omega arith) (omega arith)
