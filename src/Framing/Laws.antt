-- ===== src/Framing/Laws.antt =====
-- Frames that are written are read back, and what happens at the end of a stream.
use mathlib.Core.Path.{subst}
use rattler_sandbox.Prelude.{
  ℕ, zero, suc, ◌<◌, ◌≤◌, ◌≡◌, refl, sym, ap, ◌∙◌, false, Option, none, some, List, [], ◌∷◌, ◌++◌,
  length, ltb, arith, Bool-cases, inl, inr,
}
use rattler_sandbox.Framing.{
  max_frame_len, FramedMessage, Codec, done, failed, not_serializable, frame_too_large,
  unexpected_eof, as_u32, to_le_bytes, from_le_bytes, read_exact, write_payload, write_frame,
  read_payload, read_frame,
}

-- The four bytes of a 32-bit number give it back.
from_le_bytes-to_le_bytes : (n : ℕ) → n < 4294967296 → from_le_bytes (to_le_bytes n) ≡ n
unfolding from_le_bytes to_le_bytes
from_le_bytes-to_le_bytes n h = omega arith

read_exact-append :
    (bytes rest : List ℕ) → read_exact (length bytes) (bytes ++ rest) ≡ some (bytes, rest)
unfolding read_exact
read_exact-append [] rest = refl
read_exact-append (b ∷ bytes) rest = rw (read_exact-append bytes rest) refl

read_exact_short : (n : ℕ) (reader : List ℕ) → length reader < n → read_exact n reader ≡ none
unfolding read_exact
read_exact_short zero reader h = absurd (omega arith)
read_exact_short (suc n) [] h = refl
read_exact_short (suc n) (b ∷ reader) h = rw (read_exact_short n reader (omega arith)) refl

-- Less than the four bytes of a length count as the end of the stream, also where some are there.
pub read_frame_short :
    (c : Codec) (reader : List ℕ) → length reader < 4 → read_frame c reader ≡ done (none, [])
unfolding read_frame
read_frame_short c reader h =
    ap
      (λ o. elim o [
        | none ↦ done (none, [])
        | some (len_buf, rest) ↦ read_payload c (from_le_bytes len_buf) rest
      ])
      (read_exact_short 4 reader h)

-- A length over the limit that fits 32 bits is refused, whatever follows it.
pub read_frame_large :
    (c : Codec) (n : ℕ) (rest : List ℕ)
    → max_frame_len < n
    → n < 4294967296
    → read_frame c (to_le_bytes n ++ rest) ≡ failed (frame_too_large n)
unfolding read_frame read_exact to_le_bytes read_payload
read_frame_large c n rest h k =
    subst (λ m. read_payload c m rest ≡ failed (frame_too_large n))
      (sym (from_le_bytes-to_le_bytes n k)) (ground arith)

-- A frame within the limit whose payload is cut off is an error, not the end of the stream.
pub read_frame_cut :
    (c : Codec) (n : ℕ) (rest : List ℕ)
    → n ≤ max_frame_len
    → length rest < n
    → read_frame c (to_le_bytes n ++ rest) ≡ failed unexpected_eof
unfolding read_frame read_exact to_le_bytes read_payload
read_frame_cut c n rest h k =
    subst (λ m. read_payload c m rest ≡ failed unexpected_eof)
      (sym (from_le_bytes-to_le_bytes n (omega arith))) (ground (arith, read_exact_short n rest k))

module _ (c : Codec)
    (law : (m : FramedMessage) (bytes : List ℕ)
      → c.to_vec m ≡ some bytes
      → c.from_slice bytes ≡ some m) where
  read-payload :
      (payload rest : List ℕ) (m : FramedMessage)
      → c.from_slice payload ≡ some m
      → ltb max_frame_len (length payload) ≡ false
      → read_frame c ((to_le_bytes (as_u32 (length payload)) ++ payload) ++ rest)
        ≡ done (some m, rest)
  unfolding read_frame read_exact to_le_bytes
  read-payload payload rest m k h =
      subst (λ n. read_payload c n (payload ++ rest) ≡ done (some m, rest)) (sym same) framed
    where
      short : length payload ≤ 8388608
      short = ground arith

      same : from_le_bytes (to_le_bytes (as_u32 (length payload))) ≡ length payload
      same =
          from_le_bytes-to_le_bytes (as_u32 (length payload)) (omega arith) ∙ omega (arith, short)

      framed : read_payload c (length payload) (payload ++ rest) ≡ done (some m, rest)
      framed = unfold read_payload in rw h (rw (read_exact-append payload rest) (rw k refl))

  -- For a codec that reads back what it writes: a successful write puts one frame at the end of the
  -- writer, and reading that frame from any stream gives the message and leaves what follows it.
  pub read_frame-write_frame :
      (writer out rest : List ℕ) (m : FramedMessage)
      → write_frame c writer m ≡ done out
      → (frame : List ℕ) × (out ≡ writer ++ frame)
        × (read_frame c (frame ++ rest) ≡ done (some m, rest))
  unfolding write_frame write_payload
  read_frame-write_frame writer out rest m h = by_payload (c.to_vec m) refl h
    where
      Framed : Type 0
      Framed =
          (frame : List ℕ) × (out ≡ writer ++ frame)
          × (read_frame c (frame ++ rest) ≡ done (some m, rest))

      by_payload :
          (o : Option (List ℕ))
          → c.to_vec m ≡ o
          → elim o [ none ↦ failed not_serializable | some p ↦ write_payload c writer p ] ≡ done out
          → Framed
      by_payload none e k = absurd (ground arith)
      by_payload (some p) e k = elim (Bool-cases (ltb max_frame_len (length p))) [
        | inl l ↦ absurd (ground arith)
        | inr l ↦ (
          to_le_bytes (as_u32 (length p)) ++ p,
          ground arith,
          read-payload p rest m (law m p e) l,
        )
      ]
