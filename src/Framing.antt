-- ===== src/Framing.antt =====
-- windows/elevated/ipc_framed.rs: the messages between the parent and the elevated runner, and the
-- frames that carry them. A byte is a number, a reader is what is left of its bytes, a writer is
-- what was written. Serialization comes in as a `Codec`.
pub mod Laws
use Prim.Native.Nat.{◌*◌, ◌/◌, ◌%◌}
use rattler_sandbox.Prelude.{
  ℕ, zero, suc, ◌+◌, String, Bool, Option, none, some, List, [], ◌∷◌, ◌++◌, Env, length, ltb,
  if◌then◌else◌,
}
use rattler_sandbox.Paths.Std.{PathBuf}

abbrev pub max_frame_len : ℕ
max_frame_len = 8388608

pub record SpawnRequest : Type 0 where
  pub command : List String
  pub cwd : PathBuf
  pub env : Env
  pub policy_json_or_preset : String
  pub sandbox_policy_cwd : PathBuf
  pub codex_home : PathBuf
  pub real_codex_home : PathBuf
  pub cap_sids : List String
  pub timeout_ms : Option ℕ
  pub tty : Bool
  pub stdin_open : Bool
  pub use_private_desktop : Bool

pub record SpawnReady : Type 0 where
  pub process_id : ℕ

pub data OutputStream : Type 0 where
  stdout stderr : OutputStream

pub record OutputPayload : Type 0 where
  pub data_b64 : String
  pub stream : OutputStream

pub record StdinPayload : Type 0 where
  pub data_b64 : String

pub record ResizePayload : Type 0 where
  pub rows : ℕ
  pub cols : ℕ

-- The exit code is that of an `i32`, by its 32 bits.
pub record ExitPayload : Type 0 where
  pub exit_code : ℕ
  pub timed_out : Bool

pub record ErrorPayload : Type 0 where
  pub message : String
  pub code : String

pub data Message : Type 0 where
  spawn_request : SpawnRequest → Message
  spawn_ready : SpawnReady → Message
  output : OutputPayload → Message
  stdin : StdinPayload → Message
  close_stdin : Message
  resize : ResizePayload → Message
  exit : ExitPayload → Message
  error : ErrorPayload → Message
  terminate : Message

pub record FramedMessage : Type 0 where
  pub version : ℕ
  pub message : Message

-- `serde_json::to_vec` and `serde_json::from_slice` of a message.
pub record Codec : Type 0 where
  pub to_vec : FramedMessage → Option (List ℕ)
  pub from_slice : List ℕ → Option FramedMessage

pub data FrameError : Type 0 where
  not_serializable not_deserializable unexpected_eof : FrameError
  frame_too_large : ℕ → FrameError

pub data FrameResult (A : Type 0) : Type 0 where
  done : A → FrameResult A
  failed : FrameError → FrameResult A

-- `len as u32`
abbrev pub as_u32 : ℕ → ℕ
as_u32 len = len % 4294967296

unfoldable pub to_le_bytes : ℕ → List ℕ
to_le_bytes n = n % 256 ∷ n / 256 % 256 ∷ n / 65536 % 256 ∷ n / 16777216 % 256 ∷ []

unfoldable pub from_le_bytes : List ℕ → ℕ
from_le_bytes [] = 0
from_le_bytes (b ∷ bs) = b + 256 * from_le_bytes bs

-- `Read::read_exact` of a number of bytes: the bytes and what is left, or `none` at the end.
unfoldable pub read_exact : ℕ → List ℕ → Option (List ℕ × List ℕ)
read_exact zero reader = some ([], reader)
read_exact (suc n) [] = none
read_exact (suc n) (b ∷ reader) = elim (read_exact n reader) [
  | none ↦ none
  | some (bytes, rest) ↦ some (b ∷ bytes, rest)
]

module _ (c : Codec) where
  unfoldable pub write_payload : List ℕ → List ℕ → FrameResult (List ℕ)
  write_payload writer payload =
      if ltb max_frame_len (length payload)
      then failed (frame_too_large (length payload))
      else done (writer ++ (to_le_bytes (as_u32 (length payload)) ++ payload))

  unfoldable pub write_frame : List ℕ → FramedMessage → FrameResult (List ℕ)
  write_frame writer msg = elim (c.to_vec msg) [
    | none ↦ failed not_serializable
    | some payload ↦ write_payload writer payload
  ]

  -- What `read_frame` does with the length that it read.
  unfoldable pub read_payload : ℕ → List ℕ → FrameResult (Option FramedMessage × List ℕ)
  read_payload len reader =
      if ltb max_frame_len len then failed (frame_too_large len) else elim (read_exact len reader) [
        | none ↦ failed unexpected_eof
        | some (payload, rest) ↦ elim (c.from_slice payload) [
          | none ↦ failed not_deserializable
          | some msg ↦ done (some msg, rest)
        ]
      ]

  -- No message at the end of the stream. A failed read of the length leaves nothing behind.
  unfoldable pub read_frame : List ℕ → FrameResult (Option FramedMessage × List ℕ)
  read_frame reader = elim (read_exact 4 reader) [
    | none ↦ done (none, [])
    | some (len_buf, rest) ↦ read_payload (from_le_bytes len_buf) rest
  ]
