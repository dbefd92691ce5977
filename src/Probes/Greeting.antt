-- ===== src/Probes/Greeting.antt =====
-- crates/huginn-probes/src/lib.rs: `read_greeting_line`, over the reads that come before the
-- deadline.
pub mod Stream
pub mod Ends
use huginn_io.Prelude.{
  ℕ, Bool, true, false, ◌||◌, List, [], ◌∷◌, ◌++◌, length, take, leb, ◌==◌, if◌then◌else◌, Text,
  Bytes,
}

-- One `read`: some bytes, none if the peer has closed, or an error.
pub data Read : Type 0 where
  bytes : Bytes → Read
  broken : Text → Read

abbrev pub max_greeting_bytes : ℕ
max_greeting_bytes = 512

-- What has come of the loop when the reads are used up.
pub data Progress : Type 0 where
  line : Bytes → Progress
  io_error : Text → Progress
  pending : Progress

has_newline : Bytes → Bool
has_newline [] = false
has_newline (b ∷ bs) = b == b'\n' || has_newline bs

-- The loop has enough.
complete : Bytes → Bool
unfolding has_newline
complete collected = has_newline collected || leb max_greeting_bytes (length collected)

unfoldable pub read_greeting : Bytes → List Read → Progress
unfolding complete
read_greeting collected [] = pending
read_greeting collected (broken e ∷ reads) = io_error e
read_greeting collected (bytes [] ∷ reads) = line (take max_greeting_bytes collected)
read_greeting collected (bytes (b ∷ chunk) ∷ reads) =
    let so_far = collected ++ (b ∷ chunk) in
    let rest = read_greeting so_far reads in
    if complete so_far then line (take max_greeting_bytes so_far) else rest

abbrev pub read_greeting_line : List Read → Progress
read_greeting_line = read_greeting []
