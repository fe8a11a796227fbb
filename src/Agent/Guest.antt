-- ===== src/Agent/Guest.antt =====
-- agent/internal/guest/server.go: what the agent inside a microVM answers to Exec; the child modules
-- have the files and the terminals. The kernel's files and processes are parameters.
pub mod Files
pub mod Streams
pub mod Terminal
pub mod Uploads
mod Tests
use yaghan.Base.{◌≡◌, ℕ, Bool, true, false, List, [], ◌∷◌, ◌++◌, Option, none, some, if◌then◌else◌}
use yaghan.Base.Text.{Text}
use yaghan.Base.Integer.{Integer}

pub data StreamType : Type 0 where
  stdout stderr : StreamType

-- The gRPC codes that the agent uses.
pub data Code : Type 0 where
  ok_code not_found_code failed_precondition resource_exhausted internal invalid_argument : Code

pub record StreamChunk : Type 0 where
  pub pid : ℕ
  pub stream : StreamType
  pub contents : List ℕ
  pub eof : Bool

-- AgentResponse's payload.
pub data Payload : Type 0 where
  error_status : Code → Text → Payload
  stream_chunk : StreamChunk → Payload
  process_result : Integer → Payload
  upload_done : Payload
  download_done : List ℕ → Payload

pub record Response : Type 0 where
  pub id : ℕ
  pub payload : Payload

-- What one Read of a pipe gives: bytes, at most a buffer of them, and perhaps an error.
pub record Chunk : Type 0 where
  pub bytes : List ℕ
  pub failed : Bool

abbrev pub chunk_response : ℕ → ℕ → StreamType → List ℕ → Bool → Response
chunk_response id pid t bytes eof = record {
  id = id;
  payload = stream_chunk (record { pid = pid; stream = t; contents = bytes; eof = eof });
}

abbrev chunk_of : ℕ → ℕ → StreamType → List ℕ → List Response
chunk_of id pid t [] = []
chunk_of id pid t (b ∷ bytes) = chunk_response id pid t (b ∷ bytes) false ∷ []

-- The responses of one reader; a pipe whose reads are over has ended.
unfoldable pub stream : ℕ → ℕ → StreamType → List Chunk → List Response
stream id pid t [] = chunk_response id pid t [] true ∷ []
stream id pid t (c ∷ chunks) =
    let rest = stream id pid t chunks in
    chunk_of id pid t c.bytes ++ (if c.failed then chunk_response id pid t [] true ∷ [] else rest)

-- What a process leaves: an exit code, or no state at all.
pub data Exit : Type 0 where
  exited : Integer → Exit
  no_state : Text → Exit

unfoldable pub exec_response : ℕ → Exit → Response
exec_response id (exited code) = record { id = id; payload = process_result code }
exec_response id (no_state message) = record { id = id; payload = error_status internal message }

-- The writes of two goroutines, each in its order, in any order between the two.
pub data Interleaved {A : Type 0} : List A → List A → List A → Type 0 where
  no_more : Interleaved [] [] []
  from_first : {xs ys zs : List A} (x : A) → Interleaved xs ys zs → Interleaved (x ∷ xs) ys (x ∷ zs)
  from_second :
      {xs ys zs : List A} (y : A) → Interleaved xs ys zs → Interleaved xs (y ∷ ys) (y ∷ zs)

-- How a command starts: its terminal or pipes and their reads, or not at all.
pub data Started : Type 0 where
  with_pipes : ℕ → List Chunk → List Chunk → Started
  with_terminal : ℕ → List Chunk → Started
  not_started : Bool → Text → Started

-- The responses of execCommand: those of the readers, for which it waits, and then the last one.
pub data ExecCommand (id : ℕ) (exit : Exit) : Started → List Response → Type 0 where
  in_pipes :
      {responses : List Response} (pid : ℕ) (out errs : List Chunk) (written : List Response)
      → Interleaved (stream id pid stdout out) (stream id pid stderr errs) written
      → responses ≡ written ++ exec_response id exit ∷ []
      → ExecCommand id exit (with_pipes pid out errs) responses
  in_terminal :
      {responses : List Response} (pid : ℕ) (out : List Chunk)
      → responses ≡ stream id pid stdout out ++ exec_response id exit ∷ []
      → ExecCommand id exit (with_terminal pid out) responses
  failed_start :
      {responses : List Response} (not_exist : Bool) (message : Text)
      → responses
        ≡ record {
          id = id;
          payload = error_status (if not_exist then not_found_code else internal) message;
        }
          ∷ []
      → ExecCommand id exit (not_started not_exist message) responses
