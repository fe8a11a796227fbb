-- ===== src/Agent/Guest/Streams.antt =====
-- What the host makes of the responses of an Exec of agent/internal/guest/server.go.
use yaghan.Base.{
  ℕ, ◌≡◌, refl, sym, ap, ◌∙◌, Bool, true, false, ◌||◌, List, [], ◌∷◌, ◌++◌, if◌then◌else◌, All,
  All-append, Bool-cases, inl, inr,
}
use mathlib.Core.List.{append_assoc, append-nil}
use yaghan.Agent.Guest.{
  StreamType, stdout, stderr, Payload, error_status, stream_chunk, process_result, upload_done,
  download_done, StreamChunk, Response, Chunk, chunk_of, chunk_response, stream, Exit, exited,
  no_state, exec_response, Interleaved, no_more, from_first, from_second, Started, with_pipes,
  with_terminal, not_started, ExecCommand, in_pipes, in_terminal, failed_start, internal,
  not_found_code,
}

-- What the pipe gives until its first error.
unfoldable pub read_bytes : List Chunk → List ℕ
read_bytes [] = []
read_bytes (c ∷ chunks) = let rest = read_bytes chunks in c.bytes ++ (if c.failed then [] else rest)

-- A listener to one stream: the bytes so far, whether the end was marked, and whether a chunk came behind
-- the mark.
pub record Heard : Type 0 where
  pub bytes : List ℕ
  pub ended : Bool
  pub late : Bool

abbrev pub silence : Heard
silence = record { bytes = []; ended = false; late = false }

abbrev pub same_stream : StreamType → StreamType → Bool
same_stream stdout stdout = true
same_stream stdout stderr = false
same_stream stderr stdout = false
same_stream stderr stderr = true

abbrev pub hear : StreamType → Payload → Heard → Heard
hear t (stream_chunk c) h =
    if same_stream t c.stream
    then record { bytes = h.bytes ++ c.contents; ended = c.eof; late = h.late || h.ended }
    else h
hear t (error_status code message) h = h
hear t (process_result code) h = h
hear t upload_done h = h
hear t (download_done bytes) h = h

unfoldable pub listen : StreamType → List Response → Heard → Heard
listen t [] h = h
listen t (r ∷ rs) h = listen t rs (hear t r.payload h)

abbrev not_chunk : Payload → List Payload
not_chunk (stream_chunk c) = []
not_chunk p = p ∷ []

-- The payloads that are no chunks.
unfoldable pub results : List Response → List Payload
results [] = []
results (r ∷ rs) = not_chunk r.payload ++ results rs

-- Every response is a chunk of the stream.
abbrev Chunks : StreamType → List Response → Type 0
Chunks t = All (λ r. (c : StreamChunk) × (r.payload ≡ stream_chunk c) × (c.stream ≡ t))

chunk_of-Chunks :
    (id pid : ℕ) (t : StreamType) (bytes : List ℕ) → Chunks t (chunk_of id pid t bytes)
chunk_of-Chunks id pid t [] = tt
chunk_of-Chunks id pid t (b ∷ bytes) = ((_, refl, refl), tt)

stream-Chunks :
    (id pid : ℕ) (t : StreamType) (chunks : List Chunk) → Chunks t (stream id pid t chunks)
unfolding stream
stream-Chunks id pid t [] = ((_, refl, refl), tt)
stream-Chunks id pid t (c ∷ chunks) = elim (Bool-cases c.failed) [
  | inl failed ↦
      rw (stream, failed)
        (All-append _ (chunk_of id pid t c.bytes) (chunk_response id pid t [] true ∷ [])
          (chunk_of-Chunks id pid t c.bytes) ((_, refl, refl), tt))
  | inr fine ↦
      rw (stream, fine)
        (All-append _ (chunk_of id pid t c.bytes) (stream id pid t chunks)
          (chunk_of-Chunks id pid t c.bytes) (stream-Chunks id pid t chunks))
]

listen-append :
    (t : StreamType) (xs ys : List Response) (h : Heard)
    → listen t (xs ++ ys) h ≡ listen t ys (listen t xs h)
unfolding listen
listen-append t [] ys h = refl
listen-append t (x ∷ xs) ys h = listen-append t xs ys (hear t x.payload h)

results-append : (xs ys : List Response) → results (xs ++ ys) ≡ results xs ++ results ys
unfolding results
results-append [] ys = refl
results-append (x ∷ xs) ys =
    ap (λ l. not_chunk x.payload ++ l) (results-append xs ys)
    ∙ sym (append_assoc (not_chunk x.payload) (results xs) (results ys))

Chunks-results : (t : StreamType) (rs : List Response) → Chunks t rs → results rs ≡ []
unfolding results
Chunks-results t [] h = refl
Chunks-results t (r ∷ rs) ((c, is, of), more) = rw is (Chunks-results t rs more)

-- A listener does not hear the other stream.
hear-other :
    (t u : StreamType) (p : Payload) (h : Heard)
    → same_stream t u ≡ false
    → (c : StreamChunk) × (p ≡ stream_chunk c) × (c.stream ≡ u)
    → hear t p h ≡ h
hear-other t u p h other (c, is, of) =
    ap (λ q. hear t q h) is
    ∙ ap
        (λ (b : Bool).
          if b
          then record { bytes = h.bytes ++ c.contents; ended = c.eof; late = h.late || h.ended }
          else h)
        (ap (same_stream t) of ∙ other)

Interleaved-first :
    (t u : StreamType) {xs ys zs : List Response} (h : Heard)
    → same_stream t u ≡ false
    → Interleaved xs ys zs
    → Chunks u ys
    → listen t zs h ≡ listen t xs h
unfolding listen
Interleaved-first t u h other no_more cs = refl
Interleaved-first t u h other (from_first x rest) cs =
    Interleaved-first t u (hear t x.payload h) other rest cs
Interleaved-first t u h other (from_second {zs = zs} y rest) cs =
    ap (listen t zs) (hear-other t u y.payload h other cs.0)
    ∙ Interleaved-first t u h other rest cs.1

Interleaved-second :
    (t u : StreamType) {xs ys zs : List Response} (h : Heard)
    → same_stream t u ≡ false
    → Interleaved xs ys zs
    → Chunks u xs
    → listen t zs h ≡ listen t ys h
unfolding listen
Interleaved-second t u h other no_more cs = refl
Interleaved-second t u h other (from_second y rest) cs =
    Interleaved-second t u (hear t y.payload h) other rest cs
Interleaved-second t u h other (from_first {zs = zs} x rest) cs =
    ap (listen t zs) (hear-other t u x.payload h other cs.0)
    ∙ Interleaved-second t u h other rest cs.1

abbrev quiet_after : List ℕ → Heard
quiet_after bytes = record { bytes = bytes; ended = false; late = false }

hear-own :
    (id pid : ℕ) (t : StreamType) (bytes more : List ℕ) (eof : Bool)
    → hear t (chunk_response id pid t more eof).payload (quiet_after bytes)
      ≡ record { bytes = bytes ++ more; ended = eof; late = false }
hear-own id pid stdout bytes more eof = refl
hear-own id pid stderr bytes more eof = refl

chunk_of-listen :
    (id pid : ℕ) (t : StreamType) (bytes more : List ℕ)
    → listen t (chunk_of id pid t more) (quiet_after bytes) ≡ quiet_after (bytes ++ more)
unfolding listen
chunk_of-listen id pid t bytes [] = ap quiet_after (sym (append-nil bytes))
chunk_of-listen id pid t bytes (b ∷ more) = hear-own id pid t bytes (b ∷ more) false

-- One stream, heard alone.
stream-listen :
    (id pid : ℕ) (t : StreamType) (chunks : List Chunk) (bytes : List ℕ)
    → listen t (stream id pid t chunks) (quiet_after bytes)
      ≡ record { bytes = bytes ++ read_bytes chunks; ended = true; late = false }
unfolding listen stream read_bytes
stream-listen id pid t [] bytes = hear-own id pid t bytes [] true
stream-listen id pid t (c ∷ chunks) bytes = elim (Bool-cases c.failed) [
  | inl failed ↦
      rw (stream, read_bytes, failed)
        (listen-append t (chunk_of id pid t c.bytes) (chunk_response id pid t [] true ∷ [])
            (quiet_after bytes)
          ∙ ap (listen t (chunk_response id pid t [] true ∷ []))
              (chunk_of-listen id pid t bytes c.bytes)
          ∙ hear-own id pid t (bytes ++ c.bytes) [] true
          ∙ ap (λ l. record { bytes = l; ended = true; late = false })
              (append_assoc bytes c.bytes []))
  | inr fine ↦
      rw (stream, read_bytes, fine)
        (listen-append t (chunk_of id pid t c.bytes) (stream id pid t chunks) (quiet_after bytes)
          ∙ ap (listen t (stream id pid t chunks)) (chunk_of-listen id pid t bytes c.bytes)
          ∙ stream-listen id pid t chunks (bytes ++ c.bytes)
          ∙ ap (λ l. record { bytes = l; ended = true; late = false })
              (append_assoc bytes c.bytes (read_bytes chunks)))
]

-- What the two listeners hear of a command.
abbrev pub heard_of : Started → StreamType → Heard
heard_of (with_pipes pid out errs) stdout = record {
  bytes = read_bytes out;
  ended = true;
  late = false;
}
heard_of (with_pipes pid out errs) stderr = record {
  bytes = read_bytes errs;
  ended = true;
  late = false;
}
heard_of (with_terminal pid out) stdout = record {
  bytes = read_bytes out;
  ended = true;
  late = false;
}
heard_of (with_terminal pid out) stderr = silence
heard_of (not_started not_exist message) t = silence

-- The payload that ends an Exec.
abbrev pub final_of : Exit → Started → Payload
final_of (exited code) (with_pipes pid out errs) = process_result code
final_of (no_state message) (with_pipes pid out errs) = error_status internal message
final_of (exited code) (with_terminal pid out) = process_result code
final_of (no_state message) (with_terminal pid out) = error_status internal message
final_of exit (not_started not_exist message) =
    error_status (if not_exist then not_found_code else internal) message

last_hear :
    (t : StreamType) (id : ℕ) (exit : Exit) (h : Heard)
    → hear t (exec_response id exit).payload h ≡ h
unfolding exec_response
last_hear t id (exited code) h = refl
last_hear t id (no_state message) h = refl

last_result :
    (id : ℕ) (exit : Exit)
    → results (exec_response id exit ∷ []) ≡ (exec_response 0 exit).payload ∷ []
unfolding results exec_response
last_result id (exited code) = refl
last_result id (no_state message) = refl

Interleaved-results :
    {xs ys zs : List Response}
    → Interleaved xs ys zs
    → Chunks stdout xs
    → Chunks stderr ys
    → results zs ≡ []
unfolding results
Interleaved-results no_more cs ds = refl
Interleaved-results (from_first x rest) ((c, is, of), cs) ds =
    rw is (Interleaved-results rest cs ds)
Interleaved-results (from_second y rest) cs ((d, is, of), ds) =
    rw is (Interleaved-results rest cs ds)

-- The end of an Exec: one last response behind chunks only.
abbrev pub EndsWith : Payload → List Response → Type 0
EndsWith payload responses =
    (before : List Response) × (last : Response) × (responses ≡ before ++ last ∷ [])
    × (last.payload ≡ payload)
    × (results before ≡ [])

final_pipes :
    (id pid : ℕ) (out errs : List Chunk) (exit : Exit)
    → (exec_response id exit).payload ≡ final_of exit (with_pipes pid out errs)
unfolding exec_response
final_pipes id pid out errs (exited code) = refl
final_pipes id pid out errs (no_state message) = refl

final_terminal :
    (id pid : ℕ) (out : List Chunk) (exit : Exit)
    → (exec_response id exit).payload ≡ final_of exit (with_terminal pid out)
unfolding exec_response
final_terminal id pid out (exited code) = refl
final_terminal id pid out (no_state message) = refl

one_more :
    (t : StreamType) (id : ℕ) (exit : Exit) (h : Heard)
    → listen t (exec_response id exit ∷ []) h ≡ h
unfolding listen
one_more t id exit h = last_hear t id exit h

unheard :
    (t u : StreamType) (rs : List Response) (h : Heard)
    → same_stream t u ≡ false
    → Chunks u rs
    → listen t rs h ≡ h
unfolding listen
unheard t u [] h other cs = refl
unheard t u (r ∷ rs) h other cs =
    ap (listen t rs) (hear-other t u r.payload h other cs.0) ∙ unheard t u rs h other cs.1

-- Whatever the order in which the readers of an Exec get to write, and however its output is cut into
-- reads, a listener to each stream gets exactly the bytes that the pipe gave until its first error, in
-- their order, then the mark of the end, and no chunk behind it; the exit code or the error comes last,
-- behind all chunks and only once. A command that did not start has no chunks.
pub ExecCommand-heard :
    (id : ℕ) (exit : Exit) (started : Started) (responses : List Response)
    → ExecCommand id exit started responses
    → (listen stdout responses silence ≡ heard_of started stdout)
      × (listen stderr responses silence ≡ heard_of started stderr)
      × EndsWith (final_of exit started) responses
ExecCommand-heard id exit (with_pipes pid out errs) responses (in_pipes _ _ _ written mixed same) =
    let outs = stream-Chunks id pid stdout out in
    let ends = stream-Chunks id pid stderr errs in
    let last = exec_response id exit in
    let alone = λ (t : StreamType).
      listen-append t written (last ∷ []) silence ∙ one_more t id exit (listen t written silence) in
    (
      ap (λ l. listen stdout l silence) same
          ∙ alone stdout
          ∙ Interleaved-first stdout stderr silence refl mixed ends
          ∙ stream-listen id pid stdout out [],
      ap (λ l. listen stderr l silence) same
          ∙ alone stderr
          ∙ Interleaved-second stderr stdout silence refl mixed outs
          ∙ stream-listen id pid stderr errs [],
      (written, last, same, final_pipes id pid out errs exit, Interleaved-results mixed outs ends),
    )
ExecCommand-heard id exit (with_terminal pid out) responses (in_terminal _ _ same) =
    let outs = stream-Chunks id pid stdout out in
    let written = stream id pid stdout out in
    let last = exec_response id exit in
    let alone = λ (t : StreamType).
      listen-append t written (last ∷ []) silence ∙ one_more t id exit (listen t written silence) in
    (
      ap (λ l. listen stdout l silence) same ∙ alone stdout ∙ stream-listen id pid stdout out [],
      ap (λ l. listen stderr l silence) same
          ∙ alone stderr
          ∙ unheard stderr stdout written silence refl outs,
      (written, last, same, final_terminal id pid out exit, Chunks-results stdout written outs),
    )
ExecCommand-heard id exit (not_started not_exist message) responses (failed_start _ _ same) =
    unfold listen results in
    (
      ap (λ l. listen stdout l silence) same,
      ap (λ l. listen stderr l silence) same,
      ([], _, same, refl, refl),
    )
