-- ===== src/Agent/Guest/Tests.antt =====
-- Runs of the guest agent.
use yaghan.Base.{
  ℕ, ◌≡◌, ◌≢◌, ◌⊎◌, ◌∙◌, refl, sym, ap, inl, inr, true, false, List, [], ◌∷◌, ◌++◌, Option, none,
  some, if◌then◌else◌, length, take, Bool-cases, Option-cases, arith,
}
use yaghan.Base.Text.{Text, codes, text_beq, text_beq_iff}
use yaghan.Base.Integer.{nonneg}
use yaghan.Agent.Guest.{
  Code, stdout, stderr, Response, error_status, upload_done, Chunk, chunk_response, stream, exited,
  exec_response, Interleaved, no_more, from_first, from_second, with_pipes, in_pipes,
}
use yaghan.Agent.Guest.Files.{FileError, directory, regular, GuestFiles, fresh_error, handle_upload}
use yaghan.Agent.Guest.Uploads.{handle_upload-all_or_nothing}
use yaghan.Agent.Guest.Streams.{ExecCommand-heard, listen, silence, final_of, EndsWith, read_bytes}

-- A file system in memory: what each path holds.
abbrev Memory : Type 0
Memory = Text → Option (List ℕ)

unfoldable put : Text → Option (List ℕ) → Memory → Memory
put t value w j = if text_beq j t then value else w j

put-same : (t : Text) (value : Option (List ℕ)) (w : Memory) → put t value w t ≡ value
unfolding put
put-same t value w = rw (put, (text_beq_iff t t).1 refl) refl

put-other : (t j : Text) (value : Option (List ℕ)) (w : Memory) → j ≢ t → put t value w j ≡ w j
unfolding put
put-other t j value w ne = elim (Bool-cases (text_beq j t)) [
  | inl same ↦ elim (ne ((text_beq_iff j t).0 same)) [ ]
  | inr differs ↦ rw (put, differs) refl
]

abbrev taken_error : FileError
taken_error = fresh_error (codes "file exists")

unfoldable temp : Text → Memory → Memory × (FileError ⊎ Text)
temp p w = elim (w (46 ∷ p)) [
  | some bytes ↦ (w, inl taken_error)
  | none ↦ (put (46 ∷ p) (some []) w, inr (46 ∷ p))
]

temp_made :
    (p t : Text) (w : Memory)
    → (temp p w).1 ≡ inr t
    → (t ≡ 46 ∷ p) × (w (46 ∷ p) ≡ none) × ((temp p w).0 ≡ put (46 ∷ p) (some []) w)
unfolding temp
temp_made p t w made = elim (Option-cases (w (46 ∷ p))) [
  | inl free ↦
      let e : inr (46 ∷ p) ≡ inr t = rw (temp, free) at made in (cc, free, rw (temp, free) refl)
  | inr (bytes, taken) ↦ let bad : inl taken_error ≡ inr t = rw (temp, taken) at made in cc
]

temp_failed : (p : Text) (e : FileError) (w : Memory) → (temp p w).1 ≡ inl e → (temp p w).0 ≡ w
unfolding temp
temp_failed p e w failed = elim (Option-cases (w (46 ∷ p))) [
  | inl free ↦ let bad : inr (46 ∷ p) ≡ inl e = rw (temp, free) at failed in cc
  | inr (bytes, taken) ↦ rw (temp, taken) refl
]

longer : (p : Text) → 46 ∷ p ≢ p
longer p e = let long = ap length e in omega arith

moved_always : {e : FileError} {A : Type 0} {x y : A} → none ≡ some e → x ≡ y
moved_always bad = cc

abbrev memory_files : GuestFiles
memory_files = record {
  World = Memory;
  contents = λ w j. w j;
  dir_of = λ p. [];
  stat = λ w p. elim (w p) [ none ↦ directory | some bytes ↦ regular (length bytes) ];
  create_temp = temp;
  write_file = λ t bytes w. (put t (some bytes) w, none);
  close_file = λ t w. (w, none);
  chmod = λ t w. (w, none);
  rename = λ t p w. (put t none (put p (w t) w), none);
  remove = λ t w. put t none w;
  read_limited = λ p n w. elim (w p) [
    | none ↦ inl (fresh_error (codes "no such file"))
    | some bytes ↦ inr (take n bytes)
  ];
  open_failed = λ w p. none;
  create_temp_name = λ p t w made e. longer p (sym (temp_made p t w made).0 ∙ e);
  create_temp_new = λ p t w made. ap w (temp_made p t w made).0 ∙ (temp_made p t w made).1;
  create_temp_kept = λ p t j w made ne.
      ap (λ v. v j) (temp_made p t w made).2
      ∙ put-other (46 ∷ p) j (some []) w (λ e. ne (e ∙ sym (temp_made p t w made).0));
  create_temp_failed = λ p j e w failed. ap (λ v. v j) (temp_failed p e w failed);
  write_kept = λ t j bytes w ne. put-other t j (some bytes) w ne;
  written = λ t bytes w fine. put-same t (some bytes) w;
  close_kept = λ t j w. refl;
  chmod_kept = λ t j w. refl;
  renamed = λ t p w ne fine. (
    put-other t p none (put p (w t) w) (λ e. ne (sym e)) ∙ put-same p (w t) w,
    put-same t none (put p (w t) w),
  );
  rename_kept =
      λ t p j w ne apart. put-other t j none (put p (w t) w) ne ∙ put-other p j (w t) w apart;
  rename_failed = λ t p j e w bad. moved_always bad;
  remove_kept = λ t j w ne. put-other t j none w ne;
  removed = λ t w. put-same t none w;
}

abbrev start : Memory
start = put (codes "a") (some (1 ∷ [])) (λ j. none)

-- A file is replaced.
handle_upload-all_or_nothing_example :
    (((handle_upload memory_files 7 (codes "a") (2 ∷ 3 ∷ []) start).1.payload ≡ upload_done)
      × ((handle_upload memory_files 7 (codes "a") (2 ∷ 3 ∷ []) start).0 (codes "a")
          ≡ some (2 ∷ 3 ∷ []))
      × ((j : Text)
          → j ≢ codes "a"
          → (handle_upload memory_files 7 (codes "a") (2 ∷ 3 ∷ []) start).0 j ≡ start j))
    ⊎ ((code : Code) × (message : Text) × ((handle_upload memory_files 7
            (codes "a")
            (2 ∷ 3 ∷ [])
            start).1.payload
          ≡ error_status code message)
        × ((j : Text)
            → (handle_upload memory_files 7 (codes "a") (2 ∷ 3 ∷ []) start).0 j ≡ start j))
handle_upload-all_or_nothing_example =
    handle_upload-all_or_nothing memory_files 7 (codes "a") (2 ∷ 3 ∷ []) start

-- The upload of the example is done.
upload_is_done :
    (handle_upload memory_files 7 (codes "a") (2 ∷ 3 ∷ []) start).1.payload ≡ upload_done
unfolding handle_upload temp put text_beq
upload_is_done = refl

abbrev outs : List Chunk
outs = record { bytes = 104 ∷ []; failed = false } ∷ record { bytes = 105 ∷ []; failed = true } ∷ []

abbrev errs : List Chunk
errs = record { bytes = 33 ∷ []; failed = true } ∷ []

-- The end of stdout comes before what stderr has.
abbrev mixed : List Response
mixed =
    chunk_response 7 42 stdout (104 ∷ []) false
    ∷ chunk_response 7 42 stderr (33 ∷ []) false
    ∷ chunk_response 7 42 stdout (105 ∷ []) false
    ∷ chunk_response 7 42 stdout [] true
    ∷ chunk_response 7 42 stderr [] true
    ∷ []

mixed-Interleaved : Interleaved (stream 7 42 stdout outs) (stream 7 42 stderr errs) mixed
unfolding stream
mixed-Interleaved =
    from_first _ (from_second _ (from_first _ (from_first _ (from_second _ no_more))))

ExecCommand-heard_example :
    (listen stdout (mixed ++ exec_response 7 (exited (nonneg 0)) ∷ []) silence
      ≡ record { bytes = 104 ∷ 105 ∷ []; ended = true; late = false })
    × (listen stderr (mixed ++ exec_response 7 (exited (nonneg 0)) ∷ []) silence
        ≡ record { bytes = 33 ∷ []; ended = true; late = false })
    × EndsWith
        (final_of (exited (nonneg 0)) (with_pipes 42 outs errs))
        (mixed ++ exec_response 7 (exited (nonneg 0)) ∷ [])
unfolding read_bytes
ExecCommand-heard_example =
    ExecCommand-heard 7 (exited (nonneg 0)) (with_pipes 42 outs errs)
      (mixed ++ exec_response 7 (exited (nonneg 0)) ∷ [])
      (in_pipes 42 outs errs mixed mixed-Interleaved refl)
