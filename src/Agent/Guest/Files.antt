-- ===== src/Agent/Guest/Files.antt =====
-- agent/internal/guest/server.go: UploadFile, by a temporary file and a rename, and DownloadFile, with the
-- codes of their errors. The file system of the guest is the interface GuestFiles; paths have no byte that
-- a quotation escapes.
use yaghan.Base.{
  ℕ, ◌*◌, ◌≡◌, ◌≢◌, Bool, false, ◌||◌, List, [], ◌∷◌, ◌++◌, Option, none, some, if◌then◌else◌, ltb,
  length, ◌⊎◌, inl, inr, ◌+◌,
}
use yaghan.Base.Text.{Text, codes, has_prefix}
use yaghan.Base.Decimal.{decimal}
use yaghan.Agent.Guest.{
  Code, not_found_code, failed_precondition, resource_exhausted, internal, Response, error_status,
  upload_done, download_done,
}

-- An error of the kernel: its text, which names the path, and whether it is ErrNotExist.
pub record FileError : Type 0 where
  pub message : Text
  pub not_exist : Bool

pub data FileInfo : Type 0 where
  stat_failed : FileError → FileInfo
  directory : FileInfo
  regular : ℕ → FileInfo

-- `contents` is what a path holds. CreateTemp makes a name of its own, with the given path's as a part.
pub record GuestFiles : Type 1 where
  pub World : Type 0
  pub contents : World → Text → Option (List ℕ)
  pub dir_of : Text → Text
  pub stat : World → Text → FileInfo
  pub create_temp : Text → World → World × (FileError ⊎ Text)
  pub write_file : Text → List ℕ → World → World × Option FileError
  pub close_file : Text → World → World × Option FileError
  pub chmod : Text → World → World × Option FileError
  pub rename : Text → Text → World → World × Option FileError
  pub remove : Text → World → World
  pub read_limited : Text → ℕ → World → FileError ⊎ List ℕ
  pub open_failed : World → Text → Option FileError
  pub create_temp_name : (p t : Text) (w : World) → (create_temp p w).1 ≡ inr t → t ≢ p
  pub create_temp_new : (p t : Text) (w : World) → (create_temp p w).1 ≡ inr t → contents w t ≡ none
  pub create_temp_kept :
      (p t j : Text) (w : World)
      → (create_temp p w).1 ≡ inr t
      → j ≢ t
      → contents (create_temp p w).0 j ≡ contents w j
  pub create_temp_failed :
      (p j : Text) (e : FileError) (w : World)
      → (create_temp p w).1 ≡ inl e
      → contents (create_temp p w).0 j ≡ contents w j
  pub write_kept :
      (t j : Text) (bytes : List ℕ) (w : World)
      → j ≢ t
      → contents (write_file t bytes w).0 j ≡ contents w j
  pub written :
      (t : Text) (bytes : List ℕ) (w : World)
      → (write_file t bytes w).1 ≡ none
      → contents (write_file t bytes w).0 t ≡ some bytes
  pub close_kept : (t j : Text) (w : World) → contents (close_file t w).0 j ≡ contents w j
  pub chmod_kept : (t j : Text) (w : World) → contents (chmod t w).0 j ≡ contents w j
  pub renamed :
      (t p : Text) (w : World)
      → t ≢ p
      → (rename t p w).1 ≡ none
      → (contents (rename t p w).0 p ≡ contents w t) × (contents (rename t p w).0 t ≡ none)
  pub rename_kept :
      (t p j : Text) (w : World) → j ≢ t → j ≢ p → contents (rename t p w).0 j ≡ contents w j
  pub rename_failed :
      (t p j : Text) (e : FileError) (w : World)
      → (rename t p w).1 ≡ some e
      → contents (rename t p w).0 j ≡ contents w j
  pub remove_kept : (t j : Text) (w : World) → j ≢ t → contents (remove t w) j ≡ contents w j
  pub removed : (t : Text) (w : World) → contents (remove t w) t ≡ none

-- The prefix of an error that wraps another.
abbrev pub wrapped : Text → FileError → FileError
wrapped context e = record { message = context ++ codes ": " ++ e.message; not_exist = e.not_exist }

abbrev pub fresh_error : Text → FileError
fresh_error message = record { message = message; not_exist = false }

-- strings.Contains
unfoldable pub contains_text : Text → Text → Bool
contains_text [] part = has_prefix [] part
contains_text (c ∷ s) part = has_prefix (c ∷ s) part || contains_text s part

unfoldable pub code_for_file_err : FileError → Code
unfolding contains_text
code_for_file_err e =
    if e.not_exist
    then not_found_code
    else if contains_text e.message (codes "is not a directory")
        || contains_text e.message (codes "is a directory, not a file")
    then failed_precondition
    else if contains_text e.message (codes "too large")
        || contains_text e.message (codes "grew past")
    then resource_exhausted
    else internal

abbrev pub max_download_file_size : ℕ
max_download_file_size = 3 * 1024 * 1024

module _ (g : GuestFiles) where
  open g use {
    World, dir_of, stat, create_temp, write_file, close_file, chmod, rename, remove, read_limited,
    open_failed,
  }

  -- A step on the temporary file: where it fails, the file is removed and the error wrapped.
  unfoldable pub or_remove :
      Text
      → Text
      → World × Option FileError
      → (World → World × Option FileError)
      → World × Option FileError
  or_remove tmp context (w, some e) next = (remove tmp w, some (wrapped context e))
  or_remove tmp context (w, none) next = next w

  -- A failed write closes the file before it is removed.
  unfoldable pub fill : Text → List ℕ → World → World × Option FileError
  fill tmp bytes w =
      let r = write_file tmp bytes w in
      elim r.1 [ none ↦ r | some e ↦ ((close_file tmp r.0).0, some e) ]

  unfoldable pub commit : Text → Text → List ℕ → World → World × Option FileError
  unfolding or_remove fill
  commit tmp path bytes w = or_remove tmp (codes "write temp") (fill tmp bytes w) λ filled.
      or_remove tmp (codes "close temp") (close_file tmp filled) λ shut.
        or_remove tmp (codes "chmod temp") (chmod tmp shut) λ moded.
          or_remove tmp (codes "rename to destination") (rename tmp path moded)
            λ moved. (moved, none)

  unfoldable pub atomic_write_file : Text → List ℕ → World → World × Option FileError
  unfolding commit
  atomic_write_file path bytes w = elim (stat w (dir_of path)) [
    | stat_failed e ↦ (w, some (wrapped (codes "parent directory") e))
    | regular size ↦
        (w, some (fresh_error (codes "parent \"" ++ dir_of path ++ codes "\" is not a directory")))
    | directory ↦
        let made = create_temp path w in
        elim made.1 [
          | inl e ↦ (made.0, some (wrapped (codes "create temp") e))
          | inr tmp ↦ commit tmp path bytes made.0
        ]
  ]

  abbrev error_response : ℕ → FileError → Response
  error_response id e = record { id = id; payload = error_status (code_for_file_err e) e.message }

  unfoldable pub handle_upload : ℕ → Text → List ℕ → World → World × Response
  unfolding atomic_write_file code_for_file_err
  handle_upload id dest source w =
      let r = atomic_write_file dest source w in
      (
        r.0,
        elim r.1 [
          | none ↦ record { id = id; payload = upload_done }
          | some e ↦ error_response id e
        ],
      )

  -- The read stops one byte behind the limit.
  unfoldable pub read_file_capped : Text → ℕ → World → FileError ⊎ List ℕ
  read_file_capped path max w = elim (stat w path) [
    | stat_failed e ↦ inl (wrapped (codes "stat") e)
    | directory ↦ inl (fresh_error (codes "\"" ++ path ++ codes "\" is a directory, not a file"))
    | regular size ↦
        if ltb max size
        then inl (
            fresh_error (
              codes "file too large: "
              ++ decimal size
              ++ codes " bytes (max "
              ++ decimal max
              ++ codes ")"))
        else elim (open_failed w path) [
          | some e ↦ inl (wrapped (codes "open") e)
          | none ↦ elim (read_limited path (max + 1) w) [
            | inl e ↦ inl (wrapped (codes "read") e)
            | inr bytes ↦
                if ltb max (length bytes)
                then inl (
                    fresh_error
                      (codes "file grew past " ++ decimal max ++ codes " bytes during read"))
                else inr bytes
          ]
        ]
  ]

  unfoldable pub handle_download : ℕ → Text → World → Response
  unfolding read_file_capped code_for_file_err
  handle_download id source w = elim (read_file_capped source max_download_file_size w) [
    | inl e ↦ error_response id e
    | inr bytes ↦ record { id = id; payload = download_done bytes }
  ]
