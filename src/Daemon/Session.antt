-- ===== src/Daemon/Session.antt =====
-- daemon/pkg/controller/session.go: the file that keeps the session id. The calls of the file system
-- are the interface FileSystem, in which only a rename that succeeds changes the file.
pub mod Laws
mod Tests
use yaghan.Base.{ℕ, ◌≡◌, Bool, true, false, List, [], ◌∷◌, ◌++◌, Option, none, some, if◌then◌else◌}
use yaghan.Base.Text.{Text}
use yaghan.Base.Integer.{Integer, nonneg, print_int, parse_int, trim_space}

-- What ReadFile finds.
pub data File : Type 0 where
  missing unreadable : File
  contents : Text → File

-- `temporary` is what the temporary file holds.
pub record FileSystem : Type 1 where
  pub World : Type 0
  pub file : World → File
  pub temporary : World → Text
  pub make_directory : World → World × Bool
  pub create_temporary : World → World × Bool
  pub write_temporary : Text → World → World × Bool
  pub close_temporary : World → World × Bool
  pub rename : World → World × Bool
  pub remove_temporary : World → World
  pub make_directory_file : (w : World) → file (make_directory w).0 ≡ file w
  pub create_temporary_file : (w : World) → file (create_temporary w).0 ≡ file w
  pub write_temporary_file : (text : Text) (w : World) → file (write_temporary text w).0 ≡ file w
  pub close_temporary_file : (w : World) → file (close_temporary w).0 ≡ file w
  pub remove_temporary_file : (w : World) → file (remove_temporary w) ≡ file w
  pub written :
      (text : Text) (w : World)
      → (write_temporary text w).1 ≡ true
      → temporary (write_temporary text w).0 ≡ text
  pub closed : (w : World) → temporary (close_temporary w).0 ≡ temporary w
  pub renamed : (w : World) → (rename w).1 ≡ true → file (rename w).0 ≡ contents (temporary w)
  pub not_renamed : (w : World) → (rename w).1 ≡ false → file (rename w).0 ≡ file w

-- `none` is an error.
unfoldable pub load_file : File → Option Integer
load_file missing = some (nonneg 0)
load_file unreadable = none
load_file (contents text) = parse_int (trim_space text)

-- The session id that connect sends: 0 where the file cannot be read.
unfoldable pub session_id : File → Integer
unfolding load_file
session_id f = elim (load_file f) [ none ↦ nonneg 0 | some id ↦ id ]

module _ (fs : FileSystem) where
  open fs use {
    World, file, make_directory, create_temporary, write_temporary, close_temporary, rename,
    remove_temporary,
  }

  unfoldable pub load : World → Option Integer
  load w = load_file (file w)

  -- The temporary file is removed when Save returns.
  abbrev pub cleaned : World → Bool → World × Bool
  cleaned w b = (remove_temporary w, b)

  unfoldable pub save : Integer → World → World × Bool
  save id w =
      let made = make_directory w in
      let created = create_temporary made.0 in
      let wrote = write_temporary (print_int id ++ 10 ∷ []) created.0 in
      let shut = close_temporary wrote.0 in
      let moved = rename shut.0 in
      if made.1
      then (if created.1
          then (if wrote.1
              then (if shut.1 then cleaned moved.0 moved.1 else cleaned shut.0 false)
              else cleaned (close_temporary wrote.0).0 false)
          else (created.0, false))
      else (made.0, false)
