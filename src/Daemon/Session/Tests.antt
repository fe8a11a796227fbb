-- ===== src/Daemon/Session/Tests.antt =====
-- A file system held in memory: the file, the temporary file, and whether a rename succeeds.
use yaghan.Base.{◌≡◌, ◌⊎◌, refl, Bool, true, false, [], some, if◌then◌else◌}
use yaghan.Base.Text.{Text}
use yaghan.Base.Integer.{negative}
use yaghan.Daemon.Session.{File, missing, contents, FileSystem, load, save}
use yaghan.Daemon.Session.Laws.{load-save}

abbrev Disk : Type 0
Disk = File × Text × Bool

abbrev move : Disk → Disk × Bool
move d = if d.2 then ((contents d.1, [], d.2), true) else (d, false)

move-done : (d : Disk) → (move d).1 ≡ true → (move d).0.0 ≡ contents d.1
move-done (f, t, true) h = refl
move-done (f, t, false) h = cc

move-failed : (d : Disk) → (move d).1 ≡ false → (move d).0.0 ≡ d.0
move-failed (f, t, true) h = cc
move-failed (f, t, false) h = refl

abbrev disk : FileSystem
disk = record {
  World = Disk;
  file = λ d. d.0;
  temporary = λ d. d.1;
  make_directory = λ d. (d, true);
  create_temporary = λ d. ((d.0, [], d.2), true);
  write_temporary = λ text d. ((d.0, text, d.2), true);
  close_temporary = λ d. (d, true);
  rename = move;
  remove_temporary = λ d. (d.0, [], d.2);
  make_directory_file = λ d. refl;
  create_temporary_file = λ d. refl;
  write_temporary_file = λ text d. refl;
  close_temporary_file = λ d. refl;
  remove_temporary_file = λ d. refl;
  written = λ text d h. refl;
  closed = λ d. refl;
  renamed = move-done;
  not_renamed = move-failed;
}

abbrev blank : Disk
blank = (missing, [], true)

loads_what_it_saved :
    (((save disk (negative 6) blank).1 ≡ true)
      × (load disk (save disk (negative 6) blank).0 ≡ some (negative 6)))
    ⊎ (((save disk (negative 6) blank).1 ≡ false)
        × (load disk (save disk (negative 6) blank).0 ≡ load disk blank))
loads_what_it_saved = load-save disk (negative 6) blank refl
