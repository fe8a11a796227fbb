-- ===== src/Daemon/Session/Laws.antt =====
-- What Save of daemon/pkg/controller/session.go leaves for Load.
use yaghan.Base.{◌≡◌, ◌⊎◌, inl, inr, refl, ap, ◌∙◌, true, false, [], ◌∷◌, ◌++◌, some, Bool-cases}
use yaghan.Base.Integer.{Integer, print_int, parse_int-line, in_int64}
use yaghan.Daemon.Session.{FileSystem, contents, load_file, load, save}

module _ (fs : FileSystem) where
  open fs use {
    World, file, temporary, make_directory, create_temporary, write_temporary, close_temporary,
    rename, remove_temporary, make_directory_file, create_temporary_file, write_temporary_file,
    close_temporary_file, remove_temporary_file, written, closed, renamed, not_renamed,
  }

  -- Save keeps the file or replaces it as a whole, and only then returns without an error.
  save-file :
      (id : Integer) (w : World)
      → (((save fs id w).1 ≡ false) × (file (save fs id w).0 ≡ file w))
        ⊎ (((save fs id w).1 ≡ true) × (file (save fs id w).0 ≡ contents (print_int id ++ 10 ∷ [])))
  unfolding save
  save-file id w =
      let made = make_directory w in
      let created = create_temporary made.0 in
      let wrote = write_temporary (print_int id ++ 10 ∷ []) created.0 in
      let shut = close_temporary wrote.0 in
      let moved = rename shut.0 in
      let file1 : file made.0 ≡ file w = make_directory_file w in
      let file2 : file created.0 ≡ file w = create_temporary_file made.0 ∙ file1 in
      let file3 : file wrote.0 ≡ file w = write_temporary_file _ created.0 ∙ file2 in
      let file4 : file shut.0 ≡ file w = close_temporary_file wrote.0 ∙ file3 in
      elim (Bool-cases made.1) [
        | inr a ↦ inl (rw a refl, rw a file1)
        | inl a ↦ elim (Bool-cases created.1) [
          | inr b ↦ inl (rw (a, b) refl, rw (a, b) file2)
          | inl b ↦ elim (Bool-cases wrote.1) [
            | inr c ↦ inl (rw (a, b, c) refl, rw (a, b, c) (remove_temporary_file shut.0 ∙ file4))
            | inl c ↦ elim (Bool-cases shut.1) [
              | inr d ↦
                  inl (rw (a, b, c, d) refl, rw (a, b, c, d) (remove_temporary_file shut.0 ∙ file4))
              | inl d ↦ elim (Bool-cases moved.1) [
                | inr e ↦ inl (
                  rw (a, b, c, d) e,
                  rw (a, b, c, d) (remove_temporary_file moved.0 ∙ not_renamed shut.0 e ∙ file4),
                )
                | inl e ↦ inr (
                  rw (a, b, c, d) e,
                  rw (a, b, c, d)
                      (remove_temporary_file moved.0
                        ∙ renamed shut.0 e
                        ∙ ap contents (closed wrote.0 ∙ written _ created.0 c)),
                )
              ]
            ]
          ]
        ]
      ]

  -- After Save of a 64-bit session id, Load gives this id if Save returned no error, and what it gave
  -- before if Save returned an error, whichever call of the file system failed.
  pub load-save :
      (id : Integer) (w : World)
      → in_int64 id ≡ true
      → (((save fs id w).1 ≡ true) × (load fs (save fs id w).0 ≡ some id))
        ⊎ (((save fs id w).1 ≡ false) × (load fs (save fs id w).0 ≡ load fs w))
  unfolding load load_file
  load-save id w fits = elim (save-file id w) [
    | inl (failed, kept) ↦ inr (failed, ap load_file kept)
    | inr (done, put) ↦ inl (done, ap load_file put ∙ parse_int-line id fits)
  ]
