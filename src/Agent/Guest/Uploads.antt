-- ===== src/Agent/Guest/Uploads.antt =====
-- What an upload of agent/internal/guest/server.go leaves in the guest's file system.
use yaghan.Base.{
  ℕ, ◌≡◌, ◌≢◌, ◌⊎◌, refl, sym, ap, ◌∙◌, inl, inr, false, List, Option, none, some, Bool-cases,
  Option-cases,
}
use yaghan.Base.Text.{Text, codes, text_beq, text_beq_iff}
use yaghan.Agent.Guest.{Code, error_status, upload_done}
use yaghan.Agent.Guest.Files.{
  FileError, FileInfo, stat_failed, directory, regular, GuestFiles, wrapped, code_for_file_err,
  or_remove, fill, commit, atomic_write_file, handle_upload,
}

module _ (g : GuestFiles) where
  open g use {
    World, contents, dir_of, stat, create_temp, write_file, close_file, chmod, rename, remove,
    create_temp_name, create_temp_new, create_temp_kept, create_temp_failed, write_kept, written,
    close_kept, chmod_kept, renamed, rename_kept, rename_failed, remove_kept, removed,
  }

  -- Nothing has changed.
  abbrev Unchanged : World → World → Type 0
  Unchanged w v = (j : Text) → contents v j ≡ contents w j

  -- A write that succeeds puts the bytes at the path and changes no other; one that fails changes none.
  abbrev Written : Text → List ℕ → World → World × Option FileError → Type 0
  Written path bytes w r =
      ((r.1 ≡ none)
        × (contents r.0 path ≡ some bytes)
        × ((j : Text) → j ≢ path → contents r.0 j ≡ contents w j))
      ⊎ ((e : FileError) × (r.1 ≡ some e) × Unchanged w r.0)

  module _ (path tmp : Text) (bytes : List ℕ) (w : World) (new : contents w tmp ≡ none)
      (other : tmp ≢ path) where
    -- Only the temporary file may differ.
    abbrev Kept : World → Type 0
    Kept v = (j : Text) → j ≢ tmp → contents v j ≡ contents w j

    clash : (j : Text) → j ≡ tmp → text_beq j tmp ≡ false → ⊥
    clash j e differs = cc ((text_beq_iff j tmp).1 e, differs)

    remove-Unchanged : (v : World) → Kept v → Unchanged w (remove tmp v)
    remove-Unchanged v kept j = elim (Bool-cases (text_beq j tmp)) [
      | inl same ↦
          let e = (text_beq_iff j tmp).0 same in
          ap (contents (remove tmp v)) e ∙ removed tmp v ∙ sym new ∙ ap (contents w) (sym e)
      | inr differs ↦
          let ne = λ (e : j ≡ tmp). clash j e differs in remove_kept tmp j v ne ∙ kept j ne
    ]

    or_remove-Written :
        (context : Text) (r : World × Option FileError) (next : World → World × Option FileError)
        → ((e : FileError) → r.1 ≡ some e → Kept r.0)
        → (r.1 ≡ none → Written path bytes w (next r.0))
        → Written path bytes w (or_remove g tmp context r next)
    unfolding or_remove
    or_remove-Written context (v, some e) next kept go =
        inr (wrapped context e, refl, remove-Unchanged v (kept e refl))
    or_remove-Written context (v, none) next kept go = go refl

    fill-Kept : (v : World) → Kept v → Kept (fill g tmp bytes v).0
    unfolding fill
    fill-Kept v kept j ne =
        let r = write_file tmp bytes v in
        elim (Option-cases r.1) [
          | inl fine ↦ rw (fill, fine) (write_kept tmp j bytes v ne ∙ kept j ne)
          | inr (e, bad) ↦
              rw (fill, bad) (close_kept tmp j r.0 ∙ write_kept tmp j bytes v ne ∙ kept j ne)
        ]

    fill-written :
        (v : World)
        → (fill g tmp bytes v).1 ≡ none
        → contents (fill g tmp bytes v).0 tmp ≡ some bytes
    unfolding fill
    fill-written v h =
        let r = write_file tmp bytes v in
        elim (Option-cases r.1) [
          | inl fine ↦ rw (fill, fine) (written tmp bytes v fine)
          | inr (e, bad) ↦ let lost : (fill g tmp bytes v).1 ≡ some e = rw (fill, bad) refl in cc
        ]

    commit-Written : (v : World) → Kept v → Written path bytes w (commit g tmp path bytes v)
    unfolding commit
    commit-Written v kept =
        let filled = fill g tmp bytes v in
        let shut = close_file tmp filled.0 in
        let moded = chmod tmp shut.0 in
        let moved = rename tmp path moded.0 in
        let kept1 = fill-Kept v kept in
        let kept2 = λ (j : Text) (ne : j ≢ tmp). close_kept tmp j filled.0 ∙ kept1 j ne in
        let kept3 = λ (j : Text) (ne : j ≢ tmp). chmod_kept tmp j shut.0 ∙ kept2 j ne in
        or_remove-Written (codes "write temp") filled _ (λ e h. kept1)
          λ filled_ok.
            or_remove-Written (codes "close temp") shut _ (λ e h. kept2)
              λ shut_ok.
                or_remove-Written (codes "chmod temp") moded _ (λ e h. kept3)
                  λ moded_ok.
                    or_remove-Written (codes "rename to destination") moved _
                      (λ e h j ne. rename_failed tmp path j e moded.0 h ∙ kept3 j ne)
                      λ moved_ok. inl (
                        refl,
                        (renamed tmp path moded.0 other moved_ok).0
                            ∙ chmod_kept tmp tmp shut.0
                            ∙ close_kept tmp tmp filled.0
                            ∙ fill-written v filled_ok,
                        λ j ne. elim (Bool-cases (text_beq j tmp)) [
                          | inl same ↦
                              let e = (text_beq_iff j tmp).0 same in
                              ap (contents moved.0) e
                              ∙ (renamed tmp path moded.0 other moved_ok).1
                              ∙ sym new
                              ∙ ap (contents w) (sym e)
                          | inr differs ↦
                              let apart = λ (e : j ≡ tmp). clash j e differs in
                              rename_kept tmp path j moded.0 apart ne ∙ kept3 j apart
                        ],
                      )

  temp_cases : (r : FileError ⊎ Text) → ((e : FileError) × (r ≡ inl e)) ⊎ ((t : Text) × (r ≡ inr t))
  temp_cases (inl e) = inl (e, refl)
  temp_cases (inr t) = inr (t, refl)

  stat_cases :
      (i : FileInfo)
      → ((e : FileError) × (i ≡ stat_failed e)) ⊎ (((n : ℕ) × (i ≡ regular n)) ⊎ (i ≡ directory))
  stat_cases (stat_failed e) = inl (e, refl)
  stat_cases directory = inr (inr refl)
  stat_cases (regular n) = inr (inl (n, refl))

  atomic_write_file-Written :
      (path : Text) (bytes : List ℕ) (w : World)
      → Written path bytes w (atomic_write_file g path bytes w)
  unfolding atomic_write_file
  atomic_write_file-Written path bytes w = elim (stat_cases (stat w (dir_of path))) [
    | inl (e, is) ↦ rw (atomic_write_file, is) (inr (_, refl, λ j. refl))
    | inr (inl (n, is)) ↦ rw (atomic_write_file, is) (inr (_, refl, λ j. refl))
    | inr (inr is) ↦ elim (temp_cases (create_temp path w).1) [
      | inl (e, bad) ↦
          rw (atomic_write_file, is, bad) (inr (_, refl, λ j. create_temp_failed path j e w bad))
      | inr (tmp, made) ↦
          rw (atomic_write_file, is, made)
            (commit-Written path tmp bytes w (create_temp_new path tmp w made)
              (create_temp_name path tmp w made) (create_temp path w).0
              (λ j ne. create_temp_kept path tmp j w made ne))
    ]
  ]

  -- An upload is all or nothing on a file system with the laws of GuestFiles, where no one else writes
  -- meanwhile and a temporary file can be removed. Where the agent answers that it is done, the destination holds exactly the
  -- bytes sent and every other path, the temporary file's included, holds what it did; where it answers an
  -- error, no path has changed.
  pub handle_upload-all_or_nothing :
      (id : ℕ) (dest : Text) (source : List ℕ) (w : World)
      → (((handle_upload g id dest source w).1.payload ≡ upload_done)
          × (contents (handle_upload g id dest source w).0 dest ≡ some source)
          × ((j : Text)
              → j ≢ dest
              → contents (handle_upload g id dest source w).0 j ≡ contents w j))
        ⊎ ((code : Code) × (message : Text) × ((handle_upload g id dest source w).1.payload
              ≡ error_status code message)
            × ((j : Text) → contents (handle_upload g id dest source w).0 j ≡ contents w j))
  unfolding handle_upload
  handle_upload-all_or_nothing id dest source w = elim (atomic_write_file-Written dest source w) [
    | inl (fine, holds, kept) ↦ inl (rw (handle_upload, fine) refl, holds, kept)
    | inr (e, bad, kept) ↦ inr (code_for_file_err e, e.message, rw (handle_upload, bad) refl, kept)
  ]
