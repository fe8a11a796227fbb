-- ===== src/Agent/Guest/Terminal/Order.antt =====
-- The order of the calls that agent/internal/guest/server.go makes on the terminals of its commands.
use yaghan.Base.{
  ℕ, ◌≡◌, ◌≢◌, inl, inr, refl, sym, ap, ◌∙◌, Bool, true, false, List, [], ◌∷◌, Option, none, some,
  nat_beq, Bool-cases, Option-cases, arith,
}
use mathlib.Core.Path.{subst}
use yaghan.Agent.Guest.Terminal.{
  Handle, terminal, pipe, wrote, sized, closed, Procs, set, fresh_proc, set_proc, note_call, Action,
  register, unregister, start_terminal, start_pipes, pump, resize, wait_pipe, pump_loaded,
  resize_loaded, detach_loaded, detach, close_taken, write_stdin, end_stdin, pump_to_stdin,
  resize_term, detach_stdio, at_id, step, run, no_procs,
}
use yaghan.Agent.Guest.Terminal.Held.{
  Fine, is_terminal, shut, clean, note-Fine, grow-Fine, new-Fine, taken-Fine, closed-Fine,
  other_taken-Fine, ids-Fine, shrink-Fine,
}

at_id-Fine :
    (f id : ℕ) (act : ℕ → Procs → Procs) (s : Procs)
    → ((a : ℕ) → Fine f (act a s))
    → Fine f s
    → Fine f (at_id id act s)
unfolding at_id
at_id-Fine f id act s acts h = elim (Option-cases (s.registered id)) [
  | inl none_there ↦ rw (at_id, none_there) h
  | inr (a, there) ↦ rw (at_id, there) (acts a)
]

-- A process's stdin is not a closed terminal.
stdin_open :
    (f a : ℕ) (h : Handle) (s : Procs)
    → Fine f s
    → (s.procs a).stdin ≡ some h
    → is_terminal f h ≡ true
    → ((s.procs a).pty ≡ some f) × (shut f s.calls ≡ false)
stdin_open f a (terminal g) s fine on is =
    let same : g ≡ f = ground (arith, is) in
    let own = fine.paired a (on ∙ ap (λ n. some (terminal n)) same) in (own, (fine.held a own).2)
stdin_open f a (pipe g) s fine on is = cc

write-Fine :
    (f a : ℕ) (h : Handle) (bytes : List ℕ) (s : Procs)
    → Fine f s
    → (s.procs a).stdin ≡ some h
    → Fine f (write_stdin h bytes s)
write-Fine f a h [] s fine on = fine
write-Fine f a h (b ∷ bytes) s fine on =
    note-Fine f (wrote h (b ∷ bytes)) s refl (λ is. (stdin_open f a h s fine on is).1) fine

end-Fine :
    (f a : ℕ) (h : Handle) (p : Option ℕ) (s : Procs)
    → Fine f s
    → (s.procs a).stdin ≡ some h
    → (s.procs a).pty ≡ p
    → Fine f (end_stdin a h p s)
end-Fine f a h (some g) s fine on own = fine
end-Fine f a h none s fine on own =
    let other : is_terminal f h ≡ false = elim (Bool-cases (is_terminal f h)) [
      | inl is ↦ let bad = sym own ∙ (stdin_open f a h s fine on is).0 in cc
      | inr other ↦ other
    ] in
    note-Fine f (closed h) (set_proc a fresh_proc s) other (λ is. cc)
      (shrink-Fine f a fresh_proc s (λ e. cc) (λ e. cc) fine)

write_procs : (h : Handle) (bytes : List ℕ) (s : Procs) → (write_stdin h bytes s).procs ≡ s.procs
write_procs h [] s = refl
write_procs h (b ∷ bytes) s = refl

pump_to_stdin-Fine :
    (f a : ℕ) (bytes : List ℕ) (eof : Bool) (s : Procs)
    → Fine f s
    → Fine f (pump_to_stdin a bytes eof s)
unfolding pump_to_stdin
pump_to_stdin-Fine f a bytes eof s fine = elim (Option-cases (s.procs a).stdin) [
  | inl bare ↦ rw (pump_to_stdin, bare) fine
  | inr (h, on) ↦
      let written = write-Fine f a h bytes s fine on in
      elim (Bool-cases eof) [
        | inl ends ↦
            rw (pump_to_stdin, on, ends)
              (end-Fine f a h (s.procs a).pty (write_stdin h bytes s) written
                (ap (λ q. (q a).stdin) (write_procs h bytes s) ∙ on)
                (ap (λ q. (q a).pty) (write_procs h bytes s)))
        | inr more ↦ rw (pump_to_stdin, on, more) written
      ]
]

resize_term-Fine : (f a cols rows : ℕ) (s : Procs) → Fine f s → Fine f (resize_term a cols rows s)
unfolding resize_term
resize_term-Fine f a cols rows s fine = elim (Option-cases (s.procs a).pty) [
  | inl bare ↦ rw (resize_term, bare) fine
  | inr (g, own) ↦
      rw (resize_term, own)
        (note-Fine f (sized g _ _) s refl
          (λ is. let same : g ≡ f = ground (arith, is) in (fine.held a (own ∙ ap some same)).2)
          fine)
]

detach_stdio-Fine : (f a : ℕ) (s : Procs) → Fine f s → Fine f (detach_stdio a s)
unfolding detach_stdio
detach_stdio-Fine f a s fine = elim (Option-cases (s.procs a).pty) [
  | inl bare ↦ rw (detach_stdio, bare) (shrink-Fine f a fresh_proc s (λ e. cc) (λ e. cc) fine)
  | inr (g, own) ↦ elim (Bool-cases (nat_beq f g)) [
    | inl is ↦
        let same : g ≡ f = ground (arith, is) in
        rw (detach_stdio, own)
          (subst (λ n. Fine f (record (set_proc a fresh_proc s) { taken = set n true s.taken }))
            (sym same) (taken-Fine f a s (own ∙ ap some same) fine))
    | inr differs ↦
        rw (detach_stdio, own)
          (other_taken-Fine f g true (set_proc a fresh_proc s) (λ e. ground (arith, e, differs))
            (shrink-Fine f a fresh_proc s (λ e. cc) (λ e. cc) fine))
  ]
]

start_terminal-Fine : (f a : ℕ) (s : Procs) → Fine f s → Fine f (step (start_terminal a) s)
unfolding step
start_terminal-Fine f a s h = elim (Bool-cases (nat_beq f s.next_file)) [
  | inl is ↦
      let same : f ≡ s.next_file = ground (arith, is) in
      subst (λ g. Fine g (step (start_terminal a) s)) (sym same)
        (new-Fine a s (subst (λ g. Fine g s) same h))
  | inr differs ↦ grow-Fine f (set_proc a _ s) (
      shrink-Fine f a _ s (λ e. let same : s.next_file ≡ f = cc in ground (arith, same, differs))
        (λ e. let same : s.next_file ≡ f = cc in ground (arith, same, differs)) h)
]

close_taken-Fine : (f g : ℕ) (s : Procs) → Fine f s → Fine f (step (close_taken g) s)
unfolding step
close_taken-Fine f g s h = elim (Bool-cases (s.taken g)) [
  | inr free ↦ rw (step, free) h
  | inl own ↦ elim (Bool-cases (nat_beq f g)) [
    | inl is ↦
        let same : g ≡ f = ground (arith, is) in
        rw (step, own)
          (subst
            (λ n.
              Fine f (record (note_call (closed (terminal n)) s) { taken = set n false s.taken }))
            (sym same) (closed-Fine f s (ap s.taken (sym same) ∙ own) h))
    | inr differs ↦
        rw (step, own)
          (other_taken-Fine f g false (note_call (closed (terminal g)) s)
            (λ e. ground (arith, e, differs))
            (note-Fine f (closed (terminal g)) s differs (λ is. cc) h))
  ]
]

step-Fine : (f : ℕ) (action : Action) (s : Procs) → Fine f s → Fine f (step action s)
unfolding step
step-Fine f (register id) s h =
    ids-Fine f _ _ (set_proc s.next_proc fresh_proc s)
      (shrink-Fine f s.next_proc fresh_proc s (λ e. cc) (λ e. cc) h)
step-Fine f (unregister id) s h = ids-Fine f _ s.next_proc s h
step-Fine f (start_terminal a) s h = start_terminal-Fine f a s h
step-Fine f (start_pipes a) s h =
    grow-Fine f (set_proc a _ s) (shrink-Fine f a _ s (λ e. cc) (λ e. cc) h)
step-Fine f (pump id bytes eof) s h =
    at_id-Fine f id (λ a. pump_to_stdin a bytes eof) s (λ a. pump_to_stdin-Fine f a bytes eof s h) h
step-Fine f (resize id cols rows) s h =
    at_id-Fine f id (λ a. resize_term a cols rows) s (λ a. resize_term-Fine f a cols rows s h) h
step-Fine f (pump_loaded a bytes eof) s h = pump_to_stdin-Fine f a bytes eof s h
step-Fine f (resize_loaded a cols rows) s h = resize_term-Fine f a cols rows s h
step-Fine f (detach_loaded a) s h = detach_stdio-Fine f a s h
step-Fine f (wait_pipe g) s h = note-Fine f (closed (pipe g)) s refl (λ is. cc) h
step-Fine f (detach id) s h = at_id-Fine f id detach_stdio s (λ a. detach_stdio-Fine f a s h) h
step-Fine f (close_taken g) s h = close_taken-Fine f g s h

run-Fine : (f : ℕ) (actions : List Action) (s : Procs) → Fine f s → Fine f (run actions s)
unfolding run
run-Fine f [] s h = h
run-Fine f (action ∷ actions) s h = run-Fine f actions (step action s) (step-Fine f action s h)

no_procs-Fine : (f : ℕ) → Fine f no_procs
unfolding clean shut
no_procs-Fine f = record {
  paired = λ a e. cc;
  held = λ a e. absent e;
  only = λ a b e d. absent e;
  old_taken = λ e. cc;
  open_taken = λ e. cc;
  old_shut = λ e. cc;
  ordered = refl;
}
  where
    absent : {A : Type 0} → none ≡ some f → A
    absent e = elim (apart e) [ ]
      where
        apart : none ≢ some f
        apart e = cc

-- Whatever the order of registrations, starts, Stdin, Resize, ends and removals, lookups that are stale and ids shared between
-- connections included, no terminal is written to or resized after it was closed, and none is closed twice.
pub run-clean : (actions : List Action) (f : ℕ) → clean f (run actions no_procs).calls ≡ true
run-clean actions f = (run-Fine f actions no_procs (no_procs-Fine f)).ordered
