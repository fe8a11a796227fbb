-- ===== src/Agent/Guest/Terminal.antt =====
-- agent/internal/guest/server.go: the running processes of the agent, with Stdin, Resize and the end of a
-- command. Each action is what one goroutine does under the lock of a process. Files are numbered as they
-- are opened.
pub mod Held
pub mod Order
mod Tests
use yaghan.Base.{
  ℕ, ◌≡◌, ◌+◌, ◌%◌, ◌^◌, Bool, true, false, List, [], ◌∷◌, Option, none, some, if◌then◌else◌,
  nat_beq,
}

-- The master of a terminal, or the pipe of a command's stdin.
pub data Handle : Type 0 where
  terminal pipe : ℕ → Handle

pub record Proc : Type 0 where
  pub stdin : Option Handle
  pub pty : Option ℕ

-- The calls of the kernel.
pub data Call : Type 0 where
  wrote : Handle → List ℕ → Call
  sized : ℕ → ℕ → ℕ → Call
  closed : Handle → Call

-- The map of ids, the processes it points to, the terminals that a goroutine has taken to close, and the
-- calls, the last one first.
pub record Procs : Type 0 where
  pub registered : ℕ → Option ℕ
  pub procs : ℕ → Proc
  pub taken : ℕ → Bool
  pub calls : List Call
  pub next_proc : ℕ
  pub next_file : ℕ

unfoldable pub set : {A : Type 0} → ℕ → A → (ℕ → A) → ℕ → A
set a x f b = if nat_beq b a then x else f b

abbrev pub fresh_proc : Proc
fresh_proc = record { stdin = none; pty = none }

abbrev pub set_proc : ℕ → Proc → Procs → Procs
set_proc a p s = record s { procs = set a p s.procs }

abbrev pub note_call : Call → Procs → Procs
note_call c s = record s { calls = c ∷ s.calls }

-- The actions `loaded` are those of a goroutine that has looked the process up before.
pub data Action : Type 0 where
  register unregister : ℕ → Action
  start_terminal start_pipes : ℕ → Action
  pump : ℕ → List ℕ → Bool → Action
  resize : ℕ → ℕ → ℕ → Action
  pump_loaded : ℕ → List ℕ → Bool → Action
  resize_loaded : ℕ → ℕ → ℕ → Action
  detach_loaded : ℕ → Action
  wait_pipe : ℕ → Action
  detach close_taken : ℕ → Action

abbrev pub write_stdin : Handle → List ℕ → Procs → Procs
write_stdin h [] s = s
write_stdin h (b ∷ bytes) s = note_call (wrote h (b ∷ bytes)) s

-- At the end of stdin: a terminal ignores it, a pipe is closed.
abbrev pub end_stdin : ℕ → Handle → Option ℕ → Procs → Procs
end_stdin a h (some f) s = s
end_stdin a h none s = note_call (closed h) (set_proc a (record { stdin = none; pty = none }) s)

unfoldable pub pump_to_stdin : ℕ → List ℕ → Bool → Procs → Procs
pump_to_stdin a bytes eof s = elim (s.procs a).stdin [
  | none ↦ s
  | some h ↦
      let written = write_stdin h bytes s in
      if eof then end_stdin a h (s.procs a).pty written else written
]

unfoldable pub resize_term : ℕ → ℕ → ℕ → Procs → Procs
resize_term a cols rows s = elim (s.procs a).pty [
  | none ↦ s
  | some f ↦ note_call (sized f (cols % 2 ^ 16) (rows % 2 ^ 16)) s
]

abbrev pub take : Option ℕ → (ℕ → Bool) → ℕ → Bool
take none taken = taken
take (some f) taken = set f true taken

unfoldable pub detach_stdio : ℕ → Procs → Procs
detach_stdio a s = record (set_proc a (record { stdin = none; pty = none }) s) {
  taken = take (s.procs a).pty s.taken;
}

unfoldable pub at_id : ℕ → (ℕ → Procs → Procs) → Procs → Procs
at_id id act s = elim (s.registered id) [ none ↦ s | some a ↦ act a s ]

unfoldable pub step : Action → Procs → Procs
unfolding pump_to_stdin resize_term detach_stdio at_id
step (register id) s = record (set_proc s.next_proc fresh_proc s) {
  registered = set id (some s.next_proc) s.registered;
  next_proc = s.next_proc + 1;
}
step (unregister id) s = record s { registered = set id none s.registered }
step (start_terminal a) s =
    record (set_proc a (record { stdin = some (terminal s.next_file); pty = some s.next_file }) s) {
      next_file = s.next_file + 1;
    }
step (start_pipes a) s =
    record (set_proc a (record { stdin = some (pipe s.next_file); pty = none }) s) {
      next_file = s.next_file + 1;
    }
step (pump id bytes eof) s = at_id id (λ a. pump_to_stdin a bytes eof) s
step (resize id cols rows) s = at_id id (λ a. resize_term a cols rows) s
step (pump_loaded a bytes eof) s = pump_to_stdin a bytes eof s
step (resize_loaded a cols rows) s = resize_term a cols rows s
step (detach_loaded a) s = detach_stdio a s
step (wait_pipe f) s = note_call (closed (pipe f)) s
step (detach id) s = at_id id detach_stdio s
step (close_taken f) s =
    if s.taken f
    then record (note_call (closed (terminal f)) s) { taken = set f false s.taken }
    else s

unfoldable pub run : List Action → Procs → Procs
unfolding step
run [] s = s
run (a ∷ actions) s = run actions (step a s)

abbrev pub no_procs : Procs
no_procs = record {
  registered = λ id. none;
  procs = λ a. fresh_proc;
  taken = λ f. false;
  calls = [];
  next_proc = 0;
  next_file = 0;
}
