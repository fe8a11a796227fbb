-- ===== src/Agent/Guest/Terminal/Held.antt =====
-- What holds of one terminal of agent/internal/guest/server.go whatever goroutine runs: who may refer to it.
use yaghan.Base.{
  ◌||◌, ℕ, ◌≡◌, ◌≢◌, ◌+◌, ◌⊎◌, inl, inr, refl, sym, ap, ◌∙◌, Bool, true, false, not, ◌&&◌, List, [],
  ◌∷◌, Option, some, nat_beq, ltb, Bool-cases, arith,
}
use yaghan.Agent.Guest.Terminal.{
  Handle, terminal, pipe, Proc, Call, wrote, sized, closed, Procs, set, fresh_proc, set_proc,
  note_call,
}

abbrev pub is_terminal : ℕ → Handle → Bool
is_terminal f (terminal g) = nat_beq f g
is_terminal f (pipe g) = false

abbrev pub uses : ℕ → Call → Bool
uses f (wrote h bytes) = is_terminal f h
uses f (sized g cols rows) = nat_beq f g
uses f (closed h) = is_terminal f h

abbrev pub shuts : ℕ → Call → Bool
shuts f (wrote h bytes) = false
shuts f (sized g cols rows) = false
shuts f (closed h) = is_terminal f h

unfoldable pub shut : ℕ → List Call → Bool
shut f [] = false
shut f (c ∷ older) = shuts f c || shut f older

-- No use of a terminal behind its close, and no second close.
unfoldable pub clean : ℕ → List Call → Bool
unfolding shut
clean f [] = true
clean f (c ∷ older) = not (uses f c && shut f older) && clean f older

pub record Fine (f : ℕ) (s : Procs) : Type 0 where
  pub paired : (a : ℕ) → (s.procs a).stdin ≡ some (terminal f) → (s.procs a).pty ≡ some f
  pub held :
      (a : ℕ)
      → (s.procs a).pty ≡ some f
      → (ltb f s.next_file ≡ true) × (s.taken f ≡ false) × (shut f s.calls ≡ false)
  pub only : (a b : ℕ) → (s.procs a).pty ≡ some f → (s.procs b).pty ≡ some f → a ≡ b
  pub old_taken : s.taken f ≡ true → ltb f s.next_file ≡ true
  pub open_taken : s.taken f ≡ true → shut f s.calls ≡ false
  pub old_shut : shut f s.calls ≡ true → ltb f s.next_file ≡ true
  pub ordered : clean f s.calls ≡ true

pub set_cases :
    {A : Type 0} (a b : ℕ) (x : A) (f : ℕ → A)
    → ((b ≡ a) × (set a x f b ≡ x)) ⊎ ((b ≢ a) × (set a x f b ≡ f b))
unfolding set
set_cases a b x f = elim (Bool-cases (nat_beq b a)) [
  | inl same ↦ inl (ground (arith, same), rw (set, same) refl)
  | inr other ↦ inr ((λ e. ground (arith, other, e)), rw (set, other) refl)
]

pub set_here : {A : Type 0} (a : ℕ) (x : A) (f : ℕ → A) → set a x f a ≡ x
set_here a x f = elim (set_cases a a x f) [
  | inl (same, is) ↦ is
  | inr (other, is) ↦ elim (other refl) [ ]
]

pub set_there : {A : Type 0} (a b : ℕ) (x : A) (f : ℕ → A) → b ≢ a → set a x f b ≡ f b
set_there a b x f ne = elim (set_cases a b x f) [
  | inl (same, is) ↦ elim (ne same) [ ]
  | inr (other, is) ↦ is
]

-- A call that uses a terminal only where it is open, and closes it not.
pub note-Fine :
    (f : ℕ) (c : Call) (s : Procs)
    → shuts f c ≡ false
    → (uses f c ≡ true → shut f s.calls ≡ false)
    → Fine f s
    → Fine f (note_call c s)
unfolding shut clean
note-Fine f c s keeps may h =
    let same : shut f (c ∷ s.calls) ≡ shut f s.calls = ap (λ b. b || shut f s.calls) keeps in
    let open_still : (uses f c && shut f s.calls) ≡ false = elim (Bool-cases (uses f c)) [
      | inl used ↦ ap (λ b. b && shut f s.calls) used ∙ may used
      | inr unused ↦ ap (λ b. b && shut f s.calls) unused
    ] in
    record {
      paired = h.paired;
      held = λ a on. ((h.held a on).0, (h.held a on).1, same ∙ (h.held a on).2);
      only = h.only;
      old_taken = h.old_taken;
      open_taken = λ e. same ∙ h.open_taken e;
      old_shut = λ e. h.old_shut (sym same ∙ e);
      ordered = ap (λ b. not b && clean f s.calls) open_still ∙ h.ordered;
    }

module _ (f a : ℕ) (p : Proc) (s : Procs) (less : p.pty ≢ some f) where
  pub set_pty : (b : ℕ) → (set a p s.procs b).pty ≡ some f → (b ≢ a) × ((s.procs b).pty ≡ some f)
  set_pty b on = elim (set_cases a b p s.procs) [
    | inl (same, is) ↦ elim (less (sym (ap (λ q. q.pty) is) ∙ on)) [ ]
    | inr (other, is) ↦ (other, sym (ap (λ q. q.pty) is) ∙ on)
  ]

  -- A process that does not hold the terminal now.
  pub shrink-Fine : p.stdin ≢ some (terminal f) → Fine f s → Fine f (set_proc a p s)
  shrink-Fine bare h = record {
    paired = λ b on. elim (set_cases a b p s.procs) [
      | inl (same, is) ↦ elim (bare (sym (ap (λ q. q.stdin) is) ∙ on)) [ ]
      | inr (other, is) ↦ ap (λ q. q.pty) is ∙ h.paired b (sym (ap (λ q. q.stdin) is) ∙ on)
    ];
    held = λ b on. h.held b (set_pty b on).1;
    only = λ b c on on2. h.only b c (set_pty b on).1 (set_pty c on2).1;
    old_taken = h.old_taken;
    open_taken = h.open_taken;
    old_shut = h.old_shut;
    ordered = h.ordered;
  }

-- One more file.
abbrev pub grow : Procs → Procs
grow s = record s { next_file = s.next_file + 1 }

pub grow-Fine : (f : ℕ) (s : Procs) → Fine f s → Fine f (grow s)
grow-Fine f s h = record {
  paired = h.paired;
  held = λ a on. (wider f s.next_file (h.held a on).0, (h.held a on).1, (h.held a on).2);
  only = h.only;
  open_taken = h.open_taken;
  old_taken = λ e. wider f s.next_file (h.old_taken e);
  old_shut = λ e. wider f s.next_file (h.old_shut e);
  ordered = h.ordered;
}
  where
    wider : (f n : ℕ) → ltb f n ≡ true → ltb f (n + 1) ≡ true
    wider f n e = ground (arith, e)

pub not_less : (n : ℕ) → ltb n n ≢ true
not_less n e = ground (arith, e)

-- A terminal that no one has had yet.
pub new-Fine :
    (a : ℕ) (s : Procs)
    → Fine s.next_file s
    → Fine s.next_file (
        grow
          (set_proc a (record { stdin = some (terminal s.next_file); pty = some s.next_file }) s))
new-Fine a s h =
    let g = s.next_file in
    let p : Proc = record { stdin = some (terminal g); pty = some g } in
    let unheld = λ (b : ℕ) (e : (s.procs b).pty ≡ some g). not_less g (h.held b e).0 in
    let owner : (b : ℕ) → (set a p s.procs b).pty ≡ some g → b ≡ a = λ b on.
      elim (set_cases a b p s.procs) [
        | inl (same, is) ↦ same
        | inr (other, is) ↦ elim (unheld b (sym (ap (λ q. q.pty) is) ∙ on)) [ ]
      ] in
    let below : ltb g (g + 1) ≡ true = ground arith in
    record {
      paired = λ b on. elim (set_cases a b p s.procs) [
        | inl (same, is) ↦ ap (λ q. q.pty) is
        | inr (other, is) ↦ elim (unheld b (h.paired b (sym (ap (λ q. q.stdin) is) ∙ on))) [ ]
      ];
      held = λ b on. (
        below,
        elim (Bool-cases (s.taken g)) [
          | inl was ↦ elim (not_less g (h.old_taken was)) [ ]
          | inr not_yet ↦ not_yet
        ],
        elim (Bool-cases (shut g s.calls)) [
          | inl was ↦ elim (not_less g (h.old_shut was)) [ ]
          | inr not_yet ↦ not_yet
        ],
      );
      only = λ b c on on2. owner b on ∙ sym (owner c on2);
      old_taken = λ e. below;
      open_taken = λ e. elim (not_less g (h.old_taken e)) [ ];
      old_shut = λ e. below;
      ordered = h.ordered;
    }

-- The terminal of a process is taken from it.
pub taken-Fine :
    (f a : ℕ) (s : Procs)
    → (s.procs a).pty ≡ some f
    → Fine f s
    → Fine f (record (set_proc a fresh_proc s) { taken = set f true s.taken })
taken-Fine f a s own h =
    let gone = λ (b : ℕ) (on : (set a fresh_proc s.procs b).pty ≡ some f).
      let r = set_pty f a fresh_proc s (λ e. cc) b on in r.0 (h.only b a r.1 own) in
    record {
      paired = (shrink-Fine f a fresh_proc s (λ e. cc) (λ e. cc) h).paired;
      held = λ b on. elim (gone b on) [ ];
      only = λ b c on on2. elim (gone b on) [ ];
      old_taken = λ e. (h.held a own).0;
      open_taken = λ e. (h.held a own).2;
      old_shut = h.old_shut;
      ordered = h.ordered;
    }

-- A terminal that no process holds is closed.
pub closed-Fine :
    (f : ℕ) (s : Procs)
    → s.taken f ≡ true
    → Fine f s
    → Fine f (record (note_call (closed (terminal f)) s) { taken = set f false s.taken })
unfolding clean shut
closed-Fine f s own h =
    let gone = λ (b : ℕ) (on : (s.procs b).pty ≡ some f). apart (sym own ∙ (h.held b on).1) in
    record {
      paired = h.paired;
      held = λ b on. elim (gone b on) [ ];
      only = h.only;
      old_taken = λ e. h.old_taken own;
      open_taken = λ e. elim (apart (sym e ∙ set_here f false s.taken)) [ ];
      old_shut = λ e. h.old_taken own;
      ordered =
          ap (λ b. not (nat_beq f f && b) && clean f s.calls) (h.open_taken own)
          ∙ ap (λ b. not b && clean f s.calls) (and_false (nat_beq f f))
          ∙ h.ordered;
    }
  where
    apart : true ≢ false
    apart e = cc

    and_false : (b : Bool) → (b && false) ≡ false
    and_false true = refl
    and_false false = refl

-- The table of the other terminals' owners does not matter.
pub other_taken-Fine :
    (f g : ℕ) (x : Bool) (s : Procs)
    → f ≢ g
    → Fine f s
    → Fine f (record s { taken = set g x s.taken })
other_taken-Fine f g x s ne h =
    let kept = set_there g f x s.taken ne in
    record {
      paired = h.paired;
      held = λ a on. ((h.held a on).0, kept ∙ (h.held a on).1, (h.held a on).2);
      only = h.only;
      old_taken = λ e. h.old_taken (sym kept ∙ e);
      open_taken = λ e. h.open_taken (sym kept ∙ e);
      old_shut = h.old_shut;
      ordered = h.ordered;
    }

pub ids-Fine :
    (f : ℕ) (ids : ℕ → Option ℕ) (next : ℕ) (s : Procs)
    → Fine f s
    → Fine f (record s { registered = ids; next_proc = next })
ids-Fine f ids next s h = record {
  paired = h.paired;
  held = h.held;
  only = h.only;
  old_taken = h.old_taken;
  open_taken = h.open_taken;
  old_shut = h.old_shut;
  ordered = h.ordered;
}
