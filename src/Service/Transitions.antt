-- ===== src/Service/Transitions.antt =====
-- api-server/pkg/service/sandbox.go: when a call changes the phase of a sandbox.
use yaghan.Base.{ℕ, ◌≡◌, ◌⊎◌, inl, inr, refl, some}
use yaghan.Base.Text.{Text}
use yaghan.Proto.{phase_running, phase_paused, Phase, Sandbox, status_phase}
use yaghan.Db.Errors.{Outcome, ok, err}
use yaghan.Db.Dynamo.{Client, member_n}
use yaghan.Db.Sandbox.{
  SandboxAttr, sandbox_id, sandbox_version, SandboxItem, Codec, get, update, updated, update_digest,
  update_condition,
}
use yaghan.Db.Sandbox.Create.{Unchanged, Fault}
use yaghan.Db.Sandbox.Update.{
  PriorPhase, InPhase, UpdateOutcome, update-UpdateOutcome, update_condition-holds,
}
use yaghan.Service.{read_modify_write, transition_phase, transitioned, snapshotting, start_snapshot}

module _ (c : Codec) (db : Client SandboxAttr sandbox_id) where
  open db use {Table, row}

  -- The row of the sandbox is there, at its version and in a phase that its status may follow.
  abbrev pub Ready : Table → Sandbox → Type 0
  Ready t sb =
      (old : SandboxItem) × (row t sb.metadata.id ≡ some old)
      × (old sandbox_version ≡ some (member_n sb.metadata.version))
      × PriorPhase (status_phase sb) old

  Fault-Ready :
      (t u : Table) (now : ℕ) (sb : Sandbox)
      → Fault c db t u
          (updated now sb)
          (update_digest c now sb)
          (update_condition sb.metadata.version (status_phase sb))
      → Unchanged c db t u ⊎ Ready t sb
  Fault-Ready t u now sb (Fault.undigested _ same) = inl same
  Fault-Ready t u now sb (Fault.unencoded _ _ _ same) = inl same
  Fault-Ready t u now sb (Fault.unknown _ _ _ _ _ (inl same)) = inl same
  Fault-Ready t u now sb (Fault.unknown _ _ _ _ _ (inr (h, w))) =
      let (old, there, version, phase, prior) =
        update_condition-holds sb.metadata.version (status_phase sb) (row t sb.metadata.id) h in
      inr (old, there, version, prior)
  Fault-Ready t u now sb (Fault.unread _ same) = inl same
  Fault-Ready t u now sb (Fault.no_digest _ _ _ same) = inl same

  update-Ready :
      (t : Table) (now : ℕ) (sb : Sandbox) → Unchanged c db t (update c db now sb t).0 ⊎ Ready t sb
  update-Ready t now sb = go (update-UpdateOutcome c db t now sb)
    where
      go :
          UpdateOutcome c db t now sb (update c db now sb t)
          → Unchanged c db t (update c db now sb t).0 ⊎ Ready t sb
      go (UpdateOutcome.replaced d item old k made there w f prior wrote e) =
          inr (old, there, w, prior)
      go (UpdateOutcome.repeated _ _ _ _ _ _ same _) = inl same
      go (UpdateOutcome.missing _ same _) = inl same
      go (UpdateOutcome.conflicted _ _ _ _ _ _ same _) = inl same
      go (UpdateOutcome.broken f e) = Fault-Ready t (update c db now sb t).0 now sb f

  read_modify_write-Ready :
      (change : Sandbox → Sandbox) (now : ℕ) (id : Text) (t : Table)
      → Unchanged c db t (read_modify_write c db change now id t).0
        ⊎ ((sb : Sandbox) × (get c db id t ≡ ok sb) × Ready t (change sb))
  unfolding read_modify_write
  read_modify_write-Ready change now id t = go (get c db id t) refl
    where
      go :
          (o : Outcome Sandbox)
          → get c db id t ≡ o
          → Unchanged c db t (read_modify_write c db change now id t).0
            ⊎ ((sb : Sandbox) × (get c db id t ≡ ok sb) × Ready t (change sb))
      go (err e) f = rw (f, read_modify_write) (inl (λ j. refl))
      go (ok sb) f = elim (update-Ready t now (change sb)) [
        | inl same ↦ inl (rw (f, read_modify_write) same)
        | inr ready ↦ inr (sb, f, ready)
      ]

  -- A call that moves a sandbox to another phase changes a row only if the row of the sandbox that it
  -- read is at the version that the caller names and, for PAUSING, in the phase RUNNING, for RESUMING in
  -- PAUSED, for SNAPSHOTTING in one of both, and for the others in any. Otherwise, and also if
  -- the read fails, every row stays as it is.
  pub transition_phase-Ready :
      (now : ℕ) (id : Text) (version : ℕ) (target_status target_intent : Phase) (t : Table)
      → Unchanged c db t (transition_phase c db now id version target_status target_intent t).0
        ⊎ ((sb : Sandbox) × (get c db id t ≡ ok sb)
            × ((old : SandboxItem) × (row t sb.metadata.id ≡ some old)
                × (old sandbox_version ≡ some (member_n version))
                × PriorPhase target_status old))
  unfolding transition_phase transitioned
  transition_phase-Ready now id version target_status target_intent t =
      read_modify_write-Ready (transitioned version target_status target_intent) now id t

  -- StartSnapshot changes a row only if the row of the sandbox that it read is at the version that the
  -- caller names and is RUNNING or PAUSED.
  pub start_snapshot-Ready :
      (now : ℕ) (id : Text) (version : ℕ) (description : Text) (t : Table)
      → Unchanged c db t (start_snapshot c db now id version description t).0
        ⊎ ((sb : Sandbox) × (get c db id t ≡ ok sb)
            × ((old : SandboxItem) × (row t sb.metadata.id ≡ some old)
                × (old sandbox_version ≡ some (member_n version))
                × (InPhase phase_running old ⊎ InPhase phase_paused old)))
  unfolding start_snapshot snapshotting
  start_snapshot-Ready now id version description t =
      read_modify_write-Ready (snapshotting version description) now id t
