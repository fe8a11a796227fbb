-- ===== src/Service.antt =====
-- api-server/pkg/service/sandbox.go and errors.go: the calls that change the phase of a sandbox. A
-- request has passed the validator; errors are their gRPC codes.
pub mod Nodes
pub mod Transitions
pub mod Creation
use yaghan.Base.{ℕ, List, [], Option, none, some}
use yaghan.Base.Text.{Text}
use yaghan.Proto.{
  Phase, phase_running, phase_pausing, phase_paused, phase_resuming, phase_snapshotting,
  phase_deleting, phase_deleted, StartSnapshotInput, Sandbox, status_phase,
}
use yaghan.Db.Errors.{
  Code, invalid_argument, not_found_code, already_exists_code, aborted, failed_precondition,
  internal, unknown, Error, already_exists, not_found, version_conflict, invalid_phase_transition,
  invalid_list_options, invalid_continuation_token, typed, other_error, Outcome, ok, err,
}
use yaghan.Db.Dynamo.{Client}
use yaghan.Db.Sandbox.{SandboxAttr, sandbox_id, Codec, get, update, with_version}

pub data Response : Type 0 where
  response : Sandbox → Response
  status_error : Code → Response

-- An error that carries a status of its own, with any code but Unknown, keeps it.
unfoldable pub db_err_to_status : Error → Code
db_err_to_status (typed unknown) = internal
db_err_to_status (typed code) = code
db_err_to_status already_exists = already_exists_code
db_err_to_status not_found = not_found_code
db_err_to_status version_conflict = aborted
db_err_to_status invalid_phase_transition = failed_precondition
db_err_to_status invalid_list_options = invalid_argument
db_err_to_status invalid_continuation_token = invalid_argument
db_err_to_status other_error = internal

unfoldable pub respond : Outcome Sandbox → Response
respond (ok sb) = response sb
respond (err e) = status_error (db_err_to_status e)

-- The sandbox that transitionPhase writes back.
unfoldable pub transitioned : ℕ → Phase → Phase → Sandbox → Sandbox
transitioned version target_status target_intent sb = record (with_version version sb) {
  status = some (record { phase = target_status; message = [] });
  intent = some (record { phase = target_intent; start_snapshot = none });
}

-- The sandbox that StartSnapshot writes back: the intent returns to the saved phase.
unfoldable pub snapshotting : ℕ → Text → Sandbox → Sandbox
snapshotting version description sb = record (with_version version sb) {
  status = some (record { phase = phase_snapshotting; message = [] });
  intent = some (record {
    phase = status_phase sb;
    start_snapshot = some (record { description = description });
  });
}

module _ (c : Codec) (db : Client SandboxAttr sandbox_id) where
  open db use {Table}

  -- Read by id, change, write back.
  unfoldable pub read_modify_write : (Sandbox → Sandbox) → ℕ → Text → Table → Table × Response
  read_modify_write change now id t = elim (get c db id t) [
    | err e ↦ (t, status_error (db_err_to_status e))
    | ok sb ↦ let r = update c db now (change sb) t in (r.0, respond r.1)
  ]

  unfoldable pub transition_phase : ℕ → Text → ℕ → Phase → Phase → Table → Table × Response
  transition_phase now id version target_status target_intent t =
      read_modify_write (transitioned version target_status target_intent) now id t

  unfoldable pub pause_sandbox : ℕ → Text → ℕ → Table → Table × Response
  pause_sandbox now id version t = transition_phase now id version phase_pausing phase_paused t

  unfoldable pub resume_sandbox : ℕ → Text → ℕ → Table → Table × Response
  resume_sandbox now id version t = transition_phase now id version phase_resuming phase_running t

  unfoldable pub delete_sandbox : ℕ → Text → ℕ → Table → Table × Response
  delete_sandbox now id version t = transition_phase now id version phase_deleting phase_deleted t

  unfoldable pub start_snapshot : ℕ → Text → ℕ → Text → Table → Table × Response
  start_snapshot now id version description t =
      read_modify_write (snapshotting version description) now id t
