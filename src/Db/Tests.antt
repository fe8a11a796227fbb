-- ===== src/Db/Tests.antt =====
-- Runs of the persistence layer on a table in memory.
mod Simulation
use yaghan.Base.{
  ℕ, ◌≡◌, ◌≢◌, refl, ap, ◌⊎◌, inl, inr, ◌↔◌, Bool, true, false, List, [], ◌∷◌, ◌++◌, Option, none,
  some,
}
use yaghan.Base.Text.{codes, Text, text_beq, contains_byte}
use yaghan.Proto.{
  Phase, phase_pending, phase_running, phase_pausing, phase_paused, phase_snapshotting, phase_name,
  Sandbox,
}
use yaghan.Service.{read_modify_write, transitioned, transition_phase, start_snapshot}
use yaghan.Service.Creation.{placed, create_sandbox, Sourced, create_sandbox-Sourced}
use yaghan.Service.Transitions.{transition_phase-Ready, start_snapshot-Ready}
use yaghan.Db.Errors.{Outcome, ok, err, other_error}
use yaghan.Db.Dynamo.{AttributeValue, Client, attribute, member_s, member_n}
use yaghan.Db.Sandbox.{
  sandbox_from_attrs, get, SandboxItem, sandbox_version, item_of, created, updated, create, update,
  get, content_digest, create_digest, update_digest, to_item, canonical, create_result,
  update_result, update_condition, required_prior_phases, gsi_namespace_phase_key,
}
use yaghan.Db.Sandbox.Create.{Unchanged, CreateOutcome, create-CreateOutcome}
use yaghan.Db.Sandbox.Update.{InPhase, UpdateOutcome, update-UpdateOutcome}
use yaghan.Db.Sandbox.Versions.{get-create, create_retry_keeps, no_lost_update}
use yaghan.Db.Sandbox.Index.{ListOptions, order_newest_first, select_index}
use yaghan.Db.Sandbox.Index.Match.{Matches, select_index-Matches}
use yaghan.Db.Tests.Simulation.{memory, codec, small, empty_table}

-- A sandbox as it is first sent, and the table after it was created.
abbrev draft : Sandbox
draft = small 7 8 0 none none (some (b'n' ∷ [])) phase_running

abbrev stored_draft : Sandbox
stored_draft = created 100 draft

abbrev one_row : Client.Table memory
one_row = (create codec memory 100 draft empty_table).0

get-create_example :
    get codec memory draft.metadata.id (create codec memory 100 draft empty_table).0
    ≡ ok stored_draft
unfolding create create_digest content_digest canonical to_item item_of create_result
get-create_example = get-create codec memory empty_table 100 draft stored_draft refl refl (λ e. cc)

create_retry_keeps_example :
    let retry = create codec memory 200 (record draft { node = some (b'm' ∷ []) }) one_row in
    Unchanged codec memory one_row retry.0
    × ((retry.1 ≡ ok (created 200 (record draft { node = some (b'm' ∷ []) })))
        ⊎ (retry.1 ≡ err other_error))
unfolding create create_digest content_digest canonical to_item item_of create_result
create_retry_keeps_example =
    create_retry_keeps codec memory empty_table 100 200 draft stored_draft (some (b'm' ∷ [])) refl
      refl

create-CreateOutcome_example :
    CreateOutcome codec memory empty_table 100 draft (create codec memory 100 draft empty_table)
create-CreateOutcome_example = create-CreateOutcome codec memory empty_table 100 draft

-- The stored sandbox with a new target phase.
abbrev pausing : Sandbox
pausing = small 7 8 1 (some 100) (some 100) (some (b'n' ∷ [])) phase_pausing

abbrev running_again : Sandbox
running_again = small 7 8 1 (some 100) (some 100) (some (b'k' ∷ [])) phase_running

update-UpdateOutcome_example :
    UpdateOutcome codec memory one_row 150 pausing (update codec memory 150 pausing one_row)
update-UpdateOutcome_example = update-UpdateOutcome codec memory one_row 150 pausing

abbrev version : Option SandboxItem → Option AttributeValue
version row = attribute sandbox_version row

no_lost_update_example :
    let u = (update codec memory 150 pausing one_row).0 in
    Unchanged codec memory u (update codec memory 160 running_again u).0
unfolding update update_digest create create_digest content_digest canonical to_item item_of
    create_result update_result update_condition required_prior_phases text_beq phase_name
no_lost_update_example =
    no_lost_update codec memory one_row 150 160 pausing running_again (updated 150 pausing) refl
      refl refl
      (λ same. let bad : some (member_n 2) ≡ some (member_n 1) = ap version (same (7 ∷ [])) in cc)

abbrev by_phase : ListOptions
by_phase = record {
  namespace = 8 ∷ [];
  node_id = [];
  status_phase = phase_running;
  sort_order = order_newest_first;
  page_size = 10;
}

-- The pause changes the row of the running sandbox.
pauses :
    version
      ((transition_phase codec memory 150 (7 ∷ []) 1 phase_pausing phase_paused one_row).0 (7 ∷ []))
    ≡ some (member_n 2)
unfolding transition_phase get create create_digest content_digest canonical to_item item_of
    create_result update update_digest update_result update_condition required_prior_phases text_beq
    phase_name read_modify_write sandbox_from_attrs transitioned
pauses = refl

transition_phase-Ready_example :
    Unchanged codec memory one_row
      (transition_phase codec memory 150 (7 ∷ []) 1 phase_pausing phase_paused one_row).0
    ⊎ ((sb : Sandbox) × (get codec memory (7 ∷ []) one_row ≡ ok sb)
        × ((old : SandboxItem) × (Client.row memory one_row sb.metadata.id ≡ some old)
            × (old sandbox_version ≡ some (member_n 1))
            × InPhase phase_running old))
transition_phase-Ready_example =
    transition_phase-Ready codec memory 150 (7 ∷ []) 1 phase_pausing phase_paused one_row

create_sandbox-Sourced_example :
    Unchanged codec memory empty_table
      (create_sandbox codec memory
        (λ id. err other_error)
        (λ sb. placed (b'n' ∷ []))
        100
        draft
        empty_table).0
    ⊎ ((Client.row memory empty_table draft.metadata.id ≡ none)
        × Sourced codec memory (λ id. err other_error) (λ sb. placed (b'n' ∷ [])) draft)
create_sandbox-Sourced_example =
    create_sandbox-Sourced codec memory (λ id. err other_error) (λ sb. placed (b'n' ∷ [])) 100 draft
      empty_table
