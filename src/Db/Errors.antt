-- ===== src/Db/Errors.antt =====
-- api-server/pkg/db/errors.go, the sandbox package's own sentinel, and the errors that handlers give a
-- gRPC status of their own. Messages are left out.

-- The gRPC codes that the program uses.
pub data Code : Type 0 where
  invalid_argument not_found_code already_exists_code aborted failed_precondition : Code
  internal unimplemented unavailable unknown : Code

pub data Error : Type 0 where
  already_exists not_found version_conflict invalid_phase_transition : Error
  invalid_list_options invalid_continuation_token : Error
  typed : Code → Error
  other_error : Error

-- What a database call gives.
pub data Outcome {ℓ} (A : Type ℓ) : Type ℓ where
  ok : A → Outcome A
  err : Error → Outcome A
