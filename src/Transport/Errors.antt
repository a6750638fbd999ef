-- ===== src/Transport/Errors.antt =====
-- internal/infra/connect/error.go. The record that InternalError writes to the log is the last part
-- of the answer.
pub mod Retry
pub mod Secrecy
use tolo_tenant_management.Prelude.{String, List, [], ◌∷◌, if◌then◌else◌}
use tolo_tenant_management.Failure
use tolo_tenant_management.Failure.{Sentinel, Err, opaque, is, Result, ok, err}
use tolo_tenant_management.Exec.{World, Exec}

-- the codes of `connectrpc.Code` that the program answers
pub data Code : Type 0 where
  canceled deadline_exceeded internal invalid_argument already_exists not_found : Code
  failed_precondition permission_denied unauthenticated aborted : Code

-- `connectrpc.Error`: the code and the message go to the client, the cause does not.
pub record ConnectError : Type 0 where
  pub code : Code
  pub message : String
  pub cause : Err

-- an error for the client, and the errors that were logged
abbrev pub Reported : Type 0
Reported = ConnectError × List Err

abbrev pub err_internal : Err
err_internal = opaque "internal error"

unfoldable pub internal_error : Err → Reported
internal_error e =
    if is e Failure.canceled
    then (record { code = canceled; message = "canceled"; cause = e }, [])
    else if is e Failure.deadline_exceeded
    then (record { code = deadline_exceeded; message = "deadline exceeded"; cause = e }, [])
    else (record { code = internal; message = "internal error"; cause = err_internal }, e ∷ [])

pub record ClientError : Type 0 where
  pub target : Sentinel
  pub code : Code
  pub message : String

abbrev pub told : Sentinel → Code → String → ClientError
told target code message = record { target = target; code = code; message = message }

-- `ClientErrors.For`
unfoldable pub for_error : List ClientError → Err → Reported
unfolding internal_error
for_error [] e = internal_error e
for_error (c ∷ cs) e =
    let rest = for_error cs e in
    if is e c.target then (record { code = c.code; message = c.message; cause = e }, []) else rest

-- what a Connect handler returns
pub data Response {ℓ} (A : Type ℓ) : Type ℓ where
  answered : A → Response A
  refused : Reported → Response A

module _ {A B : Type 0} (client_errors : List ClientError) (proto : A → B) where
  abbrev pub response : Result A → Response B
  response (ok a) = answered (proto a)
  response (err e) = refused (for_error client_errors e)

  -- a handler: the use case, and its value or its error for the client
  abbrev pub respond : Exec A → World → Response B × World
  respond m w = let (r, w') = m w in (response r, w')
