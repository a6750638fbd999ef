-- ===== src/Transport/Errors/Secrecy.antt =====
-- What a client learns of an error: internal/infra/connect/error.go.
use tolo_tenant_management.Prelude.{
  ◌≡◌, refl, Bool, true, false, List, [], ◌∷◌, String, All, if◌then◌else◌, inl, inr, Bool-cases,
  arith,
}
use tolo_tenant_management.Failure
use tolo_tenant_management.Failure.{Sentinel, Err, is}
use tolo_tenant_management.Transport.Errors.{
  Code, ClientError, Reported, internal, internal_error, for_error, err_internal,
}

-- no test of `errors.Is` tells two errors apart
abbrev pub IsAlike : Err → Err → Type 0
IsAlike d e = (s : Sentinel) → is d s ≡ is e s

internal_error_alike :
    (d e : Err)
    → IsAlike d e
    → ((internal_error d).0.code ≡ (internal_error e).0.code)
      × ((internal_error d).0.message ≡ (internal_error e).0.message)
unfolding internal_error
internal_error_alike d e h = ground (arith, h Failure.canceled, h Failure.deadline_exceeded)

-- Two errors that no test of errors.Is tells apart give a client the same code and the same message,
-- whatever table a service has: no text, no SQLSTATE, no constraint name and no wrapping of an error
-- reaches a client.
pub errors_alike_look_alike :
    (table : List ClientError) (d e : Err)
    → IsAlike d e
    → ((for_error table d).0.code ≡ (for_error table e).0.code)
      × ((for_error table d).0.message ≡ (for_error table e).0.message)
unfolding for_error
errors_alike_look_alike [] d e h = internal_error_alike d e h
errors_alike_look_alike (c ∷ cs) d e h = elim (Bool-cases (is e c.target)) [
  | inl found ↦ rw (h c.target, found) (refl, refl)
  | inr missing ↦ rw (h c.target, missing) (errors_alike_look_alike cs d e h)
]

abbrev pub is_internal : Code → Bool
is_internal internal = true
is_internal _ = false

-- what a report of an error is to be
abbrev pub IsReport : Err → Reported → Type 0
IsReport e (c, logged) =
    (logged ≡ (if is_internal c.code then e ∷ [] else []))
    × (is_internal c.code ≡ true → (c.message ≡ "internal error") × (c.cause ≡ err_internal))
    × (is_internal c.code ≡ false → c.cause ≡ e)

internal_error-IsReport : (e : Err) → IsReport e (internal_error e)
unfolding internal_error
internal_error-IsReport e = elim (Bool-cases (is e Failure.canceled)) [
  | inl c ↦ rw c (refl, λ h. cc, λ h. refl)
  | inr c ↦ elim (Bool-cases (is e Failure.deadline_exceeded)) [
    | inl d ↦ rw (c, d) (refl, λ h. cc, λ h. refl)
    | inr d ↦ rw (c, d) (refl, λ h. (refl, refl), λ h. cc)
  ]
]

client_error-IsReport :
    (e : Err) (code : Code) (message : String)
    → is_internal code ≡ false
    → IsReport e (record { code = code; message = message; cause = e }, [])
client_error-IsReport e code message h = rw h (refl, λ k. cc, λ k. refl)

-- With a table that answers no entry as internal, an error is logged exactly when the client is
-- answered that it is internal; the client then has the fixed message, and the error that travels on
-- is the fixed one too. Any other answer carries the error itself as its cause, and is not logged.
pub reported_once :
    (table : List ClientError)
    → All (λ c. is_internal c.code ≡ false) table
    → (e : Err) → IsReport e (for_error table e)
unfolding for_error
reported_once [] h e = internal_error-IsReport e
reported_once (c ∷ cs) h e = elim (Bool-cases (is e c.target)) [
  | inl found ↦ rw found (client_error-IsReport e c.code c.message h.0)
  | inr missing ↦ rw missing (reported_once cs h.1 e)
]
