-- ===== src/Session/Completion.antt =====
-- Commits and the closing of table operations: what is known of their outcome.
use exasol_gateway_sdk.Errors.{
  Error, outcome_unknown, transport_error, outcome_of_request, underlying,
}
use exasol_gateway_sdk.Base.{
  ℕ, List, [], Bool, true, false, not, ◌==◌, ◌≡◌, refl, ap, sym, ◌∙◌, Bool-cases, inl, inr, Result,
}
use exasol_gateway_sdk.Base.Outcome.{ok, err, fault}
use exasol_gateway_sdk.Base.State.{and_then, refused_lem, passed_lem}
use exasol_gateway_sdk.Frame.{Frame}
use exasol_gateway_sdk.Frame.Message.{MessageType}
use exasol_gateway_sdk.Frame.Message
use exasol_gateway_sdk.Session.{Arrow, TableOperation}
use exasol_gateway_sdk.Session.Codec.{append_u64}
use exasol_gateway_sdk.Session.Request.{Connection, Impl, rethrown, uncertain_outcome, request}
use exasol_gateway_sdk.Session.Writes.{commit, close_operation}
use exasol_gateway_sdk.Session.Closed.{request-closed, request-exchange, session_closed}

abbrev pub is_transport : Error → Bool
is_transport e = underlying e.category == underlying transport_error

abbrev pub unknown_outcome : ℕ → Error
unknown_outcome id = record { category = outcome_unknown; message = outcome_of_request id }

uncertain_outcome_transport :
    (id : ℕ) (e : Error) → is_transport e ≡ true → uncertain_outcome true id e ≡ unknown_outcome id
unfolding uncertain_outcome
uncertain_outcome_transport id e h = rw h refl

uncertain_outcome_definite :
    (id : ℕ) (e : Error) → is_transport (uncertain_outcome true id e) ≡ false
unfolding uncertain_outcome underlying
uncertain_outcome_definite id e =
    elim (Bool-cases (underlying e.category == underlying transport_error)) [
      | inl lost ↦ rw lost refl
      | inr other ↦ rw other other
    ]

module _ {C : Type 0} where
  rethrown_definite :
      (id : ℕ) (r : Result Frame × Impl C) (e : Error)
      → (rethrown (uncertain_outcome true id) r).0 ≡ err e
      → is_transport e ≡ false
  rethrown_definite id (ok a, s) e h = cc
  rethrown_definite id (fault, s) e h = cc
  rethrown_definite id (err d, s) e h =
      ap is_transport (sym (thrown (uncertain_outcome true id d) h))
      ∙ uncertain_outcome_definite id d
    where
      thrown : (x : Error) → ◌≡◌ {A = Result Frame} (err x) (err e) → x ≡ e
      thrown x same = cc

  -- An action that cannot throw after the request.
  only_error {ℓ} :
      {A : Type ℓ} (r : Result Frame × Impl C) (value : A) (e : Error)
      → (and_then r (λ _ s. (ok value, s))).0 ≡ err e
      → r.0 ≡ err e
  only_error (ok a, s) value e h = cc
  only_error (fault, s) value e h = cc
  only_error (err d, s) value e h = cc

  module _ (net : Connection C) where
    request_definite :
        (type : MessageType) (payload : List ℕ) (expected : MessageType) (s : Impl C) (e : Error)
        → (request net type payload expected true s).0 ≡ err e
        → is_transport e ≡ false
    unfolding underlying
    request_definite type payload expected s e thrown = elim (Bool-cases s.closed) [
      | inl closed ↦ ap is_transport (
          sym (
            same (
              sym (
                ap (λ (r : Result Frame × Impl C). r.0)
                  (request-closed net type payload expected true s closed))
              ∙ thrown)))
      | inr opened ↦ rethrown_definite s.next_request_id _ e (
          sym (
            ap (λ (r : Result Frame × Impl C). r.0)
              (request-exchange net type payload expected true s opened))
          ∙ thrown)
    ]
      where
        same : ◌≡◌ {A = Result Frame} (err session_closed) (err e) → session_closed ≡ e
        same h = cc

    module _ {Schema RecordBatch : Type 0} (arrow : Arrow Schema RecordBatch) where
      -- A commit never throws an error of the category `TRANSPORT_ERROR`, whatever the session, the
      -- connection and the server do.
      pub commit_definite :
          (s : Impl C) (e : Error) → (commit net arrow s).0 ≡ err e → is_transport e ≡ false
      unfolding commit
      commit_definite s e thrown =
          request_definite Message.commit [] Message.ok s e (only_error _ tt e thrown)

      -- The closing of a table operation never throws an error of the category `TRANSPORT_ERROR`,
      -- whatever the session, the connection and the server do.
      pub close_operation_definite :
          (operation : TableOperation Schema) (s : Impl C) (e : Error)
          → (close_operation net arrow operation s).0 ≡ err e
          → is_transport e ≡ false
      unfolding close_operation append_u64 underlying
      close_operation_definite operation s e thrown = elim (Bool-cases (not (operation.id == 0))) [
        | inl opened ↦ request_definite Message.close_operation _ Message.ok s e (
            only_error _ _ e (
              sym (
                ap (λ (r : Result (TableOperation Schema) × Impl C). r.0)
                  (passed_lem (not (operation.id == 0)) _ s _ opened))
              ∙ thrown))
        | inr shut ↦ ap is_transport (
            sym (
              same (
                sym (
                  ap (λ (r : Result (TableOperation Schema) × Impl C). r.0)
                    (refused_lem (not (operation.id == 0)) _ s _ shut))
                ∙ thrown)))
      ]
        where
          same : {x : Error} → ◌≡◌ {A = Result (TableOperation Schema)} (err x) (err e) → x ≡ e
          same h = cc
