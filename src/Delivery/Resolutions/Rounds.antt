-- ===== src/Delivery/Resolutions/Rounds.antt =====
-- The rounds of claim and retry for a recipient whose fetch fails.
use yurucommu_core.Base.{
  ℕ, zero, suc, ◌+◌, ◌*◌, true, none, some, JsString, str_eq_refl, ◌≡◌, ◌∙◌, refl, arith, lookup,
  affects-some, update_where, apply_if, lookup-update_where_self,
}
use yurucommu_core.Delivery.Jobs.{token_is}
use yurucommu_core.Delivery.Resolutions.{
  Resolution, Resolutions, Claim, ClaimResult, claimed, is_terminal, failed, is_claimable, is_owned,
  claimed_by, retried, compute_delivery_resolution_id, claim_delivery_resolution_job,
  retry_delivery_resolution_job, max_resolve_attempts,
}

module _ (sha256_hex : JsString → JsString) (token activity_id recipient error : JsString) where
  abbrev id : JsString
  id = compute_delivery_resolution_id sha256_hex activity_id recipient

  -- One wakeup whose fetch fails: the row is claimed and, if it was, retried a minute later.
  unfoldable failing_round : ℕ → Resolutions → Resolutions
  failing_round now rows =
      settled
        (claim_delivery_resolution_job sha256_hex (λ r. r) now token activity_id recipient rows)
    where
      settled : ClaimResult × Resolutions → Resolutions
      settled (claimed c, rows') = (retry_delivery_resolution_job now c error 60 rows').1
      settled (_, rows') = rows'

  unfoldable pub failing_rounds : ℕ → ℕ → Resolutions → Resolutions
  unfolding failing_round
  failing_rounds zero now rows = rows
  failing_rounds (suc n) now rows = failing_rounds n (now + 60 * 1000) (failing_round now rows)

  claim-succeeds :
      (now : ℕ) (rows : Resolutions) {row : Resolution}
      → lookup id rows ≡ some row
      → is_claimable now row ≡ true
      → claim_delivery_resolution_job sha256_hex (λ r. r) now token activity_id recipient rows ≡ (
        claimed (record { id = id; processing_token = token; attempts = row.attempts }),
        update_where id (is_claimable now) (claimed_by now token) rows,
      )
  unfolding claim_delivery_resolution_job is_claimable is_terminal
  claim-succeeds now rows {row} there open_ =
      ground (arith, affects-some id (is_claimable now) rows there)

  -- After a round the row is the retried one.
  round-row :
      (now : ℕ) (rows : Resolutions) {row : Resolution}
      → lookup id rows ≡ some row
      → is_claimable now row ≡ true
      → lookup id (failing_round now rows)
        ≡ some (
            retried now
              (record { id = id; processing_token = token; attempts = row.attempts })
              error
              60
              (claimed_by now token row))
  unfolding failing_round retry_delivery_resolution_job is_owned claimed_by token_is
  round-row now rows {row} there open_ =
      rw (claim-succeeds now rows there open_, failing_round)
        (lookup-update_where_self id (is_owned c) (retried now c error 60) taken held ∙ owned)
    where
      c : Claim
      c = record { id = id; processing_token = token; attempts = row.attempts }

      owned :
          some (apply_if (is_owned c) (retried now c error 60) (claimed_by now token row))
          ≡ some (retried now c error 60 (claimed_by now token row))
      owned = ground (arith, str_eq_refl token)

      taken : Resolutions
      taken = update_where id (is_claimable now) (claimed_by now token) rows

      held : lookup id taken ≡ some (claimed_by now token row)
      held =
          lookup-update_where_self id (is_claimable now) (claimed_by now token) rows there
          ∙ rw open_ refl

  -- A row that may be claimed and has `n + 1` attempts left is failed after `n + 1` failing rounds,
  -- a minute apart, with all attempts used: retrying a recipient ends.
  pub failing_rounds-failed :
      (n now : ℕ) (rows : Resolutions) {row : Resolution}
      → lookup id rows ≡ some row
      → is_claimable now row ≡ true
      → row.attempts + suc n ≡ max_resolve_attempts
      → (last : Resolution) × (lookup id (failing_rounds (suc n) now rows) ≡ some last)
        × (last.status ≡ failed)
        × (last.attempts ≡ max_resolve_attempts)
        × (last.processing_token ≡ none)
  unfolding failing_rounds retried is_claimable claimed_by
  failing_rounds-failed zero now rows {row} there open_ left =
      let r = round-row now rows there open_ in (_, r, ground arith, omega arith, refl)
  failing_rounds-failed (suc n) now rows {row} there open_ left =
      failing_rounds-failed n (now + 60 * 1000) (failing_round now rows)
        (round-row now rows there open_) (ground arith) (omega arith)
