-- ===== src/Delivery/Resolutions/Ownership.antt =====
-- The claims of resolution rows.
use yurucommu_core.Base.{
  ℕ, ◌+◌, ◌<◌, true, false, Option, some, ◌≡◌, inl, inr, refl, sym, ◌∙◌, arith, JsString, lookup,
  Option-cases, affects, affects-some, affects-none, update_where, lookup-update_where_self,
  update_where-skips,
}
use yurucommu_core.Delivery.Jobs.{token_is}
use yurucommu_core.Delivery.Resolutions.{
  Resolution, Resolutions, ResolutionStatus, Claim, busy, claimed, is_terminal, is_claimable,
  is_owned, claimed_by, stale_resolution_ms, retried, put_off, completed,
  claim_delivery_resolution_job, compute_delivery_resolution_id, retry_delivery_resolution_job,
  defer_delivery_resolution_job, complete_delivery_resolution_job,
}

module _ (sha256_hex : JsString → JsString) where
  claim-won :
      (others : Resolutions → Resolutions) (now : ℕ) (token activity_id recipient : JsString)
      (rows : Resolutions) {c : Claim} {rows' : Resolutions}
      → claim_delivery_resolution_job sha256_hex others now token activity_id recipient rows
        ≡ (claimed c, rows')
      → (affects
            (compute_delivery_resolution_id sha256_hex activity_id recipient)
            (is_claimable now)
            (others rows)
          ≡ true)
        × (rows'
            ≡ update_where
                (compute_delivery_resolution_id sha256_hex activity_id recipient)
                (is_claimable now)
                (claimed_by now token)
                (others rows))
        × (c.processing_token ≡ token)
  unfolding claim_delivery_resolution_job
  claim-won others now token activity_id recipient rows {c} {rows'} h = ground arith

  -- The row after a claim that was won, whatever the other workers did between the statements.
  pub claim-row :
      (others : Resolutions → Resolutions) (now : ℕ) (token activity_id recipient : JsString)
      (rows : Resolutions) {c : Claim} {rows' : Resolutions}
      → claim_delivery_resolution_job sha256_hex others now token activity_id recipient rows
        ≡ (claimed c, rows')
      → (row : Resolution) × (lookup
            (compute_delivery_resolution_id sha256_hex activity_id recipient)
            rows'
          ≡ some (claimed_by now token row))
  claim-row others now token activity_id recipient rows {c} {rows'} h =
      elim (Option-cases (lookup id (others rows))) [
        | inl gone ↦
            let x = affects-none id (is_claimable now) (others rows) gone in
            let won = claim-won others now token activity_id recipient rows h in cc
        | inr (row, there) ↦
            let won = claim-won others now token activity_id recipient rows h in
            (row, after row there won.0 won.1)
      ]
    where
      id : JsString
      id = compute_delivery_resolution_id sha256_hex activity_id recipient

      after :
          (row : Resolution)
          → lookup id (others rows) ≡ some row
          → affects id (is_claimable now) (others rows) ≡ true
          → rows' ≡ update_where id (is_claimable now) (claimed_by now token) (others rows)
          → lookup id rows' ≡ some (claimed_by now token row)
      after row there hit e =
          let open_ : is_claimable now row ≡ true =
            sym (affects-some id (is_claimable now) (others rows) there) ∙ hit in
          rw e (
            lookup-update_where_self id (is_claimable now) (claimed_by now token) (others rows)
              there
            ∙ rw open_ refl)

  -- A claim that one worker won at `now` keeps every other worker out for two minutes: until then
  -- a claim of the same row, with any token, is answered "busy" and changes nothing.
  pub claim-excludes :
      (others : Resolutions → Resolutions) (now now' : ℕ)
      (token token' activity_id recipient : JsString) (rows : Resolutions) {c : Claim}
      {rows' : Resolutions}
      → claim_delivery_resolution_job sha256_hex others now token activity_id recipient rows
        ≡ (claimed c, rows')
      → now' < now + stale_resolution_ms
      → claim_delivery_resolution_job sha256_hex (λ r. r) now' token' activity_id recipient rows'
        ≡ (busy 60, rows')
  unfolding claim_delivery_resolution_job claimed_by is_terminal is_claimable
  claim-excludes others now now' token token' activity_id recipient rows {c} {rows'} h soon =
      let r = claim-row others now token activity_id recipient rows h in
      let x =
        affects-some (compute_delivery_resolution_id sha256_hex activity_id recipient)
          (is_claimable now') rows' (r.1) in
      ground (arith, r.1, x)

-- The three ways to end a claim do nothing, and say so, once the row carries another token (the
-- row was swept, or claimed again by a second worker): an expired worker overwrites nothing.
pub lost_claim-no_write :
    (now delay_seconds : ℕ) (c : Claim) (error : JsString) (reason : Option JsString)
    (status : ResolutionStatus) (rows : Resolutions) {row : Resolution}
    → lookup c.id rows ≡ some row
    → token_is c.processing_token row.processing_token ≡ false
    → ((retry_delivery_resolution_job now c error delay_seconds rows).0.owned ≡ false)
      × ((defer_delivery_resolution_job now c error delay_seconds rows).0 ≡ false)
      × ((complete_delivery_resolution_job now c status reason rows).0 ≡ false)
      × ((j : JsString)
          → (lookup j (retry_delivery_resolution_job now c error delay_seconds rows).1
              ≡ lookup j rows)
            × (lookup j (defer_delivery_resolution_job now c error delay_seconds rows).1
                ≡ lookup j rows)
            × (lookup j (complete_delivery_resolution_job now c status reason rows).1
                ≡ lookup j rows))
unfolding retry_delivery_resolution_job defer_delivery_resolution_job
    complete_delivery_resolution_job is_owned
lost_claim-no_write now delay_seconds c error reason status rows there lost =
    let none_owned = affects-some c.id (is_owned c) rows there ∙ lost in
    (
      none_owned,
      none_owned,
      none_owned,
      λ j. (
        update_where-skips c.id j (is_owned c) (retried now c error delay_seconds) rows there lost,
        update_where-skips c.id j (is_owned c) (put_off now error delay_seconds) rows there lost,
        update_where-skips c.id j (is_owned c) (completed now status reason) rows there lost,
      ),
    )
