-- ===== src/Deploy/Dispatch/Claims.antt =====
-- Which rows a claim of src/db/repo.ts takes, and which it leaves in the queue.
use mathlib.Core.List.{Memᴰ}
use aeo_geo_optimization.Common.{
  ℕ, ◌≡◌, refl, String, true, false, Option, none, some, List, keep, any, text_eq, if◌then◌else◌,
  take, compare, Bool-cases, inl, inr, arith, All, All-map, All-weaken, All-keep, All-keep_test,
  All-both, All-take,
}
use aeo_geo_optimization.Common.Sort.{sort, All-sort}
use aeo_geo_optimization.Deploy.Throttle.{ThrottlePolicy, ThrottleState}
use aeo_geo_optimization.Deploy.Rules.{is_queued}
use aeo_geo_optimization.Deploy.Queue.{
  QueueRow, ClaimRequest, Claim, is_claimable, lease, lease_rows, claim_limit, claim_under,
  claim_next_deploy_batch_for_customer,
}

-- A row that waits in `rows` was there before.
abbrev pub QueuedIn : List QueueRow → List QueueRow → Type 0
QueuedIn before rows = All (λ (r : QueueRow). is_queued r.status ≡ true → Memᴰ r before) rows

-- A claimed row: the lease of a claimable row of the queue.
abbrev pub Leased : String → Option String → List QueueRow → QueueRow → Type 0
Leased channel_class customer_id before x =
    (r : QueueRow) × (now : ℕ) × Memᴰ r before
    × (is_claimable channel_class customer_id r ≡ true)
    × (x ≡ lease now r)

claimable-queued :
    (c : String) (customer_id : Option String) (r : QueueRow)
    → is_claimable c customer_id r ≡ true
    → is_queued r.status ≡ true
claimable-queued c customer_id r h = ground (arith, h)

lease_rows-QueuedIn :
    (before : List QueueRow) (now : ℕ) (chosen rows : List QueueRow)
    → QueuedIn before rows
    → QueuedIn before (lease_rows now chosen rows)
lease_rows-QueuedIn before now chosen rows h =
    All-map (λ (r : QueueRow). is_queued r.status ≡ true → Memᴰ r before)
      (λ r. if any (λ (c : QueueRow). text_eq c.queue_id r.queue_id) chosen then lease now r else r)
      rows (All-weaken _ _ rows (λ r there. leased_or_there r there) h)
  where
    leased_or_there :
        (r : QueueRow)
        → (is_queued r.status ≡ true → Memᴰ r before)
        → is_queued
            (if any (λ (c : QueueRow). text_eq c.queue_id r.queue_id) chosen
              then lease now r
              else r).status
          ≡ true
        → Memᴰ
            (if any (λ (c : QueueRow). text_eq c.queue_id r.queue_id) chosen
              then lease now r
              else r)
            before
    leased_or_there r there =
        elim (any (λ (c : QueueRow). text_eq c.queue_id r.queue_id) chosen)
          as (λ b.
            is_queued (if b then lease now r else r).status ≡ true
            → Memᴰ (if b then lease now r else r) before) [
              | true ↦ λ h. ground (arith, h)
              | false ↦ there
            ]

-- What a claim does to the queue.
pub record TakesWaiting (channel_class : String) (customer_id : Option String)
    (before : List QueueRow) (claim : Claim) : Type 0 where
  pub rows : QueuedIn before claim.rows
  pub claimed : All (Leased channel_class customer_id before) claim.claimed

module _ (channel_class : String) (customer_id : Option String) (req : ClaimRequest)
    (before rows : List QueueRow) (h : QueuedIn before rows) where
  claim_under-TakesWaiting :
      (p : ThrottlePolicy) (s : Option ThrottleState)
      → TakesWaiting channel_class customer_id before
          (claim_under p channel_class customer_id req rows s)
  unfolding claim_under
  claim_under-TakesWaiting p s =
      let by_age = λ (a : QueueRow) (b : QueueRow). compare a.created_at b.created_at in
      let quota = claim_limit p s req.limit req.window_start req.now in
      let waiting = keep (is_claimable channel_class customer_id) rows in
      let chosen : List QueueRow = take quota (sort by_age waiting) in
      record {
        rows = lease_rows-QueuedIn before req.now chosen rows h;
        claimed = All-map (Leased channel_class customer_id before) (lease req.now) chosen (
            All-take _ quota (sort by_age waiting) (
              All-sort _ by_age waiting (
                All-weaken _ _ waiting
                  (λ r (there, claimable). (
                    r,
                    req.now,
                    there (claimable-queued channel_class customer_id r claimable),
                    claimable,
                    refl,
                  ))
                  (All-both _ _ waiting (All-keep _ _ rows h)
                    (All-keep_test (is_claimable channel_class customer_id) rows)))));
      }

  pub claim-TakesWaiting :
      (p : Option ThrottlePolicy) (s : Option ThrottleState)
      → TakesWaiting channel_class customer_id before
          (claim_next_deploy_batch_for_customer p channel_class customer_id req rows s)
  unfolding claim_next_deploy_batch_for_customer
  claim-TakesWaiting none s = record { rows = h; claimed = tt }
  claim-TakesWaiting (some p) s = elim (Bool-cases p.enabled) [
    | inl on ↦ rw on (claim_under-TakesWaiting p s)
    | inr off ↦ rw off record { rows = h; claimed = tt }
  ]
