-- ===== src/Deploy/Rules.antt =====
-- Who may publish what: src/deploy/eligibility.ts, src/deploy/disclosureGate.ts.
use aeo_geo_optimization.Common.{
  String, Bool, true, false, not, Option, none, some, List, [], ◌∷◌, any, text_eq, if◌then◌else◌,
}
use aeo_geo_optimization.Common.Text.{is_blank}

pub data DeployStatus : Type 0 where
  queued leased published failed unpublished : DeployStatus

abbrev pub is_leased : DeployStatus → Bool
is_leased leased = true
is_leased _ = false

abbrev pub is_queued : DeployStatus → Bool
is_queued queued = true
is_queued _ = false

pub data EligibilityReason : Type 0 where
  gate_not_passed not_approved not_leased : EligibilityReason

pub data EligibilityResult : Type 0 where
  eligible : EligibilityResult
  ineligible : EligibilityReason → EligibilityResult

-- `x == null || x.trim() === ""`
abbrev pub is_missing : Option String → Bool
is_missing none = true
is_missing (some s) = is_blank s

unfoldable pub is_publish_eligible : String → Option String → DeployStatus → EligibilityResult
is_publish_eligible gate_status approved_by queue_status =
    if not (text_eq gate_status "passed")
    then ineligible gate_not_passed
    else (if is_missing approved_by
        then ineligible not_approved
        else (if is_leased queue_status then eligible else ineligible not_leased))

-- The channels that need a disclosure. A channel class is its text.
abbrev external_channels_requiring_disclosure : List String
external_channels_requiring_disclosure = "pr_wire" ∷ "directory" ∷ "web2" ∷ "social" ∷ []

unfoldable pub requires_disclosure : String → Bool
requires_disclosure channel_class =
    any (λ c. text_eq c channel_class) external_channels_requiring_disclosure

-- Whether the disclosure check allows the publication. (Its message for a refusal is left out.)
unfoldable pub assert_disclosure : String → Option String → Bool
assert_disclosure channel_class disclosure_tag =
    if requires_disclosure channel_class then not (is_missing disclosure_tag) else true
