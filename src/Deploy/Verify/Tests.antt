-- ===== src/Deploy/Verify/Tests.antt =====
-- A published URL whose indexing is confirmed, or not.
use aeo_geo_optimization.Common.{
  ◌≡◌, ◌≢◌, refl, true, false, none, some, [], ◌∷◌, any, text_eq, arith,
}
use aeo_geo_optimization.Deploy.Publish.Store.{published}
use aeo_geo_optimization.Deploy.Verify.{
  unknown, indexed, UrlRow, Listings, Connectors, retryable, resolved, handle_publish_verify,
  publish_verify, verify_row, confirm, update_indexing_status,
}
use aeo_geo_optimization.Deploy.Verify.Rows.{is_owned_indexed, handle_publish_verify-unowned}
use aeo_geo_optimization.Deploy.Verify.Attempts.{
  after_tries, handle_publish_verify-no_retry, publish_verify-retryable,
}

abbrev owned : UrlRow
owned = record {
  id = 4;
  channel_class = "owned_net";
  published_url = "file:///a";
  publish_status = published;
  indexing_status = unknown;
  first_seen_indexed_at = none;
}

abbrev article : UrlRow
article = record owned { id = 5; channel_class = "web2"; published_url = "https://a" }

abbrev listings : Listings
listings = record { rows = owned ∷ article ∷ []; asked = 0; faults = []; clock = 90 }

-- Every URL is said to be indexed.
abbrev eager : Connectors
eager = record { can_confirm = λ c. true; confirm_indexing = λ c url asked. some true }

abbrev broken : Connectors
broken = record { can_confirm = λ c. true; confirm_indexing = λ c url asked. none }

article_is_indexed : handle_publish_verify eager 5 1 listings ≡ (
  resolved,
  record listings {
    rows =
        owned
        ∷ (record article { indexing_status = indexed; first_seen_indexed_at = some 90 })
        ∷ [];
    asked = 1;
  },
)
unfolding handle_publish_verify text_eq verify_row confirm update_indexing_status
article_is_indexed = refl

handle_publish_verify-unowned_example :
    any is_owned_indexed (handle_publish_verify eager 4 1 listings).1.rows ≡ false
unfolding text_eq
handle_publish_verify-unowned_example = handle_publish_verify-unowned eager 4 1 listings refl

handle_publish_verify-no_retry_example : (handle_publish_verify broken 5 6 listings).0 ≢ retryable
handle_publish_verify-no_retry_example =
    handle_publish_verify-no_retry broken 5 6 listings (omega arith)

publish_verify-retryable_example :
    ((publish_verify broken 5 (after_tries broken 5 20 (record listings { faults = [] }))).0
      ≡ retryable)
    × ((after_tries broken 5 20 (record listings { faults = [] })).rows ≡ listings.rows)
publish_verify-retryable_example =
    publish_verify-retryable broken 5 article listings 20 refl refl (λ asked. refl) refl
