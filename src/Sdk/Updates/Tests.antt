-- ===== src/Sdk/Updates/Tests.antt =====
-- Two updates that name a product twice.
use optara.Common.{◌≡◌, refl, List, [], ◌∷◌}
use optara.Sdk.Updates.{
  OracleUpdate, empty_oracle_update, merge_oracle_updates, IsMerged, merge_oracle_updates-IsMerged,
}

abbrev two_updates : List OracleUpdate
two_updates =
    record empty_oracle_update { spot_updates = 70 ∷ []; spot_product_ids = 1 ∷ 2 ∷ [] }
    ∷ record empty_oracle_update { spot_updates = 80 ∷ []; spot_product_ids = 2 ∷ 3 ∷ [] }
    ∷ []

merged_products : (merge_oracle_updates two_updates).spot_product_ids ≡ 1 ∷ 2 ∷ 3 ∷ []
unfolding merge_oracle_updates
merged_products = refl

merge_oracle_updates-IsMerged_example : IsMerged (merge_oracle_updates two_updates)
merge_oracle_updates-IsMerged_example = merge_oracle_updates-IsMerged two_updates
