-- ===== src/Sdk/Spot/Tests.antt =====
-- Three products, one of them on signed packages that cannot be fetched; packages of four signers.
use mathlib.Core.List.{Perm}
use optara.Common.{
  get_key, set_key, ℕ, Bool, true, false, none, some, List, [], ◌∷◌, ltb, ◌≡◌, refl,
}
use optara.Sdk.Spot.{
  Answer, answered, error, WantedProduct, spot_updates_by_product, composite_updates,
}
use optara.Sdk.Spot.Proofs.{all_ids, spot_updates_by_product-Perm}
use optara.Sdk.Spot.Packages.{GatewayPackage, pick, median, fetch_latest}
use optara.Sdk.Spot.Packages.Proofs.{IsPicked, pick-IsPicked}

abbrev is_named : ℕ → Bool
is_named f = ltb f 100

abbrev if_named : ℕ → Bool → Answer
if_named f true = error "down"
if_named f false = answered (f ∷ [])

-- Pyth's feeds answer; the first of the feeds asked for tells the provider.
abbrev source : List ℕ → Answer
source [] = answered []
source (f ∷ feeds) = if_named f (is_named f)

abbrev products : List WantedProduct
products =
    record { product_id = 1; feed_ids = 500 ∷ 501 ∷ [] }
    ∷ record { product_id = 2; feed_ids = 7 ∷ [] }
    ∷ record { product_id = 3; feed_ids = 502 ∷ 501 ∷ [] }
    ∷ []

one_outage :
    spot_updates_by_product is_named source products
    ≡ record { updates = 500 ∷ []; product_ids = 1 ∷ 3 ∷ []; failed = (2, "down") ∷ [] }
unfolding spot_updates_by_product set_key get_key
one_outage = refl

no_price_node :
    composite_updates is_named (some source) none (500 ∷ 7 ∷ [])
    ≡ error "named feeds requested but no price node is configured"
unfolding composite_updates
no_price_node = refl

spot_updates_by_product-Perm_example :
    Perm (all_ids (spot_updates_by_product is_named source products)) (1 ∷ 2 ∷ 3 ∷ [])
spot_updates_by_product-Perm_example = spot_updates_by_product-Perm is_named source products

abbrev from_signer : ℕ → ℕ → GatewayPackage
from_signer t s = record { timestamp = t; signer = s; data_feed_id = 7; value = s }

abbrev packages_of_feed : List GatewayPackage
packages_of_feed =
    from_signer 10 1
    ∷ from_signer 20 1
    ∷ from_signer 20 1
    ∷ from_signer 10 2
    ∷ from_signer 20 9
    ∷ from_signer 10 3
    ∷ []

-- Timestamp 20 has one authorized signer, counted once.
earlier_quorum :
    pick (1 ∷ 2 ∷ 3 ∷ []) 2 packages_of_feed ≡ some (from_signer 10 1 ∷ from_signer 10 2 ∷ [])
unfolding pick set_key get_key
earlier_quorum = refl

even_median : median (9 ∷ 4 ∷ 5 ∷ 1 ∷ []) ≡ 4
unfolding median
even_median = refl

second_gateway : fetch_latest (none ∷ some [] ∷ []) ≡ some []
unfolding fetch_latest
second_gateway = refl

pick-IsPicked_example :
    IsPicked (1 ∷ 2 ∷ 3 ∷ []) 2 packages_of_feed (pick (1 ∷ 2 ∷ 3 ∷ []) 2 packages_of_feed)
pick-IsPicked_example = pick-IsPicked (1 ∷ 2 ∷ 3 ∷ []) 2 packages_of_feed
