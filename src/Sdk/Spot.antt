-- ===== src/Sdk/Spot.antt =====
-- sdk/src/pyth.ts: `spotUpdatesByProduct`, and `CompositeSpotSource` of sdk/src/signedPrices.ts. Feed ids are
-- numbers, `is_named` tells the named ones, and a source answers with blobs or with an error.
pub mod Packages
pub mod Proofs
mod Tests
use Prim.Native.String.{String}
use optara.Common.{
  ℕ, ◌+◌, Bool, true, false, not, Option, none, some, List, [], ◌∷◌, ◌++◌, map, any, keep_if,
  add_to, get_key, set_key, if◌then◌else◌,
}

-- An error is the first line of its message, which is all that is kept of it.
pub data Answer : Type 0 where
  answered : List ℕ → Answer
  error : String → Answer

pub record WantedProduct : Type 0 where
  pub product_id : ℕ
  pub feed_ids : List ℕ

-- The products of one group of providers, with their feeds, each once.
pub record ProviderGroup : Type 0 where
  pub product_ids : List ℕ
  pub feed_ids : List ℕ

pub record SpotUpdates : Type 0 where
  pub updates : List ℕ
  pub product_ids : List ℕ
  pub failed : List (ℕ × String)

abbrev pub add_feeds : List ℕ → List ℕ → List ℕ
add_feeds [] out = out
add_feeds (f ∷ feeds) out = add_feeds feeds (add_to f out)

abbrev pub or_new : Option ProviderGroup → ProviderGroup
or_new none = record { product_ids = []; feed_ids = [] }
or_new (some g) = g

abbrev pub with_product : WantedProduct → ProviderGroup → ProviderGroup
with_product p g = record {
  product_ids = g.product_ids ++ p.product_id ∷ [];
  feed_ids = add_feeds p.feed_ids g.feed_ids;
}

abbrev fail_all : String → List ℕ → List (ℕ × String)
fail_all message [] = []
fail_all message (p ∷ ps) = (p, message) ∷ fail_all message ps

module _ (is_named : ℕ → Bool) where
  -- The providers that the feeds need: neither, Pyth, signed packages, or both.
  abbrev pub group_key : List ℕ → ℕ
  group_key feeds =
      (if any (λ f. not (is_named f)) feeds then 1 else 0) + (if any is_named feeds then 2 else 0)

  unfoldable pub group_products :
      List WantedProduct → List (ℕ × ProviderGroup) → List (ℕ × ProviderGroup)
  group_products [] groups = groups
  group_products (p ∷ products) groups =
      let key = group_key p.feed_ids in
      group_products products (set_key groups key (with_product p (or_new (get_key groups key))))

  module _ (updates_of : List ℕ → Answer) where
    abbrev pub collect_one : ProviderGroup → Answer → SpotUpdates → SpotUpdates
    collect_one g (answered blobs) out = record out {
      updates = out.updates ++ blobs;
      product_ids = out.product_ids ++ g.product_ids;
    }
    collect_one g (error message) out = record out {
      failed = out.failed ++ fail_all message g.product_ids;
    }

    unfoldable pub collect : List (ℕ × ProviderGroup) → SpotUpdates → SpotUpdates
    collect [] out = out
    collect ((key, g) ∷ groups) out = collect groups (collect_one g (updates_of g.feed_ids) out)

    unfoldable pub spot_updates_by_product : List WantedProduct → SpotUpdates
    unfolding group_products collect
    spot_updates_by_product products =
        collect (group_products products [])
          (record { updates = []; product_ids = []; failed = [] })

  -- `CompositeSpotSource.updates`; a provider that is not configured is none.
  abbrev pub ask : Option (List ℕ → Answer) → String → List ℕ → Answer
  ask provider message [] = answered []
  ask none message (f ∷ feeds) = error message
  ask (some updates_of) message (f ∷ feeds) = updates_of (f ∷ feeds)

  abbrev pub both_answers : Answer → Answer → Answer
  both_answers (error message) b = error message
  both_answers (answered xs) (error message) = error message
  both_answers (answered xs) (answered ys) = answered (xs ++ ys)

  -- A missing provider is reported first, the signed packages' before Pyth's.
  abbrev pub missing : Option (List ℕ → Answer) → List ℕ → Bool
  missing none (f ∷ feeds) = true
  missing provider feeds = false

  unfoldable pub composite_updates :
      Option (List ℕ → Answer) → Option (List ℕ → Answer) → List ℕ → Answer
  composite_updates pyth signed feed_ids =
      let named = keep_if is_named feed_ids in
      let others = keep_if (λ f. not (is_named f)) feed_ids in
      if missing signed named
      then error "named feeds requested but no price node is configured"
      else if missing pyth others
      then error "Pyth feeds requested but no Pyth source is configured"
      else both_answers (ask pyth "Pyth feeds requested but no Pyth source is configured" others)
          (ask signed "named feeds requested but no price node is configured" named)
