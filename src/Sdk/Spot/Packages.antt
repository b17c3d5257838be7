-- ===== src/Sdk/Spot/Packages.antt =====
-- sdk/src/signedPrices.ts, `SignedPriceSource`: the packages that are picked for each feed. Feed names and
-- signers are numbers, and `gateways` are what the price services answer, in order.
mod Input
pub mod Signers
pub mod Proofs
use optara.Common.{
  ℕ, zero, suc, ◌+◌, ◌-◌, ◌/◌, ◌%◌, Bool, true, false, not, Option, none, some, List, [], ◌∷◌, ◌++◌,
  map, length, get_or, any, keep_if, elem, get_key, set_key, ltb, leb, ◌==◌, if◌then◌else◌,
}
use optara.Sdk.Ledger.{sort}

pub record GatewayPackage : Type 0 where
  pub timestamp : ℕ
  pub signer : ℕ
  pub data_feed_id : ℕ
  -- The value with its eight decimals.
  pub value : ℕ

-- What a gateway answers: the packages of each feed, or an error.
abbrev pub Gateway : Type 0
Gateway = Option (List (ℕ × List GatewayPackage))

-- `fetchLatest`: the first gateway that answers.
unfoldable pub fetch_latest : List Gateway → Gateway
fetch_latest [] = none
fetch_latest (none ∷ gateways) = fetch_latest gateways
fetch_latest (some body ∷ gateways) = some body

abbrev pub or_no_packages : Option (List GatewayPackage) → List GatewayPackage
or_no_packages none = []
or_no_packages (some l) = l

-- `list.some((q) => q.signerAddress ... === p.signerAddress ...)`.
abbrev pub has_signer : ℕ → List GatewayPackage → Bool
has_signer a [] = false
has_signer a (q ∷ l) = let rest = has_signer a l in if q.signer == a then true else rest

abbrev pub add_package : GatewayPackage → List GatewayPackage → List GatewayPackage
add_package p l = if has_signer p.signer l then l else l ++ p ∷ []

unfoldable pub take_packages : ℕ → List GatewayPackage → List GatewayPackage
take_packages zero l = []
take_packages (suc n) [] = []
take_packages (suc n) (p ∷ l) = p ∷ take_packages n l

module _ (authorized : List ℕ) (signers_per_feed : ℕ) where
  -- The packages of authorized signers by timestamp, one of each signer.
  unfoldable pub by_timestamp :
      List GatewayPackage → List (ℕ × List GatewayPackage) → List (ℕ × List GatewayPackage)
  by_timestamp [] out = out
  by_timestamp (p ∷ packages) out = by_timestamp packages (
      if elem p.signer authorized
      then set_key out p.timestamp (add_package p (or_no_packages (get_key out p.timestamp)))
      else out)

  -- The entry of the latest timestamp among those with enough signers; an equal timestamp is not later.
  abbrev pub later_of :
      ℕ × List GatewayPackage → Option (ℕ × List GatewayPackage) → Option (ℕ × List GatewayPackage)
  later_of e none = some e
  later_of e (some best) = if ltb e.0 best.0 then some best else some e

  unfoldable pub best_of : List (ℕ × List GatewayPackage) → Option (ℕ × List GatewayPackage)
  best_of [] = none
  best_of (e ∷ entries) =
      let rest = best_of entries in
      if leb signers_per_feed (length e.1) then later_of e rest else rest

  unfoldable pub pick_from : Option (ℕ × List GatewayPackage) → Option (List GatewayPackage)
  unfolding take_packages
  pick_from none = none
  pick_from (some e) = some (take_packages signers_per_feed e.1)

  -- The packages of one feed; `none` is the error of too few authorized signers.
  unfoldable pub pick : List GatewayPackage → Option (List GatewayPackage)
  unfolding by_timestamp best_of pick_from
  pick packages = pick_from (best_of (by_timestamp packages []))

  abbrev pub append_picked :
      Option (List GatewayPackage) → Option (List GatewayPackage) → Option (List GatewayPackage)
  append_picked none rest = none
  append_picked (some l) none = none
  append_picked (some l) (some rest) = some (l ++ rest)

  unfoldable pub pick_all : List (ℕ × List GatewayPackage) → List ℕ → Option (List GatewayPackage)
  unfolding pick
  pick_all body [] = some []
  pick_all body (feed ∷ feeds) =
      append_picked (pick (or_no_packages (get_key body feed))) (pick_all body feeds)

  unfoldable pub packages : List Gateway → List ℕ → Option (List GatewayPackage)
  unfolding fetch_latest pick_all
  packages gateways feeds = elim (fetch_latest gateways) [
    | none ↦ none
    | some body ↦ pick_all body feeds
  ]

-- `prices`: the median of the picked values of a feed, rounded down, and the publish time in seconds.
unfoldable pub median : List ℕ → ℕ
unfolding sort
median values =
    let s = sort values in
    let n = length s in
    if n % 2 == 1 then get_or s (n / 2) 0 else (get_or s (n / 2 - 1) 0 + get_or s (n / 2) 0) / 2

abbrev of_feed : ℕ → List GatewayPackage → List GatewayPackage
of_feed feed [] = []
of_feed feed (p ∷ picked) =
    let rest = of_feed feed picked in if p.data_feed_id == feed then p ∷ rest else rest

abbrev price_from : List GatewayPackage → Option (ℕ × ℕ)
price_from [] = none
price_from (p ∷ picked) =
    some (median (map (λ (q : GatewayPackage). q.value) (p ∷ picked)), p.timestamp / 1000)

pub price_of : ℕ → List GatewayPackage → Option (ℕ × ℕ)
unfolding median
price_of feed picked = price_from (of_feed feed picked)
