-- ===== src/Watchdog/Checks.antt =====
-- watchdog/src/index.ts: `run` and `checks`. What each service answers is an argument, a thrown error a value.
-- Wallet balances are exact, in wei.
use Prim.Native.String.{String}
use optara.Common.{
  ℕ, zero, suc, ◌+◌, ◌-◌, ◌*◌, Bool, true, false, not, ◌&&◌, Option, none, some, List, [], ◌∷◌,
  ◌++◌, map, keep_if, elem, length, ltb, if◌then◌else◌, get_key,
}

-- The texts that a check shows.
pub data Detail : Type 0 where
  block loads_with http api_http not_signed signing blocks_behind : ℕ → Detail
  loads no_surfaces no_longer_checked no_live_options not_ok : Detail
  thrown : String → Detail
  signing_fails errors_of : List String → Detail
  no_fresh_price fresh_prices : List ℕ → Detail
  exchanges : List (ℕ × ℕ) → Detail
  last_push_ago pushed_ago balance_left balance : ℕ → Detail

pub record Check : Type 0 where
  pub name : ℕ
  pub ok : Bool
  pub detail : Detail

-- What a call gives: an answer, or the error that it throws.
pub data Fetch (A : Type 0) : Type 0 where
  fetched : A → Fetch A
  threw : Detail → Fetch A

abbrev pub then_ : {A B : Type 0} → Fetch A → (A → Fetch B) → Fetch B
then_ (fetched a) f = f a
then_ (threw e) f = threw e

unfoldable pub run : ℕ → Fetch Detail → Check
run name (fetched detail) = record { name = name; ok = true; detail = detail }
run name (threw e) = record { name = name; ok = false; detail = e }

-- `get` answers with a status and a body; `getJson` throws on a status that is not ok.
pub record Reply (A : Type 0) : Type 0 where
  pub status : ℕ
  pub body : A

abbrev pub is_ok : ℕ → Bool
is_ok status = not (ltb status 200) && ltb status 300

abbrev pub json_of : {A : Type 0} → Fetch (Reply A) → Fetch A
json_of answer =
    then_ answer (λ r. if is_ok r.status then fetched r.body else threw (http r.status))

pub frontend : Fetch (Reply Unit) → Fetch Detail
frontend answer =
    then_ answer (λ r. if is_ok r.status then fetched loads else threw (http r.status))

-- A product of the publisher's health: the time of its last run in milliseconds, none where it is no date,
-- and the reason of a failed result.
pub record ProductHealth : Type 0 where
  pub at : Option ℕ
  pub failing : Option String

-- `now - Date.parse(p.at) / 1000 > SURFACE_MAX_AGE_S`, in milliseconds.
abbrev pub is_stale : ℕ → ProductHealth → Bool
is_stale now p = elim p.at [ none ↦ false | some at ↦ ltb (at + 1000 * (5 * 60)) (1000 * now) ]

abbrev pub reasons : List ProductHealth → List String
reasons [] = []
reasons (p ∷ ps) =
    let rest = reasons ps in elim p.failing [ none ↦ rest | some reason ↦ reason ∷ rest ]

unfoldable pub products_signing : ℕ → List ProductHealth → Fetch Detail
products_signing now [] = threw no_surfaces
products_signing now (p ∷ ps) =
    let stale = length (keep_if (is_stale now) (p ∷ ps)) in
    elim stale [
      | suc n ↦ threw (not_signed (suc n))
      | zero ↦ elim (reasons (p ∷ ps)) [
        | [] ↦ fetched (signing (length (p ∷ ps)))
        | r ∷ rs ↦ threw (signing_fails (r ∷ rs))
      ]
    ]

pub publisher : ℕ → Fetch (Reply (List ProductHealth)) → Fetch Detail
unfolding products_signing
publisher now answer = then_ (json_of answer) (products_signing now)

-- The difference is signed: a head behind the progress is no lag.
pub indexer : Fetch (Reply Unit) → Fetch (Reply (ℕ × ℕ)) → Fetch Detail
indexer health system = then_ health (λ r.
    if is_ok r.status
    then then_ (json_of system) (λ s.
      if ltb (s.1 + 600) s.0
      then threw (blocks_behind (s.0 - s.1))
      else fetched (blocks_behind (s.0 - s.1)))
    else threw (api_http r.status))

-- The first live series of each product, expiring in more than an hour.
pub record LiveOption : Type 0 where
  pub id : ℕ
  pub product_id : ℕ
  pub expiry : ℕ

unfoldable pub by_product : ℕ → List LiveOption → List (ℕ × ℕ) → List (ℕ × ℕ)
by_product now [] out = out
by_product now (s ∷ series) out =
    let listed : Bool = elim (get_key out s.product_id) [ none ↦ false | some _ ↦ true ] in
    by_product now series
      (if ltb (now + 3600) s.expiry && not listed then out ++ (s.product_id, s.id) ∷ [] else out)

-- The products whose oracle update, as `update` answers for the series, fails or has no spot for them. A
-- request that throws ends the check.
unfoldable pub unpriced : (ℕ → Fetch (Reply (List ℕ))) → List (ℕ × ℕ) → List ℕ → Fetch (List ℕ)
unpriced update [] failed = fetched failed
unpriced update ((product, id) ∷ products) failed = then_ (update id) (λ r.
    unpriced update products
      (if is_ok r.status && elem product r.body then failed else failed ++ product ∷ []))

unfoldable pub price_products : (ℕ → Fetch (Reply (List ℕ))) → List (ℕ × ℕ) → Fetch Detail
unfolding unpriced
price_products update [] = threw no_live_options
price_products update (p ∷ products) = then_ (unpriced update (p ∷ products) []) (λ failed.
    elim failed [
      | [] ↦ fetched (fresh_prices (map (λ (q : ℕ × ℕ). q.0) (p ∷ products)))
      | f ∷ fs ↦ threw (no_fresh_price (f ∷ fs))
    ])

unfoldable pub fresh_check :
    ℕ → Fetch (Reply (List LiveOption)) → (ℕ → Fetch (Reply (List ℕ))) → Fetch Detail
unfolding by_product price_products
fresh_check now series update =
    then_ (json_of series) (λ listed. price_products update (by_product now listed []))

-- A settlement feed that was last pushed at `updated_at`.
unfoldable pub feed_age : ℕ → Fetch ℕ → Fetch Detail
feed_age now updated_at = then_ updated_at (λ t.
    if ltb (t + 20 * 60) now
    then threw (last_push_ago (now - t))
    else fetched (pushed_ago (now - t)))

unfoldable pub gas : ℕ → Fetch ℕ → Fetch Detail
gas min_wei bal =
    then_ bal (λ b. if ltb b min_wei then threw (balance_left b) else fetched (balance b))

-- What one run sees of the services, the labels of feeds and wallets being numbers.
pub record Probes : Type 0 where
  pub block_number : Fetch ℕ
  pub frontend_page : Fetch (Reply Unit)
  pub publisher_health : Fetch (Reply (List ProductHealth))
  pub indexer_health : Fetch (Reply Unit)
  pub indexer_system : Fetch (Reply (ℕ × ℕ))
  pub price_node : Fetch Detail
  pub series : Fetch (Reply (List LiveOption))
  pub oracle_update : ℕ → Fetch (Reply (List ℕ))
  pub feeds : List (ℕ × Fetch ℕ)
  pub wallets : List (ℕ × ℕ × Fetch ℕ)

abbrev pub block_detail : Fetch ℕ → Fetch Detail
block_detail number = then_ number (λ n. fetched (block n))

-- The names of the checks, numbered: six of their own, then the feeds and the wallets by their labels.
unfoldable pub checks : ℕ → Probes → List Check
unfolding run frontend publisher indexer fresh_check feed_age gas
checks now p =
    run 0 (block_detail p.block_number)
    ∷ run 1 (frontend p.frontend_page)
    ∷ run 2 (publisher now p.publisher_health)
    ∷ run 3 (indexer p.indexer_health p.indexer_system)
    ∷ run 4 p.price_node
    ∷ run 5 (fresh_check now p.series p.oracle_update)
    ∷ (map (λ (f : ℕ × Fetch ℕ). run (6 + 2 * f.0) (feed_age now f.1)) p.feeds
        ++ map (λ (w : ℕ × ℕ × Fetch ℕ). run (7 + 2 * w.0) (gas w.1 w.2)) p.wallets)
