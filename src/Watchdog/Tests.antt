-- ===== src/Watchdog/Tests.antt =====
-- Four runs of two checks: the second one fails three times and recovers.
use optara.Common.{
  get_key, ℕ, Bool, true, false, none, some, List, [], ◌∷◌, ◌≡◌, refl, map, ◌==◌, not, any, ◌↔◌,
  if◌then◌else◌,
}
use optara.Watchdog.Checks.{
  Check, block, loads, http, Probes, fetched, checks, Reply, LiveOption, fresh_check, Fetch, is_ok,
  by_product, price_products, unpriced,
}
use optara.Watchdog.{
  down_alert, recovered_alert, watch, watch_all, respond, get_test, telegram_post, status_command,
  busy, forbidden,
}
use optara.Watchdog.Prices.{fresh_check_iff, passes, is_live, first_live, is_priced}
use optara.Watchdog.Incidents.{incidents, outcome, about_all, went_down, came_back, IsUnique}
use optara.Watchdog.Runs.{fresh_start, watch_all-incidents, watch-IsAtomic, IsAtomic}

abbrev rpc : Check
rpc = record { name = 0; ok = true; detail = block 5 }

abbrev page_loads : Check
page_loads = record { name = 1; ok = true; detail = loads }

abbrev page_fails : Check
page_fails = record { name = 1; ok = false; detail = http 500 }

abbrev bad_run : List Check
bad_run = rpc ∷ page_fails ∷ []

abbrev probes : Probes
probes = record {
  block_number = fetched 77;
  frontend_page = fetched (record { status = 404; body = tt });
  publisher_health = fetched (record { status = 200; body = [] });
  indexer_health = fetched (record { status = 200; body = tt });
  indexer_system = fetched (record { status = 200; body = (1000, 399) });
  price_node = fetched loads;
  series =
      fetched
        (record { status = 200; body = record { id = 3; product_id = 8; expiry = 99000 } ∷ [] });
  oracle_update = λ id. fetched (record { status = 200; body = 8 ∷ [] });
  feeds = (0, fetched 7799) ∷ [];
  wallets = (0, 20, fetched 20) ∷ [];
}

abbrev runs : List (List Check)
runs = bad_run ∷ bad_run ∷ bad_run ∷ (rpc ∷ page_loads ∷ []) ∷ []

unique : IsUnique bad_run
unique = (refl, (refl, tt))

abbrev takes_all : ℕ → Bool
takes_all i = true

abbrev takes_later : ℕ → Bool
takes_later i = not (i == 0)

-- One alert for the outage and one for its end.
two_alerts :
    (watch_all takes_all runs fresh_start).sent
    ≡ down_alert (page_fails ∷ []) ∷ recovered_alert (page_loads ∷ []) ∷ []
unfolding watch_all
two_alerts = refl

-- The refused alert of the second run is sent by the third.
sent_again :
    (watch_all takes_later (bad_run ∷ bad_run ∷ bad_run ∷ []) fresh_start).sent
    ≡ down_alert (page_fails ∷ []) ∷ []
unfolding watch_all
sent_again = refl

-- One failure alone is no incident, two are.
two_incidents :
    incidents 0 (map (outcome 1) (bad_run ∷ (rpc ∷ []) ∷ runs)) ≡ went_down ∷ came_back ∷ []
two_incidents = refl

-- A page that fails, a publisher without a surface, an indexer that is 601 blocks behind.
three_failures :
    map (λ (c : Check). c.ok) (checks 9000 probes)
    ≡ true ∷ false ∷ false ∷ false ∷ true ∷ true ∷ false ∷ true ∷ []
unfolding checks get_key
three_failures = refl

too_soon : (respond takes_all 9000 1 none [] get_test fresh_start).1 ≡ busy
unfolding respond
too_soon = refl

no_secret :
    (respond takes_all 9000 1 none []
      (telegram_post (some 4) (some 1) status_command)
      fresh_start).1
    ≡ forbidden
unfolding respond
no_secret = refl

watch_all-incidents_example :
    about_all 1 (watch_all takes_all runs fresh_start).sent ≡ incidents 0 (map (outcome 1) runs)
watch_all-incidents_example =
    watch_all-incidents takes_all 1 runs (λ i. refl)
      (unique, (unique, (unique, ((refl, (refl, tt)), tt))))

watch-IsAtomic_example : IsAtomic bad_run fresh_start (watch takes_later bad_run fresh_start)
watch-IsAtomic_example = watch-IsAtomic takes_later bad_run fresh_start

abbrev two_options : Reply (List LiveOption)
two_options = record {
  status = 200;
  body =
      record { id = 2; product_id = 8; expiry = 4000 }
      ∷ record { id = 3; product_id = 8; expiry = 99000 }
      ∷ record { id = 4; product_id = 8; expiry = 99000 }
      ∷ [];
}

abbrev spot_of_three : ℕ → Fetch (Reply (List ℕ))
spot_of_three id = fetched (record { status = 200; body = if id == 3 then 8 ∷ [] else [] })

fresh_check_iff_example : (passes (fresh_check 1000 (fetched two_options) spot_of_three) ≡ true) ↔ (
    (is_ok two_options.status ≡ true)
    × (any (is_live 1000) two_options.body ≡ true)
    × ((product id : ℕ)
        → first_live 1000 product two_options.body ≡ some id
        → is_priced product (spot_of_three id) ≡ true))
fresh_check_iff_example = fresh_check_iff 1000 two_options spot_of_three

-- The first option expires too soon; the second is looked at, the third is not.
prices_pass : passes (fresh_check 1000 (fetched two_options) spot_of_three) ≡ true
unfolding fresh_check by_product price_products unpriced get_key
prices_pass = refl
