-- ===== src/Indexer/Monitor.antt =====
-- indexer/api/monitor.ts: the index against the chain, the health cache and the alerts. Rows and chain reads
-- are arguments; texts of alerts are left out, and the pool of reads is taken in the order of its items.
mod Custody
pub mod Reconcile
pub mod Tests
use optara.Common.{
  ℕ, ◌+◌, ◌-◌, ◌*◌, Bool, true, false, not, ◌&&◌, ◌||◌, Option, none, some, List, [], ◌∷◌, ◌++◌,
  length, ltb, ◌==◌, if◌then◌else◌, elem, get_key, set_key, add_to, map,
}
use optara.Common.Int.{ℤ, pos, ◌+ℤ◌, ◌-ℤ◌, eq_ℤ, ltb_ℤ}

pub data AlertKind : Type 0 where
  below_mm_no_auction auction_at_max_bonus surface_stale insurance_low settlement_progress :
      AlertKind
  custody index_mismatch index_lag governance : AlertKind

pub data Severity : Type 0 where
  info warning critical : Severity

-- What an alert is about, in place of its text.
pub data Subject : Type 0 where
  accounts indexer : Subject
  account_cash series_totals wrapper_supply participants asset_held : ℕ → Subject
  account asset product group event : ℕ → Subject
  auction : ℕ → ℕ → Subject

pub record Alert : Type 0 where
  pub kind : AlertKind
  pub severity : Severity
  pub subject : Subject

pub record AccountRow : Type 0 where
  pub account_id : ℕ
  pub settlement_asset : ℕ
  pub cash : ℤ

pub record SeriesRow : Type 0 where
  pub id : ℕ
  pub wrapper : ℕ
  pub internal_long : ℤ
  pub internal_short : ℤ
  pub wrapper_supply : ℤ

pub record GroupRow : Type 0 where
  pub id : ℕ
  pub settlement_asset : ℕ
  pub participants : ℕ
  pub finalized : Bool
  pub finalized_at : ℕ

-- The on-chain views that the reconciliation reads.
pub record Views : Type 0 where
  pub account_count : ℕ
  pub cash_of : ℕ → ℤ
  pub totals : ℕ → ℤ × ℤ
  pub total_supply : ℕ → ℤ
  pub participants : ℕ → ℕ
  pub pool_of : ℕ → ℤ
  pub held_by_clearing : ℕ → ℤ

abbrev pub mismatch : Bool → Subject → List Alert
mismatch true subject = []
mismatch false subject =
    record { kind = index_mismatch; severity = critical; subject = subject } ∷ []

unfoldable pub check_each : {R : Type 0} → (R → List Alert) → List R → List Alert
check_each check [] = []
check_each check (r ∷ rows) = check r ++ check_each check rows

abbrev pub or_zero : Option ℤ → ℤ
or_zero none = pos 0
or_zero (some x) = x

-- `m.set(k, (m.get(k) ?? 0n) + x)`.
unfoldable pub add_amount : ℕ → ℤ → List (ℕ × ℤ) → List (ℕ × ℤ)
add_amount k x m = set_key m k (or_zero (get_key m k) +ℤ x)

unfoldable pub cash_by_asset : List AccountRow → List (ℕ × ℤ) → List (ℕ × ℤ)
unfolding add_amount
cash_by_asset [] m = m
cash_by_asset (a ∷ rows) m = cash_by_asset rows (add_amount a.settlement_asset a.cash m)

unfoldable pub pools_by_asset : Views → List GroupRow → List (ℕ × ℤ) → List (ℕ × ℤ)
unfolding add_amount
pools_by_asset v [] m = m
pools_by_asset v (g ∷ rows) m =
    pools_by_asset v rows (add_amount g.settlement_asset (v.pool_of g.id) m)

abbrev pub keys : List (ℕ × ℤ) → List ℕ
keys m = map (λ row. row.0) m

abbrev pub distinct : List ℕ → List ℕ → List ℕ
distinct [] out = out
distinct (k ∷ ks) out = distinct ks (add_to k out)

unfoldable pub check_account : Views → AccountRow → List Alert
check_account v a = mismatch (eq_ℤ (v.cash_of a.account_id) a.cash) (account_cash a.account_id)

unfoldable pub check_series : Views → SeriesRow → List Alert
check_series v s =
    let (long, short) = v.totals s.id in
    mismatch (eq_ℤ long s.internal_long && eq_ℤ short s.internal_short) (series_totals s.id)
    ++ mismatch (eq_ℤ (v.total_supply s.wrapper) s.wrapper_supply) (wrapper_supply s.id)

unfoldable pub check_group : Views → GroupRow → List Alert
check_group v g = mismatch (v.participants g.id == g.participants) (participants g.id)

-- The clearing contract holds the accounts' cash and the groups' pools.
unfoldable pub check_custody : Views → List (ℕ × ℤ) → List (ℕ × ℤ) → ℕ → List Alert
check_custody v cash pools token =
    let owed = or_zero (get_key cash token) +ℤ or_zero (get_key pools token) in
    if eq_ℤ (v.held_by_clearing token) owed
    then []
    else record { kind = custody; severity = critical; subject = asset_held token } ∷ []

unfoldable pub reconcile : Views → List AccountRow → List SeriesRow → List GroupRow → List Alert
unfolding check_each check_account check_series check_group check_custody cash_by_asset
    pools_by_asset
reconcile v accs series groups =
    let cash = cash_by_asset accs [] in
    let pools = pools_by_asset v groups [] in
    mismatch (v.account_count == length accs) accounts
    ++ check_each (check_account v) accs
    ++ check_each (check_series v) series
    ++ check_each (check_group v) groups
    ++ check_each (check_custody v cash pools) (distinct (keys cash ++ keys pools) [])

pub record Health : Type 0 where
  pub account_id : ℕ
  pub equity : ℤ
  pub initial_margin : ℕ
  pub maintenance_margin : ℕ
  pub fresh : Bool
  pub at : ℕ

-- The cached healths and since when each account is below its maintenance margin.
pub record Cache : Type 0 where
  pub health : List (ℕ × Health)
  pub below_since : List (ℕ × ℕ)

abbrev pub keep : {V : Type 0} → List ℕ → List (ℕ × V) → List (ℕ × V)
keep ids [] = []
keep ids ((k, v) ∷ m) = let rest = keep ids m in if elem k ids then (k, v) ∷ rest else rest

abbrev pub drop_key : {V : Type 0} → ℕ → List (ℕ × V) → List (ℕ × V)
drop_key a [] = []
drop_key a ((k, v) ∷ m) = let rest = drop_key a m in if k == a then rest else (k, v) ∷ rest

abbrev pub is_below : Health → Bool
is_below h = ltb_ℤ h.equity (pos h.maintenance_margin)

abbrev pub since_or : ℕ → ℕ → Option ℕ → List (ℕ × ℕ) → List (ℕ × ℕ)
since_or a now none m = set_key m a now
since_or a now (some since) m = m

unfoldable pub put_health : ℕ → ℕ → Health → Cache → Cache
put_health now a h c = record {
  health = set_key c.health a h;
  below_since =
      if is_below h
      then since_or a now (get_key c.below_since a) c.below_since
      else drop_key a c.below_since;
}

unfoldable pub refresh_all : ℕ → (ℕ → Health) → List ℕ → Cache → Cache
unfolding put_health
refresh_all now risk_of [] c = c
refresh_all now risk_of (a ∷ ids) c = refresh_all now risk_of ids (put_health now a (risk_of a) c)

unfoldable pub refresh_health : ℕ → (ℕ → Health) → List ℕ → Cache → Cache
unfolding refresh_all
refresh_health now risk_of ids c =
    refresh_all now risk_of ids
      (record { health = keep ids c.health; below_since = keep ids c.below_since })

-- Below the maintenance margin, largest shortfall first (`sort`, as an insertion sort).
abbrev pub shortfall : Health → ℤ
shortfall h = pos h.maintenance_margin -ℤ h.equity

abbrev pub insert_health : Health → List Health → List Health
insert_health h [] = h ∷ []
insert_health h (x ∷ xs) =
    let rest = insert_health h xs in
    if ltb_ℤ (shortfall h) (shortfall x) then x ∷ rest else h ∷ x ∷ xs

unfoldable pub liquidatable : List (ℕ × Health) → List Health
unfolding ◌-ℤ◌
liquidatable [] = []
liquidatable ((k, h) ∷ m) =
    let rest = liquidatable m in if is_below h then insert_health h rest else rest

pub record AuctionRow : Type 0 where
  pub account_id : ℕ
  pub underlying : ℕ
  pub start_time : ℕ

pub data SurfaceStatus : Type 0 where
  no_surface fresh stale expired_data : SurfaceStatus

pub record InsuranceRow : Type 0 where
  pub asset : ℕ
  pub balance : ℕ
  pub minimum_seed : ℕ

-- The rows and views of one call of `alerts`; times of the cache are in milliseconds.
pub record AlertInput : Type 0 where
  pub now : ℕ
  pub now_ms : ℕ
  pub last_mismatches : List Alert
  pub auctions : List AuctionRow
  pub auction_duration : ℕ
  pub products : List (ℕ × SurfaceStatus)
  pub insurances : List InsuranceRow
  pub unsettled : List GroupRow
  pub governance_events : List (ℕ × Bool)
  pub head : ℕ
  pub progress : ℕ

abbrev pub when : Bool → AlertKind → Severity → Subject → List Alert
when true kind severity subject =
    record { kind = kind; severity = severity; subject = subject } ∷ []
when false kind severity subject = []

abbrev pub alert_below : AlertInput → ℕ × ℕ → List Alert
alert_below i (a, since) =
    when (not (elem a (map (λ row. row.account_id) i.auctions)) && ltb 60000 (i.now_ms - since))
      below_mm_no_auction critical (account a)

abbrev pub alert_auction : AlertInput → AuctionRow → List Alert
alert_auction i a =
    when (ltb i.auction_duration (i.now - a.start_time)) auction_at_max_bonus warning
      (auction a.account_id a.underlying)

abbrev pub alert_surface : ℕ × SurfaceStatus → List Alert
alert_surface (p, fresh) = []
alert_surface (p, expired_data) = when true surface_stale critical (product p)
alert_surface (p, _) = when true surface_stale warning (product p)

abbrev pub alert_insurance : InsuranceRow → List Alert
alert_insurance r =
    when (ltb r.balance (2 * r.minimum_seed)) insurance_low
      (if ltb r.balance r.minimum_seed then critical else warning) (asset r.asset)

abbrev pub alert_group : AlertInput → GroupRow → List Alert
alert_group i g = when (ltb 3600 (i.now - g.finalized_at)) settlement_progress warning (group g.id)

-- An event, and whether it schedules an upgrade.
abbrev pub alert_governance : ℕ × Bool → List Alert
alert_governance (id, scheduled) =
    when true governance (if scheduled then warning else info) (event id)

unfoldable pub alerts : AlertInput → Cache → List Alert
unfolding check_each
alerts i c =
    i.last_mismatches
    ++ check_each (alert_below i) c.below_since
    ++ check_each (alert_auction i) i.auctions
    ++ check_each alert_surface i.products
    ++ check_each alert_insurance i.insurances
    ++ check_each (alert_group i) i.unsettled
    ++ check_each alert_governance i.governance_events
    ++ when (ltb 50 (i.head - i.progress)) index_lag warning indexer
