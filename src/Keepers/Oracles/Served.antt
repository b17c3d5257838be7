-- ===== src/Keepers/Oracles/Served.antt =====
-- The oracle pusher (keepers/src/oraclePusher.ts) against a publisher's service (publisher/src/server.ts).
use Prim.Native.String.{String}
use mathlib.Core.Option.{some-injective}
use optara.Common.{
  All-map, ℕ, Bool, true, false, Option, none, some, List, [], ◌∷◌, map, All, leb, ltb, ◌&&◌, ◌≡◌,
  refl, sym, ap, ◌∙◌, subst, inl, inr, Bool-cases, if◌then◌else◌, get_key,
}
use optara.Common.Int.{ℤ}
use optara.Sdk.Surface.{SurfaceReport, NodeProof}
use optara.Sdk.Surface.Proofs.{IsGenuine}
use optara.Sdk.Updates.{OracleUpdate}
use optara.Sdk.Spot.{Answer}
use optara.Sdk.Catalog.{ListedSeries}
use optara.Publisher.Reports.{Signed, Grids, latest, signed_at, by_seq, keys_of, latest_in}
use optara.Publisher.Reports.Newest.{IsHeld, IsNewest-latest_in}
use optara.Publisher.Nodes.{nodes_for}
use optara.Publisher.Nodes.Genuine.{nodes_for-IsGenuine}
use optara.Publisher.OracleUpdates.Newer.{AllAssembled, latest-IsAssembled}
use optara.Publisher.Routes
use optara.Publisher.Routes.{
  Request, Reply, Segment, ServerDeps, serve, a_surface, proofs, hex32, integer,
}
use optara.Keepers.Oracles.Sent.{AllNewer, AllSent, sent-AllSent}
use optara.Keepers.Oracles.{
  OracleView, PublisherApi, OraclePusherOptions, LatestSurface, with_nodes, unless_old,
  newer_report, push_oracles,
}

-- The requests of `newerReport` to a service, and the answers as it reads them.
abbrev pub ask_for : List Segment → List Segment → Request
ask_for parts series = record {
  method = Routes.get;
  parts = parts;
  is_exact = true;
  series = series;
  account = none;
  body = none;
}

abbrev pub surface_from : Reply → Option LatestSurface
surface_from reply = elim reply.body [
  | a_surface r signatures ↦
      if leb 200 reply.code && ltb reply.code 300
      then some (record { report = r; signatures = signatures })
      else none
  | _ ↦ none
]

abbrev pub proofs_from : Reply → Option (List NodeProof)
proofs_from reply = elim reply.body [
  | proofs ps ↦ if leb 200 reply.code && ltb reply.code 300 then some ps else none
  | _ ↦ none
]

abbrev pub api_of : ServerDeps → PublisherApi
api_of deps = record {
  latest_surface =
      λ p. surface_from (serve deps (ask_for (Routes.surface ∷ hex32 p ∷ Routes.latest ∷ []) []));
  surface_nodes = λ p seq ids. proofs_from (
      serve deps (
        ask_for (Routes.surface ∷ hex32 p ∷ integer seq ∷ Routes.nodes ∷ [])
          (map (λ (id : ℕ). hex32 id) ids)));
}

-- The service keeps its reports in `grids`; the routes for updates and cosignatures are left open.
abbrev pub keeps_in : (ℕ → ℕ → ℤ) → ℕ → Grids → ServerDeps → ServerDeps
keeps_in log_moneyness margin grids deps = record deps {
  latest_of = latest grids;
  signed_of = signed_at grids;
  nodes_of = λ s series spot.
      nodes_for log_moneyness s.report s.grid margin series spot false (λ t j. false);
}

held-signed_at :
    (grids : Grids) (p : ℕ) (s : Signed)
    → IsHeld (by_seq grids p)
    → latest grids p ≡ some s
    → signed_at grids p s.report.surface_seq ≡ some s
unfolding latest signed_at
held-signed_at grids p s (inl empty) e = cc (ap (λ m. latest_in m (keys_of m)) (sym empty) ∙ e)
held-signed_at grids p s (inr (t, (found, there, le), small)) e =
    let newest =
      IsNewest-latest_in t t.report.surface_seq (by_seq grids p) (keys_of (by_seq grids p)) found
        there le in
    let same : t ≡ s = some-injective t s (sym newest ∙ e) in
    subst (λ s. get_key (by_seq grids p) s.report.surface_seq ≡ some s) same found

abbrev pub IsLatestReport : Grids → SurfaceReport → Type 0
IsLatestReport grids r = (p : ℕ) × (s : Signed) × (latest grids p ≡ some s) × (s.report ≡ r)

abbrev pub IsLatestProof : (ℕ → ℕ → ℕ) → (ℕ → ℕ → ℕ → ℕ → ℕ → ℕ) → Grids → NodeProof → Type 0
IsLatestProof keccak leaf_hash grids n =
    (p : ℕ) × (s : Signed) × (latest grids p ≡ some s) × IsGenuine keccak leaf_hash s.report n

module _ (keccak : ℕ → ℕ → ℕ) (leaf_hash : ℕ → ℕ → ℕ → ℕ → ℕ → ℕ) (log_moneyness : ℕ → ℕ → ℤ)
    (margin : ℕ) (grids : Grids) where
  module _ (kept : AllAssembled keccak leaf_hash grids) (held : (p : ℕ) → IsHeld (by_seq grids p))
      (deps : ServerDeps) (v : OracleView) (catalog : List ListedSeries) where
    nodes-AllNewer :
        (p : ℕ) (s : Signed) (answer : Option (List NodeProof))
        → latest grids p ≡ some s
        → ((ps : List NodeProof) → answer ≡ some ps → All (IsGenuine keccak leaf_hash s.report) ps)
        → AllNewer (IsLatestReport grids) (IsLatestProof keccak leaf_hash grids) v (
            with_nodes
              (record { report = s.report; signatures = s.signatures })
              (proofs_from (Routes.send_proofs answer)))
    nodes-AllNewer p s none e genuine = tt
    nodes-AllNewer p s (some ps) e genuine =
        ((p, s, e, refl), All-map (λ n g. (p, s, e, g)) ps (genuine ps refl))

    served-AllNewer :
        (p : ℕ) (s : Signed)
        → latest grids p ≡ some s
        → (ids : List ℕ)
        → AllNewer (IsLatestReport grids) (IsLatestProof keccak leaf_hash grids) v (
            with_nodes
              (record { report = s.report; signatures = s.signatures })
              ((api_of (keeps_in log_moneyness margin grids deps)).surface_nodes p
                s.report.surface_seq ids))
    unfolding serve
    served-AllNewer p s e ids =
        let series =
          Routes.series_in deps.series_by_id p (Routes.ids_of (map (λ (id : ℕ). hex32 id) ids)) in
        rw (held-signed_at grids p s (held p) e) (
          nodes-AllNewer p s
            (nodes_for log_moneyness s.report s.grid margin series (deps.spot_of p) false
              (λ t j. false))
            e
            (λ ps.
              nodes_for-IsGenuine keccak leaf_hash log_moneyness s.report s.grid margin series
                (deps.spot_of p) false (λ t j. false) ps
                (latest-IsAssembled keccak leaf_hash grids kept p s e)))

    latest-AllNewer :
        (p : ℕ) (newest : Option Signed)
        → latest grids p ≡ newest
        → AllNewer
            (IsLatestReport grids)
            (IsLatestProof keccak leaf_hash grids)
            v
            (elim (surface_from (Routes.send_latest newest)) [
              | none ↦ none
              | some l ↦
                  unless_old v (api_of (keeps_in log_moneyness margin grids deps)) catalog p l
            ])
    unfolding serve
    latest-AllNewer p none e = tt
    latest-AllNewer p (some s) e =
        let asked = served-AllNewer p s e in
        elim (Bool-cases (leb s.report.surface_seq (v.surface_seq p))) [
          | inl known ↦ rw known tt
          | inr newer ↦ elim (Bool-cases (leb s.report.expires_at v.now)) [
            | inl expired ↦ rw (newer, expired) tt
            | inr valid ↦ rw (newer, valid) (asked _)
          ]
        ]

    -- Where a publisher's service keeps only reports that were assembled with their grids, and for
    -- each product none or at most sixteen of which one is the newest under its own sequence,
    -- every report in an update that the oracle pusher sends, asking that service, is the latest
    -- report of a product there, and every proof in it has the product and the sequence of such a
    -- report and verifies against its root.
    pub push_oracles-AllSent :
        (o : OraclePusherOptions) {World : Type 0}
        (send : World → OracleUpdate → (value : ℕ) → World × Option String) (is_named : ℕ → Bool)
        (source : List ℕ → Answer) (products : List ℕ) (w : World)
        → let o' = record o {
          publisher = some (api_of (keeps_in log_moneyness margin grids deps));
        } in
          AllSent
            (IsLatestReport grids)
            (IsLatestProof keccak leaf_hash grids)
            v
            (push_oracles v send is_named source o' catalog products w).2
    unfolding newer_report serve
    push_oracles-AllSent o send is_named source products w =
        let o' = record o {
          publisher = some (api_of (keeps_in log_moneyness margin grids deps));
        } in
        sent-AllSent (IsLatestReport grids) (IsLatestProof keccak leaf_hash grids) v o' catalog
          (λ p. latest-AllNewer p (latest grids p) refl) send is_named source products w
