-- ===== src/Publisher/Routes.antt =====
-- publisher/src/server.ts: the routes of the publisher's service, and RemoteCosigner. A request comes parsed:
-- the parts of its path are words, 32-byte ids, other integers or other texts. The publisher and the catalog
-- are an interface, where `none` is an exception.
use Prim.Native.String.{String}
use optara.Common.{ℕ, Bool, Option, none, some, List, [], ◌∷◌, ◌==◌, if◌then◌else◌}
use optara.Sdk.Surface.{SurfaceReport, NodeProof}
use optara.Sdk.Updates.{OracleUpdate}
use optara.Publisher.Reports.{Signed, Signature, CosignResult, cosigned}
use optara.Publisher.Nodes.{PricedSeries}
use optara.Publisher.OracleUpdates.{SeriesKey}

pub data Method : Type 0 where
  get post other_method : Method

pub data Segment : Type 0 where
  health surface latest nodes oracle_update cosign other_text : Segment
  hex32 integer : ℕ → Segment

-- `is_exact` where the path has no empty parts; the body is none where it is too large or cannot be read.
pub record Request : Type 0 where
  pub method : Method
  pub parts : List Segment
  pub is_exact : Bool
  pub series : List Segment
  pub account : Option Segment
  pub body : Option (SurfaceReport × List (List ℕ))

pub data Body : Type 0 where
  status : Body
  a_surface : SurfaceReport → List ℕ → Body
  proofs : List NodeProof → Body
  an_update : OracleUpdate → Body
  a_signature : Signature → Body
  failure : String → Body

pub record Reply : Type 0 where
  pub code : ℕ
  pub body : Body

pub record ServerDeps : Type 0 where
  pub latest_of : ℕ → Option Signed
  pub signed_of : ℕ → ℕ → Option Signed
  pub nodes_of : Signed → List PricedSeries → (spot : ℕ) → Option (List NodeProof)
  pub update_of : Option ℕ → List ℕ → Option OracleUpdate
  pub cosign_of : SurfaceReport → List (List ℕ) → CosignResult
  pub series_by_id : ℕ → Option SeriesKey
  pub spot_of : ℕ → ℕ

abbrev pub send : ℕ → Body → Reply
send code body = record { code = code; body = body }

abbrev pub thrown : Reply
thrown = send 500 (failure "error")

abbrev pub not_found : Reply
not_found = send 404 (failure "not found")

-- `split(",").filter(isHex32)`.
unfoldable pub ids_of : List Segment → List ℕ
ids_of [] = []
ids_of (hex32 id ∷ parts) = id ∷ ids_of parts
ids_of (_ ∷ parts) = ids_of parts

-- The listed series of the product.
unfoldable pub series_in : (ℕ → Option SeriesKey) → ℕ → List ℕ → List PricedSeries
series_in series_by_id product [] = []
series_in series_by_id product (id ∷ ids) =
    let rest = series_in series_by_id product ids in
    elim (series_by_id id) [
      | none ↦ rest
      | some s ↦ if s.product_id == product then s.series ∷ rest else rest
    ]

abbrev pub send_latest : Option Signed → Reply
send_latest none = send 404 (failure "no report")
send_latest (some s) = send 200 (a_surface s.report s.signatures)

abbrev pub send_proofs : Option (List NodeProof) → Reply
send_proofs none = thrown
send_proofs (some ps) = send 200 (proofs ps)

abbrev pub send_update : Option OracleUpdate → Reply
send_update none = thrown
send_update (some u) = send 200 (an_update u)

abbrev pub send_cosigned : CosignResult → Reply
send_cosigned (cosigned s) = send 200 (a_signature s)
send_cosigned _ = send 422 (failure "refused")

module _ (deps : ServerDeps) where
  abbrev pub send_nodes : ℕ → List Segment → Option Signed → Reply
  send_nodes product series none = send 404 (failure "unknown sequence")
  send_nodes product series (some s) =
      send_proofs (
        deps.nodes_of s (series_in deps.series_by_id product (ids_of series))
          (deps.spot_of product))

  -- `BigInt(parts[2])` reads a 32-byte id too, and throws on another text.
  abbrev pub nodes_route : ℕ → Segment → List Segment → Reply
  nodes_route product (hex32 seq) series = send_nodes product series (deps.signed_of product seq)
  nodes_route product (integer seq) series = send_nodes product series (deps.signed_of product seq)
  nodes_route product _ series = thrown

  abbrev pub update_route : Option Segment → List Segment → Reply
  update_route none series = send_update (deps.update_of none (ids_of series))
  update_route (some (integer account)) series =
      send_update (deps.update_of (some account) (ids_of series))
  update_route (some _) series = send 400 (failure "account must be an id")

  abbrev pub cosign_route : Option (SurfaceReport × List (List ℕ)) → Reply
  cosign_route none = thrown
  cosign_route (some (report, grid)) = send_cosigned (deps.cosign_of report grid)

  abbrev pub exactly : Request → Reply → Reply
  exactly r reply = if r.is_exact then reply else not_found

  unfoldable pub route : Request → Method → List Segment → Reply
  unfolding ids_of series_in
  route r get (health ∷ []) = exactly r (send 200 status)
  route r get (surface ∷ hex32 p ∷ latest ∷ []) = send_latest (deps.latest_of p)
  route r get (surface ∷ hex32 p ∷ seq ∷ nodes ∷ []) = nodes_route p seq r.series
  route r get (oracle_update ∷ []) = exactly r (update_route r.account r.series)
  route r post (cosign ∷ []) = exactly r (cosign_route r.body)
  route r method parts = not_found

  unfoldable pub serve : Request → Reply
  unfolding route
  serve r = route r r.method r.parts

-- `RemoteCosigner.cosign`, `none` where it throws.
abbrev pub remote_cosigner : Reply → Option Signature
remote_cosigner reply = elim reply.body [
  | a_signature s ↦ if reply.code == 200 then some s else none
  | _ ↦ none
]
