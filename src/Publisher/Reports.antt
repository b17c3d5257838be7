-- ===== src/Publisher/Reports.antt =====
-- publisher/src/publisher.ts: `publish`, `cosign`, the quorum and the memory of signed reports; and
-- `sortSignatures` of sdk/src/surface.ts. Keys and signatures are numbers.
pub mod Proofs
pub mod Quorum
pub mod Memory
pub mod Oldest
pub mod Newest
use optara.Common.{
  ℕ, zero, suc, ◌+◌, ◌-◌, Bool, true, false, not, ◌&&◌, ◌||◌, Option, none, some, List, [], ◌∷◌,
  ◌++◌, map, length, ltb, ◌==◌, if◌then◌else◌, elem, any, get_key, set_key, keep_if,
}
use optara.Sdk.Merkle.{root}
use optara.Sdk.Surface
use optara.Sdk.Surface.{SurfaceReport, SurfaceGrid, surface_grid}
use optara.Sdk.Ledger.{sort}
use optara.Publisher.Validate.{ViolationCode, ValidationContext, FloatChecks, validate_report}

pub record Signature : Type 0 where
  pub signer : ℕ
  pub signature : ℕ

pub record Signed : Type 0 where
  pub report : SurfaceReport
  pub grid : SurfaceGrid
  pub signatures : List ℕ
  pub signers : List ℕ

-- Reports by product, then by sequence.
abbrev pub Grids : Type 0
Grids = List (ℕ × List (ℕ × Signed))

abbrev pub or_empty_map : Option (List (ℕ × Signed)) → List (ℕ × Signed)
or_empty_map none = []
or_empty_map (some m) = m

abbrev pub by_seq : Grids → ℕ → List (ℕ × Signed)
by_seq grids product = or_empty_map (get_key grids product)

abbrev pub keys_of : List (ℕ × Signed) → List ℕ
keys_of m = map (λ (e : ℕ × Signed). e.0) m

-- The largest of the keys, from `a` on.
unfoldable pub largest : ℕ → List ℕ → ℕ
largest a [] = a
largest a (b ∷ ks) = largest (if ltb b a then a else b) ks

abbrev pub latest_in : List (ℕ × Signed) → List ℕ → Option Signed
latest_in m [] = none
latest_in m (a ∷ ks) = get_key m (largest a ks)

unfoldable pub latest : Grids → ℕ → Option Signed
unfolding largest
latest grids product = latest_in (by_seq grids product) (keys_of (by_seq grids product))

unfoldable pub signed_at : Grids → ℕ → ℕ → Option Signed
signed_at grids product seq = get_key (by_seq grids product) seq

-- `Map.delete`.
abbrev pub delete_key : ℕ → List (ℕ × Signed) → List (ℕ × Signed)
delete_key k m = keep_if (λ (e : ℕ × Signed). not (e.0 == k)) m

unfoldable pub delete_keys : List ℕ → List (ℕ × Signed) → List (ℕ × Signed)
delete_keys [] m = m
delete_keys (k ∷ ks) m = delete_keys ks (delete_key k m)

abbrev pub take : ℕ → List ℕ → List ℕ
take zero xs = []
take (suc n) [] = []
take (suc n) (x ∷ xs) = x ∷ take n xs

-- The oldest sequences above sixteen are deleted.
unfoldable pub forget_old : List (ℕ × Signed) → List (ℕ × Signed)
unfolding delete_keys sort
forget_old m = delete_keys (take (length m - 16) (sort (keys_of m))) m

unfoldable pub remember : Signed → Grids → Grids
unfolding forget_old
remember s grids =
    let m = set_key (by_seq grids s.report.product_id) s.report.surface_seq s in
    set_key grids s.report.product_id (forget_old m)

-- The sequence of the next report: after the latest one here and the one on chain.
unfoldable pub next_seq : Option Signed → ℕ → ℕ
next_seq none on_chain = on_chain + 1
next_seq (some s) on_chain =
    if ltb on_chain s.report.surface_seq then s.report.surface_seq + 1 else on_chain + 1

-- `sortSignatures`; `none` where it throws on a signer that is there twice.
unfoldable pub insert_signature : Signature → List Signature → List Signature
insert_signature a [] = a ∷ []
insert_signature a (b ∷ sigs) =
    let rest = insert_signature a sigs in if ltb b.signer a.signer then b ∷ rest else a ∷ b ∷ sigs

unfoldable pub sorted_signatures : List Signature → List Signature
unfolding insert_signature
sorted_signatures [] = []
sorted_signatures (a ∷ sigs) = insert_signature a (sorted_signatures sigs)

unfoldable pub has_duplicate : List Signature → Bool
has_duplicate [] = false
has_duplicate (a ∷ []) = false
has_duplicate (a ∷ b ∷ sigs) = (b.signer == a.signer) || has_duplicate (b ∷ sigs)

unfoldable pub sort_signatures : List Signature → Option (List ℕ)
unfolding sorted_signatures has_duplicate
sort_signatures sigs =
    let sorted = sorted_signatures sigs in
    if has_duplicate sorted then none else some (map (λ (s : Signature). s.signature) sorted)

-- The oracle's publishers and the quorum, `recover` standing for recoverTypedDataAddress.
pub record Oracle : Type 0 where
  pub quorum : ℕ
  pub is_active : ℕ → Bool
  pub is_independent : ℕ → Bool
  pub recover : SurfaceReport → ℕ → ℕ

pub data QuorumError : Type 0 where
  not_recovered : ℕ → QuorumError
  too_few : (active quorum : ℕ) → QuorumError
  not_independent : QuorumError

module _ (o : Oracle) where
  abbrev pub end_of_count : ℕ → Bool → Option QuorumError
  end_of_count active independent =
      if ltb active o.quorum
      then some (too_few active o.quorum)
      else if independent
      then none
      else some not_independent

  unfoldable pub count_signatures : SurfaceReport → List Signature → ℕ → Bool → Option QuorumError
  count_signatures r [] active independent = end_of_count active independent
  count_signatures r (s ∷ sigs) active independent =
      let rest =
        count_signatures r sigs (if o.is_active s.signer then active + 1 else active)
          ((o.is_active s.signer && o.is_independent s.signer) || independent) in
      if o.recover r s.signature == s.signer then rest else some (not_recovered s.signer)

  -- `none` where the signatures make a quorum.
  unfoldable pub check_quorum : SurfaceReport → List Signature → Option QuorumError
  unfolding count_signatures
  check_quorum r sigs = count_signatures r sigs 0 false

-- What `build` has found: why there is nothing to publish, or the report with its grid and violations.
pub data Built : Type 0 where
  no_listed_series inputs_failed : Built
  built : SurfaceReport → SurfaceGrid → List ViolationCode → Built

pub data PublishResult : Type 0 where
  published : Signed → PublishResult
  no_series inputs duplicate_signer : PublishResult
  violations : List ViolationCode → PublishResult
  quorum_error : QuorumError → PublishResult

-- The signatures of this operator's keys and of the cosigners that answer.
abbrev pub own_signatures : (ℕ → SurfaceReport → ℕ) → List ℕ → SurfaceReport → List Signature
own_signatures sign [] r = []
own_signatures sign (key ∷ keys) r =
    record { signer = key; signature = sign key r } ∷ own_signatures sign keys r

abbrev pub cosignatures :
    List (SurfaceReport → List (List ℕ) → Option Signature)
    → SurfaceReport
    → List (List ℕ)
    → List Signature
cosignatures [] r w = []
cosignatures (c ∷ cs) r w =
    let rest = cosignatures cs r w in elim (c r w) [ none ↦ rest | some s ↦ s ∷ rest ]

module _ (o : Oracle) (sign : ℕ → SurfaceReport → ℕ) (signers : List ℕ)
    (cosigners : List (SurfaceReport → List (List ℕ) → Option Signature)) where
  abbrev pub all_signatures : SurfaceReport → SurfaceGrid → List Signature
  all_signatures r g = own_signatures sign signers r ++ cosignatures cosigners r g.w

  abbrev pub signed_by : SurfaceReport → SurfaceGrid → List Signature → List ℕ → Signed
  signed_by r g sigs signatures = record {
    report = r;
    grid = g;
    signatures = signatures;
    signers = map (λ (x : Signature). x.signer) sigs;
  }

  abbrev pub finish :
      SurfaceReport
      → SurfaceGrid
      → List Signature
      → Grids
      → Option QuorumError
      → Option (List ℕ)
      → Grids × PublishResult
  finish r g sigs grids (some err) sorted = (grids, quorum_error err)
  finish r g sigs grids none none = (grids, duplicate_signer)
  finish r g sigs grids none (some signatures) =
      let s = signed_by r g sigs signatures in (remember s grids, published s)

  unfoldable pub publish : Built → Grids → Grids × PublishResult
  unfolding check_quorum sort_signatures remember
  publish no_listed_series grids = (grids, no_series)
  publish inputs_failed grids = (grids, inputs)
  publish (built r g (v ∷ vs)) grids = (grids, violations (v ∷ vs))
  publish (built r g []) grids =
      let sigs = all_signatures r g in
      finish r g sigs grids (check_quorum o r sigs) (sort_signatures sigs)

pub data CosignResult : Type 0 where
  cosigned : Signature → CosignResult
  no_local_signer grid_mismatch not_published_here : CosignResult
  -- The error of the grid that is built again.
  no_grid : Surface.SurfaceError → CosignResult
  refused : List ViolationCode → CosignResult

-- `cosign`: the grid is built again, its root compared, and the report validated in this node's context.
module _ (keccak : ℕ → ℕ → ℕ) (leaf_hash : ℕ → ℕ → ℕ → ℕ → ℕ → ℕ) (floats : FloatChecks)
    (sign : ℕ → SurfaceReport → ℕ) (products : List ℕ) (context : ℕ → ValidationContext) where
  abbrev has_root : SurfaceGrid → ℕ → Bool
  has_root g r = elim (root g.tree) [ none ↦ false | some top ↦ top == r ]

  abbrev pub with_violations : ℕ → SurfaceReport → List ViolationCode → CosignResult
  with_violations key r [] = cosigned (record { signer = key; signature = sign key r })
  with_violations key r (v ∷ vs) = refused (v ∷ vs)

  abbrev pub cosign_grid :
      ℕ → SurfaceReport → List (List ℕ) → Surface.Result SurfaceGrid → CosignResult
  cosign_grid key r grid (Surface.err e) = no_grid e
  cosign_grid key r grid (Surface.ok g) =
      if has_root g r.surface_root
      then if elem r.product_id products
        then with_violations key r (validate_report floats r grid (context r.product_id))
        else not_published_here
      else grid_mismatch

  unfoldable pub cosign : List ℕ → SurfaceReport → List (List ℕ) → CosignResult
  cosign [] r grid = no_local_signer
  cosign (key ∷ keys) r grid =
      cosign_grid key r grid (surface_grid keccak leaf_hash r.product_id r.surface_seq grid)
