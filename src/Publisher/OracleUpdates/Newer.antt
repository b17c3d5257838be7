-- ===== src/Publisher/OracleUpdates/Newer.antt =====
-- publisher/src/publisher.ts: the reports that an oracle update is made of.
use optara.Common.{
  ℕ, ◌&&◌, Option, none, some, List, [], ◌∷◌, ◌++◌, ltb, ◌≡◌, if◌then◌else◌, get_key,
}
use optara.Publisher.Reports.{Signed, Grids, latest, signed_at, latest_in, by_seq, keys_of, largest}
use optara.Publisher.Nodes.Genuine.{IsAssembled}
use optara.Publisher.OracleUpdates.{ChainView}

-- The latest report of a product, where it is newer than the chain's and not expired.
abbrev pub newer_of : ChainView → ℕ → Option Signed → List Signed
newer_of c p none = []
newer_of c p (some s) =
    if ltb (c.surface_seq p) s.report.surface_seq && ltb c.now s.report.expires_at
    then s ∷ []
    else []

abbrev pub newer : Grids → ChainView → List ℕ → List Signed
newer grids c [] = []
newer grids c (p ∷ products) = newer_of c p (latest grids p) ++ newer grids c products

-- Every report that is kept was assembled with its grid.
abbrev pub AllAssembled : (ℕ → ℕ → ℕ) → (ℕ → ℕ → ℕ → ℕ → ℕ → ℕ) → Grids → Type 0
AllAssembled keccak leaf_hash grids =
    (p seq : ℕ) (s : Signed)
    → signed_at grids p seq ≡ some s
    → IsAssembled keccak leaf_hash s.report s.grid

latest_in-get_key :
    (m : List (ℕ × Signed)) (ks : List ℕ) (s : Signed)
    → latest_in m ks ≡ some s
    → (k : ℕ) × (get_key m k ≡ some s)
latest_in-get_key m [] s e = cc e
latest_in-get_key m (a ∷ ks) s e = (largest a ks, e)

pub latest-IsAssembled :
    (keccak : ℕ → ℕ → ℕ) (leaf_hash : ℕ → ℕ → ℕ → ℕ → ℕ → ℕ) (grids : Grids)
    → AllAssembled keccak leaf_hash grids
    → (p : ℕ) (s : Signed) → latest grids p ≡ some s
    → IsAssembled keccak leaf_hash s.report s.grid
unfolding latest signed_at
latest-IsAssembled keccak leaf_hash grids kept p s e =
    let (k, found) = latest_in-get_key (by_seq grids p) (keys_of (by_seq grids p)) s e in
    kept p k s found
