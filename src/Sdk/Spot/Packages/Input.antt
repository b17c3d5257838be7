-- ===== src/Sdk/Spot/Packages/Input.antt =====
-- sdk/src/signedPrices.ts: the entries by timestamp against the packages that they are made from.
use optara.Common.{
  ℕ, zero, suc, ◌≤◌, ◌<◌, ◌&&◌, some, List, [], ◌∷◌, ◌++◌, map, length, elem, add_to, All,
  All-append, All-map, get_elem?, get_key, set_key, get_key-set_key, ◌==◌, ==_iff, if◌then◌else◌,
  ◌≡◌, refl, sym, ap, ◌∙◌, inl, inr, Bool-cases,
}
use optara.Sdk.Spot.Packages.{
  GatewayPackage, or_no_packages, has_signer, add_package, take_packages, by_timestamp,
}

abbrev signers_of : List GatewayPackage → List ℕ
signers_of l = map (λ (p : GatewayPackage). p.signer) l

-- The set of authorized signers of packages on a timestamp, added to those in `out`.
abbrev pub signers_from : List ℕ → ℕ → List GatewayPackage → List ℕ → List ℕ
signers_from authorized t [] out = out
signers_from authorized t (p ∷ packages) out =
    signers_from authorized t packages
      (if elem p.signer authorized && (p.timestamp == t) then add_to p.signer out else out)

-- The timestamp has a package of an authorized signer, and of at least `n` distinct ones.
abbrev pub HasQuorum : List ℕ → ℕ → List GatewayPackage → ℕ → Type 0
HasQuorum authorized n packages t =
    let signers = signers_from authorized t packages [] in
    (0 < length signers) × (n ≤ length signers)

has_signer-elem : (a : ℕ) (l : List GatewayPackage) → has_signer a l ≡ elem a (signers_of l)
has_signer-elem a [] = refl
has_signer-elem a (q ∷ l) = elim (Bool-cases (q.signer == a)) [
  | inl here ↦ rw here refl
  | inr there ↦ rw there (has_signer-elem a l)
]

signers_of-append :
    (l : List GatewayPackage) (p : GatewayPackage)
    → signers_of (l ++ p ∷ []) ≡ signers_of l ++ p.signer ∷ []
signers_of-append [] p = refl
signers_of-append (q ∷ l) p = ap (λ s. q.signer ∷ s) (signers_of-append l p)

signers_of-add_package :
    (p : GatewayPackage) (l : List GatewayPackage)
    → signers_of (add_package p l) ≡ add_to p.signer (signers_of l)
signers_of-add_package p l = elim (Bool-cases (has_signer p.signer l)) [
  | inl old ↦ rw (old, sym (has_signer-elem p.signer l) ∙ old) refl
  | inr new ↦ rw (new, sym (has_signer-elem p.signer l) ∙ new) (signers_of-append l p)
]

-- The signers that the entries have on a timestamp.
abbrev listed : List (ℕ × List GatewayPackage) → ℕ → List ℕ
listed out t = signers_of (or_no_packages (get_key out t))

listed-set_key :
    (p : GatewayPackage) (out : List (ℕ × List GatewayPackage)) (t : ℕ)
    → listed (set_key out p.timestamp (add_package p (or_no_packages (get_key out p.timestamp)))) t
      ≡ (if p.timestamp == t then add_to p.signer (listed out t) else listed out t)
listed-set_key p out t =
    let l = add_package p (or_no_packages (get_key out p.timestamp)) in
    ap (λ o. signers_of (or_no_packages o)) (get_key-set_key out p.timestamp l t)
    ∙ elim (Bool-cases (p.timestamp == t)) [
      | inl here ↦ rw here (
          signers_of-add_package p (or_no_packages (get_key out p.timestamp))
          ∙ ap (λ u. add_to p.signer (listed out u)) ((==_iff p.timestamp t).0 here))
      | inr there ↦ rw there refl
    ]

-- Each entry has the authorized signers of the packages on its timestamp.
listed-by_timestamp :
    (authorized : List ℕ) (n : ℕ) (packages : List GatewayPackage)
    (out : List (ℕ × List GatewayPackage)) (t : ℕ)
    → listed (by_timestamp authorized n packages out) t
      ≡ signers_from authorized t packages (listed out t)
unfolding by_timestamp
listed-by_timestamp authorized n [] out t = refl
listed-by_timestamp authorized n (p ∷ packages) out t =
    elim (Bool-cases (elem p.signer authorized)) [
      | inl ours ↦
          let l = add_package p (or_no_packages (get_key out p.timestamp)) in
          rw ours (
            listed-by_timestamp authorized n packages (set_key out p.timestamp l) t
            ∙ ap (signers_from authorized t packages) (listed-set_key p out t))
      | inr others ↦ rw others (listed-by_timestamp authorized n packages out t)
    ]

signers_of-length : (l : List GatewayPackage) → length (signers_of l) ≡ length l
signers_of-length [] = refl
signers_of-length (p ∷ l) = ap suc (signers_of-length l)

pub signers_counted :
    (authorized : List ℕ) (n : ℕ) (packages : List GatewayPackage) (t : ℕ)
    → length (signers_from authorized t packages [])
      ≡ length (or_no_packages (get_key (by_timestamp authorized n packages []) t))
unfolding get_key
signers_counted authorized n packages t =
    ap length (sym (listed-by_timestamp authorized n packages [] t))
    ∙ signers_of-length (or_no_packages (get_key (by_timestamp authorized n packages []) t))

-- One of the packages.
abbrev pub IsFrom : List GatewayPackage → GatewayPackage → Type 0
IsFrom packages q = (k : ℕ) × (get_elem? packages k ≡ some q)

IsFrom-self : (packages : List GatewayPackage) → All (IsFrom packages) packages
IsFrom-self [] = tt
IsFrom-self (p ∷ packages) =
    ((0, refl), All-map (λ q (k, e). (suc k, e)) packages (IsFrom-self packages))

module _ (P : GatewayPackage → Type 0) where
  -- The predicate at every package of an entry.
  abbrev pub AllIn : ℕ × List GatewayPackage → Type 0
  AllIn e = All P e.1

  get_key-AllIn :
      (out : List (ℕ × List GatewayPackage)) (t : ℕ)
      → All AllIn out
      → All P (or_no_packages (get_key out t))
  unfolding get_key
  get_key-AllIn [] t h = tt
  get_key-AllIn ((u, l) ∷ out) t (now, later) = elim (Bool-cases (u == t)) [
    | inl here ↦ rw here now
    | inr there ↦ rw there (get_key-AllIn out t later)
  ]

  set_key-AllIn :
      (out : List (ℕ × List GatewayPackage)) (t : ℕ) (l : List GatewayPackage)
      → All AllIn out
      → All P l
      → All AllIn (set_key out t l)
  unfolding set_key
  set_key-AllIn [] t l h a = (a, tt)
  set_key-AllIn ((u, k) ∷ out) t l (now, later) a = elim (Bool-cases (u == t)) [
    | inl here ↦ rw here (a, later)
    | inr there ↦ rw there (now, set_key-AllIn out t l later a)
  ]

  add_package-All :
      (p : GatewayPackage) (l : List GatewayPackage) → P p → All P l → All P (add_package p l)
  add_package-All p l h a = elim (Bool-cases (has_signer p.signer l)) [
    | inl old ↦ rw old a
    | inr new ↦ rw new (All-append P l (p ∷ []) a (h, tt))
  ]

  by_timestamp-AllIn :
      (authorized : List ℕ) (n : ℕ) (packages : List GatewayPackage)
      (out : List (ℕ × List GatewayPackage))
      → All P packages
      → All AllIn out
      → All AllIn (by_timestamp authorized n packages out)
  unfolding by_timestamp
  by_timestamp-AllIn authorized n [] out h a = a
  by_timestamp-AllIn authorized n (p ∷ packages) out (now, later) a =
      elim (Bool-cases (elem p.signer authorized)) [
        | inl ours ↦
            let old = or_no_packages (get_key out p.timestamp) in
            rw ours (
              by_timestamp-AllIn authorized n packages (set_key out p.timestamp (add_package p old))
                later
                (set_key-AllIn out p.timestamp (add_package p old) a
                  (add_package-All p old now (get_key-AllIn out p.timestamp a))))
        | inr others ↦ rw others (by_timestamp-AllIn authorized n packages out later a)
      ]

  pub take-All : (n : ℕ) (l : List GatewayPackage) → All P l → All P (take_packages n l)
  unfolding take_packages
  take-All zero l h = tt
  take-All (suc n) [] h = tt
  take-All (suc n) (p ∷ l) (now, later) = (now, take-All n l later)

pub by_timestamp-IsFrom :
    (authorized : List ℕ) (n : ℕ) (packages : List GatewayPackage)
    → All (AllIn (IsFrom packages)) (by_timestamp authorized n packages [])
by_timestamp-IsFrom authorized n packages =
    by_timestamp-AllIn (IsFrom packages) authorized n packages [] (IsFrom-self packages) tt
