-- ===== src/Sdk/Spot/Packages/Signers.antt =====
-- sdk/src/signedPrices.ts: the packages of one timestamp have distinct authorized signers.
use optara.Common.{
  ℕ, zero, suc, ◌≤◌, true, false, List, [], ◌∷◌, ◌++◌, length, elem, All, get_key, set_key, ◌==◌,
  ==_iff, if◌then◌else◌, ◌≡◌, refl, sym, ap, ◌∙◌, subst, inl, inr, arith, Bool-cases, true≢false,
}
use optara.Sdk.Spot.Packages.{
  GatewayPackage, or_no_packages, has_signer, add_package, take_packages, by_timestamp,
}

-- Packages of distinct authorized signers on one timestamp.
abbrev pub IsAgreed : List ℕ → ℕ → List GatewayPackage → Type 0
IsAgreed authorized t [] = Unit
IsAgreed authorized t (p ∷ l) =
    (p.timestamp ≡ t)
    × (elem p.signer authorized ≡ true)
    × (has_signer p.signer l ≡ false)
    × IsAgreed authorized t l

abbrev pub AllAgreed : List ℕ → List (ℕ × List GatewayPackage) → Type 0
AllAgreed authorized entries =
    All (λ (e : ℕ × List GatewayPackage). IsAgreed authorized e.0 e.1) entries

has_signer-cons :
    (a : ℕ) (q : GatewayPackage) (l : List GatewayPackage)
    → has_signer a (q ∷ l) ≡ false
    → ((q.signer == a) ≡ false) × (has_signer a l ≡ false)
has_signer-cons a q l h = elim (Bool-cases (q.signer == a)) [
  | inl here ↦ absurd (true≢false (sym (ap (λ b. if b then true else has_signer a l) here) ∙ h))
  | inr there ↦ (there, sym (ap (λ b. if b then true else has_signer a l) there) ∙ h)
]

has_signer-append :
    (a : ℕ) (p : GatewayPackage) (l : List GatewayPackage)
    → has_signer a l ≡ false
    → (p.signer == a) ≡ false
    → has_signer a (l ++ p ∷ []) ≡ false
has_signer-append a p [] h k = rw k refl
has_signer-append a p (q ∷ l) h k =
    let parts = has_signer-cons a q l h in rw parts.0 (has_signer-append a p l parts.1 k)

-- Appended at the end, a new signer keeps the others' distinctness.
append-IsAgreed :
    (authorized : List ℕ) (t : ℕ) (p : GatewayPackage) (l : List GatewayPackage)
    → IsAgreed authorized t l
    → p.timestamp ≡ t
    → elem p.signer authorized ≡ true
    → has_signer p.signer l ≡ false
    → IsAgreed authorized t (l ++ p ∷ [])
append-IsAgreed authorized t p [] a h k new = (h, k, refl, tt)
append-IsAgreed authorized t p (q ∷ l) (ht, ha, hn, rest) h k new =
    let parts = has_signer-cons p.signer q l new in
    let other : (p.signer == q.signer) ≡ false = ground (arith, parts.0) in
    (
      ht,
      ha,
      has_signer-append q.signer p l hn other,
      append-IsAgreed authorized t p l rest h k parts.1,
    )

add_package-IsAgreed :
    (authorized : List ℕ) (t : ℕ) (p : GatewayPackage) (l : List GatewayPackage)
    → IsAgreed authorized t l
    → p.timestamp ≡ t
    → elem p.signer authorized ≡ true
    → IsAgreed authorized t (add_package p l)
add_package-IsAgreed authorized t p l a h k = elim (Bool-cases (has_signer p.signer l)) [
  | inl old ↦ rw old a
  | inr new ↦ rw new (append-IsAgreed authorized t p l a h k new)
]

get_key-AllAgreed :
    (authorized : List ℕ) (entries : List (ℕ × List GatewayPackage)) (t : ℕ)
    → AllAgreed authorized entries
    → IsAgreed authorized t (or_no_packages (get_key entries t))
unfolding get_key
get_key-AllAgreed authorized [] t h = tt
get_key-AllAgreed authorized ((u, l) ∷ entries) t h = elim (Bool-cases (u == t)) [
  | inl here ↦ rw here (subst (λ u. IsAgreed authorized u l) ((==_iff u t).0 here) h.0)
  | inr there ↦ rw there (get_key-AllAgreed authorized entries t h.1)
]

set_key-AllAgreed :
    (authorized : List ℕ) (entries : List (ℕ × List GatewayPackage)) (t : ℕ)
    (l : List GatewayPackage)
    → AllAgreed authorized entries
    → IsAgreed authorized t l
    → AllAgreed authorized (set_key entries t l)
unfolding set_key
set_key-AllAgreed authorized [] t l h a = (a, tt)
set_key-AllAgreed authorized ((u, k) ∷ entries) t l h a = elim (Bool-cases (u == t)) [
  | inl here ↦ rw here (subst (λ u. IsAgreed authorized u l) (sym ((==_iff u t).0 here)) a, h.1)
  | inr there ↦ rw there (h.0, set_key-AllAgreed authorized entries t l h.1 a)
]

pub by_timestamp-AllAgreed :
    (authorized : List ℕ) (n : ℕ) (packages : List GatewayPackage)
    (out : List (ℕ × List GatewayPackage))
    → AllAgreed authorized out
    → AllAgreed authorized (by_timestamp authorized n packages out)
unfolding by_timestamp
by_timestamp-AllAgreed authorized n [] out h = h
by_timestamp-AllAgreed authorized n (p ∷ packages) out h =
    elim (Bool-cases (elem p.signer authorized)) [
      | inl ours ↦ rw ours (
          let old = or_no_packages (get_key out p.timestamp) in
          by_timestamp-AllAgreed authorized n packages (set_key out p.timestamp (add_package p old))
            (set_key-AllAgreed authorized out p.timestamp (add_package p old) h (
              add_package-IsAgreed authorized p.timestamp p old
                (get_key-AllAgreed authorized out p.timestamp h) refl ours)))
      | inr others ↦ rw others (by_timestamp-AllAgreed authorized n packages out h)
    ]

has_signer-take :
    (a n : ℕ) (l : List GatewayPackage)
    → has_signer a l ≡ false
    → has_signer a (take_packages n l) ≡ false
unfolding take_packages
has_signer-take a zero l h = refl
has_signer-take a (suc n) [] h = refl
has_signer-take a (suc n) (q ∷ l) h =
    let parts = has_signer-cons a q l h in rw parts.0 (has_signer-take a n l parts.1)

pub take-IsAgreed :
    (authorized : List ℕ) (t n : ℕ) (l : List GatewayPackage)
    → IsAgreed authorized t l
    → n ≤ length l
    → IsAgreed authorized t (take_packages n l) × (length (take_packages n l) ≡ n)
unfolding take_packages
take-IsAgreed authorized t zero l a h = (tt, refl)
take-IsAgreed authorized t (suc n) [] a h = absurd (omega arith)
take-IsAgreed authorized t (suc n) (q ∷ l) (ht, ha, hn, rest) h =
    let (agreed, size) = take-IsAgreed authorized t n l rest (omega arith) in
    ((ht, ha, has_signer-take q.signer n l hn, agreed), ap suc size)
