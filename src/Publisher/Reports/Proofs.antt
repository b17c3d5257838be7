-- ===== src/Publisher/Reports/Proofs.antt =====
-- publisher/src/publisher.ts, `publish`: what is signed has no violation, and its signatures make a quorum.
use mathlib.Core.List.{Perm}
use mathlib.Core.List.Perm as Perm
use optara.Common.{
  ℕ, ◌≤◌, ◌<◌, false, some, List, [], ◌∷◌, map, ltb, ◌==◌, ◌≡◌, inl, inr, arith, Bool-cases,
}
use optara.Common.Elem.{or_none}
use optara.Publisher.Reports.{
  Signature, insert_signature, sorted_signatures, has_duplicate, sort_signatures,
}

-- Each signer after the first is above the one before.
abbrev pub IsAscending : List Signature → Type 0
IsAscending [] = Unit
IsAscending (a ∷ []) = Unit
IsAscending (a ∷ b ∷ sigs) = (a.signer < b.signer) × IsAscending (b ∷ sigs)

abbrev IsSorted : List Signature → Type 0
IsSorted [] = Unit
IsSorted (a ∷ []) = Unit
IsSorted (a ∷ b ∷ sigs) = (a.signer ≤ b.signer) × IsSorted (b ∷ sigs)

insert_signature-Perm :
    (a : Signature) (sigs : List Signature) → Perm (insert_signature a sigs) (a ∷ sigs)
unfolding insert_signature
insert_signature-Perm a [] = Perm.refl (a ∷ [])
insert_signature-Perm a (b ∷ sigs) = elim (Bool-cases (ltb b.signer a.signer)) [
  | inl later ↦
      rw later (Perm.trans (Perm.cons b (insert_signature-Perm a sigs)) (Perm.swap a b sigs))
  | inr here ↦ rw here (Perm.refl (a ∷ b ∷ sigs))
]

sorted_signatures-Perm : (sigs : List Signature) → Perm (sorted_signatures sigs) sigs
unfolding sorted_signatures
sorted_signatures-Perm [] = Perm.nil
sorted_signatures-Perm (a ∷ sigs) =
    Perm.trans (insert_signature-Perm a (sorted_signatures sigs))
      (Perm.cons a (sorted_signatures-Perm sigs))

cons-IsSorted :
    (a b : Signature) (sigs : List Signature)
    → b.signer ≤ a.signer
    → IsSorted (b ∷ sigs)
    → IsSorted (insert_signature a sigs)
    → IsSorted (b ∷ insert_signature a sigs)
unfolding insert_signature
cons-IsSorted a b [] h s t = (h, tt)
cons-IsSorted a b (c ∷ sigs) h s t = elim (Bool-cases (ltb c.signer a.signer)) [
  | inl later ↦ rw later (s.0, rw later at t)
  | inr here ↦ rw here (h, rw here at t)
]

insert_signature-IsSorted :
    (a : Signature) (sigs : List Signature) → IsSorted sigs → IsSorted (insert_signature a sigs)
unfolding insert_signature
insert_signature-IsSorted a [] s = tt
insert_signature-IsSorted a (b ∷ []) s = ground arith
insert_signature-IsSorted a (b ∷ c ∷ sigs) s =
    let rest = insert_signature-IsSorted a (c ∷ sigs) s.1 in
    elim (Bool-cases (ltb b.signer a.signer)) [
      | inl later ↦ rw later (cons-IsSorted a b (c ∷ sigs) (ground arith) s rest)
      | inr here ↦ rw here (ground arith, s)
    ]

sorted_signatures-IsSorted : (sigs : List Signature) → IsSorted (sorted_signatures sigs)
unfolding sorted_signatures
sorted_signatures-IsSorted [] = tt
sorted_signatures-IsSorted (a ∷ sigs) =
    insert_signature-IsSorted a (sorted_signatures sigs) (sorted_signatures-IsSorted sigs)

distinct-IsAscending :
    (sigs : List Signature) → IsSorted sigs → has_duplicate sigs ≡ false → IsAscending sigs
unfolding has_duplicate
distinct-IsAscending [] s h = tt
distinct-IsAscending (a ∷ []) s h = tt
distinct-IsAscending (a ∷ b ∷ sigs) s h =
    let parts = or_none (b.signer == a.signer) (has_duplicate (b ∷ sigs)) h in
    (ground arith, distinct-IsAscending (b ∷ sigs) s.1 parts.1)

-- The signatures handed to the contract: those of the list, in strictly ascending order of their signers.
abbrev pub IsSignatureList : List Signature → List ℕ → Type 0
IsSignatureList sigs out =
    (sorted : List Signature) × Perm sorted sigs
    × IsAscending sorted
    × (out ≡ map (λ (s : Signature). s.signature) sorted)

pub sort_signatures-IsSignatureList :
    (sigs : List Signature) (out : List ℕ)
    → sort_signatures sigs ≡ some out
    → IsSignatureList sigs out
unfolding sort_signatures
sort_signatures-IsSignatureList sigs out h =
    let sorted = sorted_signatures sigs in
    elim (Bool-cases (has_duplicate sorted)) [
      | inl twice ↦ absurd (cc)
      | inr distinct ↦
          let same : some (map (λ (s : Signature). s.signature) sorted) ≡ some out =
            rw distinct at h in
          (
            sorted,
            sorted_signatures-Perm sigs,
            distinct-IsAscending sorted (sorted_signatures-IsSorted sigs) distinct,
            cc,
          )
    ]
