-- ===== src/Publisher/Reports/Quorum.antt =====
-- publisher/src/publisher.ts, `checkQuorum` and `publish`: a published report has no violation, and its
-- signatures are a quorum in the order that the contract takes.
use optara.Common.{
  ℕ, ◌+◌, ◌≤◌, Bool, true, false, ◌&&◌, ◌||◌, Option, none, List, [], ◌∷◌, map, length, ◌==◌,
  ==_iff, any, keep_if, All, ◌≡◌, ◌↔◌, refl, sym, ◌∙◌, inl, inr, arith, Bool-cases, or-false,
  or-true, Option-cases, true≢false,
}
use optara.Sdk.Surface.{SurfaceReport}
use optara.Publisher.Reports.{
  Signature, Grids, remember, sort_signatures, Oracle, count_signatures, check_quorum, Built,
  no_listed_series, inputs_failed, built, PublishResult, published, all_signatures, publish,
}
use optara.Publisher.Reports.Proofs.{IsSignatureList, sort_signatures-IsSignatureList}

module _ (o : Oracle) where
  abbrev active_of : List Signature → ℕ
  active_of sigs = length (keep_if (λ (s : Signature). o.is_active s.signer) sigs)

  abbrev independent_in : List Signature → Bool
  independent_in sigs =
      any (λ (s : Signature). o.is_active s.signer && o.is_independent s.signer) sigs

  -- Every signature recovers to its signer, enough signers are active, and one of them is independent.
  abbrev pub IsQuorum : SurfaceReport → List Signature → Type 0
  IsQuorum r sigs =
      All (λ (s : Signature). o.recover r s.signature ≡ s.signer) sigs
      × (o.quorum ≤ active_of sigs)
      × (independent_in sigs ≡ true)

  abbrev Counts : SurfaceReport → List Signature → ℕ → Bool → Type 0
  Counts r sigs active independent =
      All (λ (s : Signature). o.recover r s.signature ≡ s.signer) sigs
      × (o.quorum ≤ active_of sigs + active)
      × ((independent_in sigs || independent) ≡ true)

  count_signatures_iff :
      (r : SurfaceReport) (sigs : List Signature) (active : ℕ) (independent : Bool)
      → (count_signatures o r sigs active independent ≡ none) ↔ Counts r sigs active independent
  unfolding count_signatures
  count_signatures_iff r [] active independent =
      (λ h. (tt, ground arith, ground arith), λ h. ground arith)
  count_signatures_iff r (s ∷ sigs) active independent =
      elim (Bool-cases (o.recover r s.signature == s.signer)) [
        | inr wrong ↦ (
          λ h. absurd (cc),
          λ h.
              absurd
                (true≢false (sym ((==_iff (o.recover r s.signature) s.signer).1 h.0.0) ∙ wrong)),
        )
        | inl good ↦
            let same : o.recover r s.signature ≡ s.signer =
              (==_iff (o.recover r s.signature) s.signer).0 good in
            elim (Bool-cases (o.is_active s.signer)) [
              | inr idle ↦
                  let ih = count_signatures_iff r sigs active independent in
                  rw (good, idle)
                    (λ h. let p = ih.0 h in ((same, p.0), p.1, p.2), λ h. ih.1 (h.0.1, h.1, h.2))
              | inl act ↦ elim (Bool-cases (o.is_independent s.signer)) [
                | inr own ↦
                    let ih = count_signatures_iff r sigs (active + 1) independent in
                    rw (good, act)
                      (rw own (
                        λ h. let p = ih.0 h in ((same, p.0), omega (arith, p.1), p.2),
                        λ h. ih.1 (h.0.1, omega (arith, h.1), h.2),
                      ))
                | inl other ↦
                    let ih = count_signatures_iff r sigs (active + 1) true in
                    rw (good, act)
                      (rw other (
                        λ h. let p = ih.0 h in ((same, p.0), omega (arith, p.1), refl),
                        λ h. ih.1 (h.0.1, omega (arith, h.1), or-true (independent_in sigs)),
                      ))
              ]
            ]
      ]

  -- The quorum check says nothing exactly where the quorum is reached.
  pub check_quorum_iff :
      (r : SurfaceReport) (sigs : List Signature) → (check_quorum o r sigs ≡ none) ↔ IsQuorum r sigs
  unfolding check_quorum
  check_quorum_iff r sigs =
      let counted = count_signatures_iff r sigs 0 false in
      (
        λ h.
            let p = counted.0 h in
            (p.0, omega (arith, p.1), sym (or-false (independent_in sigs)) ∙ p.2),
        λ h. counted.1 (h.0, omega (arith, h.1), or-false (independent_in sigs) ∙ h.2),
      )

-- What a publication leaves of the remembered reports, as a statement of its answer.
abbrev pub IsPublished :
    Oracle
    → (ℕ → SurfaceReport → ℕ)
    → List ℕ
    → List (SurfaceReport → List (List ℕ) → Option Signature)
    → Built
    → Grids
    → Grids × PublishResult
    → Type 0
IsPublished o sign signers cosigners (built r g vs) grids (grids', published s) =
    let sigs = all_signatures o sign signers cosigners r g in
    (vs ≡ [])
    × (s.report ≡ r)
    × (s.grid ≡ g)
    × IsQuorum o r sigs
    × IsSignatureList sigs s.signatures
    × (s.signers ≡ map (λ (x : Signature). x.signer) sigs)
    × (grids' ≡ remember s grids)
IsPublished o sign signers cosigners b grids (grids', published s) = ⊥
IsPublished o sign signers cosigners b grids (grids', _) = grids' ≡ grids

-- Publishing either leaves the remembered reports as they are, or has remembered the signed
-- report that was built, with its grid: it has no violation, every signature recovers to its
-- signer, at least a quorum of the signers is active, one of them is active and independent,
-- and the signatures handed out are all of those, in strictly ascending order of their
-- signers.
pub publish-IsPublished :
    (o : Oracle) (sign : ℕ → SurfaceReport → ℕ) (signers : List ℕ)
    (cosigners : List (SurfaceReport → List (List ℕ) → Option Signature)) (b : Built)
    (grids : Grids)
    → IsPublished o sign signers cosigners b grids (publish o sign signers cosigners b grids)
unfolding publish
publish-IsPublished o sign signers cosigners no_listed_series grids = refl
publish-IsPublished o sign signers cosigners inputs_failed grids = refl
publish-IsPublished o sign signers cosigners (built r g (v ∷ vs)) grids = refl
publish-IsPublished o sign signers cosigners (built r g []) grids =
    let sigs = all_signatures o sign signers cosigners r g in
    elim (Option-cases (check_quorum o r sigs)) [
      | inl enough ↦
          let quorum = (check_quorum_iff o r sigs).0 enough in
          elim (Option-cases (sort_signatures sigs)) [
            | inl twice ↦ rw (enough, twice) refl
            | inr (out, sorted) ↦
                rw (enough, sorted)
                  (
                    refl,
                    refl,
                    refl,
                    quorum,
                    sort_signatures-IsSignatureList sigs out sorted,
                    refl,
                    refl,
                  )
          ]
      | inr (err, short) ↦ rw short refl
    ]
