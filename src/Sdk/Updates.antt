-- ===== src/Sdk/Updates.antt =====
-- sdk/src/oracleUpdate.ts: oracle updates put together without duplicates. The sets of what was seen are
-- read off the lists that are built along with them.
pub mod Tests
use optara.Common.{
  ℕ, zero, suc, ◌+◌, ◌≡◌, refl, ap, ◌∙◌, Bool, true, false, ◌&&◌, ◌||◌, Option, none, some, List,
  [], ◌∷◌, ◌++◌, length, length-append, get_elem?, ◌==◌, if◌then◌else◌, elem, add_to, arith,
  Bool-cases, inl, inr,
}
use optara.Sdk.Surface.{SurfaceReport, NodeProof}

-- A report's signatures are missing where the update has fewer lists than reports.
pub record OracleUpdate : Type 0 where
  pub spot_updates : List ℕ
  pub spot_product_ids : List ℕ
  pub reports : List SurfaceReport
  pub report_signatures : List (Option (List ℕ))
  pub nodes : List NodeProof

abbrev pub empty_oracle_update : OracleUpdate
empty_oracle_update = record {
  spot_updates = [];
  spot_product_ids = [];
  reports = [];
  report_signatures = [];
  nodes = [];
}

abbrev pub has_report : SurfaceReport → List SurfaceReport → Bool
has_report r [] = false
has_report r (x ∷ xs) =
    ((x.product_id == r.product_id) && (x.surface_seq == r.surface_seq)) || has_report r xs

abbrev pub has_node : NodeProof → List NodeProof → Bool
has_node n [] = false
has_node n (x ∷ xs) =
    ((x.product_id == n.product_id)
      && (x.surface_seq == n.surface_seq)
      && (x.tenor_index == n.tenor_index)
      && (x.node_index == n.node_index))
    || has_node n xs

abbrev pub add_products : List ℕ → List ℕ → List ℕ
add_products [] out = out
add_products (p ∷ ps) out = add_products ps (add_to p out)

-- `u.reports.forEach((r, i) => ...)`, from index `i` on.
abbrev pub or_missing : Option (Option (List ℕ)) → Option (List ℕ)
or_missing none = none
or_missing (some x) = x

abbrev pub add_report : SurfaceReport → Option (List ℕ) → OracleUpdate → OracleUpdate
add_report r signatures out = if has_report r out.reports then out else record out {
  reports = out.reports ++ r ∷ [];
  report_signatures = out.report_signatures ++ signatures ∷ [];
}

abbrev pub add_reports :
    List SurfaceReport → ℕ → List (Option (List ℕ)) → OracleUpdate → OracleUpdate
add_reports [] i signatures out = out
add_reports (r ∷ rs) i signatures out =
    add_reports rs (suc i) signatures (add_report r (or_missing (get_elem? signatures i)) out)

abbrev pub add_nodes : List NodeProof → List NodeProof → List NodeProof
add_nodes [] out = out
add_nodes (n ∷ ns) out = add_nodes ns (if has_node n out then out else out ++ n ∷ [])

unfoldable pub merge_one : OracleUpdate → OracleUpdate → OracleUpdate
merge_one u out =
    let listed = record out {
      spot_updates = out.spot_updates ++ u.spot_updates;
      spot_product_ids = add_products u.spot_product_ids out.spot_product_ids;
    } in
    let reported = add_reports u.reports 0 u.report_signatures listed in
    record reported { nodes = add_nodes u.nodes reported.nodes }

unfoldable pub merge_into : List OracleUpdate → OracleUpdate → OracleUpdate
unfolding merge_one
merge_into [] out = out
merge_into (u ∷ us) out = merge_into us (merge_one u out)

unfoldable pub merge_oracle_updates : List OracleUpdate → OracleUpdate
unfolding merge_into
merge_oracle_updates us = merge_into us empty_oracle_update

-- No number occurs twice.
abbrev pub AreDistinct : List ℕ → Type 0
AreDistinct [] = Unit
AreDistinct (x ∷ xs) = (elem x xs ≡ false) × AreDistinct xs

absent_append :
    (a x : ℕ) (xs : List ℕ) → elem a xs ≡ false → (x == a) ≡ false → elem a (xs ++ x ∷ []) ≡ false
absent_append a x [] h k = rw k refl
absent_append a x (y ∷ xs) h k = elim (Bool-cases (y == a)) [
  | inl here ↦ let found : elem a (y ∷ xs) ≡ true = rw here refl in cc (found, h)
  | inr there ↦ rw there (absent_append a x xs (rw there at h) k)
]

differ : (a b : ℕ) → (a == b) ≡ false → (b == a) ≡ false
differ a b h = ground arith

append-AreDistinct :
    (x : ℕ) (xs : List ℕ) → elem x xs ≡ false → AreDistinct xs → AreDistinct (xs ++ x ∷ [])
append-AreDistinct x [] h d = (refl, tt)
append-AreDistinct x (y ∷ xs) h d = elim (Bool-cases (y == x)) [
  | inl here ↦ let found : elem x (y ∷ xs) ≡ true = rw here refl in cc (found, h)
  | inr there ↦
      (absent_append y x xs d.0 (differ y x there), append-AreDistinct x xs (rw there at h) d.1)
]

add_products-AreDistinct : (ps out : List ℕ) → AreDistinct out → AreDistinct (add_products ps out)
add_products-AreDistinct [] out d = d
add_products-AreDistinct (p ∷ ps) out d =
    add_products-AreDistinct ps (add_to p out) (elim (Bool-cases (elem p out)) [
      | inl there ↦ rw there d
      | inr absent ↦ rw absent (append-AreDistinct p out absent d)
    ])

-- The product ids are distinct, and each report has an entry for its signatures.
abbrev pub IsMerged : OracleUpdate → Type 0
IsMerged out =
    AreDistinct out.spot_product_ids × (length out.reports ≡ length out.report_signatures)

add_reports-IsMerged :
    (rs : List SurfaceReport) (i : ℕ) (signatures : List (Option (List ℕ))) (out : OracleUpdate)
    → IsMerged out
    → IsMerged (add_reports rs i signatures out)
add_reports-IsMerged [] i signatures out h = h
add_reports-IsMerged (r ∷ rs) i signatures out h =
    let s = or_missing (get_elem? signatures i) in
    add_reports-IsMerged rs (suc i) signatures (add_report r s out)
      (elim (Bool-cases (has_report r out.reports)) [
        | inl there ↦ rw there h
        | inr absent ↦ rw absent (
          h.0,
          omega (
            arith,
            length-append out.reports (r ∷ []),
            length-append out.report_signatures (s ∷ []),
            h.1,
          ),
        )
      ])

merge_into-IsMerged :
    (us : List OracleUpdate) (out : OracleUpdate) → IsMerged out → IsMerged (merge_into us out)
unfolding merge_into merge_one
merge_into-IsMerged [] out h = h
merge_into-IsMerged (u ∷ us) out h = merge_into-IsMerged us (merge_one u out) (
    add_reports-IsMerged u.reports 0 u.report_signatures _
      (add_products-AreDistinct u.spot_product_ids out.spot_product_ids h.0, h.1))

-- However many updates are merged, no product id is listed twice and there are as many entries of
-- signatures as reports.
pub merge_oracle_updates-IsMerged : (us : List OracleUpdate) → IsMerged (merge_oracle_updates us)
unfolding merge_oracle_updates
merge_oracle_updates-IsMerged us = merge_into-IsMerged us empty_oracle_update (tt, refl)
