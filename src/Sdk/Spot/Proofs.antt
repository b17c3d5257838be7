-- ===== src/Sdk/Spot/Proofs.antt =====
-- sdk/src/pyth.ts: one failing provider loses only its own products, and no product gets lost.
use Prim.Native.String.{String}
use mathlib.Core.List.{Perm, perm_append_comm, perm_middle}
use mathlib.Core.List.Perm as Perm
use optara.Common.{
  ℕ, Bool, List, [], ◌∷◌, ◌++◌, map, get_key, set_key, ◌==◌, ◌≡◌, refl, sym, ap, ◌∙◌, subst, inl,
  inr, Bool-cases, append_assoc, append-nil,
}
use optara.Sdk.Spot.{
  Answer, answered, error, WantedProduct, ProviderGroup, SpotUpdates, or_new, with_product,
  fail_all, group_key, group_products, collect_one, collect, spot_updates_by_product,
}

abbrev ids_of : List WantedProduct → List ℕ
ids_of ps = map (λ (p : WantedProduct). p.product_id) ps

abbrev products_in : List (ℕ × ProviderGroup) → List ℕ
products_in [] = []
products_in ((key, g) ∷ groups) = g.product_ids ++ products_in groups

abbrev pub failed_ids : List (ℕ × String) → List ℕ
failed_ids failed = map (λ (f : ℕ × String). f.0) failed

-- A product that is put into its group is one product more.
put-Perm :
    (groups : List (ℕ × ProviderGroup)) (key : ℕ) (p : WantedProduct)
    → Perm
        (products_in (set_key groups key (with_product p (or_new (get_key groups key)))))
        (p.product_id ∷ products_in groups)
unfolding set_key get_key
put-Perm [] key p = Perm.refl (p.product_id ∷ [])
put-Perm ((k, g) ∷ groups) key p = elim (Bool-cases (k == key)) [
  | inl here ↦ rw here (
      subst (λ l. Perm l (p.product_id ∷ (g.product_ids ++ products_in groups)))
        (sym (append_assoc g.product_ids (p.product_id ∷ []) (products_in groups)))
        (perm_middle g.product_ids (products_in groups)))
  | inr there ↦ rw there (
      Perm.trans (Perm.append_left g.product_ids (put-Perm groups key p))
        (perm_middle g.product_ids (products_in groups)))
]

group_products-Perm :
    (is_named : ℕ → Bool) (ps : List WantedProduct) (groups : List (ℕ × ProviderGroup))
    → Perm (products_in (group_products is_named ps groups)) (products_in groups ++ ids_of ps)
unfolding group_products
group_products-Perm is_named [] groups =
    subst (Perm (products_in groups)) (sym (append-nil (products_in groups)))
      (Perm.refl (products_in groups))
group_products-Perm is_named (p ∷ ps) groups =
    let key = group_key is_named p.feed_ids in
    let groups' = set_key groups key (with_product p (or_new (get_key groups key))) in
    Perm.trans (group_products-Perm is_named ps groups') (
      Perm.trans (Perm.append_right (ids_of ps) (put-Perm groups key p))
        (Perm.symm (perm_middle (products_in groups) (ids_of ps))))

failed_ids-append :
    (xs ys : List (ℕ × String)) → failed_ids (xs ++ ys) ≡ failed_ids xs ++ failed_ids ys
failed_ids-append [] ys = refl
failed_ids-append (x ∷ xs) ys = ap (λ t. x.0 ∷ t) (failed_ids-append xs ys)

failed_ids-fail_all : (message : String) (ps : List ℕ) → failed_ids (fail_all message ps) ≡ ps
failed_ids-fail_all message [] = refl
failed_ids-fail_all message (p ∷ ps) = ap (λ t. p ∷ t) (failed_ids-fail_all message ps)

-- The products that an answer accounts for, updated or failed.
abbrev pub all_ids : SpotUpdates → List ℕ
all_ids out = out.product_ids ++ failed_ids out.failed

collect_one-Perm :
    (is_named : ℕ → Bool) (updates_of : List ℕ → Answer) (g : ProviderGroup) (a : Answer)
    (out : SpotUpdates)
    → Perm (all_ids (collect_one is_named updates_of g a out)) (all_ids out ++ g.product_ids)
collect_one-Perm is_named updates_of g (answered blobs) out =
    let failed = failed_ids out.failed in
    subst (λ l. Perm l (all_ids out ++ g.product_ids))
      (sym (append_assoc out.product_ids g.product_ids failed))
      (subst (Perm (out.product_ids ++ (g.product_ids ++ failed)))
        (sym (append_assoc out.product_ids failed g.product_ids))
        (Perm.append_left out.product_ids (perm_append_comm g.product_ids failed)))
collect_one-Perm is_named updates_of g (error message) out =
    let same : out.product_ids ++ failed_ids (out.failed ++ fail_all message g.product_ids)
        ≡ all_ids out ++ g.product_ids =
      ap (λ l. out.product_ids ++ l)
        (failed_ids-append out.failed (fail_all message g.product_ids)
          ∙ ap (λ l. failed_ids out.failed ++ l) (failed_ids-fail_all message g.product_ids))
      ∙ sym (append_assoc out.product_ids (failed_ids out.failed) g.product_ids) in
    subst (λ l. Perm l (all_ids out ++ g.product_ids)) (sym same)
      (Perm.refl (all_ids out ++ g.product_ids))

collect-Perm :
    (is_named : ℕ → Bool) (updates_of : List ℕ → Answer) (groups : List (ℕ × ProviderGroup))
    (out : SpotUpdates)
    → Perm (all_ids (collect is_named updates_of groups out)) (all_ids out ++ products_in groups)
unfolding collect
collect-Perm is_named updates_of [] out =
    subst (Perm (all_ids out)) (sym (append-nil (all_ids out))) (Perm.refl (all_ids out))
collect-Perm is_named updates_of ((key, g) ∷ groups) out =
    let out' = collect_one is_named updates_of g (updates_of g.feed_ids) out in
    Perm.trans (collect-Perm is_named updates_of groups out') (
      subst (Perm (all_ids out' ++ products_in groups))
        (append_assoc (all_ids out) g.product_ids (products_in groups))
        (Perm.append_right (products_in groups)
          (collect_one-Perm is_named updates_of g (updates_of g.feed_ids) out)))

-- Whatever the providers answer, the products of the answer of spotUpdatesByProduct, those
-- updated and those failed together, are the products that were asked for, each as often as it
-- was, in some order.
pub spot_updates_by_product-Perm :
    (is_named : ℕ → Bool) (updates_of : List ℕ → Answer) (products : List WantedProduct)
    → Perm
        (all_ids (spot_updates_by_product is_named updates_of products))
        (map (λ (p : WantedProduct). p.product_id) products)
unfolding spot_updates_by_product
spot_updates_by_product-Perm is_named updates_of products =
    Perm.trans
      (collect-Perm is_named updates_of (group_products is_named products [])
        (record { updates = []; product_ids = []; failed = [] }))
      (group_products-Perm is_named products [])
