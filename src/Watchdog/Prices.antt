-- ===== src/Watchdog/Prices.antt =====
-- watchdog/src/index.ts, the check of the option prices: it looks at the first live series of each product.
use optara.Common.{
  ℕ, ◌+◌, Bool, true, false, not, ◌&&◌, ◌||◌, Option, none, some, List, [], ◌∷◌, ◌++◌, map, any,
  every, All, elem, ltb, ◌==◌, ==_iff, if◌then◌else◌, get_key, ◌≡◌, ◌↔◌, refl, sym, ap, ◌∙◌, inl,
  inr, Bool-cases, Option-cases, or-false, or-true, and-false, and-true,
}
use optara.Common.Tables.{
  is_empty, empty-append, or_else, or_else-none, get_key-append, IsFoundIn, IsTable-append,
  every-found, found-every, filled,
}
use optara.Watchdog.Checks.{
  Detail, Fetch, fetched, threw, then_, Reply, is_ok, LiveOption, by_product, unpriced,
  price_products, fresh_check, no_fresh_price, fresh_prices,
}

abbrev pub passes : Fetch Detail → Bool
passes (fetched d) = true
passes (threw e) = false

abbrev pub is_live : ℕ → LiveOption → Bool
is_live now s = ltb (now + 3600) s.expiry

-- The first series of a product that is live.
abbrev pub first_live : ℕ → ℕ → List LiveOption → Option ℕ
first_live now product [] = none
first_live now product (s ∷ series) =
    let rest = first_live now product series in
    if is_live now s && (s.product_id == product) then some s.id else rest

-- The oracle update of a series is answered and brings a spot of the product.
abbrev pub is_priced : ℕ → Fetch (Reply (List ℕ)) → Bool
is_priced product (fetched r) = is_ok r.status && elem product r.body
is_priced product (threw e) = false

abbrev finish : List ℕ → List ℕ → Fetch Detail
finish names failed = elim failed [
  | [] ↦ fetched (fresh_prices names)
  | f ∷ fs ↦ threw (no_fresh_price (f ∷ fs))
]

both_true : (a b : Bool) → (a && b) ≡ true → (a ≡ true) × (b ≡ true)
both_true true b h = (refl, h)
both_true false b h = cc h

passes-finish : (names failed : List ℕ) → passes (finish names failed) ≡ is_empty failed
passes-finish names [] = refl
passes-finish names (f ∷ fs) = refl

module _ (update : ℕ → Fetch (Reply (List ℕ))) (names : List ℕ) where
  unpriced_after :
      (product : ℕ) (answer : Fetch (Reply (List ℕ))) (products : List (ℕ × ℕ)) (rest : Bool)
      (failed : List ℕ)
      → ((f : List ℕ)
          → passes (then_ (unpriced update products f) (finish names)) ≡ (is_empty f && rest))
      → passes (
          then_
            (then_ answer (λ r.
              unpriced update products
                (if is_ok r.status && elem product r.body then failed else failed ++ product ∷ [])))
            (finish names))
        ≡ (is_empty failed && (if is_priced product answer then rest else false))
  unpriced_after product (threw e) products rest failed ih = sym (and-false (is_empty failed))
  unpriced_after product (fetched r) products rest failed ih =
      elim (Bool-cases (is_ok r.status && elem product r.body)) [
        | inl good ↦ rw good (ih failed)
        | inr bad ↦ rw bad (
            ih (failed ++ product ∷ [])
            ∙ ap (λ b. b && rest) (empty-append failed product)
            ∙ sym (and-false (is_empty failed)))
      ]

  passes-unpriced :
      (products : List (ℕ × ℕ)) (failed : List ℕ)
      → passes (then_ (unpriced update products failed) (finish names))
        ≡ (is_empty failed && every (λ (q : ℕ × ℕ). is_priced q.0 (update q.1)) products)
  unfolding unpriced
  passes-unpriced [] failed = passes-finish names failed ∙ sym (and-true (is_empty failed))
  passes-unpriced ((product, id) ∷ products) failed =
      unpriced_after product (update id) products
        (every (λ (q : ℕ × ℕ). is_priced q.0 (update q.1)) products) failed
        (passes-unpriced products)

passes-price_products :
    (update : ℕ → Fetch (Reply (List ℕ))) (products : List (ℕ × ℕ))
    → passes (price_products update products)
      ≡ (not (is_empty products) && every (λ (q : ℕ × ℕ). is_priced q.0 (update q.1)) products)
unfolding price_products
passes-price_products update [] = refl
passes-price_products update (p ∷ products) =
    passes-unpriced update (map (λ (q : ℕ × ℕ). q.0) (p ∷ products)) (p ∷ products) []

module _ (now : ℕ) where
  -- The table of live options finds for each product its first live series.
  get_key-by_product :
      (series : List LiveOption) (out : List (ℕ × ℕ)) (q : ℕ)
      → get_key (by_product now series out) q ≡ or_else (get_key out q) (first_live now q series)
  unfolding by_product
  get_key-by_product [] out q = sym (or_else-none (get_key out q))
  get_key-by_product (s ∷ series) out q = elim (Bool-cases (is_live now s)) [
    | inr dead ↦ rw dead (get_key-by_product series out q)
    | inl live ↦ elim (Option-cases (get_key out s.product_id)) [
      | inr (v, known) ↦ elim (Bool-cases (s.product_id == q)) [
        | inr other ↦ rw (live, known, other) (get_key-by_product series out q)
        | inl same ↦
            let there : get_key out q ≡ some v =
              ap (get_key out) (sym ((==_iff s.product_id q).0 same)) ∙ known in
            rw (live, known, same) (get_key-by_product series out q ∙ rw there refl)
      ]
      | inl new ↦ elim (Bool-cases (s.product_id == q)) [
        | inr other ↦
            rw (live, new, other)
              (get_key-by_product series (out ++ (s.product_id, s.id) ∷ []) q
                ∙ ap (λ o. or_else o (first_live now q series))
                    (get_key-append out s.product_id s.id q
                      ∙ rw other (or_else-none (get_key out q))))
        | inl same ↦
            let absent : get_key out q ≡ none =
              ap (get_key out) (sym ((==_iff s.product_id q).0 same)) ∙ new in
            rw (live, new, same)
              (get_key-by_product series (out ++ (s.product_id, s.id) ∷ []) q
                ∙ rw (get_key-append out s.product_id s.id q) (rw (same, absent) refl))
      ]
    ]
  ]

  IsTable-by_product :
      (series : List LiveOption) (out : List (ℕ × ℕ))
      → All (IsFoundIn out) out
      → All (IsFoundIn (by_product now series out)) (by_product now series out)
  unfolding by_product
  IsTable-by_product [] out h = h
  IsTable-by_product (s ∷ series) out h = elim (Bool-cases (is_live now s)) [
    | inr dead ↦ rw dead (IsTable-by_product series out h)
    | inl live ↦ elim (Option-cases (get_key out s.product_id)) [
      | inr (v, known) ↦ rw (live, known) (IsTable-by_product series out h)
      | inl new ↦
          rw (live, new)
            (IsTable-by_product series (out ++ (s.product_id, s.id) ∷ [])
              (IsTable-append out s.product_id s.id h new))
    ]
  ]

  empty-by_product :
      (series : List LiveOption) (out : List (ℕ × ℕ))
      → not (is_empty (by_product now series out))
        ≡ (not (is_empty out) || any (is_live now) series)
  unfolding by_product
  empty-by_product [] out = sym (or-false (not (is_empty out)))
  empty-by_product (s ∷ series) out = elim (Bool-cases (is_live now s)) [
    | inr dead ↦ rw dead (empty-by_product series out)
    | inl live ↦ elim (Option-cases (get_key out s.product_id)) [
      | inr (v, known) ↦
          rw (live, known) (empty-by_product series out ∙ rw (filled out s.product_id v known) refl)
      | inl new ↦
          rw (live, new)
            (empty-by_product series (out ++ (s.product_id, s.id) ∷ [])
              ∙ rw (empty-append out (s.product_id, s.id)) (sym (or-true (not (is_empty out)))))
    ]
  ]

-- Where the list of series is answered, the check of the option prices passes exactly where
-- the answer is a success, some option expires in more than an hour, and for each product with
-- such an option the oracle update of the first of them is answered with success and has a
-- spot of the product.
pub fresh_check_iff :
    (now : ℕ) (r : Reply (List LiveOption)) (update : ℕ → Fetch (Reply (List ℕ)))
    → (passes (fresh_check now (fetched r) update) ≡ true) ↔ (
        (is_ok r.status ≡ true)
        × (any (is_live now) r.body ≡ true)
        × ((product id : ℕ)
            → first_live now product r.body ≡ some id
            → is_priced product (update id) ≡ true))
unfolding fresh_check get_key
fresh_check_iff now r update =
    let table = by_product now r.body [] in
    let value = passes-price_products update table in
    let some_live : not (is_empty table) ≡ any (is_live now) r.body =
      empty-by_product now r.body [] in
    let first = get_key-by_product now r.body [] in
    let f : ℕ → ℕ → Bool = λ product id. is_priced product (update id) in
    elim (Bool-cases (is_ok r.status)) [
      | inr bad ↦ rw bad (λ h. cc h, λ h. h.0)
      | inl good ↦ rw good (
        λ h.
            let parts =
              both_true (not (is_empty table)) (every (λ (q : ℕ × ℕ). f q.0 q.1) table)
                (sym value ∙ h) in
            (
              refl,
              sym some_live ∙ parts.0,
              λ product id found. every-found f table product id parts.1 (first product ∙ found),
            ),
        λ h.
            let all =
              found-every f table table (IsTable-by_product now r.body [] tt)
                (λ q v found. h.2 q v (sym (first q) ∙ found)) in
            value ∙ rw (some_live, h.1, all) refl,
      )
    ]
