-- ===== src/Indexer/Store/Listed.antt =====
-- A store of entities kept as lists, and the empty index over it.
use optara.Common.{
  ◌≡◌, refl, sym, ap, ◌∙◌, Bool, true, false, Option, none, some, List, [], ◌∷◌, if◌then◌else◌,
  Bool-cases, inl, inr,
}
use optara.Indexer.Entities.{Key, key_eq}
use optara.Indexer.Entities.Keys.{key_eq→eq, key_eq_self}
use optara.Indexer.Store.{EntityStore, Context}

-- A key that is `j` and is not `k` is evidence that `k` is not `j`.
other_key : (i j k : Key) → key_eq i j ≡ true → key_eq i k ≡ false → key_eq k j ≡ false
other_key i j k h g = elim (Bool-cases (key_eq k j)) [
  | inl hit ↦
      let same : i ≡ k = key_eq→eq i j h ∙ sym (key_eq→eq k j hit) in
      let one : key_eq i k ≡ true = ap (λ x. key_eq x k) same ∙ key_eq_self k in cc (one, g)
  | inr miss ↦ miss
]

module _ {V : Type 0} where
  unfoldable pub lookup : List (Key × V) → Key → Option V
  lookup [] k = none
  lookup ((j, v) ∷ t) k = let rest = lookup t k in if key_eq j k then some v else rest

  unfoldable pub replace : List (Key × V) → Key → V → List (Key × V)
  replace [] k v = (k, v) ∷ []
  replace ((j, w) ∷ t) k v =
      let rest = replace t k v in if key_eq j k then (j, v) ∷ t else (j, w) ∷ rest

  unfoldable pub rows_where : List (Key × V) → (V → Bool) → List V
  rows_where [] p = []
  rows_where ((j, v) ∷ t) p = let rest = rows_where t p in if p v then v ∷ rest else rest

  pub lookup-replace :
      (t : List (Key × V)) (k : Key) (v : V) (j : Key)
      → lookup (replace t k v) j ≡ (if key_eq k j then some v else lookup t j)
  unfolding lookup replace
  lookup-replace [] k v j = refl
  lookup-replace ((i, w) ∷ t) k v j = elim (Bool-cases (key_eq i k)) [
    | inl here ↦
        let same : i ≡ k = key_eq→eq i k here in
        elim (Bool-cases (key_eq k j)) [
          | inl hit ↦ rw (here, hit, same) (rw hit refl)
          | inr miss ↦ rw (here, miss, same) (rw miss refl)
        ]
    | inr there ↦ elim (Bool-cases (key_eq i j)) [
      | inl hit ↦
          let other : key_eq k j ≡ false = other_key i j k hit there in rw (there, hit, other) refl
      | inr miss ↦ rw (there, miss) (lookup-replace t k v j)
    ]
  ]

unfoldable pub listed : EntityStore
unfolding lookup replace rows_where
listed = record {
  Table = λ V. List (Key × V);
  get = lookup;
  set = replace;
  get_where = rows_where;
  get-set = lookup-replace;
}

unfoldable pub empty_index : Context listed
unfolding listed
empty_index = record {
  products = [];
  groups = [];
  series = [];
  accounts = [];
  operators = [];
  positions = [];
  mints = [];
  balance_changes = [];
  wrapper_balances = [];
  surfaces = [];
  auctions = [];
  liquidations = [];
  fees = [];
  insurances = [];
  processed = [];
  settlement_events = [];
  markets = [];
  kuru_orders = [];
  trades = [];
  governance_events = [];
  watched = record { wrappers = []; order_books = [] };
}
