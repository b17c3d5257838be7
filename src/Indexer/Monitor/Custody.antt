-- ===== src/Indexer/Monitor/Custody.antt =====
-- indexer/api/monitor.ts: the amounts that the reconciliation sums by asset, and the assets it looks at.
use mathlib.Core.Bool.{or_assoc}
use mathlib.Core.Path.{ap₂}
use optara.Common.{
  ℕ, ◌≡◌, refl, sym, ap, ◌∙◌, Bool, true, ◌||◌, List, [], ◌∷◌, ◌++◌, map, All, ◌==◌, ==_iff,
  if◌then◌else◌, elem, add_to, get_key, set_key, get_key-set_key, Bool-cases, inl, inr, arith,
  subst,
}
use optara.Common.Elem.{elem-append, elem-add_to}
use optara.Common.Int.{ℤ, pos, ◌+ℤ◌, int_laws}
use optara.Indexer.Monitor.{
  AccountRow, GroupRow, Views, or_zero, add_amount, cash_by_asset, pools_by_asset, keys, distinct,
}

+ℤ_assoc : (a b c : ℤ) → a +ℤ b +ℤ c ≡ a +ℤ (b +ℤ c)
+ℤ_assoc a b c = omega int_laws

+ℤ_zero : (a : ℤ) → a +ℤ pos 0 ≡ a
+ℤ_zero a = omega int_laws

zero_+ℤ : (a : ℤ) → pos 0 +ℤ a ≡ a
zero_+ℤ a = omega int_laws

-- The sum of the amounts of one asset.
abbrev pub total_of : ℕ → List (ℕ × ℤ) → ℤ
total_of token [] = pos 0
total_of token ((k, x) ∷ rows) =
    let rest = total_of token rows in if k == token then x +ℤ rest else rest

abbrev pub cash_rows : List AccountRow → List (ℕ × ℤ)
cash_rows accs = map (λ (a : AccountRow). (a.settlement_asset, a.cash)) accs

abbrev pub pool_rows : Views → List GroupRow → List (ℕ × ℤ)
pool_rows v groups = map (λ (g : GroupRow). (g.settlement_asset, v.pool_of g.id)) groups

abbrev add_all : List (ℕ × ℤ) → List (ℕ × ℤ) → List (ℕ × ℤ)
add_all [] m = m
add_all ((k, x) ∷ rows) m = add_all rows (add_amount k x m)

cash_by_asset-add_all :
    (accs : List AccountRow) (m : List (ℕ × ℤ)) → cash_by_asset accs m ≡ add_all (cash_rows accs) m
unfolding cash_by_asset
cash_by_asset-add_all [] m = refl
cash_by_asset-add_all (a ∷ accs) m =
    cash_by_asset-add_all accs (add_amount a.settlement_asset a.cash m)

pools_by_asset-add_all :
    (v : Views) (groups : List GroupRow) (m : List (ℕ × ℤ))
    → pools_by_asset v groups m ≡ add_all (pool_rows v groups) m
unfolding pools_by_asset
pools_by_asset-add_all v [] m = refl
pools_by_asset-add_all v (g ∷ groups) m =
    pools_by_asset-add_all v groups (add_amount g.settlement_asset (v.pool_of g.id) m)

-- What a map holds of an asset.
abbrev held : List (ℕ × ℤ) → ℕ → ℤ
held m token = or_zero (get_key m token)

held-add_amount :
    (k : ℕ) (x : ℤ) (m : List (ℕ × ℤ)) (token : ℕ)
    → held (add_amount k x m) token ≡ (if k == token then held m token +ℤ x else held m token)
unfolding add_amount
held-add_amount k x m token =
    ap or_zero (get_key-set_key m k (held m k +ℤ x) token) ∙ elim (Bool-cases (k == token)) [
      | inl same ↦ rw (same, (==_iff k token).0 same) refl
      | inr other ↦ rw other refl
    ]

held-add_all :
    (rows m : List (ℕ × ℤ)) (token : ℕ)
    → held (add_all rows m) token ≡ held m token +ℤ total_of token rows
held-add_all [] m token = sym (+ℤ_zero (held m token))
held-add_all ((k, x) ∷ rows) m token =
    held-add_all rows (add_amount k x m) token
    ∙ ap (λ h. h +ℤ total_of token rows) (held-add_amount k x m token)
    ∙ elim (Bool-cases (k == token)) [
      | inl same ↦ rw same (+ℤ_assoc (held m token) x (total_of token rows))
      | inr other ↦ rw other refl
    ]

pub cash_by_asset-total :
    (accs : List AccountRow) (token : ℕ)
    → or_zero (get_key (cash_by_asset accs []) token) ≡ total_of token (cash_rows accs)
unfolding get_key
cash_by_asset-total accs token =
    ap (λ m. held m token) (cash_by_asset-add_all accs [])
    ∙ held-add_all (cash_rows accs) [] token
    ∙ zero_+ℤ (total_of token (cash_rows accs))

pub pools_by_asset-total :
    (v : Views) (groups : List GroupRow) (token : ℕ)
    → or_zero (get_key (pools_by_asset v groups []) token) ≡ total_of token (pool_rows v groups)
unfolding get_key
pools_by_asset-total v groups token =
    ap (λ m. held m token) (pools_by_asset-add_all v groups [])
    ∙ held-add_all (pool_rows v groups) [] token
    ∙ zero_+ℤ (total_of token (pool_rows v groups))

-- Every asset of a row is a key.
keys-set_key :
    (token k : ℕ) (x : ℤ) (m : List (ℕ × ℤ))
    → elem token (keys (set_key m k x)) ≡ (elem token (keys m) || (k == token))
unfolding set_key
keys-set_key token k x [] = ground arith
keys-set_key token k x ((j, y) ∷ m) = elim (Bool-cases (j == k)) [
  | inl here ↦ rw (here, (==_iff j k).0 here) ground arith
  | inr there ↦
      rw (there, keys-set_key token k x m, or_assoc (j == token) (elem token (keys m)) (k == token))
        refl
]

keys-add_all :
    (token : ℕ) (rows m : List (ℕ × ℤ))
    → elem token (keys (add_all rows m)) ≡ (elem token (keys m) || elem token (keys rows))
unfolding add_amount
keys-add_all token [] m = ground arith
keys-add_all token ((k, x) ∷ rows) m =
    keys-add_all token rows (add_amount k x m)
    ∙ ap (λ b. b || elem token (keys rows)) (keys-set_key token k (held m k +ℤ x) m)
    ∙ or_assoc (elem token (keys m)) (k == token) (elem token (keys rows))

elem-distinct :
    (token : ℕ) (ks out : List ℕ) → elem token (distinct ks out) ≡ (elem token out || elem token ks)
elem-distinct token [] out = ground arith
elem-distinct token (k ∷ ks) out =
    elem-distinct token ks (add_to k out)
    ∙ ap (λ b. b || elem token ks) (elem-add_to token k out)
    ∙ or_assoc (elem token out) (k == token) (elem token ks)

at_elem : (P : ℕ → Type 0) (token : ℕ) (ks : List ℕ) → All P ks → elem token ks ≡ true → P token
at_elem P token [] h e = cc e
at_elem P token (k ∷ ks) (now, later) e = elim (Bool-cases (k == token)) [
  | inl same ↦ subst P ((==_iff k token).0 same) now
  | inr other ↦ at_elem P token ks later (rw other at e)
]

all_elem :
    (P : ℕ → Type 0) (ks : List ℕ) → ((token : ℕ) → elem token ks ≡ true → P token) → All P ks
all_elem P [] f = tt
all_elem P (k ∷ ks) f = (f k ground arith, all_elem P ks (λ token e. f token ground arith))

looked_at :
    (token : ℕ) (v : Views) (accs : List AccountRow) (groups : List GroupRow)
    → elem token (distinct (keys (cash_by_asset accs []) ++ keys (pools_by_asset v groups [])) [])
      ≡ elem token (keys (cash_rows accs) ++ keys (pool_rows v groups))
looked_at token v accs groups =
    let cash = cash_by_asset accs [] in
    let pools = pools_by_asset v groups [] in
    let names : List (ℕ × ℤ) → Bool = λ m. elem token (keys m) in
    elem-distinct token (keys cash ++ keys pools) []
    ∙ elem-append token (keys cash) (keys pools)
    ∙ ap₂ ◌||◌ (ap names (cash_by_asset-add_all accs []) ∙ keys-add_all token (cash_rows accs) [])
        (ap names (pools_by_asset-add_all v groups []) ∙ keys-add_all token (pool_rows v groups) [])
    ∙ sym (elem-append token (keys (cash_rows accs)) (keys (pool_rows v groups)))

-- What holds of each asset that the reconciliation looks at holds of each asset of a row.
pub each_asset :
    (P : ℕ → Type 0) (v : Views) (accs : List AccountRow) (groups : List GroupRow)
    → All P (distinct (keys (cash_by_asset accs []) ++ keys (pools_by_asset v groups [])) [])
    → All P (keys (cash_rows accs) ++ keys (pool_rows v groups))
each_asset P v accs groups h =
    all_elem P (keys (cash_rows accs) ++ keys (pool_rows v groups)) (λ token e.
      at_elem P token
        (distinct (keys (cash_by_asset accs []) ++ keys (pools_by_asset v groups [])) []) h
        (looked_at token v accs groups ∙ e))
