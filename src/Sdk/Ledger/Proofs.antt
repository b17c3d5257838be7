-- ===== src/Sdk/Ledger/Proofs.antt =====
-- The accounts that hold a series are those whose balance in it is not zero.
use optara.Common.{
  ℕ, ◌+◌, ◌≤◌, ◌<◌, ◌≡◌, inl, inr, refl, sym, ap, ◌∙◌, ◌||◌, Option, none, some, List, [], ◌∷◌, ltb,
  ◌==◌, ==_iff, if◌then◌else◌, arith, or_assoc, or_comm, Bool-cases, get_key, set_key,
  get_key-set_key, elem,
}
use optara.Common.Int.{ℤ, pos}
use optara.Sdk.Scan.{Scanned, Splits, apply_all, scan-all}
use optara.Sdk.Ledger.{sync, BalanceLog, Balances, or_empty, apply_log, insert, sort}

-- The balance of an account in a series: 0 where none was set.
abbrev pub value_or_zero : Option ℤ → ℤ
value_or_zero none = pos 0
value_or_zero (some b) = b

abbrev pub balance_in : Balances → ℕ → ℕ → ℤ
balance_in balances id a = value_or_zero (get_key (or_empty (get_key balances id)) a)

elem-insert : (a x : ℕ) (xs : List ℕ) → elem a (insert x xs) ≡ (elem a xs || (x == a))
unfolding insert
elem-insert a x [] = ground arith
elem-insert a x (y ∷ xs) = elim (Bool-cases (ltb x y)) [
  | inl before ↦ rw before (or_comm (x == a) ((y == a) || elem a xs))
  | inr after ↦
      rw after (
        ap (λ b. (y == a) || b) (elem-insert a x xs) ∙ sym (or_assoc (y == a) (elem a xs) (x == a)))
]

pub elem-sort : (a : ℕ) (xs : List ℕ) → elem a (sort xs) ≡ elem a xs
unfolding sort
elem-sort a [] = refl
elem-sort a (x ∷ xs) =
    elem-insert a x (sort xs)
    ∙ ap (λ b. b || (x == a)) (elem-sort a xs)
    ∙ or_comm (elem a xs) (x == a)

-- After a balance update, the account's balance in the series is the update's, and every other is as before.
pub balance_in-apply_log :
    (l : BalanceLog) (balances : Balances) (id a : ℕ)
    → balance_in (apply_log l balances) id a ≡ (
        if l.series_id == id
        then (if l.account_id == a then l.balance else balance_in balances id a)
        else balance_in balances id a)
unfolding apply_log
balance_in-apply_log l balances id a =
    let m = set_key (or_empty (get_key balances l.series_id)) l.account_id l.balance in
    elim (Bool-cases (l.series_id == id)) [
      | inr other ↦
          let row : get_key (set_key balances l.series_id m) id ≡ get_key balances id =
            get_key-set_key balances l.series_id m id ∙ rw other refl in
          rw other (ap (λ o. value_or_zero (get_key (or_empty o) a)) row)
      | inl same ↦
          let e : l.series_id ≡ id = (==_iff l.series_id id).0 same in
          let row : get_key (set_key balances l.series_id m) id ≡ some m =
            get_key-set_key balances l.series_id m id ∙ rw same refl in
          let entry : get_key m a ≡ (
              if l.account_id == a
              then some l.balance
              else get_key (or_empty (get_key balances id)) a) =
            get_key-set_key (or_empty (get_key balances l.series_id)) l.account_id l.balance a
            ∙ ap
                (λ n.
                  if l.account_id == a
                  then some l.balance
                  else get_key (or_empty (get_key balances n)) a)
                e in
          rw same (
            ap (λ o. value_or_zero (get_key (or_empty o) a)) row
            ∙ ap value_or_zero entry
            ∙ elim (Bool-cases (l.account_id == a)) [
              | inl this ↦ rw this refl
              | inr another ↦ rw another refl
            ])
    ]

-- The last balance that the logs give an account in a series; `before` where none does.
unfoldable pub last_balance : List BalanceLog → ℕ → ℕ → ℤ → ℤ
last_balance [] id a before = before
last_balance (l ∷ logs) id a before =
    last_balance logs id a
      (if l.series_id == id then (if l.account_id == a then l.balance else before) else before)

pub balance_in-apply_all :
    (get_logs : (from to : ℕ) → List BalanceLog) (logs : List BalanceLog) (balances : Balances)
    (id a : ℕ)
    → balance_in (apply_all get_logs apply_log logs balances) id a
      ≡ last_balance logs id a (balance_in balances id a)
unfolding apply_all last_balance
balance_in-apply_all get_logs [] balances id a = refl
balance_in-apply_all get_logs (l ∷ logs) balances id a =
    balance_in-apply_all get_logs logs (apply_log l balances) id a
    ∙ ap (last_balance logs id a) (balance_in-apply_log l balances id a)

-- After a sync of the blocks up to the head, the balance of an account in a series is the last that the
-- logs of those blocks give it, and the next sync starts after the head.
pub sync-balance_in :
    (get_logs : (from to : ℕ) → List BalanceLog) (fuel chunk head : ℕ) (s : Scanned Balances)
    (id a : ℕ)
    → Splits get_logs apply_log
    → 0 < chunk
    → s.next ≤ head
    → head < fuel + s.next
    → (d : Scanned Balances) × (sync get_logs fuel chunk head s ≡ some d)
      × (d.next ≡ head + 1)
      × (balance_in d.state id a
          ≡ last_balance (get_logs s.next head) id a (balance_in s.state id a))
unfolding sync
sync-balance_in get_logs fuel chunk head s id a splits some_blocks reached enough = (
  _,
  scan-all get_logs apply_log fuel chunk head s splits some_blocks reached enough,
  refl,
  balance_in-apply_all get_logs (get_logs s.next head) s.state id a,
)
