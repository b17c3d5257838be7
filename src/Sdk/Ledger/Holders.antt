-- ===== src/Sdk/Ledger/Holders.antt =====
-- sdk/src/ledger.ts, `holders`: the accounts with a balance in one of the series, once each, in ascending order.
use optara.Common.{
  ℕ, ◌+◌, ◌≤◌, ◌<◌, Bool, true, false, not, ◌||◌, none, some, List, [], ◌∷◌, any, elem, add_to,
  ◌==◌, ==_iff, if◌then◌else◌, get_key, set_key, get_key-set_key, All, ◌≡◌, refl, sym, ap, ap₂, ◌∙◌,
  inl, inr, arith, Bool-cases, or_assoc, or-false,
}
use optara.Common.Int.{ℤ, pos, eq_ℤ}
use optara.Common.Elem.{elem-add_to}
use optara.Sdk.Scan.{Scanned, Splits, apply_all, scan-all}
use optara.Sdk.Ledger.Rising.{IsRising, IsDistinct, add_to-IsDistinct, sort-IsRising}
use optara.Sdk.Ledger.{
  sync, BalanceLog, Balances, or_empty, apply_log, add_holders, holders_of, holders,
}
use optara.Sdk.Ledger.Proofs.{
  balance_in, value_or_zero, elem-sort, last_balance, balance_in-apply_all,
}

abbrev pub holds : ℤ → Bool
holds b = not (eq_ℤ b (pos 0))

-- Each account is in a series' map once.
abbrev pub IsKeyed : List (ℕ × ℤ) → Type 0
IsKeyed [] = Unit
IsKeyed ((a, b) ∷ m) = (get_key m a ≡ none) × IsKeyed m

abbrev pub AllKeyed : Balances → Type 0
AllKeyed balances = All (λ (row : ℕ × List (ℕ × ℤ)). IsKeyed row.1) balances

set_key-IsKeyed : (m : List (ℕ × ℤ)) (a : ℕ) (b : ℤ) → IsKeyed m → IsKeyed (set_key m a b)
unfolding set_key get_key
set_key-IsKeyed [] a b h = (refl, tt)
set_key-IsKeyed ((c, d) ∷ m) a b h = elim (Bool-cases (c == a)) [
  | inl here ↦ rw here h
  | inr there ↦
      let other : (a == c) ≡ false = ground arith in
      rw there (get_key-set_key m a b c ∙ rw other h.0, set_key-IsKeyed m a b h.1)
]

or_empty-IsKeyed :
    (balances : Balances) (id : ℕ) → AllKeyed balances → IsKeyed (or_empty (get_key balances id))
unfolding get_key
or_empty-IsKeyed [] id h = tt
or_empty-IsKeyed ((i, m) ∷ balances) id h = elim (Bool-cases (i == id)) [
  | inl here ↦ rw here h.0
  | inr there ↦ rw there (or_empty-IsKeyed balances id h.1)
]

put-AllKeyed :
    (balances : Balances) (id : ℕ) (m : List (ℕ × ℤ))
    → AllKeyed balances
    → IsKeyed m
    → AllKeyed (set_key balances id m)
unfolding set_key
put-AllKeyed [] id m h k = (k, tt)
put-AllKeyed ((i, n) ∷ balances) id m h k = elim (Bool-cases (i == id)) [
  | inl here ↦ rw here (k, h.1)
  | inr there ↦ rw there (h.0, put-AllKeyed balances id m h.1 k)
]

pub apply_all-AllKeyed :
    (get_logs : (from to : ℕ) → List BalanceLog) (logs : List BalanceLog) (balances : Balances)
    → AllKeyed balances
    → AllKeyed (apply_all get_logs apply_log logs balances)
unfolding apply_all apply_log
apply_all-AllKeyed get_logs [] balances h = h
apply_all-AllKeyed get_logs (l ∷ logs) balances h =
    let m = or_empty (get_key balances l.series_id) in
    apply_all-AllKeyed get_logs logs (apply_log l balances) (
      put-AllKeyed balances l.series_id (set_key m l.account_id l.balance) h
        (set_key-IsKeyed m l.account_id l.balance (or_empty-IsKeyed balances l.series_id h)))

-- Of a map, the accounts with a balance are added.
elem-add_holders :
    (a : ℕ) (m : List (ℕ × ℤ)) (out : List ℕ)
    → IsKeyed m
    → elem a (add_holders m out) ≡ (elem a out || holds (value_or_zero (get_key m a)))
unfolding add_holders get_key
elem-add_holders a [] out h = sym (or-false (elem a out))
elem-add_holders a ((c, b) ∷ m) out h =
    let out' = if eq_ℤ b (pos 0) then out else add_to c out in
    let rest : elem a (add_holders m out') ≡ (elem a out' || holds (value_or_zero (get_key m a))) =
      elem-add_holders a m out' h.1 in
    elim (Bool-cases (c == a)) [
      | inl here ↦
          let none_left : get_key m a ≡ none = ap (get_key m) (sym ((==_iff c a).0 here)) ∙ h.0 in
          rw here (
            rest
            ∙ ap (λ o. elem a out' || holds (value_or_zero o)) none_left
            ∙ or-false (elem a out')
            ∙ elim (Bool-cases (eq_ℤ b (pos 0))) [
              | inl empty ↦ rw empty (sym (or-false (elem a out)))
              | inr full ↦ rw full (elem-add_to a c out ∙ ap (λ x. elem a out || x) here)
            ])
      | inr there ↦ rw there (
          rest
          ∙ ap (λ x. x || holds (value_or_zero (get_key m a)))
              (elim (Bool-cases (eq_ℤ b (pos 0))) [
                | inl empty ↦ rw empty refl
                | inr full ↦
                    rw full (
                      elem-add_to a c out ∙ ap (λ x. elem a out || x) there ∙ or-false (elem a out))
              ]))
    ]

or_if : (p q : Bool) → (p || q) ≡ (if p then true else q)
or_if true q = refl
or_if false q = refl

elem-holders_of :
    (a : ℕ) (balances : Balances) (ids out : List ℕ)
    → AllKeyed balances
    → elem a (holders_of balances ids out)
      ≡ (elem a out || any (λ id. holds (balance_in balances id a)) ids)
unfolding holders_of
elem-holders_of a balances [] out h = sym (or-false (elem a out))
elem-holders_of a balances (id ∷ ids) out h =
    let m = or_empty (get_key balances id) in
    let later = any (λ id. holds (balance_in balances id a)) ids in
    elem-holders_of a balances ids (add_holders m out) h
    ∙ ap (λ x. x || later) (elem-add_holders a m out (or_empty-IsKeyed balances id h))
    ∙ or_assoc (elem a out) (holds (balance_in balances id a)) later
    ∙ ap (λ x. elem a out || x) (or_if (holds (balance_in balances id a)) later)

add_holders-IsDistinct :
    (m : List (ℕ × ℤ)) (out : List ℕ) → IsDistinct out → IsDistinct (add_holders m out)
unfolding add_holders
add_holders-IsDistinct [] out d = d
add_holders-IsDistinct ((a, b) ∷ m) out d = elim (Bool-cases (eq_ℤ b (pos 0))) [
  | inl empty ↦ rw empty (add_holders-IsDistinct m out d)
  | inr full ↦ rw full (add_holders-IsDistinct m (add_to a out) (add_to-IsDistinct a out d))
]

holders_of-IsDistinct :
    (balances : Balances) (ids out : List ℕ)
    → IsDistinct out
    → IsDistinct (holders_of balances ids out)
unfolding holders_of
holders_of-IsDistinct balances [] out d = d
holders_of-IsDistinct balances (id ∷ ids) out d =
    holders_of-IsDistinct balances ids (add_holders (or_empty (get_key balances id)) out)
      (add_holders-IsDistinct (or_empty (get_key balances id)) out d)

pub holders-IsRising : (balances : Balances) (ids : List ℕ) → IsRising (holders balances ids)
unfolding holders
holders-IsRising balances ids =
    sort-IsRising (holders_of balances ids []) (holders_of-IsDistinct balances ids [] tt)

pub elem-holders :
    (a : ℕ) (balances : Balances) (ids : List ℕ)
    → AllKeyed balances
    → elem a (holders balances ids) ≡ any (λ id. holds (balance_in balances id a)) ids
unfolding holders
elem-holders a balances ids h =
    elem-sort a (holders_of balances ids []) ∙ elem-holders_of a balances ids [] h

pub any_same : (p q : ℕ → Bool) → ((x : ℕ) → p x ≡ q x) → (xs : List ℕ) → any p xs ≡ any q xs
any_same p q same [] = refl
any_same p q same (x ∷ xs) =
    ap₂ (λ b rest. if b then true else rest) (same x) (any_same p q same xs)

-- A new directory that is synced to a head lists as holders of series, in ascending order and
-- each once, the accounts to which the logs up to the head last gave a balance that is not
-- zero in one of the series, where the logs of a range are those of its parts, a chunk has a
-- block, the start is not after the head and the fuel is enough for the blocks.
pub sync-holders :
    (get_logs : (from to : ℕ) → List BalanceLog) (fuel chunk head start : ℕ) (ids : List ℕ) (a : ℕ)
    → Splits get_logs apply_log
    → 0 < chunk
    → start ≤ head
    → head < fuel + start
    → (d : Scanned Balances) × (sync get_logs fuel chunk head (record { next = start; state = [] })
        ≡ some d)
      × IsRising (holders d.state ids)
      × (elem a (holders d.state ids)
          ≡ any (λ id. holds (last_balance (get_logs start head) id a (pos 0))) ids)
unfolding sync get_key
sync-holders get_logs fuel chunk head start ids a splits some_blocks reached enough =
    let logs = get_logs start head in
    let state = apply_all get_logs apply_log logs [] in
    (
      _,
      scan-all get_logs apply_log fuel chunk head (record { next = start; state = [] }) splits
          some_blocks reached enough,
      holders-IsRising state ids,
      elem-holders a state ids (apply_all-AllKeyed get_logs logs [] tt)
          ∙ any_same (λ id. holds (balance_in state id a))
              (λ id. holds (last_balance logs id a (pos 0)))
              (λ id. ap holds (balance_in-apply_all get_logs logs [] id a)) ids,
    )
