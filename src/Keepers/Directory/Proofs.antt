-- ===== src/Keepers/Directory/Proofs.antt =====
-- keepers/src/indexerDirectory.ts: on the same balances, the indexer's directory lists the same holders as the
-- one that follows the logs.
use optara.Common.{
  ℕ, Bool, true, false, not, ◌||◌, ◌&&◌, some, List, [], ◌∷◌, any, elem, add_to, ◌==◌,
  if◌then◌else◌, ◌≡◌, refl, sym, ap, ap₂, ◌∙◌, inl, inr, Bool-cases, or-false, arith, or_assoc,
  and-true, or-true, and-false,
}
use optara.Common.Int.{pos, eq_ℤ}
use optara.Common.Elem.{elem-add_to}
use optara.Sdk.Ledger.{Balances, holders, sort}
use optara.Sdk.Ledger.Proofs.{balance_in, elem-sort}
use optara.Sdk.Ledger.Holders.{holds, AllKeyed, holders-IsRising, elem-holders, any_same}
use optara.Sdk.Ledger.Rising.{IsDistinct, add_to-IsDistinct, sort-IsRising, IsRising-unique}
use optara.Keepers.Directory.{PositionRow, open_rows, sync_positions, accounts_in, position_holders}

-- A row that is kept and gives the account a position in the series.
abbrev pub gives : ℕ → ℕ → PositionRow → Bool
gives a id r = holds r.balance && ((r.account_id == a) && (r.series_id == id))

abbrev pub has_position : List PositionRow → ℕ → ℕ → Bool
has_position [] a id = false
has_position (r ∷ rows) a id = gives a id r || has_position rows a id

any_none : (ids : List ℕ) → any (λ id. false) ids ≡ false
any_none [] = refl
any_none (x ∷ ids) = any_none ids

eq_swap : (a b : ℕ) → (a == b) ≡ (b == a)
eq_swap a b = ground arith

any_or : (p q : ℕ → Bool) (ids : List ℕ) → any (λ id. p id || q id) ids ≡ (any p ids || any q ids)
any_or p q [] = refl
any_or p q (x ∷ ids) =
    let rest = any_or p q ids in
    elim (Bool-cases (p x)) [
      | inl first ↦ rw first refl
      | inr not_first ↦ elim (Bool-cases (q x)) [
        | inl second ↦ rw (not_first, second) (sym (or-true (any p ids)))
        | inr neither ↦ rw (not_first, neither) rest
      ]
    ]

and_nothing : (p q : Bool) → (p && (q && false)) ≡ false
and_nothing true true = refl
and_nothing true false = refl
and_nothing false q = refl

first_or :
    (p q r s : Bool) → (if p && (q && r) then true else p && (q && s)) ≡ (p && (q && (r || s)))
first_or true true true s = refl
first_or true true false s = refl
first_or true false r s = refl
first_or false q r s = refl

elem-added :
    (a b : ℕ) (wanted : Bool) (out : List ℕ)
    → elem a (if wanted then add_to b out else out) ≡ (elem a out || ((b == a) && wanted))
elem-added a b true out = elem-add_to a b out ∙ ap (λ x. elem a out || x) (sym (and-true (b == a)))
elem-added a b false out =
    sym (or-false (elem a out)) ∙ ap (λ x. elem a out || x) (sym (and-false (b == a)))

any-gives :
    (a : ℕ) (r : PositionRow) (ids : List ℕ)
    → any (λ id. gives a id r) ids
      ≡ (holds r.balance && ((r.account_id == a) && elem r.series_id ids))
any-gives a r [] = sym (and_nothing (holds r.balance) (r.account_id == a))
any-gives a r (x ∷ ids) =
    let rest = any-gives a r ids in
    ap₂ (λ b t. if holds r.balance && ((r.account_id == a) && b) then true else t)
      (eq_swap r.series_id x) rest
    ∙ first_or (holds r.balance) (r.account_id == a) (x == r.series_id) (elem r.series_id ids)

elem-accounts_in :
    (a : ℕ) (ids : List ℕ) (rows : List PositionRow) (out : List ℕ)
    → elem a (accounts_in ids (open_rows rows) out) ≡ (elem a out || any (has_position rows a) ids)
unfolding accounts_in open_rows
elem-accounts_in a ids [] out =
    sym (or-false (elem a out)) ∙ ap (λ b. elem a out || b) (sym (any_none ids))
elem-accounts_in a ids (r ∷ rows) out =
    let later = any (has_position rows a) ids in
    let split : any (has_position (r ∷ rows) a) ids
        ≡ ((holds r.balance && ((r.account_id == a) && elem r.series_id ids)) || later) =
      any_or (λ id. gives a id r) (has_position rows a) ids
      ∙ ap (λ b. b || later) (any-gives a r ids) in
    elim (Bool-cases (eq_ℤ r.balance (pos 0))) [
      | inl empty ↦
          let nothing : holds r.balance ≡ false = ap not empty in
          let same : any (has_position (r ∷ rows) a) ids ≡ later =
            split
            ∙ ap (λ h. (h && ((r.account_id == a) && elem r.series_id ids)) || later) nothing in
          rw empty (elem-accounts_in a ids rows out ∙ ap (λ b. elem a out || b) (sym same))
      | inr full ↦
          let something : holds r.balance ≡ true = ap not full in
          let out' = if elem r.series_id ids then add_to r.account_id out else out in
          let same : any (has_position (r ∷ rows) a) ids
              ≡ (((r.account_id == a) && elem r.series_id ids) || later) =
            split
            ∙ ap (λ h. (h && ((r.account_id == a) && elem r.series_id ids)) || later) something in
          rw full (
            elem-accounts_in a ids rows out'
            ∙ ap (λ b. b || later) (elem-added a r.account_id (elem r.series_id ids) out)
            ∙ or_assoc (elem a out) ((r.account_id == a) && elem r.series_id ids) later
            ∙ ap (λ b. elem a out || b) (sym same))
    ]

accounts_in-IsDistinct :
    (ids : List ℕ) (rows : List PositionRow) (out : List ℕ)
    → IsDistinct out
    → IsDistinct (accounts_in ids rows out)
unfolding accounts_in
accounts_in-IsDistinct ids [] out d = d
accounts_in-IsDistinct ids (r ∷ rows) out d = elim (Bool-cases (elem r.series_id ids)) [
  | inl wanted ↦ rw wanted (
      accounts_in-IsDistinct ids rows (add_to r.account_id out)
        (add_to-IsDistinct r.account_id out d))
  | inr other ↦ rw other (accounts_in-IsDistinct ids rows out d)
]

-- Where the indexer's rows give an account a position that is not zero in a series exactly
-- where the balances of the log directory do, both directories list the same holders of any
-- series, in the same order.
pub position_holders-holders :
    (balances : Balances) (rows : List PositionRow) (ids : List ℕ) (before : List PositionRow)
    → AllKeyed balances
    → ((a id : ℕ) → has_position rows a id ≡ holds (balance_in balances id a))
    → position_holders (sync_positions (some rows) before).0 ids ≡ holders balances ids
unfolding position_holders sync_positions
position_holders-holders balances rows ids before keyed same =
    let listed = accounts_in ids (open_rows rows) [] in
    IsRising-unique (sort listed) (holders balances ids)
      (sort-IsRising listed (accounts_in-IsDistinct ids (open_rows rows) [] tt))
      (holders-IsRising balances ids)
      (λ a.
        elem-sort a listed
        ∙ elem-accounts_in a ids rows []
        ∙ any_same (has_position rows a) (λ id. holds (balance_in balances id a)) (λ id. same a id)
            ids
        ∙ sym (elem-holders a balances ids keyed))
