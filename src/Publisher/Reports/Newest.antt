-- ===== src/Publisher/Reports/Newest.antt =====
-- publisher/src/publisher.ts: the report signed last is the latest, and sequences only rise.
use optara.Common.{
  ℕ, suc, ◌+◌, ◌-◌, ◌≤◌, ◌<◌, Bool, true, false, not, ◌||◌, ◌&&◌, or-true, ap₂, some, List, [], ◌∷◌,
  ◌++◌, length, length-map, length-append, ltb, ==_iff, if◌then◌else◌, keep_if, elem, All, get_key,
  set_key, get_key-set_key, ◌≡◌, refl, sym, ap, ◌∙◌, subst, ◌⊎◌, inl, inr, true≢false, arith,
  Bool-cases,
}
use optara.Common.Elem.{elem-append, elem-keep_if}
use optara.Sdk.Ledger.{sort}
use optara.Sdk.Ledger.Proofs.{elem-sort}
use optara.Publisher.Reports.{
  Signed, Grids, by_seq, keys_of, largest, latest, latest_in, or_empty_map, delete_keys, take,
  forget_old, remember, next_seq,
}
use optara.Publisher.Reports.Memory.{
  stays, keys_of-delete_keys, get_key-delete_keys, count-sort, count-take,
}
use optara.Publisher.Reports.Oldest.{
  Below, Below-elem, drop_first, drop_second, elem-take, keys_of-set_key, length-sort, sort-last,
  take-append,
}

-- No report that is kept is above the newest, which is kept.
largest_lem :
    (seq a : ℕ) (ks : List ℕ)
    → elem seq (a ∷ ks) ≡ true
    → All (λ k. k ≤ seq) (a ∷ ks)
    → largest a ks ≡ seq
unfolding largest
largest_lem seq a [] h le = ground arith
largest_lem seq a (b ∷ ks) h le = elim (Bool-cases (ltb b a)) [
  | inl smaller ↦
      rw smaller (largest_lem seq a ks (drop_second seq a b ks le smaller h) (le.0, le.1.1))
  | inr larger ↦ rw larger (largest_lem seq b ks (drop_first seq a b ks le larger h) le.1)
]

All-keep_if : (P : ℕ → Type 0) (p : ℕ → Bool) (xs : List ℕ) → All P xs → All P (keep_if p xs)
All-keep_if P p [] h = tt
All-keep_if P p (x ∷ xs) h = elim (Bool-cases (p x)) [
  | inl good ↦ rw good (h.0, All-keep_if P p xs h.1)
  | inr bad ↦ rw bad (All-keep_if P p xs h.1)
]

forget_old-length : (m : List (ℕ × Signed)) → length (forget_old m) ≤ 16
unfolding forget_old
forget_old-length m =
    let ks = keys_of m in
    let n = length m - 16 in
    let gone = take n (sort ks) in
    let all : length ks ≡ length m = length-map (λ (e : ℕ × Signed). e.0) m in
    let kept : length (delete_keys gone m) ≡ length (keep_if (stays gone) ks) =
      sym (length-map (λ (e : ℕ × Signed). e.0) (delete_keys gone m))
      ∙ ap length (keys_of-delete_keys gone m) in
    let sorted = length-sort ks in
    let counted = count-sort (stays gone) ks in
    let taken = count-take gone n (sort ks) (omega arith) (λ x e. e) in omega arith

elem-appended : (seq : ℕ) (ks : List ℕ) → elem seq (ks ++ seq ∷ []) ≡ true
elem-appended seq ks =
    elem-append seq ks (seq ∷ [])
    ∙ ap (λ b. elem seq ks || (b || false)) ((==_iff seq seq).1 refl)
    ∙ or-true (elem seq ks)

Below-append : (seq : ℕ) (ks : List ℕ) → Below seq ks → All (λ k. k ≤ seq) (ks ++ seq ∷ [])
Below-append seq [] h = (omega arith, tt)
Below-append seq (k ∷ ks) h = (omega (arith, h.0), Below-append seq ks h.1)

-- A newest report: it is the latest, and no key is above it.
abbrev pub IsNewest : Signed → ℕ → List (ℕ × Signed) → Type 0
IsNewest s seq m =
    (get_key m seq ≡ some s) × (elem seq (keys_of m) ≡ true) × All (λ k. k ≤ seq) (keys_of m)

forget_old-IsNewest :
    (m : List (ℕ × Signed)) (seq : ℕ) (s : Signed)
    → Below seq (keys_of m)
    → IsNewest s seq (forget_old (set_key m seq s))
unfolding forget_old
forget_old-IsNewest m seq s below =
    let m' = set_key m seq s in
    let ks = keys_of m in
    let n = length m' - 16 in
    let gone = take n (sort (keys_of m')) in
    let absent = Below-elem seq ks below in
    let keys : keys_of m' ≡ ks ++ seq ∷ [] = keys_of-set_key m seq s absent in
    let size : length m' ≡ suc (length ks) =
      sym (length-map (λ (e : ℕ × Signed). e.0) m')
      ∙ ap length keys
      ∙ length-append ks (seq ∷ [])
      ∙ omega arith in
    let short : n ≤ length (sort ks) = let sorted = length-sort ks in omega arith in
    let gone_eq : gone ≡ take n (sort ks) =
      ap (λ l. take n (sort l)) keys
      ∙ ap (take n) (sort-last ks seq below)
      ∙ take-append n (sort ks) (seq ∷ []) short in
    let safe : elem seq gone ≡ false =
      ap (elem seq) gone_eq ∙ elem-take seq n (sort ks) (elem-sort seq ks ∙ absent) in
    let left : keys_of (delete_keys gone m') ≡ keep_if (stays gone) (keys_of m') =
      keys_of-delete_keys gone m' in
    (
      get_key-delete_keys gone m' seq safe
          ∙ get_key-set_key m seq s seq
          ∙ rw ((==_iff seq seq).1 refl) refl,
      ap (elem seq) left
          ∙ elem-keep_if (stays gone) seq (keys_of m')
          ∙ ap₂ (λ a b. a && not b) (ap (elem seq) keys ∙ elem-appended seq ks) safe,
      subst (All (λ k. k ≤ seq)) (sym left) (
          All-keep_if (λ k. k ≤ seq) (stays gone) (keys_of m')
            (subst (All (λ k. k ≤ seq)) (sym keys) (Below-append seq ks below))),
    )

pub IsNewest-latest_in :
    (s : Signed) (seq : ℕ) (m : List (ℕ × Signed)) (ks : List ℕ)
    → get_key m seq ≡ some s
    → elem seq ks ≡ true
    → All (λ k. k ≤ seq) ks
    → latest_in m ks ≡ some s
IsNewest-latest_in s seq m [] g e le = absurd (true≢false (sym e))
IsNewest-latest_in s seq m (a ∷ ks) g e le = ap (get_key m) (largest_lem seq a ks e le) ∙ g

-- The reports kept for a product: none, or at most sixteen with a newest one under its own sequence.
abbrev pub IsHeld : List (ℕ × Signed) → Type 0
IsHeld m = (m ≡ []) ⊎ (s : Signed) × IsNewest s s.report.surface_seq m × (length m ≤ 16)

by_seq-set_key : (grids : Grids) (p : ℕ) (m : List (ℕ × Signed)) → by_seq (set_key grids p m) p ≡ m
by_seq-set_key grids p m =
    let found : get_key (set_key grids p m) p ≡ some m =
      get_key-set_key grids p m p
      ∙ ap (λ b. if b then some m else get_key grids p) ((==_iff p p).1 refl) in
    ap or_empty_map found

Below-le : (a b : ℕ) (ks : List ℕ) → a < b → All (λ k. k ≤ a) ks → Below b ks
Below-le a b [] h le = tt
Below-le a b (k ∷ ks) h le = (omega (arith, h, le.0), Below-le a b ks h le.1)

numbered-Below :
    (m : List (ℕ × Signed)) (seq on_chain : ℕ)
    → IsHeld m
    → seq ≡ next_seq (latest_in m (keys_of m)) on_chain
    → (on_chain < seq) × Below seq (keys_of m)
unfolding next_seq
numbered-Below m seq on_chain (inl empty) numbered =
    let fresh : seq ≡ on_chain + 1 =
      numbered ∙ ap (λ m. next_seq (latest_in m (keys_of m)) on_chain) empty in
    (omega arith, subst (λ m. Below seq (keys_of m)) (sym empty) tt)
numbered-Below m seq on_chain (inr (t, (found, there, le), small)) numbered =
    let newest = IsNewest-latest_in t t.report.surface_seq m (keys_of m) found there le in
    let number : seq ≡ next_seq (some t) on_chain =
      numbered ∙ ap (λ o. next_seq o on_chain) newest in
    let above : t.report.surface_seq < seq = ground arith in
    (ground arith, Below-le t.report.surface_seq seq (keys_of m) above le)

-- Where a product's remembered reports are none, or at most sixteen of which one is the newest
-- under its own sequence, remembering a signed report numbered by build keeps that so, makes
-- it the latest, and its sequence is above the chain's and above every remembered one.
pub remember-IsHeld :
    (s : Signed) (grids : Grids) (on_chain : ℕ)
    → let p = s.report.product_id in
      IsHeld (by_seq grids p)
      → s.report.surface_seq ≡ next_seq (latest grids p) on_chain
      → IsHeld (by_seq (remember s grids) p)
        × (latest (remember s grids) p ≡ some s)
        × (on_chain < s.report.surface_seq)
        × All (λ k. k < s.report.surface_seq) (keys_of (by_seq grids p))
unfolding remember latest next_seq
remember-IsHeld s grids on_chain held numbered =
    let p = s.report.product_id in
    let seq = s.report.surface_seq in
    let m = by_seq grids p in
    let m' = forget_old (set_key m seq s) in
    let same : by_seq (remember s grids) p ≡ m' = by_seq-set_key grids p m' in
    let (newer, below) = numbered-Below m seq on_chain held numbered in
    let newest = forget_old-IsNewest m seq s below in
    (
      subst IsHeld (sym same) (inr (s, newest, forget_old-length (set_key m seq s))),
      ap (λ m. latest_in m (keys_of m)) same
          ∙ IsNewest-latest_in s seq m' (keys_of m') newest.0 newest.1 newest.2,
      newer,
      below,
    )
