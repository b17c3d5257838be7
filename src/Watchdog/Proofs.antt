-- ===== src/Watchdog/Proofs.antt =====
-- watchdog/src/index.ts, `watch` over many runs: the saved state against the length of a name's failures.
use optara.Common.{
  ℕ, suc, Bool, true, false, not, ◌&&◌, ◌||◌, Option, none, some, List, [], ◌∷◌, ◌++◌, map, keep_if,
  elem, add_to, leb, ◌==◌, ==_iff, ◌≡◌, refl, sym, ap, ap₂, ◌∙◌, inl, inr, Bool-cases, Option-cases,
  arith, append_assoc, or-false, and-false, and-true, or_assoc,
}
use optara.Common.Elem.{or_none, elem-append, elem-keep_if, elem-add_to}
use optara.Watchdog.Checks.{Check}
use optara.Watchdog.{
  Saved, Message, to_set, names_of, is_down, is_up, down_of, up_of, dropped_of, unchecked, is_new,
  is_known, next_of,
}
use optara.Watchdog.Incidents.{IsUnique, about, about_all, found, outcome, streak, went_wrong}

pub about_all-append :
    (n : ℕ) (xs ys : List Message) → about_all n (xs ++ ys) ≡ about_all n xs ++ about_all n ys
about_all-append n [] ys = refl
about_all-append n (m ∷ xs) ys =
    ap (λ t. about n m ++ t) (about_all-append n xs ys)
    ∙ sym (append_assoc (about n m) (about_all n xs) (about_all n ys))

abbrev passes : (Check → Bool) → Option Check → Bool
passes p none = false
passes p (some c) = p c

-- A name that no check has is in no part of them.
absent_keep :
    (p : Check → Bool) (n : ℕ) (cs : List Check)
    → elem n (names_of cs) ≡ false
    → elem n (names_of (keep_if p cs)) ≡ false
absent_keep p n [] h = refl
absent_keep p n (c ∷ cs) h =
    let parts = or_none (c.name == n) (elem n (names_of cs)) h in
    let rest = absent_keep p n cs parts.1 in
    elim (Bool-cases (p c)) [
      | inl kept ↦ rw kept (rw (parts.0, rest) refl)
      | inr left ↦ rw left rest
    ]

found-name : (n : ℕ) (cs : List Check) (c : Check) → found n cs ≡ some c → c.name ≡ n
found-name n [] c h = cc
found-name n (d ∷ cs) c h = elim (Bool-cases (d.name == n)) [
  | inl here ↦
      let same : some d ≡ some c = rw here at h in
      let name : d.name ≡ n = (==_iff d.name n).0 here in cc
  | inr there ↦ found-name n cs c (rw there at h)
]

elem-kept :
    (p : Check → Bool) (n : ℕ) (cs : List Check)
    → IsUnique cs
    → elem n (names_of (keep_if p cs)) ≡ passes p (found n cs)
elem-kept p n [] u = refl
elem-kept p n (c ∷ cs) (new, u) = elim (Bool-cases (c.name == n)) [
  | inl here ↦
      let same : c.name ≡ n = (==_iff c.name n).0 here in
      let rest : elem n (names_of (keep_if p cs)) ≡ false =
        absent_keep p n cs (ap (λ m. elem m (names_of cs)) (sym same) ∙ new) in
      elim (Bool-cases (p c)) [
        | inl kept ↦ rw (kept, here) (sym kept)
        | inr left ↦ rw (left, here, rest) (sym left)
      ]
  | inr there ↦ elim (Bool-cases (p c)) [
    | inl kept ↦ rw (kept, there) (elem-kept p n cs u)
    | inr left ↦ rw (left, there) (elem-kept p n cs u)
  ]
]

kept_at :
    (p : Check → Bool) (n : ℕ) (cs : List Check)
    → IsUnique cs
    → (o : Option Check) → found n cs ≡ o
    → elem n (names_of (keep_if p cs)) ≡ passes p o
kept_at p n cs u o h = elem-kept p n cs u ∙ ap (passes p) h

is_there : Option Check → Bool
is_there none = false
is_there (some c) = true

missing-elem : (n : ℕ) (cs : List Check) → elem n (names_of cs) ≡ is_there (found n cs)
unfolding is_there
missing-elem n [] = refl
missing-elem n (c ∷ cs) = elim (Bool-cases (c.name == n)) [
  | inl here ↦ rw here refl
  | inr there ↦ rw there (missing-elem n cs)
]

names_of-append : (xs ys : List Check) → names_of (xs ++ ys) ≡ names_of xs ++ names_of ys
names_of-append [] ys = refl
names_of-append (c ∷ xs) ys = ap (λ t. c.name ∷ t) (names_of-append xs ys)

names_of-unchecked : (ns : List ℕ) → names_of (map unchecked ns) ≡ ns
names_of-unchecked [] = refl
names_of-unchecked (n ∷ ns) = ap (λ t. n ∷ t) (names_of-unchecked ns)

elem-to_set : (n : ℕ) (ns out : List ℕ) → elem n (to_set ns out) ≡ (elem n out || elem n ns)
unfolding to_set
elem-to_set n [] out = sym (or-false (elem n out))
elem-to_set n (a ∷ ns) out =
    elem-to_set n ns (add_to a out)
    ∙ ap (λ b. b || elem n ns) (elem-add_to n a out)
    ∙ or_assoc (elem n out) (a == n) (elem n ns)

-- The saved state of a name whose streak is `k`.
abbrev pub Tracks : ℕ → ℕ → Saved → Type 0
Tracks n k saved = (elem n saved.pending ≡ (k == 1)) × (elem n saved.failing ≡ leb 2 k)

new_streak : (k : ℕ) → (not (leb 2 k) && not (k == 1)) ≡ (suc k == 1)
new_streak k = ground arith

known_streak : (k : ℕ) → (leb 2 k || (k == 1)) ≡ leb 2 (suc k)
known_streak k = ground arith

pub next-Tracks :
    (n k : ℕ) (saved : Saved) (results : List Check)
    → IsUnique results
    → Tracks n k saved
    → Tracks n (streak k (outcome n results)) (next_of saved results)
unfolding next_of
next-Tracks n k saved results u (pending, failing) = elim (Option-cases (found n results)) [
  | inl out ↦
      rw out
        (kept_at (is_new saved) n results u none out, kept_at (is_known saved) n results u none out)
  | inr (c, at_c) ↦
      let same : c.name ≡ n = found-name n results c at_c in
      let was_pending : elem c.name saved.pending ≡ (k == 1) =
        ap (λ m. elem m saved.pending) same ∙ pending in
      let was_failing : elem c.name saved.failing ≡ leb 2 k =
        ap (λ m. elem m saved.failing) same ∙ failing in
      let new = kept_at (is_new saved) n results u (some c) at_c in
      let known = kept_at (is_known saved) n results u (some c) at_c in
      elim (Bool-cases c.ok) [
        | inl good ↦ rw at_c (rw good (new ∙ rw good refl, known ∙ rw good refl))
        | inr bad ↦ rw at_c (
            rw bad (
              new ∙ rw (bad, was_pending, was_failing) (new_streak k),
              known ∙ rw (bad, was_pending, was_failing) (known_streak k),
            ))
      ]
]

down_streak : (k : ℕ) → ((k == 1) && not (leb 2 k)) ≡ (k == 1)
down_streak k = ground arith

pub elem-down :
    (n k : ℕ) (saved : Saved) (results : List Check)
    → IsUnique results
    → Tracks n k saved
    → elem n (names_of (down_of saved results))
      ≡ elim (outcome n results) [ went_wrong ↦ k == 1 | _ ↦ false ]
elem-down n k saved results u (pending, failing) = elim (Option-cases (found n results)) [
  | inl out ↦ kept_at (is_down saved) n results u none out ∙ rw out refl
  | inr (c, at_c) ↦
      let same : c.name ≡ n = found-name n results c at_c in
      let was_pending : elem c.name saved.pending ≡ (k == 1) =
        ap (λ m. elem m saved.pending) same ∙ pending in
      let was_failing : elem c.name saved.failing ≡ leb 2 k =
        ap (λ m. elem m saved.failing) same ∙ failing in
      let down = kept_at (is_down saved) n results u (some c) at_c in
      elim (Bool-cases c.ok) [
        | inl good ↦ down ∙ rw at_c (rw good refl)
        | inr bad ↦ down ∙ rw at_c (rw (bad, was_pending, was_failing) (down_streak k))
      ]
]

elem-dropped :
    (n : ℕ) (saved : Saved) (results : List Check)
    → elem n (dropped_of saved results) ≡ (elem n saved.failing && not (is_there (found n results)))
elem-dropped n saved results =
    elem-keep_if (λ name. not (elem name (names_of results))) n (to_set saved.failing [])
    ∙ ap₂ (λ a b. a && not b) (elem-to_set n saved.failing []) (missing-elem n results)

elem-up_parts :
    (n : ℕ) (saved : Saved) (results : List Check)
    → IsUnique results
    → elem n (names_of (up_of saved results)) ≡ (
        passes (is_up saved) (found n results)
        || (elem n saved.failing && not (is_there (found n results))))
elem-up_parts n saved results u =
    let back = keep_if (is_up saved) results in
    let dropped = dropped_of saved results in
    ap (elem n) (names_of-append back (map unchecked dropped))
    ∙ elem-append n (names_of back) (names_of (map unchecked dropped))
    ∙ ap (λ ns. elem n (names_of back) || elem n ns) (names_of-unchecked dropped)
    ∙ ap₂ (λ a b. a || b) (elem-kept (is_up saved) n results u) (elem-dropped n saved results)

pub elem-up :
    (n k : ℕ) (saved : Saved) (results : List Check)
    → IsUnique results
    → Tracks n k saved
    → elem n (names_of (up_of saved results))
      ≡ elim (outcome n results) [ went_wrong ↦ false | _ ↦ leb 2 k ]
unfolding is_there
elem-up n k saved results u (pending, failing) =
    let parts = elem-up_parts n saved results u in
    elim (Option-cases (found n results)) [
      | inl out ↦ parts ∙ rw (out, failing) (and-true (leb 2 k))
      | inr (c, at_c) ↦
          let same : c.name ≡ n = found-name n results c at_c in
          let was_failing : elem c.name saved.failing ≡ leb 2 k =
            ap (λ m. elem m saved.failing) same ∙ failing in
          elim (Bool-cases c.ok) [
            | inl good ↦
                parts
                ∙ rw (at_c, failing)
                    (rw (good, was_failing, and-false (leb 2 k)) (or-false (leb 2 k)))
            | inr bad ↦ parts ∙ rw (at_c, failing) (rw bad (and-false (leb 2 k)))
          ]
    ]
