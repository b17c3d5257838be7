-- ===== src/Sdk/Scan.antt =====
-- The scan of sdk/src/ledger.ts and sdk/src/catalog.ts (`sync`): logs are read in chunks of blocks from
-- `next` up to the head. The chain's logs are a parameter.
use optara.Common.{
  ℕ, zero, suc, ◌+◌, ◌-◌, ◌≤◌, ◌<◌, ◌≡◌, refl, sym, ap, ◌∙◌, true, false, List, [], ◌∷◌, ◌++◌,
  Option, none, some, ltb, leb, if◌then◌else◌, arith, Bool-cases, inl, inr, ltb→lt, le→leb,
  lt→leb_false,
}

-- The position of a scan, and what the logs so far made of the state.
pub record Scanned (S : Type 0) : Type 0 where
  pub next : ℕ
  pub state : S

module _ {S L : Type 0} (get_logs : (from to : ℕ) → List L) (apply : L → S → S) where
  unfoldable pub apply_all : List L → S → S
  apply_all [] s = s
  apply_all (l ∷ logs) s = apply_all logs (apply l s)

  -- `this.next + this.chunk - 1n > head ? head : this.next + this.chunk - 1n`.
  abbrev pub chunk_end : (chunk head next : ℕ) → ℕ
  chunk_end chunk head next = if ltb head (next + chunk - 1) then head else next + chunk - 1

  -- `while (this.next <= head)`; `none` only where the fuel runs out.
  unfoldable pub scan : ℕ → (chunk head : ℕ) → Scanned S → Option (Scanned S)
  unfolding apply_all
  scan zero chunk head s = if leb s.next head then none else some s
  scan (suc fuel) chunk head s =
      let to = chunk_end chunk head s.next in
      elim (leb s.next head) [
        | false ↦ some s
        | true ↦
            scan fuel chunk head
              (record { next = to + 1; state = apply_all (get_logs s.next to) s.state })
      ]

  -- The logs of a range of blocks are those of its two parts, in order.
  abbrev pub Splits : Type 0
  Splits = (a b c : ℕ) → a ≤ b → b < c → get_logs a c ≡ get_logs a b ++ get_logs (b + 1) c

  apply_all-append :
      (xs ys : List L) (s : S) → apply_all (xs ++ ys) s ≡ apply_all ys (apply_all xs s)
  unfolding apply_all
  apply_all-append [] ys s = refl
  apply_all-append (x ∷ xs) ys s = apply_all-append xs ys (apply x s)

  scan_past :
      (fuel chunk head : ℕ) (s : Scanned S) → head < s.next → scan fuel chunk head s ≡ some s
  unfolding scan
  scan_past zero chunk head s past = rw (lt→leb_false _ _ past) refl
  scan_past (suc fuel) chunk head s past = rw (lt→leb_false _ _ past, scan) refl

  abbrev after_step : (chunk head : ℕ) → Scanned S → Scanned S
  after_step chunk head s = record {
    next = chunk_end chunk head s.next + 1;
    state = apply_all (get_logs s.next (chunk_end chunk head s.next)) s.state;
  }

  scan_step :
      (fuel chunk head : ℕ) (s : Scanned S)
      → s.next ≤ head
      → scan (suc fuel) chunk head s ≡ scan fuel chunk head (after_step chunk head s)
  unfolding scan
  scan_step fuel chunk head s reached = rw (le→leb _ _ reached, scan) refl

  -- With a chunk of at least one block and a fuel that covers the blocks, a scan of logs that come apart by
  -- blocks stops after the head with every log from `next` to the head applied once and in order.
  pub scan-all :
      (fuel chunk head : ℕ) (s : Scanned S)
      → Splits
      → 0 < chunk
      → s.next ≤ head
      → head < fuel + s.next
      → scan fuel chunk head s
        ≡ some (record { next = head + 1; state = apply_all (get_logs s.next head) s.state })
  scan-all zero chunk head s splits pos reached enough = absurd (omega arith)
  scan-all (suc fuel) chunk head s splits pos reached enough =
      elim (Bool-cases (ltb head (s.next + chunk - 1))) [
        | inl last ↦
            scan_step fuel chunk head s reached
            ∙ rw last (scan_past fuel chunk head _ (omega arith))
        | inr more ↦
            let to = s.next + chunk - 1 in
            let d : Scanned S = record {
              next = to + 1;
              state = apply_all (get_logs s.next to) s.state;
            } in
            let within : to ≤ head = ground arith in
            let stepped : scan (suc fuel) chunk head s ≡ scan fuel chunk head d =
              scan_step fuel chunk head s reached ∙ rw more refl in
            stepped ∙ elim (Bool-cases (ltb to head)) [
              | inl short ↦
                  let lt : to < head = ltb→lt _ _ short in
                  scan-all fuel chunk head d splits pos (omega arith) (omega arith)
                  ∙ ap (λ x. some (record { next = head + 1; state = x }))
                      (sym (apply_all-append (get_logs s.next to) (get_logs (to + 1) head) s.state)
                        ∙ ap (λ logs. apply_all logs s.state)
                            (sym (splits s.next to head (omega arith) lt)))
              | inr whole ↦
                  let same : to ≡ head = ground arith in
                  scan_past fuel chunk head d (omega arith)
                  ∙ ap
                      (λ x.
                        some
                          (record { next = x + 1; state = apply_all (get_logs s.next x) s.state }))
                      same
            ]
      ]
