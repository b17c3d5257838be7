-- ===== src/Sdk/Surface/Fits.antt =====
-- The grids whose leaves `surfaceLeaf` (sdk/src/surface.ts) encodes.
use optara.Common.{
  ℕ, ◌+◌, ◌^◌, ◌<◌, ◌≤◌, ◌≡◌, refl, Bool, true, false, ◌&&◌, List, [], ◌∷◌, length, All, arith, ◌↔◌,
}
use optara.Sdk.Surface.{leaf_fits, row_fits, grid_fits}
use optara.Sdk.Surface.Proofs.{IsRect}

-- A variance that a word of 256 bits holds.
abbrev pub IsWord : ℕ → Type 0
IsWord v = v < 2 ^ 256

leaf_fits_iff :
    (s t j v : ℕ) → (leaf_fits s t j v ≡ true) ↔ ((s < 2 ^ 64) × (t < 256) × (j < 256) × IsWord v)
unfolding leaf_fits
leaf_fits_iff s t j v = ground arith

both : {p q : Bool} → (p && q) ≡ true → (p ≡ true) × (q ≡ true)
both {p = true} {q = true} h = (refl, refl)
both {p = true} {q = false} h = cc h
both {p = false} h = cc h

and : {p q : Bool} → p ≡ true → q ≡ true → (p && q) ≡ true
and h k = cc (h, k)

row_fits-IsWord :
    (s t j : ℕ) (row : List ℕ)
    → s < 2 ^ 64
    → t < 256
    → j + length row ≤ 256
    → All IsWord row
    → row_fits s t j row ≡ true
unfolding row_fits
row_fits-IsWord s t j [] hs ht hj h = refl
row_fits-IsWord s t j (v ∷ row) hs ht hj (word, words) =
    and ((leaf_fits_iff s t j v).1 (hs, ht, omega arith, word))
      (row_fits-IsWord s t (j + 1) row hs ht (omega arith) words)

row_fits-words :
    (s t j : ℕ) (row : List ℕ)
    → row_fits s t j row ≡ true
    → All IsWord row × (0 < length row → (s < 2 ^ 64) × (j + length row ≤ 256))
unfolding row_fits
row_fits-words s t j [] h = (tt, λ k. absurd (omega arith))
row_fits-words s t j (v ∷ []) h =
    let (hs, ht, hj, word) = (leaf_fits_iff s t j v).0 (both h).0 in
    ((word, tt), λ k. (hs, omega arith))
row_fits-words s t j (v ∷ u ∷ row) h =
    let (first, rest) = both h in
    let (hs, ht, hj, word) = (leaf_fits_iff s t j v).0 first in
    let (words, more) = row_fits-words s t (j + 1) (u ∷ row) rest in
    ((word, words), λ k. (hs, omega (arith, (more (omega arith)).1)))

pub grid_fits-IsWord :
    (s t n : ℕ) (w : List (List ℕ))
    → s < 2 ^ 64
    → t + length w ≤ 256
    → n ≤ 256
    → IsRect n w
    → All (All IsWord) w
    → grid_fits s t w ≡ true
unfolding grid_fits
grid_fits-IsWord s t n [] hs ht hn rect h = refl
grid_fits-IsWord s t n (row ∷ w) hs ht hn (size, rect) (words, rows) =
    and (row_fits-IsWord s t 0 row hs (omega arith) (omega arith) words)
      (grid_fits-IsWord s (t + 1) n w hs (omega arith) hn rect rows)

grid_fits-words : (s t : ℕ) (w : List (List ℕ)) → grid_fits s t w ≡ true → All (All IsWord) w
unfolding grid_fits
grid_fits-words s t [] h = tt
grid_fits-words s t (row ∷ w) h =
    let (first, rest) = both h in
    ((row_fits-words s t 0 row first).0, grid_fits-words s (t + 1) w rest)

-- The encoded leaves of a rectangular grid with a node have words, an index and a sequence number that fit.
pub grid_fits-bounds :
    (s n : ℕ) (w : List (List ℕ))
    → grid_fits s 0 w ≡ true
    → IsRect n w
    → 0 < length w
    → 0 < n
    → (s < 2 ^ 64) × (n ≤ 256) × All (All IsWord) w
grid_fits-bounds s n [] h rect some_row some_node = absurd (omega arith)
grid_fits-bounds s n (row ∷ w) h (size, rect) some_row some_node =
    let words = grid_fits-words s 0 (row ∷ w) h in
    let first : row_fits s 0 0 row ≡ true = unfold grid_fits in (both h).0 in
    let (hs, hn) = (row_fits-words s 0 0 row first).1 (omega arith) in (hs, omega arith, words)
