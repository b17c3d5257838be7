-- ===== src/Indexer/Entities/Keys.antt =====
-- Comparing the ids of entities.
use optara.Common.{ℕ, ◌≡◌, ◌≢◌, true, false, arith}
use optara.Indexer.Entities.{Key, single, dash, key_eq}

pub key_eq→eq : (j k : Key) → key_eq j k ≡ true → j ≡ k
key_eq→eq j k h = ground arith

pub dash_eq : (a b c d : ℕ) → key_eq (dash a b) (dash c d) ≡ true → (a ≡ c) × (b ≡ d)
dash_eq a b c d h = ground arith

pub dash_ne : (a b c d : ℕ) → c ≢ a → key_eq (dash a b) (dash c d) ≡ false
dash_ne a b c d h = ground arith

pub dash_ne_right : (a b c d : ℕ) → d ≢ b → key_eq (dash a b) (dash c d) ≡ false
dash_ne_right a b c d h = ground arith

pub single_ne : (a b : ℕ) → b ≢ a → key_eq (single a) (single b) ≡ false
single_ne a b h = ground arith

pub key_eq_self : (k : Key) → key_eq k k ≡ true
key_eq_self (single a) = ground arith
key_eq_self (dash a b) = ground arith
key_eq_self (Key.at_log a b) = ground arith
