-- ===== src/Keepers/Transactions.antt =====
-- keepers/src/tx.ts: sendTx simulates a call, estimates its gas, sends it and waits for its receipt; and
-- withGasBuffer of sdk/src/chain.ts. The client and the wallet are an interface; what they throw is a value.
mod Tests
use Prim.Native.String.{String}
use optara.Common.{
  ℕ, ◌+◌, ◌*◌, ◌/◌, ◌<◌, ◌≤◌, ◌≡◌, refl, Bool, true, false, Option, none, some, List, if◌then◌else◌,
  arith, ap, ◌⊎◌, inl, inr, Bool-cases,
}

-- What viem throws: the decoded revert, its signature where it has no decoding, and the messages.
pub record ThrownError : Type 0 where
  pub reverted : Option (String × List String)
  pub signature : Option String
  pub short_message : Option String
  pub message : Option String
  pub as_text : String

-- `first_line` is of the text up to its first line break.
pub data ShortError : Type 0 where
  error_of : String → List String → ShortError
  custom_error first_line : String → ShortError
  reverted_on_chain : (hash : ℕ) → ShortError

abbrev pub or_else_text : Option String → String → String
or_else_text none text = text
or_else_text (some s) text = s

unfoldable pub short_error : ThrownError → ShortError
short_error e = elim e.reverted [
  | some (name, args) ↦ error_of name args
  | none ↦ elim e.signature [
    | some s ↦ custom_error s
    | none ↦ first_line (or_else_text e.short_message (or_else_text e.message e.as_text))
  ]
]

unfoldable pub with_gas_buffer : (estimate buffer_bps : ℕ) → ℕ
with_gas_buffer estimate buffer_bps = estimate + estimate * buffer_bps / 10000

pub data Attempt (A : Type 0) : Type 0 where
  succeeded : A → Attempt A
  threw : ThrownError → Attempt A

pub record TxContext (Call Answer : Type 0) : Type 1 where
  pub World : Type 0
  pub simulate : World → Call → Attempt Answer
  pub estimate_gas : World → Call → Attempt ℕ
  pub write : World → Call → (gas : ℕ) → World × Attempt ℕ
  pub receipt : World → (hash : ℕ) → World × Attempt Bool
  pub gas_buffer_bps : Option ℕ

pub data TxResult (Answer : Type 0) : Type 0 where
  sent : (hash : ℕ) → Answer → TxResult Answer
  refused : ShortError → TxResult Answer
  thrown : ThrownError → TxResult Answer

module _ {Call Answer : Type 0} (ctx : TxContext Call Answer) where
  abbrev pub received : Answer → ℕ → ctx.World × Attempt Bool → ctx.World × TxResult Answer
  received answer hash (w, threw e) = (w, thrown e)
  received answer hash (w, succeeded true) = (w, sent hash answer)
  received answer hash (w, succeeded false) = (w, refused (reverted_on_chain hash))

  abbrev pub written : Answer → ctx.World × Attempt ℕ → ctx.World × TxResult Answer
  written answer (w, threw e) = (w, thrown e)
  written answer (w, succeeded hash) = received answer hash (ctx.receipt w hash)

  abbrev pub buffer : Option ℕ → ℕ
  buffer none = 1000
  buffer (some bps) = bps

  abbrev pub estimated : ctx.World → Call → Answer → Attempt ℕ → ctx.World × TxResult Answer
  estimated w call answer (threw e) = (w, refused (short_error e))
  estimated w call answer (succeeded gas) =
      written answer (ctx.write w call (with_gas_buffer gas (buffer ctx.gas_buffer_bps)))

  abbrev pub simulated : ctx.World → Call → Attempt Answer → ctx.World × TxResult Answer
  simulated w call (threw e) = (w, refused (short_error e))
  simulated w call (succeeded answer) = estimated w call answer (ctx.estimate_gas w call)

  unfoldable pub send_tx : ctx.World → Call → ctx.World × TxResult Answer
  send_tx w call = simulated w call (ctx.simulate w call)
