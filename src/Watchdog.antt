-- ===== src/Watchdog.antt =====
-- watchdog/src/index.ts: `watch`, the summary and the Worker's entry points. Names of checks are numbers, the
-- texts of messages are data, and Telegram is the answers that it gives to the attempts to send.
pub mod Checks
pub mod Incidents
pub mod Prices
pub mod Proofs
pub mod Runs
mod Tests
use optara.Common.{
  ℕ, suc, ◌+◌, ◌*◌, Bool, true, false, not, ◌&&◌, ◌||◌, Option, none, some, List, [], ◌∷◌, ◌++◌,
  map, keep_if, every, elem, add_to, ltb, ◌==◌, if◌then◌else◌,
}
use optara.Watchdog.Checks.{Check, Detail, no_longer_checked}

-- What is kept under "state": `pending` failed once, `failing` is already reported.
pub record Saved : Type 0 where
  pub pending : List ℕ
  pub failing : List ℕ

pub data Message : Type 0 where
  down_alert recovered_alert : List Check → Message
  summary_of : List Check → Message
  checking help : Message

-- The Worker's store, the messages that were sent, and the number of attempts to send one.
pub record World : Type 0 where
  pub state : Option Saved
  pub last_test : Option ℕ
  pub sent : List Message
  pub attempts : ℕ

abbrev pub saved_of : Option Saved → Saved
saved_of none = record { pending = []; failing = [] }
saved_of (some saved) = saved

-- `new Set(names)`.
unfoldable pub to_set : List ℕ → List ℕ → List ℕ
to_set [] out = out
to_set (a ∷ names) out = to_set names (add_to a out)

abbrev pub names_of : List Check → List ℕ
names_of cs = map (λ (c : Check). c.name) cs

abbrev pub is_down : Saved → Check → Bool
is_down saved c = not c.ok && (elem c.name saved.pending && not (elem c.name saved.failing))

abbrev pub is_up : Saved → Check → Bool
is_up saved c = c.ok && elem c.name saved.failing

abbrev pub down_of : Saved → List Check → List Check
down_of saved results = keep_if (is_down saved) results

-- A reported name that is no longer checked.
abbrev pub unchecked : ℕ → Check
unchecked name = record { name = name; ok = true; detail = no_longer_checked }

abbrev pub dropped_of : Saved → List Check → List ℕ
dropped_of saved results =
    keep_if (λ name. not (elem name (names_of results))) (to_set saved.failing [])

abbrev pub up_of : Saved → List Check → List Check
up_of saved results = keep_if (is_up saved) results ++ map unchecked (dropped_of saved results)

abbrev pub is_new : Saved → Check → Bool
is_new saved c = not c.ok && (not (elem c.name saved.failing) && not (elem c.name saved.pending))

abbrev pub is_known : Saved → Check → Bool
is_known saved c = not c.ok && (elem c.name saved.failing || elem c.name saved.pending)

unfoldable pub next_of : Saved → List Check → Saved
next_of saved results = record {
  pending = names_of (keep_if (is_new saved) results);
  failing = names_of (keep_if (is_known saved) results);
}

abbrev pub same_names : List ℕ → List ℕ → Bool
same_names [] [] = true
same_names (a ∷ xs) (b ∷ ys) = (a == b) && same_names xs ys
same_names _ _ = false

-- The two texts are equal where the lists are, in their order.
unfoldable pub same_saved : Saved → Saved → Bool
same_saved a b = same_names a.pending b.pending && same_names a.failing b.failing

unfoldable pub save : Saved → Saved → World → World
unfolding same_saved
save next saved w = if same_saved next saved then w else record w { state = some next }

-- `accepts` says whether Telegram takes the message of an attempt. A refusal is an exception, which ends
-- the run: the second component is then false.
module _ (accepts : ℕ → Bool) where
  unfoldable pub telegram : Message → World → World × Bool
  telegram message w =
      if accepts w.attempts
      then (record w { sent = w.sent ++ message ∷ []; attempts = suc w.attempts }, true)
      else (record w { attempts = suc w.attempts }, false)

  abbrev pub alert : (List Check → Message) → List Check → World → World × Bool
  alert message [] w = (w, true)
  alert message (c ∷ cs) w = telegram (message (c ∷ cs)) w

  abbrev pub and_then : World × Bool → (World → World × Bool) → World × Bool
  and_then (w, true) rest = rest w
  and_then (w, false) rest = (w, false)

  unfoldable pub watch : List Check → World → World × Bool
  unfolding telegram next_of save to_set
  watch results w =
      let saved = saved_of w.state in
      and_then (alert down_alert (down_of saved results) w) (λ w₁.
        and_then (alert recovered_alert (up_of saved results) w₁)
          (λ w₂. (save (next_of saved results) saved w₂, true)))

  -- The runs of every minute; an exception of one does not reach the next.
  unfoldable pub watch_all : List (List Check) → World → World
  unfolding watch
  watch_all [] w = w
  watch_all (results ∷ runs) w = watch_all runs (watch results w).0

  pub summary : List Check → World → World × Bool
  unfolding telegram
  summary results w = telegram (summary_of results) w

  -- `scheduled`: the cron expression "0 8 * * *" is the daily summary.
  pub scheduled : (daily : Bool) → List Check → World → World × Bool
  unfolding summary watch
  scheduled true results w = summary results w
  scheduled false results w = watch results w

  pub data Command : Type 0 where
    status_command other_command : Command

  -- An update's chat, none where it has no message, and its command.
  pub on_telegram : (chat : Option ℕ) → (own : ℕ) → Command → List Check → World → World × Bool
  unfolding telegram summary
  on_telegram none own command results w = (w, true)
  on_telegram (some chat) own command results w =
      if chat == own
      then elim command [
        | status_command ↦ and_then (telegram checking w) (summary results)
        | other_command ↦ telegram help w
      ]
      else (w, true)

  pub data Response : Type 0 where
    forbidden accepted busy test_sent about failed : Response
    status_json : Bool → List Check → Response

  pub data Request : Type 0 where
    telegram_post : (secret : Option ℕ) → (chat : Option ℕ) → Command → Request
    get_status get_test get_other : Request

  abbrev or_zero_time : Option ℕ → ℕ
  or_zero_time none = 0
  or_zero_time (some t) = t

  -- An empty secret in the settings admits nobody.
  abbrev admits : Option ℕ → Option ℕ → Bool
  admits (some secret) (some given) = given == secret
  admits _ _ = false

  -- `fetch` at `now` milliseconds. The failure of the command that runs after the answer is logged only.
  unfoldable pub respond :
      (now own : ℕ) → (secret : Option ℕ) → List Check → Request → World → World × Response
  unfolding on_telegram summary
  respond now own secret results (telegram_post given chat command) w =
      if admits secret given
      then ((on_telegram chat own command results w).0, accepted)
      else (w, forbidden)
  respond now own secret results get_status w =
      (w, status_json (every (λ (c : Check). c.ok) results) results)
  respond now own secret results get_test w =
      if ltb now (or_zero_time w.last_test + 5 * 60000)
      then (w, busy)
      else let (w', sent) = summary results (record w { last_test = some now }) in
        (w', if sent then test_sent else failed)
  respond now own secret results get_other w = (w, about)
