-- ===== src/Watchdog/Incidents.antt =====
-- watchdog/src/index.ts: the incidents of a name's outcomes, and the alerts that name it.
use optara.Common.{
  ℕ, suc, false, Option, none, some, List, [], ◌∷◌, ◌++◌, elem, leb, ◌==◌, if◌then◌else◌, ◌≡◌,
}
use optara.Watchdog.Checks.{Check}
use optara.Watchdog.{Message, down_alert, recovered_alert, names_of}

-- What a run says of a name: none of its checks has it, or the check of that name passed or failed.
pub data Outcome : Type 0 where
  went_ok went_wrong missing : Outcome

-- The streak of failed runs that a name has after the outcome.
abbrev pub streak : ℕ → Outcome → ℕ
streak k went_wrong = suc k
streak k _ = 0

pub data Incident : Type 0 where
  went_down came_back : Incident

abbrev pub incident_of : ℕ → Outcome → List Incident
incident_of k went_wrong = if k == 1 then went_down ∷ [] else []
incident_of k _ = if leb 2 k then came_back ∷ [] else []

-- The second failed run in a row is an incident, and the end of a streak of two or more is another.
abbrev pub incidents : ℕ → List Outcome → List Incident
incidents k [] = []
incidents k (o ∷ os) = incident_of k o ++ incidents (streak k o) os

abbrev pub found : ℕ → List Check → Option Check
found n [] = none
found n (c ∷ cs) = let rest = found n cs in if c.name == n then some c else rest

abbrev outcome_of : Option Check → Outcome
outcome_of none = missing
outcome_of (some c) = if c.ok then went_ok else went_wrong

abbrev pub outcome : ℕ → List Check → Outcome
outcome n results = outcome_of (found n results)

-- No two checks of a run have one name.
abbrev pub IsUnique : List Check → Type 0
IsUnique [] = Unit
IsUnique (c ∷ cs) = (elem c.name (names_of cs) ≡ false) × IsUnique cs

abbrev pub about : ℕ → Message → List Incident
about n (down_alert cs) = if elem n (names_of cs) then went_down ∷ [] else []
about n (recovered_alert cs) = if elem n (names_of cs) then came_back ∷ [] else []
about n _ = []

-- The alerts that name a check, of the messages that were sent.
abbrev pub about_all : ℕ → List Message → List Incident
about_all n [] = []
about_all n (message ∷ sent) = about n message ++ about_all n sent
