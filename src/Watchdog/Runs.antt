-- ===== src/Watchdog/Runs.antt =====
-- watchdog/src/index.ts: what `watch` sends over many runs, where Telegram takes every message, and what is
-- saved where it refuses one.
use optara.Common.{
  ℕ, Bool, true, false, ◌&&◌, none, List, [], ◌∷◌, ◌++◌, map, leb, ◌==◌, ==_iff, elem,
  if◌then◌else◌, All, ◌≡◌, ◌⊎◌, refl, sym, ap, ap₂, ◌∙◌, inl, inr, Bool-cases, append_assoc,
  append-nil, subst, true≢false,
}
use optara.Watchdog.Checks.{Check}
use optara.Watchdog.{
  Saved, Message, down_alert, recovered_alert, World, saved_of, names_of, down_of, up_of, next_of,
  same_names, same_saved, save, telegram, alert, and_then, watch, watch_all,
}
use optara.Watchdog.Proofs.{about_all-append, Tracks, next-Tracks, elem-down, elem-up}
use optara.Watchdog.Incidents.{
  Outcome, went_ok, went_wrong, missing, Incident, went_down, came_back, streak, incident_of,
  incidents, outcome, IsUnique, about, about_all,
}

and_split : (a b : Bool) → (a && b) ≡ true → (a ≡ true) × (b ≡ true)
and_split true b h = (refl, h)
and_split false b h = absurd (true≢false (sym h))

same_names_lem : (xs ys : List ℕ) → same_names xs ys ≡ true → xs ≡ ys
same_names_lem [] [] h = refl
same_names_lem [] (b ∷ ys) h = absurd (true≢false (sym h))
same_names_lem (a ∷ xs) [] h = absurd (true≢false (sym h))
same_names_lem (a ∷ xs) (b ∷ ys) h =
    let parts = and_split (a == b) (same_names xs ys) h in
    ap₂ (λ m t. m ∷ t) ((==_iff a b).0 parts.0) (same_names_lem xs ys parts.1)

same_saved_lem : (a b : Saved) → same_saved a b ≡ true → a ≡ b
unfolding same_saved
same_saved_lem a b h =
    let parts = and_split (same_names a.pending b.pending) (same_names a.failing b.failing) h in
    let pending : a.pending ≡ b.pending = same_names_lem a.pending b.pending parts.0 in
    let failing : a.failing ≡ b.failing = same_names_lem a.failing b.failing parts.1 in
    λ i. record { pending = pending i; failing = failing i }

-- The store holds the next state after the run, written or not.
saved_of-save :
    (next saved : Saved) (w : World)
    → saved_of w.state ≡ saved
    → saved_of (save next saved w).state ≡ next
unfolding save
saved_of-save next saved w h = elim (Bool-cases (same_saved next saved)) [
  | inl same ↦ rw same (h ∙ sym (same_saved_lem next saved same))
  | inr other ↦ rw other refl
]

sent-save : (next saved : Saved) (w : World) → (save next saved w).sent ≡ w.sent
unfolding save
sent-save next saved w = elim (Bool-cases (same_saved next saved)) [
  | inl same ↦ rw same refl
  | inr other ↦ rw other refl
]

one_more :
    (n : ℕ) (sent : List Message) (m : Message)
    → about_all n (sent ++ m ∷ []) ≡ about_all n sent ++ about n m
one_more n sent m =
    about_all-append n sent (m ∷ []) ∙ ap (λ t. about_all n sent ++ t) (append-nil (about n m))

and_then-done :
    (accepts : ℕ → Bool) (p : World × Bool) (rest : World → World × Bool)
    → p.1 ≡ true
    → and_then accepts p rest ≡ rest p.0
and_then-done accepts (w, true) rest h = refl
and_then-done accepts (w, false) rest h = absurd (true≢false (sym h))

-- A run's two alerts of a name make the incident.
both_alerts :
    (k : ℕ) (o : Outcome) (down up : Bool)
    → down ≡ elim o [ went_wrong ↦ k == 1 | _ ↦ false ]
    → up ≡ elim o [ went_wrong ↦ false | _ ↦ leb 2 k ]
    → ((if down then went_down ∷ [] else []) ++ (if up then came_back ∷ [] else []))
      ≡ incident_of k o
both_alerts k went_ok down up d u = rw (d, u) refl
both_alerts k went_wrong down up d u =
    rw (d, u) (append-nil (if k == 1 then went_down ∷ [] else []))
both_alerts k missing down up d u = rw (d, u) refl

-- One alert, sent where a check is in it.
module _ (accepts : ℕ → Bool) (always : (i : ℕ) → accepts i ≡ true) where
  abbrev IsSent : (n : ℕ) (i : Incident) (cs : List Check) (w : World) → World × Bool → Type 0
  IsSent n i cs w (w', done) =
      (done ≡ true)
      × (w'.state ≡ w.state)
      × (about_all n w'.sent ≡ about_all n w.sent ++ (if elem n (names_of cs) then i ∷ [] else []))

  alert_down :
      (n : ℕ) (cs : List Check) (w : World)
      → IsSent n went_down cs w (alert accepts down_alert cs w)
  unfolding telegram
  alert_down n [] w = (refl, refl, sym (append-nil (about_all n w.sent)))
  alert_down n (c ∷ cs) w =
      rw (always w.attempts) (refl, refl, one_more n w.sent (down_alert (c ∷ cs)))

  alert_up :
      (n : ℕ) (cs : List Check) (w : World)
      → IsSent n came_back cs w (alert accepts recovered_alert cs w)
  unfolding telegram
  alert_up n [] w = (refl, refl, sym (append-nil (about_all n w.sent)))
  alert_up n (c ∷ cs) w =
      rw (always w.attempts) (refl, refl, one_more n w.sent (recovered_alert (c ∷ cs)))

  watch-incident :
      (n k : ℕ) (results : List Check) (w : World)
      → IsUnique results
      → Tracks n k (saved_of w.state)
      → (saved_of (watch accepts results w).0.state ≡ next_of (saved_of w.state) results)
        × (about_all n (watch accepts results w).0.sent
            ≡ about_all n w.sent ++ incident_of k (outcome n results))
  unfolding watch
  watch-incident n k results w u t =
      let saved = saved_of w.state in
      let next = next_of saved results in
      let down = down_of saved results in
      let up = up_of saved results in
      let first = alert accepts down_alert down w in
      let second = alert accepts recovered_alert up first.0 in
      let sent₁ = alert_down n down w in
      let sent₂ = alert_up n up first.0 in
      let was : List Incident = about_all n w.sent in
      let ran : watch accepts results w ≡ (save next saved second.0, true) =
        and_then-done accepts first
          (λ w₁.
            and_then accepts (alert accepts recovered_alert up w₁)
              (λ w₂. (save next saved w₂, true)))
          sent₁.0
        ∙ and_then-done accepts second (λ w₂. (save next saved w₂, true)) sent₂.0 in
      let alerts =
        both_alerts k (outcome n results) (elem n (names_of down)) (elem n (names_of up))
          (elem-down n k saved results u t) (elem-up n k saved results u t) in
      (
        ap (λ (p : World × Bool). saved_of p.0.state) ran
            ∙ saved_of-save next saved second.0 (ap saved_of (sent₂.1 ∙ sent₁.1)),
        ap (λ (p : World × Bool). about_all n p.0.sent) ran
            ∙ ap (about_all n) (sent-save next saved second.0)
            ∙ sent₂.2
            ∙ ap (λ t. t ++ (if elem n (names_of up) then came_back ∷ [] else [])) sent₁.2
            ∙ append_assoc was (if elem n (names_of down) then went_down ∷ [] else [])
                (if elem n (names_of up) then came_back ∷ [] else [])
            ∙ ap (λ t. was ++ t) alerts,
      )

  watch_all-incidents_from :
      (n k : ℕ) (runs : List (List Check)) (w : World)
      → All IsUnique runs
      → Tracks n k (saved_of w.state)
      → about_all n (watch_all accepts runs w).sent
        ≡ about_all n w.sent ++ incidents k (map (outcome n) runs)
  unfolding watch_all
  watch_all-incidents_from n k [] w u t = sym (append-nil (about_all n w.sent))
  watch_all-incidents_from n k (results ∷ runs) w (u, us) t =
      let run = watch-incident n k results w u t in
      let tracked =
        subst (Tracks n (streak k (outcome n results))) (sym run.0)
          (next-Tracks n k (saved_of w.state) results u t) in
      watch_all-incidents_from n (streak k (outcome n results)) runs (watch accepts results w).0 us
        tracked
      ∙ ap (λ t. t ++ incidents (streak k (outcome n results)) (map (outcome n) runs)) run.1
      ∙ append_assoc (about_all n w.sent) (incident_of k (outcome n results))
          (incidents (streak k (outcome n results)) (map (outcome n) runs))

abbrev pub fresh_start : World
fresh_start = record { state = none; last_test = none; sent = []; attempts = 0 }

-- Where Telegram takes every message and no run has two checks of one name, the alerts about a
-- name that a fresh watchdog sends over any runs are the incidents of its outcomes, in their
-- order: one where a second run in a row fails, and one where a streak of two or more failures
-- ends, by a pass or because the name is no longer checked.
pub watch_all-incidents :
    (accepts : ℕ → Bool) (n : ℕ) (runs : List (List Check))
    → ((i : ℕ) → accepts i ≡ true)
    → All IsUnique runs
    → about_all n (watch_all accepts runs fresh_start).sent ≡ incidents 0 (map (outcome n) runs)
watch_all-incidents accepts n runs always u =
    watch_all-incidents_from accepts always n 0 runs fresh_start u (refl, refl)

-- The messages of a run: an alert where something is in it.
abbrev pub messages_of : (List Check → Message) → List Check → List Message
messages_of message [] = []
messages_of message (c ∷ cs) = message (c ∷ cs) ∷ []

alert_either :
    (accepts : ℕ → Bool) (message : List Check → Message) (cs : List Check) (w : World)
    → ((alert accepts message cs w).0.state ≡ w.state)
      × ((alert accepts message cs w).1 ≡ true
          → (alert accepts message cs w).0.sent ≡ w.sent ++ messages_of message cs)
unfolding telegram
alert_either accepts message [] w = (refl, λ h. sym (append-nil w.sent))
alert_either accepts message (c ∷ cs) w = elim (Bool-cases (accepts w.attempts)) [
  | inl taken ↦ rw taken (refl, λ h. refl)
  | inr refused ↦ rw refused (refl, λ h. absurd (true≢false (sym h)))
]

and_then-either :
    (accepts : ℕ → Bool) (p : World × Bool) (rest : World → World × Bool)
    (P : World × Bool → Type 0)
    → (p.1 ≡ true → P (rest p.0))
    → (p.1 ≡ false → P (p.0, false))
    → P (and_then accepts p rest)
and_then-either accepts (w, true) rest P f g = f refl
and_then-either accepts (w, false) rest P f g = g refl

-- A run that ends well has sent its alerts and saved the next state; another has changed no saved state.
abbrev pub IsAtomic : List Check → World → World × Bool → Type 0
IsAtomic results w (w', done) =
    let saved = saved_of w.state in
    (done ≡ true)
      × (saved_of w'.state ≡ next_of saved results)
      × (w'.sent
          ≡ w.sent
            ++ messages_of down_alert (down_of saved results)
            ++ messages_of recovered_alert (up_of saved results))
    ⊎ (done ≡ false) × (w'.state ≡ w.state)

-- Whatever messages Telegram takes, a run either ends well, has sent exactly the alert of what
-- is down and then the alert of what recovered, where there are any, and holds the next state,
-- or it ends with an exception and leaves the saved state as it was.
pub watch-IsAtomic :
    (accepts : ℕ → Bool) (results : List Check) (w : World)
    → IsAtomic results w (watch accepts results w)
unfolding watch
watch-IsAtomic accepts results w =
    let saved = saved_of w.state in
    let next = next_of saved results in
    let up = up_of saved results in
    let first = alert accepts down_alert (down_of saved results) w in
    let second = alert accepts recovered_alert up first.0 in
    let e₁ = alert_either accepts down_alert (down_of saved results) w in
    let e₂ = alert_either accepts recovered_alert up first.0 in
    let same : second.0.state ≡ w.state = e₂.0 ∙ e₁.0 in
    and_then-either accepts first
      (λ w₁.
        and_then accepts (alert accepts recovered_alert up w₁) (λ w₂. (save next saved w₂, true)))
      (IsAtomic results w)
      (λ sent₁.
        and_then-either accepts second (λ w₂. (save next saved w₂, true)) (IsAtomic results w)
          (λ sent₂. inl (
            refl,
            saved_of-save next saved second.0 (ap saved_of same),
            sent-save next saved second.0
                ∙ e₂.1 sent₂
                ∙ ap (λ t. t ++ messages_of recovered_alert up) (e₁.1 sent₁),
          ))
          (λ refused. inr (refl, same)))
      (λ refused. inr (refl, e₁.0))
