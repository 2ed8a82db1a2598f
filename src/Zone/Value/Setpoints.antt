-- ===== src/Zone/Value/Setpoints.antt =====
-- ResolveSetpoints (mash-go/pkg/zone/zone.go): the zone of the highest priority wins.
use mathlib.Core.List.{Memᴰ}
use mash.Base.{
  ℕ, ◌≤◌, ◌<◌, ◌≡◌, refl, ap, ◌∙◌, ◌≢◌, ◌⊎◌, inl, inr, none, some, [], ◌∷◌, arith, subst,
  ℕ_discrete, String, All, Bool-cases, ltb,
}
use mash.Base.GoMap.{GoMap, Distinct}
use mash.Zone.{zone_type_test}
use mash.Zone.Value.{
  ZoneValue, MultiZoneValue, Winner, Leader, no_leader, setpoint_round, setpoint_loop,
  resolve_setpoints_live, resolve_setpoints, remove_expired,
}
use mash.Zone.Value.Expiry.{live, remove_expired-live}

-- No zone but a TEST zone comes before the priority `p` (the lower number is the higher one).
abbrev pub NoneBefore : ℕ → GoMap String ZoneValue → Type 0
NoneBefore p = All (λ e. (e.1.zone_type ≡ zone_type_test) ⊎ (p ≤ e.1.zone_type))

abbrev Leads : Leader → GoMap String ZoneValue → Type 0
Leads l es =
    (v : ZoneValue) × Memᴰ (l.zone_id, v) es
    × (v.zone_type ≢ zone_type_test)
    × (l.effective ≡ some v.value)
    × (l.priority ≡ v.zone_type)

abbrev Onwards : Leader → GoMap String ZoneValue → Type 0
Onwards l es =
    (r : Leader) × (setpoint_loop es l ≡ r)
    × (r.priority ≤ l.priority)
    × NoneBefore r.priority es
    × ((r ≡ l) ⊎ Leads r es)

Leads-cons :
    (r : Leader) (e : String × ZoneValue) (es : GoMap String ZoneValue)
    → Leads r es
    → Leads r (e ∷ es)
Leads-cons r e es (v, m, n, p, q) = (v, Memᴰ.tail m, n, p, q)

abbrev leader : String → ZoneValue → Leader
leader j v = record { effective = some v.value; zone_id = j; priority = v.zone_type }

round_keep :
    (j : String) (v : ZoneValue) (l : Leader)
    → (v.zone_type ≡ zone_type_test) ⊎ (l.priority ≤ v.zone_type)
    → setpoint_round j v l ≡ l
unfolding setpoint_round
round_keep j v l (inl t) = ground arith
round_keep j v l (inr p) = ground arith

round_win :
    (j : String) (v : ZoneValue) (l : Leader)
    → v.zone_type ≢ zone_type_test
    → v.zone_type < l.priority
    → setpoint_round j v l ≡ leader j v
unfolding setpoint_round
round_win j v l n p = ground arith

Onwards-keep :
    (j : String) (v : ZoneValue) (l : Leader) (es : GoMap String ZoneValue)
    → (v.zone_type ≡ zone_type_test) ⊎ (l.priority ≤ v.zone_type)
    → Onwards l es
    → Onwards l ((j, v) ∷ es)
unfolding setpoint_loop
Onwards-keep j v l es c (r, q, le, b, from) =
    (r, ap (setpoint_loop es) (round_keep j v l c) ∙ q, le, (under c, b), origin from)
  where
    under :
        (v.zone_type ≡ zone_type_test) ⊎ (l.priority ≤ v.zone_type)
        → (v.zone_type ≡ zone_type_test) ⊎ (r.priority ≤ v.zone_type)
    under (inl t) = inl t
    under (inr p) = inr (omega arith)

    origin : (r ≡ l) ⊎ Leads r es → (r ≡ l) ⊎ Leads r ((j, v) ∷ es)
    origin (inl p) = inl p
    origin (inr s) = inr (Leads-cons r (j, v) es s)

Onwards-win :
    (j : String) (v : ZoneValue) (l : Leader) (es : GoMap String ZoneValue)
    → v.zone_type ≢ zone_type_test
    → v.zone_type < l.priority
    → Onwards (leader j v) es
    → Onwards l ((j, v) ∷ es)
unfolding setpoint_loop
Onwards-win j v l es n p (r, q, le, b, from) = (
  r,
  ap (setpoint_loop es) (round_win j v l n p) ∙ q,
  omega arith,
  (inr le, b),
  inr (origin from),
)
  where
    origin : (r ≡ leader j v) ⊎ Leads r es → Leads r ((j, v) ∷ es)
    origin (inl e) =
        (v, Memᴰ.head (λ t. ((e t).zone_id, v)), n, ap (λ x. x.effective) e, ap (λ x. x.priority) e)
    origin (inr s) = Leads-cons r (j, v) es s

setpoint_loop-Onwards : (l : Leader) (es : GoMap String ZoneValue) → Onwards l es
unfolding setpoint_loop
setpoint_loop-Onwards l [] = (l, refl, omega arith, tt, inl refl)
setpoint_loop-Onwards l ((j, v) ∷ es) = elim (ℕ_discrete v.zone_type zone_type_test) [
  | yes t ↦ Onwards-keep j v l es (inl t) (setpoint_loop-Onwards l es)
  | no n ↦ elim (Bool-cases (ltb v.zone_type l.priority)) [
    | inl s ↦ Onwards-win j v l es n (ground arith) (setpoint_loop-Onwards (leader j v) es)
    | inr s ↦ Onwards-keep j v l es (inr (ground arith)) (setpoint_loop-Onwards l es)
  ]
]

-- What the resolution of `es` promises: the winner is in the map, is no TEST zone, and no other zone
-- comes before it; without one, only TEST zones have set a value.
abbrev pub Foremost : GoMap String ZoneValue → Winner → Type 0
Foremost es w =
    (All (λ e. e.1.zone_type ≡ zone_type_test) es × (w ≡ (none, "")))
    ⊎ ((j : String) × (v : ZoneValue) × (w ≡ (some v.value, j))
        × Memᴰ (j, v) es
        × (v.zone_type ≢ zone_type_test)
        × NoneBefore v.zone_type es)

-- A zone type below 255 can win.
abbrev pub Ranked : GoMap String ZoneValue → Type 0
Ranked = All (λ e. e.1.zone_type < 255)

only_tests :
    (es : GoMap String ZoneValue)
    → Ranked es
    → NoneBefore 255 es
    → All (λ e. e.1.zone_type ≡ zone_type_test) es
only_tests [] k b = tt
only_tests (e ∷ es) k (inl t, b) = (t, only_tests es k.1 b)
only_tests (e ∷ es) k (inr p, b) = absurd (omega arith)

setpoint_loop-Foremost :
    (es : GoMap String ZoneValue)
    → Ranked es
    → let l = setpoint_loop es no_leader in Foremost es (l.effective, l.zone_id)
setpoint_loop-Foremost es k = finish (setpoint_loop-Onwards no_leader es)
  where
    finish :
        Onwards no_leader es
        → let l = setpoint_loop es no_leader in Foremost es (l.effective, l.zone_id)
    finish (r, q, le, b, inl e) = inl (
      only_tests es k (subst (λ p. NoneBefore p es) (ap (λ x. x.priority) e) b),
      ap (λ x. (x.effective, x.zone_id)) (q ∙ e),
    )
    finish (r, q, le, b, inr (v, m, n, e, p)) = inr (
      r.zone_id,
      v,
      ap (λ x. (x.effective, x.zone_id)) q ∙ ap (λ x. (x, r.zone_id)) e,
      m,
      n,
      subst (λ p. NoneBefore p es) p b,
    )

resolve_setpoints_live_winner :
    (m : MultiZoneValue) (es : GoMap String ZoneValue)
    → let l = setpoint_loop es no_leader in
      (resolve_setpoints_live m es).1 ≡ (l.effective, l.zone_id)
unfolding resolve_setpoints_live setpoint_loop
resolve_setpoints_live_winner m [] = refl
resolve_setpoints_live_winner m (e ∷ es) = refl

live-Ranked : (now : ℕ) (es : GoMap String ZoneValue) → Ranked es → Ranked (live now es)
live-Ranked now [] k = tt
live-Ranked now (e ∷ es) k = ground (arith, live-Ranked now es k.1)

-- On a map without repeated keys whose priorities are below 255, ResolveSetpoints returns the
-- value of a zone of the highest priority among the values that have not expired and that no TEST
-- zone has set; without such a value it returns nil and no zone.
pub resolve_setpoints-Foremost :
    (m : MultiZoneValue) (now : ℕ)
    → Distinct m.values
    → Ranked m.values
    → Foremost (live now m.values) (resolve_setpoints m now).1
unfolding resolve_setpoints
resolve_setpoints-Foremost m now d k =
    rw (resolve_setpoints_live_winner (remove_expired m now) (remove_expired m now).values) (
      rw (remove_expired-live m now d)
        (setpoint_loop-Foremost (live now m.values) (live-Ranked now m.values k)))
