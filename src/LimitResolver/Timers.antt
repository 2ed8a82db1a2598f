-- ===== src/LimitResolver/Timers.antt =====
-- The timers of the limit resolver (mash-go/pkg/features/limit_resolver.go): a timer that runs out
-- takes the zone's limit away.
use mash.Base.{
  false, ℕ, ◌+◌, ◌≤◌, ◌<◌, ◌≡◌, refl, sym, ap, ◌∙◌, subst, true, Option, none, some, [], ◌∷◌,
  String, Bool-cases, inl, inr, none-ne-some, arith, if_pos, if_neg, if◌then◌else◌,
}
use mash.Base.Int.{ℤ}
use mash.Base.GoMap.{GoMap, string_key, nat_key, lookup, lookup-delete_self}
use mash.Zone.Value.{ZoneValue, is_expired, new_value}
use mash.Zone.Value
use mash.Zone.Value.Expiry.{live}
use mash.Duration.{
  Timer, TimerKey, timer_key, CommandType, limit_consumption, limit_production, max_duration,
  set_timer, drop_timer, fire,
}
use mash.Duration.Invariant.{Synced}
use mash.Duration.Firing.{fire_due}
use mash.EnergyControl.{Caller, SetLimitRequest}
use mash.LimitResolver.{
  LimitResolver, resolve_and_apply, ensure_zone_index, store_consumption, store_production,
  start_or_cancel, timer_at,
}
use mash.LimitResolver.SetLimit.{duration_of, store_limits, activate}
use mash.LimitResolver.Clearing.{expire_value, handle_timer_expiry, handle_expiries, fire_timer}
use mathlib.Core.Option.{some-injective}
use mash.Zone.{ZoneType}
use mash.LimitResolver.Bounds.{stored_lookup, new_value_fresh}
use mash.LimitResolver.Applied.{IsValid, values-resolve_and_apply, resolve_and_apply-Resolved}
use mash.LimitResolver.Effects.{expire_value-IsValid, store_limits-IsValid}

live-none :
    (now : ℕ) (z : String) (es : GoMap String ZoneValue)
    → lookup z es ≡ none
    → lookup z (live now es) ≡ none
unfolding lookup
live-none now z [] e = refl
live-none now z ((j, v) ∷ es) e = elim (string_key.dec j z) [
  | yes q ↦ absurd (none-ne-some (sym e ∙ if_pos (string_key.dec j z) q _ _))
  | no n ↦
      let rest : lookup z es ≡ none = rw (if_neg _ n) at e in
      elim (Bool-cases (Value.is_expired now v)) [
        | inl x ↦ rw x (live-none now z es rest)
        | inr x ↦ rw x (rw (if_neg (string_key.dec j z) n) (live-none now z es rest))
      ]
]

-- The limit that goes with a command type.
abbrev pub Gone : LimitResolver → String → CommandType → Type 0
Gone r z limit_consumption = lookup z r.consumption_limits.values ≡ none
Gone r z limit_production = lookup z r.production_limits.values ≡ none
Gone r z _ = Unit

expire_value-Gone :
    (r : LimitResolver) (z : String) (c : CommandType) → Gone (expire_value r z c) z c
unfolding expire_value Value.clear
expire_value-Gone r z limit_consumption = lookup-delete_self z r.consumption_limits.values
expire_value-Gone r z limit_production = lookup-delete_self z r.production_limits.values
expire_value-Gone r z _ = tt

resolve-Gone :
    (r : LimitResolver) (z : String) (c : CommandType) (now : ℕ)
    → IsValid r
    → Gone r z c
    → Gone (resolve_and_apply r now) z c
resolve-Gone r z limit_consumption now v g =
    ap (lookup z) (values-resolve_and_apply r now v).0
    ∙ live-none now z r.consumption_limits.values g
resolve-Gone r z limit_production now v g =
    ap (lookup z) (values-resolve_and_apply r now v).1
    ∙ live-none now z r.production_limits.values g
resolve-Gone r z _ now v g = tt

expiry-Gone :
    (r : LimitResolver) (k : TimerKey) (z : String) (now : ℕ)
    → IsValid r
    → lookup k.zone_id r.index_zone_map ≡ some z
    → Gone (handle_timer_expiry r k now).0 z k.cmd_type
unfolding handle_timer_expiry
expiry-Gone r k z now v e =
    rw (e, handle_timer_expiry)
      (resolve-Gone (expire_value r z k.cmd_type) z k.cmd_type now
        (expire_value-IsValid r z k.cmd_type v) (expire_value-Gone r z k.cmd_type))

-- If the timers and their calls are in step, the resolver listens to them and knows the zone of
-- the index, the call of a timer that is due takes away the limit of its zone and direction,
-- whichever value that is.
pub fire_timer-Gone :
    (r : LimitResolver) (k : TimerKey) (t : Timer ℤ) (z : String) (later : ℕ)
    → IsValid r
    → Synced r.timers
    → r.timers.on_expiry ≡ true
    → lookup k r.timers.timers ≡ some t
    → t.start_time + t.duration ≤ later
    → lookup k.zone_id r.index_zone_map ≡ some z
    → Gone (fire_timer r t.timer later).0 z k.cmd_type
unfolding fire_timer handle_expiries
fire_timer-Gone r k t z later v s l p d e =
    let report : fire r.timers t.timer later
        ≡ (drop_timer r.timers k t, record { key = k; value = t.value } ∷ []) =
      fire_due r.timers k t later s p d
      ∙ ap
          (λ b.
            (drop_timer r.timers k t, (if b then record { key = k; value = t.value } ∷ [] else [])))
          l in
    rw (report, fire_timer)
      (expiry-Gone (record r { timers = drop_timer r.timers k t }) k z later
        (record { consumption = v.consumption; production = v.production }) e)

live-some :
    (now : ℕ) (z : String) (v : ZoneValue) (es : GoMap String ZoneValue)
    → lookup z es ≡ some v
    → is_expired now v ≡ false
    → lookup z (live now es) ≡ some v
unfolding lookup
live-some now z v [] e f = absurd (none-ne-some e)
live-some now z v ((j, w) ∷ es) e f = elim (string_key.dec j z) [
  | yes q ↦
      let same : w ≡ v = some-injective w v (rw (if_pos (string_key.dec j z) q) at e) in
      rw same (rw f (rw (if_pos (string_key.dec j z) q) refl))
  | no n ↦
      let rest : lookup z es ≡ some v = rw (if_neg _ n) at e in
      elim (Bool-cases (is_expired now w)) [
        | inl x ↦ rw x (live-some now z v es rest f)
        | inr x ↦ rw x (rw (if_neg (string_key.dec j z) n) (live-some now z v es rest f))
      ]
]

outlives :
    (z : String) (zt : ZoneType) (v : ℤ) (dur now later : ℕ)
    → later ≤ now + dur
    → is_expired later (new_value z zt v dur now) ≡ false
unfolding is_expired new_value
outlives z zt v dur now later h = ground arith

-- The zone has a consumption limit `v` that has not expired at `later`, when the call of the runtime
-- takes it away.
abbrev pub LostLimit : LimitResolver → String → ℤ → ℕ → ℕ → Type 0
LostLimit r z v handle later =
    (zv : ZoneValue) × (lookup z r.consumption_limits.values ≡ some zv)
    × (zv.value ≡ v)
    × (is_expired later zv ≡ false)
    × (lookup z (fire_timer r handle later).0.consumption_limits.values ≡ none)

-- SetTimer refuses a duration of more than a day, and its error is dropped.
long_timers :
    (r : LimitResolver) (c : Caller) (idx dur : ℕ) (o : Option ℤ) (now : ℕ)
    → max_duration < dur
    → (store_consumption r c idx dur o now).timers ≡ r.timers
unfolding store_consumption start_or_cancel set_timer
long_timers r c idx dur none now h = refl
long_timers r c idx dur (some v) now h = ground arith

module _ (r : LimitResolver) (c : Caller) (req : SetLimitRequest) (now idx : ℕ) where
  known_index :
      lookup c.zone_id r.zone_index_map ≡ some idx → ensure_zone_index r c.zone_id ≡ (r, idx)
  unfolding ensure_zone_index
  known_index e = rw (e, ensure_zone_index)

  production_none :
      (s : LimitResolver) (i dur : ℕ) (o : Option ℤ)
      → o ≡ none
      → store_production s c i dur o now ≡ s
  unfolding store_production
  production_none s i dur none e = refl
  production_none s i dur (some v) e = absurd (none-ne-some (sym e))

  store_limits_eq :
      lookup c.zone_id r.zone_index_map ≡ some idx
      → req.production_limit ≡ none
      → store_limits r c req now
        ≡ store_consumption r c idx (duration_of req.duration) req.consumption_limit now
  unfolding store_limits
  store_limits_eq e p = rw (production_none _ _ _ req.production_limit p) (rw (known_index e))

  store_consumption_index :
      (o : Option ℤ) (dur : ℕ)
      → (store_consumption r c idx dur o now).index_zone_map ≡ r.index_zone_map
  unfolding store_consumption
  store_consumption_index none dur = refl
  store_consumption_index (some v) dur = refl

  -- A consumption limit of more than a day, set while a timer of an earlier request of the zone
  -- is there, is stored and has not expired when that timer runs out, which takes it away: SetTimer
  -- refuses the duration, its error is dropped and the earlier timer stays.
  pub long_limit_lost :
      (t : Timer ℤ) (v : ℤ) (later : ℕ)
      → IsValid r
      → Synced r.timers
      → r.timers.on_expiry ≡ true
      → lookup c.zone_id r.zone_index_map ≡ some idx
      → lookup idx r.index_zone_map ≡ some c.zone_id
      → lookup (timer_at idx limit_consumption) r.timers.timers ≡ some t
      → max_duration < duration_of req.duration
      → req.consumption_limit ≡ some v
      → req.production_limit ≡ none
      → t.start_time + t.duration ≤ later
      → later ≤ now + duration_of req.duration
      → LostLimit (activate r c req now).0 c.zone_id v t.timer later
  unfolding activate resolve_and_apply
  long_limit_lost t v later ok s l zi iz p h ec np d alive =
      let dur = duration_of req.duration in
      let eq = store_limits_eq zi np in
      let m : (store_limits r c req now).timers ≡ r.timers =
        ap (λ x. x.timers) eq ∙ long_timers r c idx dur req.consumption_limit now h in
      let ix : (store_limits r c req now).index_zone_map ≡ r.index_zone_map =
        ap (λ x. x.index_zone_map) eq ∙ store_consumption_index req.consumption_limit dur in
      (
        new_value c.zone_id c.zone_type v dur now,
        ap (lookup c.zone_id)
              (values-resolve_and_apply (store_limits r c req now) now
                (store_limits-IsValid r c req now ok)).0
            ∙ live-some now c.zone_id (new_value c.zone_id c.zone_type v dur now)
                (store_limits r c req now).consumption_limits.values
                (stored_lookup r c req now v ec) (new_value_fresh c.zone_id c.zone_type v dur now),
        unfold new_value in refl,
        outlives c.zone_id c.zone_type v dur now later alive,
        fire_timer-Gone (resolve_and_apply (store_limits r c req now) now)
            (timer_at idx limit_consumption) t c.zone_id later
            (resolve_and_apply-Resolved (store_limits r c req now) now
              (store_limits-IsValid r c req now ok)).valid
            (subst Synced (sym m) s) (ap (λ x. x.on_expiry) m ∙ l)
            (ap (λ x. lookup (timer_at idx limit_consumption) x.timers) m ∙ p) d
            (ap (lookup idx) ix ∙ iz),
      )
