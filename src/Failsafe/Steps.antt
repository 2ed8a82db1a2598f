-- ===== src/Failsafe/Steps.antt =====
-- Every operation and every call of the runtime keeps the failsafe timer (mash-go/pkg/failsafe/timer.go)
-- and the calls to come in step.
use mathlib.Core.Option.{some-injective}
use mash.Base.{
  ℕ, ◌≡◌, refl, sym, ap, ◌∙◌, ◌≢◌, true, false, ◌||◌, ◌&&◌, Option, none, some, List, [], ◌∷◌,
  Bool-cases, Option-cases, inl, inr, none-ne-some, arith, ltb, ◌==◌,
}
use mash.Base.GoMap.{nat_key, lookup, delete, lookup-delete_ne, lookup-delete-some}
use mash.Failsafe.{
  State, normal, timer_running, failsafe, grace_period, is_normal, is_running, is_in_failsafe,
  is_grace, out_of_range, Limits, Action, enters, exits, Call, Timer, new_timer, set_duration,
  set_limits,
}
use mash.Failsafe.Operations.{
  stop_failsafe_timer, start, stopped, stop, reset, enter_failsafe, exit_grace_period, act, fire,
}
use mash.Failsafe.Snapshot.{
  TimerSnapshot, time_left, cleared, restore_running, restore_state, restore,
}
use mash.Failsafe.Invariant.{
  Fresh, Quiet, Armed, idle-Armed, Armed-Quiet, stop_failsafe-Quiet, stop_failsafe-Fresh,
  stop_grace-Quiet, stop_grace-Fresh, arm_failsafe-Armed, arm_grace-Quiet, arm_grace-Fresh,
}

running_iff : (s : State) → is_running s ≡ false → s ≢ timer_running
running_iff s f e = ground arith

running : (s : State) → is_running s ≡ true → s ≡ timer_running
running s e = ground arith

start-Armed : (t : Timer) (now : ℕ) → Armed t → Armed (start t now).0
unfolding start
start-Armed t now v = elim (Bool-cases (is_running t.state || is_in_failsafe t.state)) [
  | inl e ↦ rw e v
  | inr e ↦ rw e (
      arm_failsafe-Armed (record t { state = timer_running; started_at = now }) t.duration now refl
        (Armed-Quiet t (running_iff t.state (ground arith)) v) v.fresh)
]

normal_idle : normal ≢ timer_running
normal_idle e = cc

grace_idle : grace_period ≢ timer_running
grace_idle e = cc

failsafe_idle : failsafe ≢ timer_running
failsafe_idle e = cc

stopped-Armed : (t : Timer) (now : ℕ) → Armed t → Armed (stopped t now)
unfolding stopped
stopped-Armed t now v = elim (Bool-cases (is_in_failsafe t.state && ltb 0 t.grace)) [
  | inl e ↦ rw e (
      idle-Armed _ grace_idle
        (arm_grace-Quiet (record (stop_failsafe_timer t) { state = grace_period }) now
          (stop_failsafe-Quiet t v))
        (arm_grace-Fresh (record (stop_failsafe_timer t) { state = grace_period }) now
          (stop_failsafe-Fresh t v.fresh)))
  | inr e ↦
      rw e (idle-Armed _ normal_idle (stop_failsafe-Quiet t v) (stop_failsafe-Fresh t v.fresh))
]

stop-Armed : (t : Timer) (now : ℕ) → Armed t → Armed (stop t now).0
unfolding stop
stop-Armed t now v = elim (Bool-cases (is_normal t.state)) [
  | inl e ↦ rw e v
  | inr e ↦ rw e (stopped-Armed t now v)
]

reset-Armed : (t : Timer) → Armed t → Armed (reset t).0
unfolding reset
reset-Armed t v =
    idle-Armed _ normal_idle (stop_grace-Quiet (stop_failsafe_timer t) (stop_failsafe-Quiet t v))
      (stop_grace-Fresh (stop_failsafe_timer t) (stop_failsafe-Fresh t v.fresh))

set_duration-Armed : (t : Timer) (d : ℕ) → Armed t → Armed (set_duration t d).0
unfolding set_duration
set_duration-Armed t d v = elim (Bool-cases (out_of_range d)) [
  | inl e ↦ rw e v
  | inr e ↦ rw e (record { owned = v.owned; armed = v.armed; fresh = v.fresh })
]

-- The state that Restore starts from.
restore_state-Armed :
    (s : State) (t : Timer) (snap : TimerSnapshot) (now : ℕ)
    → Quiet t
    → Fresh t
    → Armed (restore_state s t snap now).0
unfolding restore_state restore_running
restore_state-Armed normal t snap now q f = idle-Armed _ normal_idle q f
restore_state-Armed timer_running t snap now q f = elim (Bool-cases (time_left snap now == 0)) [
  | inl e ↦ rw e (idle-Armed _ failsafe_idle q f)
  | inr e ↦ rw e (
      arm_failsafe-Armed
        (record t { state = timer_running; started_at = now; duration = time_left snap now })
        (time_left snap now) now refl q f)
]
restore_state-Armed failsafe t snap now q f = idle-Armed _ failsafe_idle q f
restore_state-Armed grace_period t snap now q f = idle-Armed _ normal_idle q f

restore-Armed :
    (t : Timer) (o : Option TimerSnapshot) (now : ℕ) → Armed t → Armed (restore t o now).0
unfolding restore
restore-Armed t none now v = v
restore-Armed t (some snap) now v =
    restore_state-Armed snap.state (cleared t snap) snap now
      (stop_grace-Quiet (stop_failsafe_timer t) (stop_failsafe-Quiet t v))
      (stop_grace-Fresh (stop_failsafe_timer t) (stop_failsafe-Fresh t v.fresh))

-- The call with this handle is made.
module _ (t : Timer) (v : Armed t) (handle : ℕ) (c : Call)
    (e : lookup handle t.pending ≡ some c) where
  abbrev taken : Timer
  taken = record t { pending = delete handle t.pending }

  taken-Fresh : Fresh taken
  taken-Fresh h d f = v.fresh h d (lookup-delete-some h handle d t.pending f).1

  enters-Armed : c.action ≡ enters → Armed (enter_failsafe taken).0
  unfolding enter_failsafe
  enters-Armed a =
      let (s, o) = v.owned handle c e a in
      rw (ap is_running s) (
        idle-Armed _ failsafe_idle
          (λ h d f b.
            let (n, g) = lookup-delete-some h handle d t.pending f in
            n (some-injective handle h (sym o ∙ (v.owned h d g b).1)))
          taken-Fresh)

  differ : c.action ≡ exits → c.action ≡ enters → ⊥
  differ p q = cc

  kept-Armed : c.action ≡ exits → Armed taken
  kept-Armed a = record {
    owned = λ h d f b. v.owned h d (lookup-delete-some h handle d t.pending f).1 b;
    armed = λ s.
        let (h, d, o, g, b) = v.armed s in
        (
          h,
          d,
          o,
          lookup-delete_ne h handle t.pending (λ q. differ a (
                ap (λ x. x.action) (some-injective c d (sym e ∙ ap (λ i. lookup i t.pending) q ∙ g))
                ∙ b))
              ∙ g,
          b,
        );
    fresh = taken-Fresh;
  }

  exits-Armed : c.action ≡ exits → Armed (exit_grace_period taken).0
  unfolding exit_grace_period
  exits-Armed a = elim (Bool-cases (is_grace t.state)) [
    | inl g ↦ rw g (
        idle-Armed _ normal_idle (Armed-Quiet taken (λ s. absurd (graced s g)) (kept-Armed a))
          taken-Fresh)
    | inr g ↦ rw g (kept-Armed a)
  ]
    where
      graced : t.state ≡ timer_running → is_grace t.state ≡ true → ⊥
      graced s g = ground arith

  act-Armed : (a : Action) → c.action ≡ a → Armed (act a taken).0
  unfolding act
  act-Armed enters p = enters-Armed p
  act-Armed exits p = exits-Armed p

fire-Armed : (t : Timer) (handle now : ℕ) → Armed t → Armed (fire t handle now).0
unfolding fire
fire-Armed t handle now v = elim (Option-cases (lookup handle t.pending)) [
  | inl e ↦ rw (e, fire) v
  | inr (c, e) ↦ elim (Bool-cases (ltb now c.deadline)) [
    | inl early ↦ rw (e, fire) (rw early v)
    | inr late ↦ rw (e, fire) (rw late (act-Armed t v handle c e c.action refl))
  ]
]

pub data Event : Type 0 where
  starts stops : ℕ → Event
  resets : Event
  fires : ℕ → ℕ → Event
  sets_duration : ℕ → Event
  sets_limits : Limits → Event
  restores : Option TimerSnapshot → ℕ → Event

unfoldable pub step : Timer → Event → Timer
step t (starts now) = (start t now).0
step t (stops now) = (stop t now).0
step t resets = (reset t).0
step t (fires handle now) = (fire t handle now).0
step t (sets_duration d) = (set_duration t d).0
step t (sets_limits l) = set_limits t l
step t (restores snap now) = (restore t snap now).0

step-Armed : (t : Timer) (e : Event) → Armed t → Armed (step t e)
unfolding step set_limits
step-Armed t (starts now) v = start-Armed t now v
step-Armed t (stops now) v = stop-Armed t now v
step-Armed t resets v = reset-Armed t v
step-Armed t (fires handle now) v = fire-Armed t handle now v
step-Armed t (sets_duration d) v = set_duration-Armed t d v
step-Armed t (sets_limits l) v = record { owned = v.owned; armed = v.armed; fresh = v.fresh }
step-Armed t (restores snap now) v = restore-Armed t snap now v

unfoldable pub run : Timer → List Event → Timer
run t [] = t
run t (e ∷ es) = run (step t e) es

run-Armed : (t : Timer) (es : List Event) → Armed t → Armed (run t es)
unfolding run
run-Armed t [] v = v
run-Armed t (e ∷ es) v = run-Armed (step t e) es (step-Armed t e v)

new-Armed : Armed new_timer
unfolding new_timer lookup
new-Armed =
    idle-Armed _ normal_idle (λ h c e. absurd (none-ne-some e)) (λ h c e. absurd (none-ne-some e))

-- After any operations and any calls of the runtime, in any order, a call that enters failsafe is to
-- come exactly while the timer runs, and it is the one that the timer holds.
pub run-new-Armed : (es : List Event) → Armed (run new_timer es)
run-new-Armed es = run-Armed new_timer es new-Armed
