-- ===== src/Failsafe/Invariant.antt =====
-- The state of the failsafe timer (mash-go/pkg/failsafe/timer.go) and the calls of the Go runtime
-- stay in step: a call that enters failsafe is to come exactly while the timer runs.
use mathlib.Core.Option.{some-injective}
use mash.Base.{
  ℕ, suc, ◌+◌, ◌<◌, ◌≡◌, refl, sym, ap, ◌∙◌, ◌≢◌, ◌⊎◌, Option, none, some, inl, inr, none-ne-some,
  arith,
}
use mash.Base.GoMap.{
  GoMap, nat_key, lookup, insert, lookup-insert_self, lookup-insert-some, lookup-delete-some,
}
use mash.Failsafe.{timer_running, enters, exits, Call, Timer}
use mash.Failsafe.Operations.{
  stop_call, stop_failsafe_timer, stop_grace_timer, arm_failsafe, arm_grace,
}

-- Handles are new.
abbrev pub Fresh : Timer → Type 0
Fresh t = (h : ℕ) (c : Call) → lookup h t.pending ≡ some c → h < t.next

-- No call is to come that enters failsafe.
abbrev pub Quiet : Timer → Type 0
Quiet t = (h : ℕ) (c : Call) → lookup h t.pending ≡ some c → c.action ≢ enters

pub record Armed (t : Timer) : Type 0 where
  pub owned :
      (h : ℕ) (c : Call)
      → lookup h t.pending ≡ some c
      → c.action ≡ enters
      → (t.state ≡ timer_running) × (t.failsafe_timer ≡ some h)
  pub armed :
      t.state ≡ timer_running
      → (h : ℕ) × (c : Call) × (t.failsafe_timer ≡ some h)
        × (lookup h t.pending ≡ some c)
        × (c.action ≡ enters)
  pub fresh : Fresh t

abbrev pub IsIdle : Timer → Type 0
IsIdle t = t.state ≢ timer_running

-- A timer that does not run and has nothing to come.
pub idle-Armed : (t : Timer) → IsIdle t → Quiet t → Fresh t → Armed t
idle-Armed t i q f = record {
  owned = λ h c e a. absurd (q h c e a);
  armed = λ s. absurd (i s);
  fresh = f;
}

pub Armed-Quiet : (t : Timer) → IsIdle t → Armed t → Quiet t
Armed-Quiet t i v h c e a = i (v.owned h c e a).0

pub stop_failsafe-Quiet : (t : Timer) → Armed t → Quiet (stop_failsafe_timer t)
unfolding stop_failsafe_timer
stop_failsafe-Quiet t v = go t.failsafe_timer refl
  where
    go :
        (o : Option ℕ)
        → t.failsafe_timer ≡ o
        → (h : ℕ) (c : Call) → lookup h (stop_call o t.pending) ≡ some c
        → c.action ≢ enters
    go none o h c e a = none-ne-some (sym o ∙ (v.owned h c e a).1)
    go (some g) o h c e a =
        let (n, f) = lookup-delete-some h g c t.pending e in
        n (some-injective g h (sym o ∙ (v.owned h c f a).1))

stop_call-some :
    (o : Option ℕ) (p : GoMap ℕ Call) (h : ℕ) (c : Call)
    → lookup h (stop_call o p) ≡ some c
    → lookup h p ≡ some c
stop_call-some none p h c e = e
stop_call-some (some g) p h c e = (lookup-delete-some h g c p e).1

pub stop_failsafe-Fresh : (t : Timer) → Fresh t → Fresh (stop_failsafe_timer t)
unfolding stop_failsafe_timer
stop_failsafe-Fresh t f h c e = f h c (stop_call-some t.failsafe_timer t.pending h c e)

pub stop_grace-Quiet : (t : Timer) → Quiet t → Quiet (stop_grace_timer t)
unfolding stop_grace_timer
stop_grace-Quiet t q h c e = q h c (stop_call-some t.grace_period_timer t.pending h c e)

pub stop_grace-Fresh : (t : Timer) → Fresh t → Fresh (stop_grace_timer t)
unfolding stop_grace_timer
stop_grace-Fresh t f h c e = f h c (stop_call-some t.grace_period_timer t.pending h c e)

insert-Fresh :
    (p : GoMap ℕ Call) (n : ℕ) (d : Call)
    → ((h : ℕ) (c : Call) → lookup h p ≡ some c → h < n)
    → (h : ℕ) (c : Call) → lookup h (insert n d p) ≡ some c
    → h < suc n
insert-Fresh p n d f h c e = pick (lookup-insert-some h n d c p e)
  where
    pick : ((n ≡ h) × (d ≡ c)) ⊎ ((n ≢ h) × (lookup h p ≡ some c)) → h < suc n
    pick (inl (q, r)) = omega arith
    pick (inr (q, g)) = omega (arith, f h c g)

pub arm_failsafe-Armed :
    (t : Timer) (d now : ℕ)
    → t.state ≡ timer_running
    → Quiet t
    → Fresh t
    → Armed (arm_failsafe t d now)
unfolding arm_failsafe
arm_failsafe-Armed t d now s q f = record {
  owned = λ h c e a.
      pick h c a (
        lookup-insert-some h t.next (record { action = enters; deadline = now + d }) c t.pending e);
  armed = λ _. (
    t.next,
    record { action = enters; deadline = now + d },
    refl,
    lookup-insert_self t.next (record { action = enters; deadline = now + d }) t.pending,
    refl,
  );
  fresh = insert-Fresh t.pending t.next (record { action = enters; deadline = now + d }) f;
}
  where
    pick :
        (h : ℕ) (c : Call)
        → c.action ≡ enters
        → ((t.next ≡ h) × (record { action = enters; deadline = now + d } ≡ c))
          ⊎ ((t.next ≢ h) × (lookup h t.pending ≡ some c))
        → (t.state ≡ timer_running) × (◌≡◌ {A = Option ℕ} (some t.next) (some h))
    pick h c a (inl (e, r)) = (s, ap {B = Option ℕ} some e)
    pick h c a (inr (n, g)) = absurd (q h c g a)

pub arm_grace-Quiet : (t : Timer) (now : ℕ) → Quiet t → Quiet (arm_grace t now)
unfolding arm_grace
arm_grace-Quiet t now q h c e a = pick (
    lookup-insert-some h t.next (record { action = exits; deadline = now + t.grace }) c t.pending e)
  where
    pick :
        ((t.next ≡ h) × (◌≡◌ {A = Call} (record { action = exits; deadline = now + t.grace }) c))
          ⊎ ((t.next ≢ h) × (lookup h t.pending ≡ some c))
        → ⊥
    pick (inl (_, r)) = differ (ap (λ x. x.action) r ∙ a)
      where
        differ : exits ≡ enters → ⊥
        differ e = cc
    pick (inr (_, g)) = q h c g a

pub arm_grace-Fresh : (t : Timer) (now : ℕ) → Fresh t → Fresh (arm_grace t now)
unfolding arm_grace
arm_grace-Fresh t now f =
    insert-Fresh t.pending t.next (record { action = exits; deadline = now + t.grace }) f
