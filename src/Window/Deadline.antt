-- ===== src/Window/Deadline.antt =====
-- How long the commissioning window (mash-go/pkg/pase/window.go) stays open.
use mash.Base.{
  ℕ, ◌+◌, ◌<◌, ◌≤◌, ◌≡◌, refl, sym, ap, ◌∙◌, subst, Bool, true, false, ◌⊎◌, some, List, [], ◌∷◌,
  ◌++◌, String, ltb, if◌then◌else◌, Bool-cases, Option-cases, inl, inr, arith,
}
use mash.Base.GoMap.{nat_key, lookup, delete, insert}
use mash.Window.{
  WindowState, window_closed, window_open, is_closed, is_busy, OpenTrigger, Window, Callback, arm,
  open_window, begin_pase, ended, end_pase, handle_timeout, fire, changed, timed_out,
  remaining_time,
}
use mash.Window.Sessions.{Ended, no_exchange, stranger, own, end_pase-Ended}
use mash.Window.Invariant.{
  IsGuarded, idle, guarded, clash, busy_open, fire_early, fire_due, fire-none, lookup_only,
}

-- What a window that times out tells.
abbrev pub farewell : Window → WindowState → List Callback
farewell w old = changed w old window_closed ++ (if w.on_timeout then timed_out ∷ [] else [])

timeout_closes : (w : Window) → is_closed (handle_timeout w).0.state ≡ true
unfolding handle_timeout
timeout_closes w = elim (Bool-cases (is_closed w.state)) [ inl c ↦ rw c c | inr c ↦ rw c refl ]

abbrev opened : Window → OpenTrigger → ℕ → Window
opened w trigger now =
    arm (record w { state = window_open; opened_at = now; open_trigger = trigger; session_id = "" })
      now

opened_call :
    (w : Window) (trigger : OpenTrigger) (now : ℕ)
    → w.pending ≡ []
    → lookup w.next (opened w trigger now).pending ≡ some (now + w.timeout)
unfolding arm insert
opened_call w trigger now p =
    lookup_only (opened w trigger now) w.next (now + w.timeout)
      (ap (insert w.next (now + w.timeout)) p)

opened_closes :
    (w : Window) (trigger : OpenTrigger) (now at : ℕ)
    → w.pending ≡ []
    → now + w.timeout ≤ at
    → ((fire (opened w trigger now) w.next at).0.state ≡ window_closed)
      × ((fire (opened w trigger now) w.next at).1 ≡ farewell w window_open)
unfolding handle_timeout arm
opened_closes w trigger now at p late =
    let e =
      fire_due (opened w trigger now) w.next at (now + w.timeout) (opened_call w trigger now p)
        late in
    (ap (λ o. o.0.state) e, ap (λ o. o.1) e)

-- A closed window that is opened is left open by its timer until the timeout is over, and is then
-- closed by it, which it tells.
pub open_window_deadline :
    (w : Window) (trigger : OpenTrigger) (now : ℕ)
    → is_closed w.state ≡ true
    → IsGuarded w
    → let o = (open_window w trigger now).0 in
      (o.state ≡ window_open)
      × (o.timer ≡ some w.next)
      × ((at : ℕ) → at < now + w.timeout → fire o w.next at ≡ (o, []))
      × ((at : ℕ)
          → now + w.timeout ≤ at
          → ((fire o w.next at).0.state ≡ window_closed)
            × ((fire o w.next at).1 ≡ farewell w window_open))
unfolding open_window arm
open_window_deadline w trigger now c (guarded h d n t p s) = absurd (clash c n)
open_window_deadline w trigger now c (idle _ t p s) = rw c (
  refl,
  refl,
  λ at early.
      fire_early (opened w trigger now) w.next at (now + w.timeout) (opened_call w trigger now p)
        early,
  λ at late. opened_closes w trigger now at p late,
)

-- Attempts at a PASE exchange: a device of the network begins one, or it ends.
pub data Attempt : Type 0 where
  begins : ℕ → Attempt
  ends : String → Bool → ℕ → Attempt

module _ (format : ℕ → String) where
  pub attempts : Window → List Attempt → Window
  attempts w [] = w
  attempts w (begins now ∷ es) = attempts (begin_pase format w now).0 es
  attempts w (ends id success now ∷ es) = attempts (end_pase w id success now).0 es

  abbrev Kept : Window → Window → Type 0
  Kept w u = (is_closed u.state ≡ true) ⊎ (u.pending ≡ w.pending)

  begin_pase-Kept : (w u : Window) (now : ℕ) → Kept w u → Kept w (begin_pase format u now).0
  unfolding begin_pase
  begin_pase-Kept w u now (inl c) = rw c (inl c)
  begin_pase-Kept w u now (inr p) = elim (Bool-cases (is_closed u.state)) [
    | inl c ↦ rw c (inl c)
    | inr c ↦ elim (Bool-cases (is_busy u.state)) [
      | inl b ↦ rw (c, b) (inr p)
      | inr b ↦ rw (c, b) (inr p)
    ]
  ]

  ended-Kept :
      (w u : Window) (success : Bool) (now : ℕ)
      → is_closed u.state ≡ false
      → Kept w u
      → Kept w (ended u success now)
  unfolding ended
  ended-Kept w u true now n k = inl refl
  ended-Kept w u false now n (inl c) = absurd (clash c n)
  ended-Kept w u false now n (inr p) = elim (Bool-cases (ltb 0 (remaining_time u now))) [
    | inl e ↦ rw e (inr p)
    | inr e ↦ rw e (inl refl)
  ]

  end_pase-Kept :
      (w u : Window) (id : String) (success : Bool) (now : ℕ)
      → Kept w u
      → Kept w (end_pase u id success now).0
  end_pase-Kept w u id success now k = pick (end_pase-Ended u id success now)
    where
      pick : Ended u id success now → Kept w (end_pase u id success now).0
      pick (no_exchange _ e) = subst (λ o. Kept w o.0) (sym e) k
      pick (stranger _ _ e) = subst (λ o. Kept w o.0) (sym e) k
      pick (own b _ e) =
          subst (λ o. Kept w o.0) (sym e) (ended-Kept w u success now (busy_open u.state b) k)

  attempts-Kept : (w : Window) (es : List Attempt) (u : Window) → Kept w u → Kept w (attempts u es)
  unfolding attempts
  attempts-Kept w [] u k = k
  attempts-Kept w (begins now ∷ es) u k = attempts-Kept w es _ (begin_pase-Kept w u now k)
  attempts-Kept w (ends id success now ∷ es) u k =
      attempts-Kept w es _ (end_pase-Kept w u id success now k)

  fire_closed :
      (u : Window) (h at : ℕ) → is_closed u.state ≡ true → is_closed (fire u h at).0.state ≡ true
  unfolding handle_timeout
  fire_closed u h at c = elim (Option-cases (lookup h u.pending)) [
    | inl e ↦ subst (λ o. is_closed o.0.state ≡ true) (sym (fire-none u h at e)) c
    | inr (d, e) ↦ elim (Bool-cases (ltb at d)) [
      | inl early ↦
          subst (λ o. is_closed o.0.state ≡ true) (sym (fire_early u h at d e (ground arith))) c
      | inr due ↦
          subst (λ o. is_closed o.0.state ≡ true) (sym (fire_due u h at d e (ground arith)))
            (timeout_closes (record u { pending = delete h u.pending }))
    ]
  ]

  -- However many exchanges are begun and ended on a window with one call to come, with whatever
  -- ids and results, none keeps the window open: once the deadline of that call has passed and
  -- the runtime has made it, the window is closed.
  pub attempts_deadline :
      (w : Window) (es : List Attempt) (h d at : ℕ)
      → w.pending ≡ (h, d) ∷ []
      → d ≤ at
      → is_closed (fire (attempts w es) h at).0.state ≡ true
  attempts_deadline w es h d at p late = pick (attempts-Kept w es w (inr refl))
    where
      pick : Kept w (attempts w es) → is_closed (fire (attempts w es) h at).0.state ≡ true
      pick (inl c) = fire_closed (attempts w es) h at c
      pick (inr q) =
          subst (λ o. is_closed o.0.state ≡ true)
            (sym (fire_due (attempts w es) h at d (lookup_only (attempts w es) h d (q ∙ p)) late))
            (timeout_closes (record (attempts w es) { pending = delete h (attempts w es).pending }))
