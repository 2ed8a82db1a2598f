-- ===== src/Window/Steps.antt =====
-- What holds of the commissioning window (mash-go/pkg/pase/window.go) after any calls, and how long it
-- stays open.
use mash.Base.{
  ℕ, ◌≡◌, refl, sym, ap, ◌∙◌, Bool, ◌||◌, List, [], ◌∷◌, String, ltb, Bool-cases, inl, inr,
}
use mash.Base.GoMap.{nat_key}
use mash.Window.{
  is_closed, is_busy, OpenTrigger, Window, new, set_timeout, min_window_timeout, max_window_timeout,
  open_window, close, begin_pase, end_pase, fire, set_on_state_change, set_on_timeout,
}
use mash.Window.Invariant.{
  IsGuarded, idle, guarded, open_window-IsGuarded, close-IsGuarded, begin_pase-IsGuarded,
  end_pase-IsGuarded, fire-IsGuarded,
}

pub data Event : Type 0 where
  opens : OpenTrigger → ℕ → Event
  closes : Event
  begins : ℕ → Event
  ends : String → Bool → ℕ → Event
  fires : ℕ → ℕ → Event
  sets_timeout : ℕ → Event
  sets_on_state_change sets_on_timeout : Bool → Event

same-IsGuarded :
    (w u : Window)
    → u.state ≡ w.state
    → u.timer ≡ w.timer
    → u.pending ≡ w.pending
    → u.session_id ≡ w.session_id
    → IsGuarded w
    → IsGuarded u
same-IsGuarded w u e f g h (idle c t p s) = idle (ap is_closed e ∙ c) (f ∙ t) (g ∙ p) (h ∙ s)
same-IsGuarded w u e f g h (guarded i d c t p s) =
    guarded i d (ap is_closed e ∙ c) (f ∙ t) (g ∙ p) (λ b. h ∙ s (ap is_busy (sym e) ∙ b))

set_timeout-IsGuarded : (w : Window) (d : ℕ) → IsGuarded w → IsGuarded (set_timeout w d).0
unfolding set_timeout
set_timeout-IsGuarded w d v =
    elim (Bool-cases (ltb d min_window_timeout || ltb max_window_timeout d)) [
      | inl b ↦ rw b v
      | inr b ↦ rw b (same-IsGuarded w (record w { timeout = d }) refl refl refl refl v)
    ]

module _ (format : ℕ → String) where
  unfoldable pub step : Window → Event → Window
  step w (opens t now) = (open_window w t now).0
  step w closes = (close w).0
  step w (begins now) = (begin_pase format w now).0
  step w (ends id success now) = (end_pase w id success now).0
  step w (fires handle now) = (fire w handle now).0
  step w (sets_timeout d) = (set_timeout w d).0
  step w (sets_on_state_change f) = set_on_state_change w f
  step w (sets_on_timeout f) = set_on_timeout w f

  unfoldable pub run : Window → List Event → Window
  run w [] = w
  run w (e ∷ es) = run (step w e) es

  step-IsGuarded : (w : Window) (e : Event) → IsGuarded w → IsGuarded (step w e)
  unfolding step set_timeout set_on_state_change set_on_timeout
  step-IsGuarded w (opens t now) v = open_window-IsGuarded w t now v
  step-IsGuarded w closes v = close-IsGuarded w v
  step-IsGuarded w (begins now) v = begin_pase-IsGuarded format w now v
  step-IsGuarded w (ends id success now) v = end_pase-IsGuarded w id success now v
  step-IsGuarded w (fires handle now) v = fire-IsGuarded w handle now v
  step-IsGuarded w (sets_timeout d) v = set_timeout-IsGuarded w d v
  step-IsGuarded w (sets_on_state_change f) v = same-IsGuarded w _ refl refl refl refl v
  step-IsGuarded w (sets_on_timeout f) v = same-IsGuarded w _ refl refl refl refl v

  run-IsGuarded : (w : Window) (es : List Event) → IsGuarded w → IsGuarded (run w es)
  unfolding run
  run-IsGuarded w [] v = v
  run-IsGuarded w (e ∷ es) v = run-IsGuarded (step w e) es (step-IsGuarded w e v)

  -- After any calls, in any order, a closed window has no call of the runtime to come and no session,
  -- and any other has exactly one, which its timer holds; a session is there only in an exchange.
  pub run-new-IsGuarded : (es : List Event) → IsGuarded (run new es)
  unfolding new
  run-new-IsGuarded es = run-IsGuarded _ es (idle refl refl refl refl)
