-- ===== src/Window/Invariant.antt =====
-- The commissioning window (mash-go/pkg/pase/window.go) and the runtime's calls stay in step.
use mash.Base.{
  ℕ, ◌+◌, ◌<◌, ◌≤◌, ◌≡◌, refl, sym, ap, ◌∙◌, subst, Bool, true, false, Option, none, some, [], ◌∷◌,
  String, if_pos, if_neg, ltb, Bool-cases, inl, inr, arith, ◌≢◌, ℕ_discrete, ap,
}
use mash.Base.GoMap.{GoMap, nat_key, lookup, insert, delete}
use mash.Window.Sessions.{Ended, no_exchange, stranger, own, end_pase-Ended}
use mash.Window.{
  WindowState, window_open, is_closed, is_busy, OpenTrigger, Window, remaining_time, stop_call,
  stop_timer, arm, reset_timer, open_window, close, begin_pase, ended, end_pase, handle_timeout,
  fire,
}

-- A closed window has no call to come; any other has exactly one, which its timer holds. Only a
-- window in a PASE exchange has a session.
pub data IsGuarded (w : Window) : Type 0 where
  idle :
      is_closed w.state ≡ true → w.timer ≡ none → w.pending ≡ [] → w.session_id ≡ "" → IsGuarded w
  guarded :
      (h d : ℕ)
      → is_closed w.state ≡ false
      → w.timer ≡ some h
      → w.pending ≡ (h, d) ∷ []
      → (is_busy w.state ≡ false → w.session_id ≡ "")
      → IsGuarded w

abbrev Disarmed : Window → Type 0
Disarmed w = (w.timer ≡ none) × (w.pending ≡ [])

pub clash : {b : Bool} → b ≡ true → b ≡ false → ⊥
clash p q = cc

delete_only : (h d : ℕ) → delete h ((h, d) ∷ []) ≡ []
unfolding delete
delete_only h d = if_pos (ℕ_discrete h h) refl _ _

stop_call_valid :
    (o : Option ℕ) (p : GoMap ℕ ℕ) (h d : ℕ) → o ≡ some h → p ≡ (h, d) ∷ [] → stop_call o p ≡ []
stop_call_valid o p h d e f = ap (λ x. stop_call x p) e ∙ ap (delete h) f ∙ delete_only h d

pub stop_timer-Disarmed : (w : Window) → IsGuarded w → Disarmed (stop_timer w)
unfolding stop_timer
stop_timer-Disarmed w (idle c t p s) = (refl, ap (λ x. stop_call x w.pending) t ∙ p)
stop_timer-Disarmed w (guarded h d c t p s) = (refl, stop_call_valid w.timer w.pending h d t p)

pub arm-IsGuarded :
    (w : Window) (now : ℕ)
    → is_closed w.state ≡ false
    → w.pending ≡ []
    → (is_busy w.state ≡ false → w.session_id ≡ "")
    → IsGuarded (arm w now)
unfolding arm insert
arm-IsGuarded w now c p s =
    guarded w.next (now + w.timeout) c refl (ap (insert w.next (now + w.timeout)) p) s

pub open_window-IsGuarded :
    (w : Window) (t : OpenTrigger) (now : ℕ) → IsGuarded w → IsGuarded (open_window w t now).0
unfolding open_window reset_timer
open_window-IsGuarded w t now (idle c i p s) = rw c (
    arm-IsGuarded
      (record w { state = window_open; opened_at = now; open_trigger = t; session_id = "" }) now
      refl p (λ _. refl))
open_window-IsGuarded w t now (guarded h d c i p s) = rw c (
    arm-IsGuarded (record (stop_timer w) { opened_at = now }) now (unfold stop_timer in c)
      (stop_timer-Disarmed w (guarded h d c i p s)).1 (unfold stop_timer in s))

pub close-IsGuarded : (w : Window) → IsGuarded w → IsGuarded (close w).0
unfolding close
close-IsGuarded w v = elim (Bool-cases (is_closed w.state)) [
  | inl c ↦ rw c v
  | inr c ↦ rw c (idle refl (stop_timer-Disarmed w v).0 (stop_timer-Disarmed w v).1 refl)
]

pub begin_pase-IsGuarded :
    (format : ℕ → String) (w : Window) (now : ℕ)
    → IsGuarded w
    → IsGuarded (begin_pase format w now).0
unfolding begin_pase
begin_pase-IsGuarded format w now (idle c t p s) = rw c (idle c t p s)
begin_pase-IsGuarded format w now (guarded h d c t p s) = elim (Bool-cases (is_busy w.state)) [
  | inl b ↦ rw (c, b) (guarded h d c t p s)
  | inr b ↦ rw (c, b) (guarded h d refl t p (λ e. absurd (clash refl e)))
]

ended-IsGuarded :
    (w : Window) (success : Bool) (now : ℕ)
    → is_closed w.state ≡ false
    → IsGuarded w
    → IsGuarded (ended w success now)
unfolding ended
ended-IsGuarded w true now c v =
    idle refl (stop_timer-Disarmed w v).0 (stop_timer-Disarmed w v).1 refl
ended-IsGuarded w false now c (idle d _ _ _) = absurd (clash d c)
ended-IsGuarded w false now c (guarded h d n t p s) =
    elim (Bool-cases (ltb 0 (remaining_time w now))) [
      | inl e ↦ rw e (guarded h d refl t p (λ _. refl))
      | inr e ↦ rw e (
          idle refl (stop_timer-Disarmed w (guarded h d n t p s)).0
            (stop_timer-Disarmed w (guarded h d n t p s)).1 refl)
    ]

pub busy_open : (s : WindowState) → is_busy s ≡ true → is_closed s ≡ false
busy_open s b = ground arith

pub end_pase-IsGuarded :
    (w : Window) (id : String) (success : Bool) (now : ℕ)
    → IsGuarded w
    → IsGuarded (end_pase w id success now).0
end_pase-IsGuarded w id success now v = pick (end_pase-Ended w id success now)
  where
    pick : Ended w id success now → IsGuarded (end_pase w id success now).0
    pick (no_exchange _ e) = subst (λ o. IsGuarded o.0) (sym e) v
    pick (stranger _ _ e) = subst (λ o. IsGuarded o.0) (sym e) v
    pick (own b _ e) =
        subst (λ o. IsGuarded o.0) (sym e) (ended-IsGuarded w success now (busy_open w.state b) v)

pub fire-none :
    (w : Window) (handle now : ℕ) → lookup handle w.pending ≡ none → fire w handle now ≡ (w, [])
unfolding fire
fire-none w handle now e = rw (e, fire) refl

pub fire_early :
    (w : Window) (handle now d : ℕ)
    → lookup handle w.pending ≡ some d
    → now < d
    → fire w handle now ≡ (w, [])
unfolding fire
fire_early w handle now d e p = rw (e, fire) (ground arith)

pub fire_due :
    (w : Window) (handle now d : ℕ)
    → lookup handle w.pending ≡ some d
    → d ≤ now
    → fire w handle now ≡ handle_timeout (record w { pending = delete handle w.pending })
unfolding fire
fire_due w handle now d e p = rw (e, fire) (ground arith)

pub lookup_only : (w : Window) (h d : ℕ) → w.pending ≡ (h, d) ∷ [] → lookup h w.pending ≡ some d
unfolding lookup
lookup_only w h d p = ap (lookup h) p ∙ if_pos (ℕ_discrete h h) refl _ _

lookup_other :
    (w : Window) (h d j : ℕ) → w.pending ≡ (h, d) ∷ [] → h ≢ j → lookup j w.pending ≡ none
unfolding lookup
lookup_other w h d j p n = ap (lookup j) p ∙ if_neg (ℕ_discrete h j) n _ _

timeout-IsGuarded :
    (w : Window) (h d : ℕ)
    → is_closed w.state ≡ false
    → w.pending ≡ (h, d) ∷ []
    → IsGuarded (handle_timeout (record w { pending = delete h w.pending })).0
unfolding handle_timeout
timeout-IsGuarded w h d c p = rw c (idle refl refl (ap (delete h) p ∙ delete_only h d) refl)

pub fire-IsGuarded : (w : Window) (handle now : ℕ) → IsGuarded w → IsGuarded (fire w handle now).0
fire-IsGuarded w handle now (idle c t p s) =
    subst (λ o. IsGuarded o.0)
      (sym (fire-none w handle now (ap (lookup handle) p ∙ unfold lookup in refl))) (idle c t p s)
fire-IsGuarded w handle now (guarded h d c t p s) = elim (ℕ_discrete h handle) [
  | no n ↦
      subst (λ o. IsGuarded o.0) (sym (fire-none w handle now (lookup_other w h d handle p n)))
        (guarded h d c t p s)
  | yes e ↦
      subst (λ j. IsGuarded (fire w j now).0) e
        (elim (Bool-cases (ltb now d)) [
          | inl early ↦
              subst (λ o. IsGuarded o.0)
                (sym (fire_early w h now d (lookup_only w h d p) (ground arith)))
                (guarded h d c t p s)
          | inr due ↦
              subst (λ o. IsGuarded o.0)
                (sym (fire_due w h now d (lookup_only w h d p) (ground arith)))
                (timeout-IsGuarded w h d c p)
        ])
]
