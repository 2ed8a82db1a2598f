-- ===== src/Window/Sessions.antt =====
-- The PASE exchanges of the commissioning window (mash-go/pkg/pase/window.go): BeginPASE and EndPASE.
use mash.Base.{
  ltb, subst, ap, ◌∙◌, sym, none-ne-some, ℕ, ◌≡◌, refl, ◌≢◌, Bool, true, false, none, some, [],
  String, String-discrete, if_pos, if_neg, Bool-cases, inl, inr,
}
use mash.Window.{
  is_busy, Window, not_in_pase, invalid_session, ended, end_pase, changed, begin_pase, is_closed,
  remaining_time,
}

pub data Ended (w : Window) (id : String) (success : Bool) (now : ℕ) : Type 0 where
  no_exchange :
      is_busy w.state ≡ false
      → end_pase w id success now ≡ (w, some not_in_pase, [])
      → Ended w id success now
  stranger :
      is_busy w.state ≡ true
      → w.session_id ≢ id
      → end_pase w id success now ≡ (w, some invalid_session, [])
      → Ended w id success now
  own :
      is_busy w.state ≡ true
      → w.session_id ≡ id
      → end_pase w id success now
        ≡ (ended w success now, none, changed w w.state (ended w success now).state)
      → Ended w id success now

-- EndPASE is refused, and changes nothing, if no exchange is under way or if the id is not that of the
-- exchange; otherwise it ends the exchange and reports the change of state.
pub end_pase-Ended : (w : Window) (id : String) (success : Bool) (now : ℕ) → Ended w id success now
unfolding end_pase
end_pase-Ended w id success now = elim (Bool-cases (is_busy w.state)) [
  | inr b ↦ no_exchange b (rw b refl)
  | inl b ↦ elim (String-discrete w.session_id id) [
    | yes e ↦ own b e (rw b (if_pos (String-discrete w.session_id id) e _ _))
    | no n ↦ stranger b n (rw b (if_neg (String-discrete w.session_id id) n _ _))
  ]
]

clash : {b : Bool} → b ≡ true → b ≡ false → ⊥
clash p q = cc

ended_done : (w : Window) (success : Bool) (now : ℕ) → is_busy (ended w success now).state ≡ false
unfolding ended
ended_done w true now = refl
ended_done w false now = elim (Bool-cases (ltb 0 (remaining_time w now))) [
  | inl e ↦ rw e refl
  | inr e ↦ rw e refl
]

-- No exchange is under way, or another one.
abbrev Elsewhere : String → Window → Type 0
Elsewhere id w = is_busy w.state ≡ true → w.session_id ≢ id

-- EndPASE with this id is refused and changes nothing.
abbrev pub Refuses : String → Window → Type 0
Refuses id w =
    (success : Bool) (now : ℕ)
    → ((end_pase w id success now).0 ≡ w) × ((end_pase w id success now).1 ≢ none)

Elsewhere-Refuses : (w : Window) (id : String) → Elsewhere id w → Refuses id w
Elsewhere-Refuses w id n success now = pick (end_pase-Ended w id success now)
  where
    pick :
        Ended w id success now
        → ((end_pase w id success now).0 ≡ w) × ((end_pase w id success now).1 ≢ none)
    pick (no_exchange _ e) = (ap (λ o. o.0) e, λ q. none-ne-some (sym q ∙ ap (λ o. o.1) e))
    pick (stranger _ _ e) = (ap (λ o. o.0) e, λ q. none-ne-some (sym q ∙ ap (λ o. o.1) e))
    pick (own b e _) = absurd (n b e)

begin_pase-Elsewhere :
    (format : ℕ → String) (w : Window) (id : String) (now : ℕ)
    → is_busy w.state ≡ false
    → format now ≢ id
    → Elsewhere id (begin_pase format w now).0
unfolding begin_pase
begin_pase-Elsewhere format w id now b n = elim (Bool-cases (is_closed w.state)) [
  | inl c ↦ rw c (λ p. absurd (clash p b))
  | inr c ↦ rw (c, b) (λ _. n)
]

-- The id of the exchange under way ends it once: after that, EndPASE with it is refused and
-- changes nothing, also when the next exchange has begun, if that has another id.
pub stale_session :
    (format : ℕ → String) (w : Window) (id : String) (success : Bool) (now next : ℕ)
    → is_busy w.state ≡ true
    → w.session_id ≡ id
    → format next ≢ id
    → let u = (end_pase w id success now).0 in
      ((end_pase w id success now).1 ≡ none)
      × Refuses id u
      × Refuses id (begin_pase format u next).0
stale_session format w id success now next b e n = pick (end_pase-Ended w id success now)
  where
    done : is_busy (ended w success now).state ≡ false
    done = ended_done w success now

    pick :
        Ended w id success now
        → let u = (end_pase w id success now).0 in
          ((end_pase w id success now).1 ≡ none)
          × Refuses id u
          × Refuses id (begin_pase format u next).0
    pick (no_exchange f _) = absurd (clash b f)
    pick (stranger _ f _) = absurd (f e)
    pick (own _ _ q) = (
      ap (λ o. o.1) q,
      subst (λ o. Refuses id o.0) (sym q)
          (Elsewhere-Refuses (ended w success now) id (λ p. absurd (clash p done))),
      subst (λ o. Refuses id (begin_pase format o.0 next).0) (sym q)
          (Elsewhere-Refuses _ id
            (begin_pase-Elsewhere format (ended w success now) id next done n)),
    )
