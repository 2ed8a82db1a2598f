-- ===== src/Zone/Value/Order.antt =====
-- The effective limit of ResolveLimits (mash-go/pkg/zone/zone.go) does not depend on the order in
-- which Go ranges over the map.
use mathlib.Core.List.{Memᴰ}
use mash.Base.{
  ℕ, ◌≡◌, sym, ap, ◌∙◌, ◌↔◌, ◌⊎◌, inl, inr, false, some, [], ◌∷◌, String, All, Bool-cases, subst,
}
use mash.Base.Int.{ℤ}
use mash.Base.GoMap.{GoMap, Distinct}
use mash.Zone.{zone_type_test}
use mash.Zone.Value.{ZoneValue, MultiZoneValue, Winner, is_expired, resolve_limits}
use mash.Zone.Value.Expiry.{live}
use mash.Zone.Value.Limits.{◌⊑◌, ⊑_antisymm, Bounded, SetBy, Strictest, resolve_limits-Strictest}

-- Two listings of one map: the same entries, in whatever order.
abbrev pub SameEntries : GoMap String ZoneValue → GoMap String ZoneValue → Type 0
SameEntries es fs = (e : String × ZoneValue) → Memᴰ e es ↔ Memᴰ e fs

pub All-mem :
    (P : String × ZoneValue → Type 0) (e : String × ZoneValue) (es : GoMap String ZoneValue)
    → All P es
    → Memᴰ e es
    → P e
All-mem P e [] a m = elim m [ ]
All-mem P e (f ∷ es) a (Memᴰ.head q) = subst P (sym q) a.0
All-mem P e (f ∷ es) a (Memᴰ.tail m) = All-mem P e es a.1 m

mem-live :
    (now : ℕ) (e : String × ZoneValue) (es : GoMap String ZoneValue)
    → Memᴰ e (live now es)
    → Memᴰ e es × (is_expired now e.1 ≡ false)
mem-live now e [] m = elim m [ ]
mem-live now e ((k, v) ∷ es) m = elim (Bool-cases (is_expired now v)) [
  | inl x ↦ later (mem-live now e es (rw x at m))
  | inr x ↦ split x (mem-live now e es) (rw x at m)
]
  where
    later :
        Memᴰ e es × (is_expired now e.1 ≡ false)
        → Memᴰ e ((k, v) ∷ es) × (is_expired now e.1 ≡ false)
    later (p, q) = (Memᴰ.tail p, q)

    split :
        is_expired now v ≡ false
        → (Memᴰ e (live now es) → Memᴰ e es × (is_expired now e.1 ≡ false))
        → Memᴰ e ((k, v) ∷ live now es)
        → Memᴰ e ((k, v) ∷ es) × (is_expired now e.1 ≡ false)
    split x rest (Memᴰ.head q) = (Memᴰ.head q, ap (λ t. is_expired now t.1) q ∙ x)
    split x rest (Memᴰ.tail p) = later (rest p)

pub live-mem :
    (now : ℕ) (e : String × ZoneValue) (es : GoMap String ZoneValue)
    → Memᴰ e es
    → is_expired now e.1 ≡ false
    → Memᴰ e (live now es)
live-mem now e [] m x = elim m [ ]
live-mem now e ((k, v) ∷ es) (Memᴰ.head q) x =
    rw (ap (λ t. is_expired now t.1) (sym q) ∙ x) (Memᴰ.head q)
live-mem now e ((k, v) ∷ es) (Memᴰ.tail m) x = elim (Bool-cases (is_expired now v)) [
  | inl y ↦ rw y (live-mem now e es m x)
  | inr y ↦ rw y (Memᴰ.tail (live-mem now e es m x))
]

live-SameEntries :
    (now : ℕ) (es fs : GoMap String ZoneValue)
    → SameEntries es fs
    → SameEntries (live now es) (live now fs)
live-SameEntries now es fs h e = (
  λ m. let (p, x) = mem-live now e es m in live-mem now e fs ((h e).0 p) x,
  λ m. let (p, x) = mem-live now e fs m in live-mem now e es ((h e).1 p) x,
)

-- Each candidate of one listing is bounded by the winner of the other.
bound_winner :
    (y z : ℤ) (j : String) (es fs : GoMap String ZoneValue)
    → SameEntries es fs
    → Bounded y es
    → SetBy z j fs
    → y ⊑ z
bound_winner y z j es fs h b (v, m, n, e) =
    choose (
      All-mem (λ e. (e.1.zone_type ≡ zone_type_test) ⊎ (y ⊑ e.1.value)) (j, v) es b
        ((h (j, v)).1 m))
  where
    choose : (v.zone_type ≡ zone_type_test) ⊎ (y ⊑ v.value) → y ⊑ z
    choose (inl t) = absurd (n t)
    choose (inr p) = subst (λ x. y ⊑ x) e p

no_candidate :
    (z : ℤ) (j : String) (es fs : GoMap String ZoneValue)
    → SameEntries es fs
    → All (λ e. e.1.zone_type ≡ zone_type_test) es
    → SetBy z j fs
    → ⊥
no_candidate z j es fs h a (v, m, n, e) =
    n (All-mem (λ e. e.1.zone_type ≡ zone_type_test) (j, v) es a ((h (j, v)).1 m))

Strictest-unique :
    (es fs : GoMap String ZoneValue) (w w' : Winner)
    → SameEntries es fs
    → Strictest es w
    → Strictest fs w'
    → w.0 ≡ w'.0
Strictest-unique es fs w w' h (inl (a, e)) (inl (b, f)) = cc
Strictest-unique es fs w w' h (inl (a, e)) (inr (y, j, f, b, s)) =
    absurd (no_candidate y j es fs h a s)
Strictest-unique es fs w w' h (inr (y, j, e, b, s)) (inl (a, f)) =
    absurd (no_candidate y j fs es (λ t. ((h t).1, (h t).0)) a s)
Strictest-unique es fs w w' h (inr (y, j, e, b, s)) (inr (z, k, f, c, t)) =
    ap (λ x. x.0) e
    ∙ ap some (
        ⊑_antisymm y z (bound_winner y z k es fs h b t)
          (bound_winner z y j fs es (λ t. ((h t).1, (h t).0)) c s))
    ∙ sym (ap (λ x. x.0) f)

-- Two maps without repeated keys and with the same entries get the same effective limit, in
-- whatever orders they are visited.
pub resolve_limits_order :
    (m m' : MultiZoneValue) (now : ℕ)
    → Distinct m.values
    → Distinct m'.values
    → SameEntries m.values m'.values
    → (resolve_limits m now).1.0 ≡ (resolve_limits m' now).1.0
resolve_limits_order m m' now d d' h =
    Strictest-unique (live now m.values) (live now m'.values) (resolve_limits m now).1
      (resolve_limits m' now).1 (live-SameEntries now m.values m'.values h)
      (resolve_limits-Strictest m now d) (resolve_limits-Strictest m' now d')
