-- ===== src/Zone/Value/Limits.antt =====
-- ResolveLimits (mash-go/pkg/zone/zone.go): the most restrictive limit wins.
use mathlib.Core.List.{Memᴰ}
use mash.Base.{
  ℕ, ◌≤◌, ◌≡◌, refl, sym, ap, ◌∙◌, ◌≢◌, ◌⊎◌, inl, inr, true, false, none, some, [], ◌∷◌, arith,
  ℕ_discrete, String, All, Bool-cases,
}
use mash.Base.Int.{ℤ, pos, negsuc}
use mash.Base.GoMap.{GoMap, Distinct}
use mash.Zone.{zone_type_test}
use mash.Zone.Value.{
  ZoneValue, MultiZoneValue, Winner, more_restrictive, limit_round, limit_loop, resolve_limits_live,
  resolve_limits, remove_expired,
}
use mash.Zone.Value.Expiry.{live, remove_expired-live}

-- `a` restricts at least as much as `b`: a limit of either sign is stricter the nearer it is to
-- zero, and a consumption limit (not negative) is stricter than every production limit.
infix 50 ◌⊑◌
abbrev pub ◌⊑◌ : ℤ → ℤ → Type 0
pos a ⊑ pos b = a ≤ b
pos a ⊑ negsuc b = Unit
negsuc a ⊑ pos b = ⊥
negsuc a ⊑ negsuc b = a ≤ b

pub ⊑_refl : (a : ℤ) → a ⊑ a
⊑_refl (pos a) = omega arith
⊑_refl (negsuc a) = omega arith

⊑_trans : (a b c : ℤ) → a ⊑ b → b ⊑ c → a ⊑ c
⊑_trans a b c p q = ground arith

pub ⊑_antisymm : (a b : ℤ) → a ⊑ b → b ⊑ a → a ≡ b
⊑_antisymm a b p q = ground arith

stricter : (a b : ℤ) → more_restrictive a b ≡ true → a ⊑ b
unfolding more_restrictive
stricter a b h = ground arith

not_stricter : (a b : ℤ) → more_restrictive a b ≡ false → b ⊑ a
unfolding more_restrictive
not_stricter a b h = ground arith

-- The entry of a TEST zone is no candidate; every other value is no stricter than `y`.
abbrev pub Bounded : ℤ → GoMap String ZoneValue → Type 0
Bounded y = All (λ e. (e.1.zone_type ≡ zone_type_test) ⊎ (y ⊑ e.1.value))

-- The zone `j` has set `y` and is no TEST zone.
abbrev pub SetBy : ℤ → String → GoMap String ZoneValue → Type 0
SetBy y j es = (v : ZoneValue) × Memᴰ (j, v) es × (v.zone_type ≢ zone_type_test) × (v.value ≡ y)

-- What the resolution of `es` promises.
abbrev pub Strictest : GoMap String ZoneValue → Winner → Type 0
Strictest es w =
    (All (λ e. e.1.zone_type ≡ zone_type_test) es × (w ≡ (none, "")))
    ⊎ ((y : ℤ) × (j : String) × (w ≡ (some y, j)) × Bounded y es × SetBy y j es)

abbrev Onwards : ℤ → String → GoMap String ZoneValue → Type 0
Onwards x k es =
    (y : ℤ) × (j : String) × (limit_loop es (some x, k) ≡ (some y, j))
    × (y ⊑ x)
    × Bounded y es
    × (((y ≡ x) × (j ≡ k)) ⊎ SetBy y j es)

SetBy-cons :
    (y : ℤ) (j : String) (e : String × ZoneValue) (es : GoMap String ZoneValue)
    → SetBy y j es
    → SetBy y j (e ∷ es)
SetBy-cons y j e es (v, m, t, s) = (v, Memᴰ.tail m, t, s)

SetBy-here :
    (j : String) (v : ZoneValue) (es : GoMap String ZoneValue)
    → v.zone_type ≢ zone_type_test
    → SetBy v.value j ((j, v) ∷ es)
SetBy-here j v es n = (v, Memᴰ.head refl, n, refl)

round_test :
    (j : String) (v : ZoneValue) (w : Winner) → v.zone_type ≡ zone_type_test → limit_round j v w ≡ w
unfolding limit_round
round_test j v (none, k) t = ground arith
round_test j v (some x, k) t = ground arith

round_win :
    (j k : String) (v : ZoneValue) (x : ℤ)
    → v.zone_type ≢ zone_type_test
    → more_restrictive v.value x ≡ true
    → limit_round j v (some x, k) ≡ (some v.value, j)
unfolding limit_round
round_win j k v x n s = ground arith

round_keep :
    (j k : String) (v : ZoneValue) (x : ℤ)
    → v.zone_type ≢ zone_type_test
    → more_restrictive v.value x ≡ false
    → limit_round j v (some x, k) ≡ (some x, k)
unfolding limit_round
round_keep j k v x n s = ground arith

round_first :
    (j k : String) (v : ZoneValue)
    → v.zone_type ≢ zone_type_test
    → limit_round j v (none, k) ≡ (some v.value, j)
unfolding limit_round
round_first j k v n = ground arith

-- The entry stands under a winner that the rest of the loop has found.
Onwards-keep :
    (x : ℤ) (k : String) (e : String × ZoneValue) (es : GoMap String ZoneValue)
    → limit_round e.0 e.1 (some x, k) ≡ (some x, k)
    → (e.1.zone_type ≡ zone_type_test) ⊎ (x ⊑ e.1.value)
    → Onwards x k es
    → Onwards x k (e ∷ es)
unfolding limit_loop
Onwards-keep x k e es r c (y, i, q, le, b, from) =
    (y, i, ap (limit_loop es) r ∙ q, le, (under c, b), origin from)
  where
    under :
        (e.1.zone_type ≡ zone_type_test) ⊎ (x ⊑ e.1.value)
        → (e.1.zone_type ≡ zone_type_test) ⊎ (y ⊑ e.1.value)
    under (inl t) = inl t
    under (inr p) = inr (⊑_trans y x e.1.value le p)

    origin : ((y ≡ x) × (i ≡ k)) ⊎ SetBy y i es → ((y ≡ x) × (i ≡ k)) ⊎ SetBy y i (e ∷ es)
    origin (inl p) = inl p
    origin (inr s) = inr (SetBy-cons y i e es s)

-- The winner so far is the entry itself, whose zone is no TEST zone.
set_here :
    (y : ℤ) (i j : String) (v : ZoneValue) (es : GoMap String ZoneValue)
    → v.zone_type ≢ zone_type_test
    → ((y ≡ v.value) × (i ≡ j)) ⊎ SetBy y i es
    → SetBy y i ((j, v) ∷ es)
set_here y i j v es n (inl (p, q)) = (v, Memᴰ.head (λ t. (q t, v)), n, sym p)
set_here y i j v es n (inr s) = SetBy-cons y i (j, v) es s

Onwards-win :
    (x : ℤ) (k j : String) (v : ZoneValue) (es : GoMap String ZoneValue)
    → v.zone_type ≢ zone_type_test
    → limit_round j v (some x, k) ≡ (some v.value, j)
    → v.value ⊑ x
    → Onwards v.value j es
    → Onwards x k ((j, v) ∷ es)
unfolding limit_loop
Onwards-win x k j v es n r p (y, i, q, le, b, from) = (
  y,
  i,
  ap (limit_loop es) r ∙ q,
  ⊑_trans y v.value x le p,
  (inr le, b),
  inr (set_here y i j v es n from),
)

limit_loop-Onwards : (x : ℤ) (k : String) (es : GoMap String ZoneValue) → Onwards x k es
unfolding limit_loop
limit_loop-Onwards x k [] = (x, k, refl, ⊑_refl x, tt, inl (refl, refl))
limit_loop-Onwards x k ((j, v) ∷ es) = elim (ℕ_discrete v.zone_type zone_type_test) [
  | yes t ↦
      Onwards-keep x k (j, v) es (round_test j v (some x, k) t) (inl t) (limit_loop-Onwards x k es)
  | no n ↦ elim (Bool-cases (more_restrictive v.value x)) [
    | inl s ↦
        Onwards-win x k j v es n (round_win j k v x n s) (stricter v.value x s)
          (limit_loop-Onwards v.value j es)
    | inr s ↦
        Onwards-keep x k (j, v) es (round_keep j k v x n s) (inr (not_stricter v.value x s))
          (limit_loop-Onwards x k es)
  ]
]

limit_loop-Strictest : (es : GoMap String ZoneValue) → Strictest es (limit_loop es (none, ""))
unfolding limit_loop
limit_loop-Strictest [] = inl (tt, refl)
limit_loop-Strictest ((j, v) ∷ es) = elim (ℕ_discrete v.zone_type zone_type_test) [
  | yes t ↦ rw (round_test j v (none, "") t) (skip t (limit_loop-Strictest es))
  | no n ↦ rw (round_first j "" v n) (first n (limit_loop-Onwards v.value j es))
]
  where
    skip :
        v.zone_type ≡ zone_type_test
        → Strictest es (limit_loop es (none, ""))
        → Strictest ((j, v) ∷ es) (limit_loop es (none, ""))
    skip t (inl (a, e)) = inl ((t, a), e)
    skip t (inr (y, i, e, b, s)) = inr (y, i, e, (inl t, b), SetBy-cons y i (j, v) es s)

    first :
        v.zone_type ≢ zone_type_test
        → Onwards v.value j es
        → Strictest ((j, v) ∷ es) (limit_loop es (some v.value, j))
    first n (y, i, e, le, b, from) = inr (y, i, e, (inr le, b), set_here y i j v es n from)

resolve_limits_live_winner :
    (m : MultiZoneValue) (es : GoMap String ZoneValue)
    → (resolve_limits_live m es).1 ≡ limit_loop es (none, "")
unfolding resolve_limits_live
resolve_limits_live_winner m [] = refl
resolve_limits_live_winner m (e ∷ es) = refl

-- On a map without repeated keys, the winner that ResolveLimits returns has set the strictest
-- value among the values that have not expired and that no TEST zone has set; without such a
-- value it returns nil and no zone.
pub resolve_limits-Strictest :
    (m : MultiZoneValue) (now : ℕ)
    → Distinct m.values
    → Strictest (live now m.values) (resolve_limits m now).1
unfolding resolve_limits
resolve_limits-Strictest m now d =
    rw (resolve_limits_live_winner (remove_expired m now) (remove_expired m now).values)
      (rw (remove_expired-live m now d) (limit_loop-Strictest (live now m.values)))
