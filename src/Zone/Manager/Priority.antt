-- ===== src/Zone/Manager/Priority.antt =====
-- HighestPriorityZone and HighestPriorityConnectedZone (mash-go/pkg/zone/manager.go).
use mathlib.Core.List.{Memᴰ}
use mash.Base.{
  ℕ, ◌≤◌, ◌<◌, ◌≡◌, refl, sym, ap, ◌∙◌, ◌⊎◌, Bool, true, false, Option, none, some, [], ◌∷◌, arith,
  String, All, Bool-cases, if◌then◌else◌, inl, inr, ltb,
}
use mash.Base.GoMap.{GoMap}
use mash.Zone.{Zone}
use mash.Zone.Manager.{
  Manager, better, highest_loop, highest_connected_loop, highest_priority_zone,
  highest_priority_connected_zone,
}

-- The entries that a loop over the zones considers.
abbrev keep : (Zone → Bool) → GoMap String Zone → GoMap String Zone
keep p [] = []
keep p ((id, z) ∷ zs) = if p z then (id, z) ∷ keep p zs else keep p zs

connected_loop_keep :
    (zs : GoMap String Zone) (h : Option Zone)
    → highest_connected_loop zs h ≡ highest_loop (keep (λ z. z.connected) zs) h
unfolding highest_connected_loop highest_loop
connected_loop_keep [] h = refl
connected_loop_keep ((id, z) ∷ zs) h = elim (Bool-cases z.connected) [
  | inl c ↦ simp c (connected_loop_keep zs (better z h))
  | inr c ↦ simp c (connected_loop_keep zs h)
]

-- `z` is one of the zones that pass `p`, and none of those comes before it.
abbrev pub First : (Zone → Bool) → GoMap String Zone → Zone → Type 0
First p zs z =
    ((id : String) × Memᴰ (id, z) zs)
    × (p z ≡ true)
    × All (λ e. p e.1 ≡ true → z.zone_type ≤ e.1.zone_type) zs

-- The first zone by priority among those that pass `p`, if one does.
abbrev pub FirstOf : (Zone → Bool) → GoMap String Zone → Option Zone → Type 0
FirstOf p zs none = All (λ e. p e.1 ≡ false) zs
FirstOf p zs (some z) = First p zs z

abbrev Onwards : Zone → GoMap String Zone → Type 0
Onwards h zs =
    (z : Zone) × (highest_loop zs (some h) ≡ some z)
    × (z.zone_type ≤ h.zone_type)
    × All (λ e. z.zone_type ≤ e.1.zone_type) zs
    × ((z ≡ h) ⊎ ((id : String) × Memᴰ (id, z) zs))

better_win : (z h : Zone) → z.zone_type < h.zone_type → better z (some h) ≡ some z
unfolding better
better_win z h p = ground arith

better_keep : (z h : Zone) → h.zone_type ≤ z.zone_type → better z (some h) ≡ some h
unfolding better
better_keep z h p = ground arith

Onwards-win :
    (id : String) (y h : Zone) (zs : GoMap String Zone)
    → y.zone_type < h.zone_type
    → Onwards y zs
    → Onwards h ((id, y) ∷ zs)
unfolding highest_loop
Onwards-win id y h zs p (z, q, le, b, from) =
    (z, ap (highest_loop zs) (better_win y h p) ∙ q, omega arith, (le, b), inr (origin from))
  where
    origin : (z ≡ y) ⊎ ((i : String) × Memᴰ (i, z) zs) → (i : String) × Memᴰ (i, z) ((id, y) ∷ zs)
    origin (inl e) = (id, Memᴰ.head (λ t. (id, e t)))
    origin (inr (i, m)) = (i, Memᴰ.tail m)

Onwards-keep :
    (id : String) (y h : Zone) (zs : GoMap String Zone)
    → h.zone_type ≤ y.zone_type
    → Onwards h zs
    → Onwards h ((id, y) ∷ zs)
unfolding highest_loop
Onwards-keep id y h zs p (z, q, le, b, from) =
    (z, ap (highest_loop zs) (better_keep y h p) ∙ q, le, (omega arith, b), origin from)
  where
    origin :
        (z ≡ h) ⊎ ((i : String) × Memᴰ (i, z) zs)
        → (z ≡ h) ⊎ ((i : String) × Memᴰ (i, z) ((id, y) ∷ zs))
    origin (inl e) = inl e
    origin (inr (i, m)) = inr (i, Memᴰ.tail m)

highest_loop-Onwards : (h : Zone) (zs : GoMap String Zone) → Onwards h zs
unfolding highest_loop
highest_loop-Onwards h [] = (h, refl, omega arith, tt, inl refl)
highest_loop-Onwards h ((id, y) ∷ zs) = elim (Bool-cases (ltb y.zone_type h.zone_type)) [
  | inl p ↦ Onwards-win id y h zs (ground arith) (highest_loop-Onwards y zs)
  | inr p ↦ Onwards-keep id y h zs (ground arith) (highest_loop-Onwards h zs)
]

-- Every entry of `keep p zs` is an entry of `zs` that passes, and the others do not pass.
keep-mem :
    (p : Zone → Bool) (id : String) (z : Zone) (zs : GoMap String Zone)
    → Memᴰ (id, z) (keep p zs)
    → Memᴰ (id, z) zs × (p z ≡ true)
keep-mem p id z [] m = elim m [ ]
keep-mem p id z ((j, w) ∷ zs) m = elim (Bool-cases (p w)) [
  | inl c ↦ passes c (keep-mem p id z zs) (rw c at m)
  | inr c ↦ let (n, t) = keep-mem p id z zs (rw c at m) in (Memᴰ.tail n, t)
]
  where
    passes :
        p w ≡ true
        → (Memᴰ (id, z) (keep p zs) → Memᴰ (id, z) zs × (p z ≡ true))
        → Memᴰ (id, z) ((j, w) ∷ keep p zs)
        → Memᴰ (id, z) ((j, w) ∷ zs) × (p z ≡ true)
    passes c rest (Memᴰ.head q) = (Memᴰ.head q, ap (λ t. p t.1) q ∙ c)
    passes c rest (Memᴰ.tail n) = let (k, t) = rest n in (Memᴰ.tail k, t)

keep-All :
    (p : Zone → Bool) (b : ℕ) (zs : GoMap String Zone)
    → All (λ e. b ≤ e.1.zone_type) (keep p zs)
    → All (λ e. p e.1 ≡ true → b ≤ e.1.zone_type) zs
keep-All p b [] a = tt
keep-All p b ((j, w) ∷ zs) a = elim (Bool-cases (p w)) [
  | inl c ↦
      let a' : All (λ e. b ≤ e.1.zone_type) ((j, w) ∷ keep p zs) = rw c at a in
      (λ _. a'.0, keep-All p b zs a'.1)
  | inr c ↦ (λ t. absurd (clash (sym c ∙ t)), keep-All p b zs (rw c at a))
]
  where
    clash : ◌≡◌ {A = Bool} false true → ⊥
    clash e = cc

keep-nil : (p : Zone → Bool) (zs : GoMap String Zone) → keep p zs ≡ [] → All (λ e. p e.1 ≡ false) zs
keep-nil p [] e = tt
keep-nil p ((j, w) ∷ zs) e = elim (Bool-cases (p w)) [
  | inl c ↦ absurd (full (rw c at e))
  | inr c ↦ (c, keep-nil p zs (rw c at e))
]
  where
    full : (j, w) ∷ keep p zs ≡ [] → ⊥
    full e = cc

highest-FirstOf :
    (p : Zone → Bool) (zs es : GoMap String Zone)
    → keep p zs ≡ es
    → FirstOf p zs (highest_loop es none)
unfolding highest_loop better
highest-FirstOf p zs [] e = keep-nil p zs e
highest-FirstOf p zs ((id, h) ∷ es) e = found (highest_loop-Onwards h es)
  where
    found : Onwards h es → FirstOf p zs (highest_loop es (some h))
    found (z, q, le, b, from) = rw q (
      let m = member from in ((m.0, (keep-mem p m.0 z zs m.1).0)),
      (let m = member from in (keep-mem p m.0 z zs m.1).1),
      keep-All p z.zone_type zs (rw e (le, b)),
    )
      where
        member : (z ≡ h) ⊎ ((i : String) × Memᴰ (i, z) es) → (i : String) × Memᴰ (i, z) (keep p zs)
        member (inl s) = (id, rw e (Memᴰ.head (λ t. (id, s t))))
        member (inr (i, m)) = (i, rw e (Memᴰ.tail m))

keep_every : (zs : GoMap String Zone) → keep (λ _. true) zs ≡ zs
keep_every [] = refl
keep_every ((id, z) ∷ zs) = ap (◌∷◌ (id, z)) (keep_every zs)

-- HighestPriorityConnectedZone returns a connected zone that no connected zone comes before, or nil
-- if no zone is connected.
pub highest_priority_connected_zone-FirstOf :
    (m : Manager) → FirstOf (λ z. z.connected) m.zones (highest_priority_connected_zone m)
unfolding highest_priority_connected_zone
highest_priority_connected_zone-FirstOf m =
    rw (connected_loop_keep m.zones none) (highest-FirstOf (λ z. z.connected) m.zones _ refl)

-- HighestPriorityZone returns a zone that no zone comes before, or nil if there is none.
pub highest_priority_zone-FirstOf :
    (m : Manager) → FirstOf (λ _. true) m.zones (highest_priority_zone m)
unfolding highest_priority_zone
highest_priority_zone-FirstOf m = highest-FirstOf (λ _. true) m.zones m.zones (keep_every m.zones)
