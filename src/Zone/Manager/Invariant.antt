-- ===== src/Zone/Manager/Invariant.antt =====
-- What holds of a zone manager (mash-go/pkg/zone/manager.go) between two calls.
use mash.Base.{
  ℕ, ◌≤◌, ◌<◌, ◌≡◌, refl, sym, ◌∙◌, ◌≢◌, if_pos, if_neg, false, some, List, [], ◌∷◌, arith, subst,
  String, All, inl, inr, Bool-cases, Option-cases, length, leb, is_some,
}
use mash.Base.GoMap.{
  GoMap, string_key, lookup, insert, delete, Distinct, All-insert, All-delete, All-lookup,
  insert-Distinct, delete-Distinct, length-insert-le, length-delete-le,
}
use mash.Zone.{Zone, ZoneType, max_zones}
use mash.Zone.Manager.{
  Manager, Request, adds, removes, connects, disconnects, sees, new, has_type, new_zone, add_zone,
  remove_zone, set_connected, set_disconnected, update_last_seen, step, run,
}

abbrev pub Untyped : ZoneType → GoMap String Zone → Type 0
Untyped zt = All (λ e. e.1.zone_type ≢ zt)

-- No two zones have one type.
abbrev pub OneEach : GoMap String Zone → Type 0
OneEach [] = Unit
OneEach ((id, z) ∷ zs) = Untyped z.zone_type zs × OneEach zs

-- Every zone stands under its own identifier.
abbrev pub Named : GoMap String Zone → Type 0
Named = All (λ e. e.1.id ≡ e.0)

pub record IsValid (m : Manager) : Type 0 where
  pub distinct : Distinct m.zones
  pub named : Named m.zones
  pub one_each : OneEach m.zones
  pub capped : length m.zones ≤ max_zones

has_type-Untyped : (zt : ZoneType) (zs : GoMap String Zone) → has_type zt zs ≡ false → Untyped zt zs
unfolding has_type
has_type-Untyped zt [] h = tt
has_type-Untyped zt ((id, z) ∷ zs) h = ground (arith, has_type-Untyped zt zs)

insert-OneEach :
    (id : String) (z : Zone) (zs : GoMap String Zone)
    → Untyped z.zone_type zs
    → OneEach zs
    → OneEach (insert id z zs)
unfolding insert
insert-OneEach id z [] u o = (tt, tt)
insert-OneEach id z ((j, w) ∷ zs) u o = elim (string_key.dec j id) [
  | yes e ↦ rw (if_pos _ e) (u.1, o.1)
  | no n ↦ rw (if_neg _ n) (
    All-insert (λ e. e.1.zone_type ≢ w.zone_type) id z zs (λ e. u.0 (sym e)) o.0,
    insert-OneEach id z zs u.1 o.1,
  )
]

-- A write to a zone that keeps its type.
update-OneEach :
    (id : String) (y z : Zone) (zs : GoMap String Zone)
    → lookup id zs ≡ some y
    → z.zone_type ≡ y.zone_type
    → OneEach zs
    → OneEach (insert id z zs)
unfolding lookup insert
update-OneEach id y z [] h t o = cc
update-OneEach id y z ((j, w) ∷ zs) h t o = elim (string_key.dec j id) [
  | yes e ↦
      let found : some w ≡ some y = rw (if_pos _ e) at h in
      let same : w.zone_type ≡ z.zone_type = cc in
      rw (if_pos _ e) (subst (λ x. Untyped x zs) same o.0, o.1)
  | no n ↦
      let rest : lookup id zs ≡ some y = rw (if_neg _ n) at h in
      let other : y.zone_type ≢ w.zone_type = All-lookup _ id y zs o.0 rest in
      rw (if_neg _ n) (
        All-insert (λ e. e.1.zone_type ≢ w.zone_type) id z zs (λ e. other (sym t ∙ e)) o.0,
        update-OneEach id y z zs rest t o.1,
      )
]

delete-OneEach : (id : String) (zs : GoMap String Zone) → OneEach zs → OneEach (delete id zs)
unfolding delete
delete-OneEach id [] o = tt
delete-OneEach id ((j, w) ∷ zs) o = elim (string_key.dec j id) [
  | yes e ↦ rw (if_pos _ e) (delete-OneEach id zs o.1)
  | no n ↦
      rw (if_neg _ n)
        (All-delete (λ e. e.1.zone_type ≢ w.zone_type) id zs o.0, delete-OneEach id zs o.1)
]

-- A write to a key of the map does not lengthen it.
length-update :
    (id : String) (y z : Zone) (zs : GoMap String Zone)
    → lookup id zs ≡ some y
    → length (insert id z zs) ≡ length zs
unfolding lookup insert
length-update id y z [] h = cc
length-update id y z ((j, w) ∷ zs) h = ground (arith, length-update id y z zs)

new-IsValid : IsValid new
unfolding new
new-IsValid = record { distinct = tt; named = tt; one_each = tt; capped = omega arith }

module _ (m : Manager) (v : IsValid m) where
  added-IsValid :
      (id : String) (zt : ZoneType) (now : ℕ)
      → has_type zt m.zones ≡ false
      → length m.zones < max_zones
      → IsValid (record m { zones = insert id (new_zone id zt now) m.zones })
  added-IsValid id zt now t l = record {
    distinct = insert-Distinct id (new_zone id zt now) m.zones v.distinct;
    named = All-insert (λ e. e.1.id ≡ e.0) id (new_zone id zt now) m.zones refl v.named;
    one_each =
        insert-OneEach id (new_zone id zt now) m.zones (has_type-Untyped zt m.zones t) v.one_each;
    capped = omega (arith, length-insert-le id (new_zone id zt now) m.zones);
  }

  removed-IsValid : (id : String) → IsValid (record m { zones = delete id m.zones })
  removed-IsValid id = record {
    distinct = delete-Distinct id m.zones v.distinct;
    named = All-delete (λ e. e.1.id ≡ e.0) id m.zones v.named;
    one_each = delete-OneEach id m.zones v.one_each;
    capped = omega (arith, length-delete-le id m.zones, v.capped);
  }

  written-IsValid :
      (id : String) (y z : Zone)
      → lookup id m.zones ≡ some y
      → z.id ≡ y.id
      → z.zone_type ≡ y.zone_type
      → IsValid (record m { zones = insert id z m.zones })
  written-IsValid id y z h i t = record {
    distinct = insert-Distinct id z m.zones v.distinct;
    named =
        All-insert (λ e. e.1.id ≡ e.0) id z m.zones
          (i ∙ All-lookup (λ e. e.1.id ≡ e.0) id y m.zones v.named h) v.named;
    one_each = update-OneEach id y z m.zones h t v.one_each;
    capped = omega (arith, length-update id y z m.zones h, v.capped);
  }

add_zone-IsValid :
    (m : Manager) (id : String) (zt : ZoneType) (now : ℕ)
    → IsValid m
    → IsValid (add_zone m id zt now).0
unfolding add_zone
add_zone-IsValid m id zt now v = elim (Bool-cases (is_some (lookup id m.zones))) [
  | inl e ↦ rw e v
  | inr e ↦ elim (Bool-cases (has_type zt m.zones)) [
    | inl t ↦ rw (e, t) v
    | inr t ↦ elim (Bool-cases (leb max_zones (length m.zones))) [
      | inl l ↦ rw (e, t, l) v
      | inr l ↦ rw (e, t, l) (added-IsValid m v id zt now t (ground arith))
    ]
  ]
]

remove_zone-IsValid : (m : Manager) (id : String) → IsValid m → IsValid (remove_zone m id).0
unfolding remove_zone
remove_zone-IsValid m id v = elim (Bool-cases (is_some (lookup id m.zones))) [
  | inl e ↦ rw e (removed-IsValid m v id)
  | inr e ↦ rw e v
]

-- Every request, in every order, keeps the zones distinct, filed under their identifiers, of pairwise
-- different types and within `MaxZones`.
pub step-IsValid : (m : Manager) (r : Request) → IsValid m → IsValid (step m r)
unfolding step set_connected set_disconnected update_last_seen
step-IsValid m (adds id zt now) v = add_zone-IsValid m id zt now v
step-IsValid m (removes id) v = remove_zone-IsValid m id v
step-IsValid m (connects id now) v = elim (Option-cases (lookup id m.zones)) [
  | inl e ↦ rw (e, step, set_connected) v
  | inr (z, e) ↦ rw (e, step, set_connected) (written-IsValid m v id z _ e refl refl)
]
step-IsValid m (disconnects id) v = elim (Option-cases (lookup id m.zones)) [
  | inl e ↦ rw (e, step, set_disconnected) v
  | inr (z, e) ↦ rw (e, step, set_disconnected) (written-IsValid m v id z _ e refl refl)
]
step-IsValid m (sees id now) v = elim (Option-cases (lookup id m.zones)) [
  | inl e ↦ rw (e, step, update_last_seen) v
  | inr (z, e) ↦ rw (e, step, update_last_seen) (written-IsValid m v id z _ e refl refl)
]

run-IsValid : (m : Manager) (rs : List Request) → IsValid m → IsValid (run m rs)
unfolding run
run-IsValid m [] v = v
run-IsValid m (r ∷ rs) v = run-IsValid (step m r) rs (step-IsValid m r v)

-- After any requests a new manager has at most `MaxZones` zones, no two with one identifier or of one
-- type, and each is filed under its identifier.
pub run-new-IsValid : (rs : List Request) → IsValid (run new rs)
run-new-IsValid rs = run-IsValid new rs new-IsValid
