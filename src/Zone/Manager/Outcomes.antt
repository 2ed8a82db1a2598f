-- ===== src/Zone/Manager/Outcomes.antt =====
-- When AddZone (mash-go/pkg/zone/manager.go) succeeds, and what each outcome leaves behind.
use mash.Base.{
  ℕ, suc, ◌≤◌, ◌<◌, ◌≡◌, ite, true, false, none, some, [], ◌∷◌, arith, String, Bool-cases,
  Option-cases, length, if◌then◌else◌, leb, inl, inr,
}
use mash.Base.GoMap.{string_key, lookup, lookup-insert, length-insert_new}
use mash.Zone.{ZoneType, max_zones}
use mash.Zone.Manager.{
  Manager, zone_added, zone_exists, zone_type_exists, max_zones_exceeded, has_type, new_zone,
  add_zone, has_zone, zone_count,
}

-- What AddZone promises: it reports the first obstacle and then changes nothing and calls nobody;
-- else it adds the one zone, not connected, and tells the listener.
pub data Added (m : Manager) (id : String) (zt : ZoneType) (now : ℕ) : Type 0 where
  known :
      has_zone m id ≡ true → add_zone m id zt now ≡ (m, some zone_exists, []) → Added m id zt now
  typed :
      has_zone m id ≡ false
      → has_type zt m.zones ≡ true
      → add_zone m id zt now ≡ (m, some zone_type_exists, [])
      → Added m id zt now
  full :
      has_zone m id ≡ false
      → has_type zt m.zones ≡ false
      → max_zones ≤ zone_count m
      → add_zone m id zt now ≡ (m, some max_zones_exceeded, [])
      → Added m id zt now
  added :
      has_zone m id ≡ false
      → has_type zt m.zones ≡ false
      → zone_count m < max_zones
      → (add_zone m id zt now).1 ≡ none
      → (add_zone m id zt now).2
        ≡ (if m.on_zone_added then zone_added (new_zone id zt now) ∷ [] else [])
      → ((j : String)
          → lookup j (add_zone m id zt now).0.zones
            ≡ ite (string_key.dec id j) (some (new_zone id zt now)) (lookup j m.zones))
      → zone_count (add_zone m id zt now).0 ≡ suc (zone_count m)
      → Added m id zt now

-- AddZone has exactly these four outcomes, told apart by what the manager held before.
pub add_zone-Added : (m : Manager) (id : String) (zt : ZoneType) (now : ℕ) → Added m id zt now
unfolding add_zone has_zone zone_count
add_zone-Added m id zt now = elim (Option-cases (lookup id m.zones)) [
  | inr (z, e) ↦ known (rw e) (rw e)
  | inl e ↦ elim (Bool-cases (has_type zt m.zones)) [
    | inl t ↦ typed (rw e) t (rw (e, t))
    | inr t ↦ elim (Bool-cases (leb max_zones (length m.zones))) [
      | inl l ↦ full (rw e) t (ground arith) (rw (e, t, l))
      | inr l ↦
          added (rw e) t (ground arith) (rw (e, t, l)) (rw (e, t, l))
            (λ j. rw (e, t, l) (lookup-insert j id (new_zone id zt now) m.zones))
            (rw (e, t, l) (omega (arith, length-insert_new id (new_zone id zt now) m.zones e)))
    ]
  ]
]
