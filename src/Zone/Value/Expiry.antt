-- ===== src/Zone/Value/Expiry.antt =====
-- RemoveExpired (mash-go/pkg/zone/zone.go) keeps exactly the entries that have not expired.
use mathlib.Core.List.{append_assoc}
use mash.Base.{
  ℕ, ◌≡◌, refl, sym, ap, ◌∙◌, ◌≢◌, if_pos, if_neg, [], ◌∷◌, ◌++◌, arith, String, All, Bool-cases,
  inl, inr, if◌then◌else◌,
}
use mash.Base.GoMap.{GoMap, string_key, delete, Absent, Distinct, delete-Absent}
use mash.Zone.Value.{
  resolve_limits, resolve_limits_live, effective, ZoneValue, MultiZoneValue, is_expired,
  remove_expired_loop, remove_expired,
}

delete-append :
    (k : String) (xs ys : GoMap String ZoneValue) → delete k (xs ++ ys) ≡ delete k xs ++ delete k ys
unfolding delete
delete-append k [] ys = refl
delete-append k ((j, w) ∷ xs) ys = ground (arith, delete-append k xs ys)

-- The entries that have not expired, in their order.
abbrev pub live : ℕ → GoMap String ZoneValue → GoMap String ZoneValue
live now [] = []
live now ((k, v) ∷ m) = if is_expired now v then live now m else (k, v) ∷ live now m

abbrev Fresh : GoMap String ZoneValue → GoMap String ZoneValue → Type 0
Fresh pre = All (λ e. Absent e.0 pre)

Absent-snoc :
    (j k : String) (v : ZoneValue) (pre : GoMap String ZoneValue)
    → k ≢ j
    → Absent j pre
    → Absent j (pre ++ (k, v) ∷ [])
Absent-snoc j k v [] n a = (n, tt)
Absent-snoc j k v (e ∷ pre) n a = (a.0, Absent-snoc j k v pre n a.1)

Fresh-snoc :
    (k : String) (v : ZoneValue) (pre todo : GoMap String ZoneValue)
    → Absent k todo
    → Fresh pre todo
    → Fresh (pre ++ (k, v) ∷ []) todo
Fresh-snoc k v pre [] a f = tt
Fresh-snoc k v pre ((j, w) ∷ todo) a f =
    (Absent-snoc j k v pre (λ e. a.0 (sym e)) f.0, Fresh-snoc k v pre todo a.1 f.1)

delete-middle :
    (k : String) (v : ZoneValue) (pre todo : GoMap String ZoneValue)
    → Absent k pre
    → Absent k todo
    → delete k (pre ++ (k, v) ∷ todo) ≡ pre ++ todo
unfolding delete
delete-middle k v [] todo p a = rw (if_pos _ refl) (delete-Absent k todo a)
delete-middle k v ((j, w) ∷ pre) todo p a =
    rw (if_neg _ p.0) (ap (◌∷◌ (j, w)) (delete-middle k v pre todo p.1 a))

loop-live :
    (now : ℕ) (todo pre : GoMap String ZoneValue)
    → Distinct todo
    → Fresh pre todo
    → remove_expired_loop now todo (pre ++ todo) ≡ pre ++ live now todo
unfolding remove_expired_loop
loop-live now [] pre d f = refl
loop-live now ((k, v) ∷ todo) pre d f = elim (Bool-cases (is_expired now v)) [
  | inl e ↦ rw e (rw (delete-middle k v pre todo f.0 d.0) (loop-live now todo pre d.1 f.1))
  | inr e ↦ rw e (
      rw (← append_assoc pre ((k, v) ∷ []) todo) (
        loop-live now todo (pre ++ (k, v) ∷ []) d.1 (Fresh-snoc k v pre todo d.0 f.1)
        ∙ append_assoc pre ((k, v) ∷ []) (live now todo)))
]

Fresh-nil : (m : GoMap String ZoneValue) → Fresh [] m
Fresh-nil [] = tt
Fresh-nil (e ∷ m) = (tt, Fresh-nil m)

pub remove_expired-live :
    (m : MultiZoneValue) (now : ℕ)
    → Distinct m.values
    → (remove_expired m now).values ≡ live now m.values
unfolding remove_expired
remove_expired-live m now d = loop-live now m.values [] d (Fresh-nil m.values)

live-All :
    (P : String × ZoneValue → Type 0) (now : ℕ) (m : GoMap String ZoneValue)
    → All P m
    → All P (live now m)
live-All P now [] a = tt
live-All P now (e ∷ m) a = ground (arith, live-All P now m a.1)

pub live-Distinct : (now : ℕ) (m : GoMap String ZoneValue) → Distinct m → Distinct (live now m)
live-Distinct now [] d = tt
live-Distinct now ((k, v) ∷ m) d = elim (Bool-cases (is_expired now v)) [
  | inl e ↦ rw e (live-Distinct now m d.1)
  | inr e ↦ rw e (live-All (λ x. x.0 ≢ k) now m d.0, live-Distinct now m d.1)
]

-- A resolution leaves the entries that have not expired.
pub values-resolve_limits :
    (m : MultiZoneValue) (now : ℕ)
    → Distinct m.values
    → (resolve_limits m now).0.values ≡ live now m.values
unfolding resolve_limits
values-resolve_limits m now d =
    kept (remove_expired m now) (remove_expired m now).values ∙ remove_expired-live m now d
  where
    kept :
        (n : MultiZoneValue) (es : GoMap String ZoneValue)
        → (resolve_limits_live n es).0.values ≡ n.values
    kept n [] = refl
    kept n (e ∷ es) = refl

-- It returns what it stores.
pub winner-resolve_limits :
    (m : MultiZoneValue) (now : ℕ) → effective (resolve_limits m now).0 ≡ (resolve_limits m now).1
unfolding resolve_limits effective
winner-resolve_limits m now = kept (remove_expired m now) (remove_expired m now).values
  where
    kept :
        (n : MultiZoneValue) (es : GoMap String ZoneValue)
        → (
          (resolve_limits_live n es).0.effective_value,
          (resolve_limits_live n es).0.winning_zone_id,
        )
          ≡ (resolve_limits_live n es).1
    kept n [] = refl
    kept n (e ∷ es) = refl
