-- ===== src/Model/Access.antt =====
-- mash-go/pkg/model/feature.go and attribute.go: what a write may do to the attributes of a feature.
use mash.Base.{
  Bool, false, ltb, not, is_some, ◌&&◌, ℕ, ◌<◌, ◌≡◌, refl, sym, ap, ◌∙◌, subst, ◌⊎◌, inl, inr, true,
  Option, none, some, arith, Bool-cases, Option-cases, leb, ℕ_discrete,
}
use mash.Base.GoMap.{nat_key, lookup, insert, lookup-insert_self, lookup-insert_ne}
use mash.Model.Values.{Any, safe_not_equal}
use mash.Model.Attribute.{
  Attribute, ModelError, attribute_not_writable, attribute_not_found, feature_read_only, can_write,
  check_value, store, set_value, set_value_internal,
}
use mash.Model.Feature.{Feature, get_attribute, put_attribute, attr_id_global_base}
use mash.Model.Writing.{Written, write_attribute, set_found, written, refused}

-- A value that may stand in the place of an attribute's value under its metadata: the same, or one that
-- passes the checks, on a writable attribute whose id is not of the global ones.
abbrev pub MayHold : ℕ → Attribute → Any → Type 0
MayHold id a v =
    (v ≡ a.value)
    ⊎ ((can_write a.metadata.access ≡ true)
        × (id < attr_id_global_base)
        × (check_value a.metadata v ≡ none))

-- Before and after: no attribute comes or goes, metadata stays, and the value is one that may be held.
abbrev pub Allowed : ℕ → Option Attribute → Option Attribute → Type 0
Allowed id none o = o ≡ none
Allowed id (some a) o =
    (b : Attribute) × (o ≡ some b) × (b.metadata ≡ a.metadata) × MayHold id a b.value

pub Allowed-refl : (id : ℕ) (o : Option Attribute) → Allowed id o o
Allowed-refl id none = refl
Allowed-refl id (some a) = (a, refl, refl, inl refl)

MayHold-trans :
    (id : ℕ) (a b : Attribute) (v : Any)
    → b.metadata ≡ a.metadata
    → MayHold id a b.value
    → MayHold id b v
    → MayHold id a v
MayHold-trans id a b v m (inl p) (inl q) = inl (q ∙ p)
MayHold-trans id a b v m (inr p) (inl q) = inr (p.0, p.1, ap (check_value a.metadata) q ∙ p.2)
MayHold-trans id a b v m p (inr (w, lt, c)) =
    inr (ap (λ x. can_write x.access) (sym m) ∙ w, lt, ap (λ x. check_value x v) (sym m) ∙ c)

pub Allowed-trans :
    (id : ℕ) (o p q : Option Attribute) → Allowed id o p → Allowed id p q → Allowed id o q
Allowed-trans id none p q e g = subst (λ x. Allowed id x q) e g
Allowed-trans id (some a) p q (b, e, m, v) g = go (subst (λ x. Allowed id x q) e g)
  where
    go : Allowed id (some b) q → Allowed id (some a) q
    go (c, e', m', v') = (c, e', m' ∙ m, MayHold-trans id a b c.value m v v')

store-MayHold :
    (id : ℕ) (a : Attribute) (v : Any)
    → can_write a.metadata.access ≡ true
    → id < attr_id_global_base
    → check_value a.metadata v ≡ none
    → ((store a v).metadata ≡ a.metadata) × MayHold id a (store a v).value
unfolding store
store-MayHold id a v w lt c = elim (Bool-cases (safe_not_equal a.value v)) [
  | inl e ↦ rw e (refl, inr (w, lt, c))
  | inr e ↦ rw e (refl, inl refl)
]

-- Whether WriteAttribute takes a value, by what it finds at the id.
unfoldable pub acceptable : ℕ → Any → Option Attribute → Bool
acceptable id v none = false
acceptable id v (some a) =
    ltb id attr_id_global_base
    && can_write a.metadata.access
    && not (is_some (check_value a.metadata v))

-- SetValue refuses, or stores a value that passes the checks.
abbrev SetOutcome : Attribute → Any → Attribute × Option ModelError → Type 0
SetOutcome a v r =
    ((e : ModelError) × ((can_write a.metadata.access && not (is_some (check_value a.metadata v)))
        ≡ false)
      × (r ≡ (a, some e)))
    ⊎ ((can_write a.metadata.access ≡ true)
        × (check_value a.metadata v ≡ none)
        × (r ≡ (store a v, none)))

set_value-SetOutcome : (a : Attribute) (v : Any) → SetOutcome a v (set_value a v)
unfolding set_value set_value_internal
set_value-SetOutcome a v = elim (Bool-cases (can_write a.metadata.access)) [
  | inl w ↦ elim (Option-cases (check_value a.metadata v)) [
    | inl c ↦ rw (w, c) (inr (refl, refl, refl))
    | inr (e, c) ↦ rw (w, c) (inl (e, refl, refl))
  ]
  | inr w ↦ rw w (inl (attribute_not_writable, refl, refl))
]

-- WriteAttribute refuses and changes nothing, or stores a value that it may store.
pub record Accepted (f : Feature) (id : ℕ) (v : Any) (a : Attribute) (w : Written) : Type 0 where
  pub found : lookup id f.attributes ≡ some a
  pub below : id < attr_id_global_base
  pub writable : can_write a.metadata.access ≡ true
  pub checked : check_value a.metadata v ≡ none
  pub result : w ≡ written (store a v, none) f id v

abbrev pub WriteOutcome : Feature → ℕ → Any → Written → Type 0
WriteOutcome f id v w =
    ((e : ModelError) × (acceptable id v (lookup id f.attributes) ≡ false) × (w ≡ refused f e))
    ⊎ ((a : Attribute) × Accepted f id v a w)

found-WriteOutcome :
    (f : Feature) (id : ℕ) (v : Any) (o : Option Attribute)
    → lookup id f.attributes ≡ o
    → id < attr_id_global_base
    → WriteOutcome f id v (set_found set_value o f id v)
unfolding acceptable
found-WriteOutcome f id v none p lt = inl (attribute_not_found, rw p refl, refl)
found-WriteOutcome f id v (some a) p lt = elim (set_value-SetOutcome a v) [
  | inl (e, x, q) ↦
      inl (e, rw p (ground arith), ap (λ (r : Attribute × Option ModelError). written r f id v) q)
  | inr (w, c, q) ↦ inr (
    a,
    record {
      found = p;
      below = lt;
      writable = w;
      checked = c;
      result = ap (λ (r : Attribute × Option ModelError). written r f id v) q;
    },
  )
]

above :
    (id : ℕ) (v : Any) (o : Option Attribute)
    → leb attr_id_global_base id ≡ true
    → acceptable id v o ≡ false
unfolding acceptable
above id v none e = refl
above id v (some a) e = ground arith

pub write_attribute-WriteOutcome :
    (f : Feature) (id : ℕ) (v : Any) → WriteOutcome f id v (write_attribute f id v)
unfolding write_attribute get_attribute
write_attribute-WriteOutcome f id v = elim (Bool-cases (leb attr_id_global_base id)) [
  | inl e ↦ rw e (inl (feature_read_only, above id v (lookup id f.attributes) e, refl))
  | inr e ↦ rw e (found-WriteOutcome f id v (lookup id f.attributes) refl (ground arith))
]

stored-Allowed :
    (f : Feature) (id j : ℕ) (v : Any) (a : Attribute)
    → lookup id f.attributes ≡ some a
    → id < attr_id_global_base
    → can_write a.metadata.access ≡ true
    → check_value a.metadata v ≡ none
    → Allowed j (lookup j f.attributes) (lookup j (insert id (store a v) f.attributes))
stored-Allowed f id j v a p lt w c = elim (ℕ_discrete id j) [
  | yes e ↦
      subst (λ i. Allowed i (lookup i f.attributes) (lookup i (insert id (store a v) f.attributes)))
        e
        (rw (p, lookup-insert_self id (store a v) f.attributes)
          (let (m, h) = store-MayHold id a v w lt c in (store a v, refl, m, h)))
  | no ne ↦
      rw (lookup-insert_ne j id (store a v) f.attributes ne)
        (Allowed-refl j (lookup j f.attributes))
]

-- A write of one attribute.
pub write_attribute-Allowed :
    (f : Feature) (id j : ℕ) (v : Any)
    → Allowed j (lookup j f.attributes) (lookup j (write_attribute f id v).feature.attributes)
unfolding put_attribute
write_attribute-Allowed f id j v = elim (write_attribute-WriteOutcome f id v) [
  | inl (e, _, q) ↦ rw q (Allowed-refl j (lookup j f.attributes))
  | inr (a, r) ↦ rw r.result (stored-Allowed f id j v a r.found r.below r.writable r.checked)
]
