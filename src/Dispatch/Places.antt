-- ===== src/Dispatch/Places.antt =====
-- mash-go/pkg/service/dispatch/protocol_handler.go: the feature that a request names, and its place in
-- the device.
use mash.Base.{
  sym, none-ne-some, ℕ, ◌≡◌, ◌≢◌, refl, ap, ◌∙◌, subst, ◌⊎◌, inl, inr, Option, none, some,
  Option-cases, ℕ_discrete,
}
use mash.Base.GoMap.{nat_key, lookup, insert, lookup-insert_self, lookup-insert_ne}
use mash.Model.Attribute.{Attribute}
use mash.Model.Feature.{Feature}
use mash.Model.Device.{
  Device, Endpoint, get_endpoint, get_feature, get_feature_by_id, put_feature, from_endpoint,
}
use mash.Wire.{Request, invalid_endpoint, invalid_feature}
use mash.Dispatch.{Handled, Handler, refuse, addressed}

-- The attribute that a device has there.
abbrev pub in_feature : Option Feature → ℕ → Option Attribute
in_feature none id = none
in_feature (some f) id = lookup id f.attributes

unfoldable pub attribute_at : Device → ℕ → ℕ → ℕ → Option Attribute
attribute_at d e f id = in_feature (get_feature d e f) id

-- A feature at its place, and the others as they were.
pub get_feature-put_feature_self :
    (d : Device) (e f : ℕ) (p : Endpoint) (new : Feature)
    → get_endpoint d e ≡ some p
    → get_feature (put_feature d e f new) e f ≡ some new
unfolding get_feature put_feature get_endpoint get_feature_by_id
get_feature-put_feature_self d e f p new q =
    rw (q, lookup-insert_self e (record p { features = insert f new p.features }) d.endpoints)
      (lookup-insert_self f new p.features)

pub get_feature-put_feature_other :
    (d : Device) (e f i j : ℕ) (new : Feature)
    → (e ≢ i) ⊎ (f ≢ j)
    → get_feature (put_feature d e f new) i j ≡ get_feature d i j
unfolding get_feature put_feature get_endpoint get_feature_by_id
get_feature-put_feature_other d e f i j new ne = elim (Option-cases (lookup e d.endpoints)) [
  | inl q ↦ rw q refl
  | inr (p, q) ↦ rw q (at p q (ℕ_discrete e i))
]
  where
    at :
        (p : Endpoint)
        → lookup e d.endpoints ≡ some p
        → Dec (e ≡ i)
        → from_endpoint
            (lookup i (insert e (record p { features = insert f new p.features }) d.endpoints))
            j
          ≡ from_endpoint (lookup i d.endpoints) j
    at p q (no n) =
        ap (λ (o : Option Endpoint). from_endpoint o j)
          (lookup-insert_ne i e (record p { features = insert f new p.features }) d.endpoints n)
    at p q (yes s) =
        subst
          (λ k.
            from_endpoint
              (lookup k (insert e (record p { features = insert f new p.features }) d.endpoints)) j
            ≡ from_endpoint (lookup k d.endpoints) j)
          s
          (rw
            (q, lookup-insert_self e (record p { features = insert f new p.features }) d.endpoints)
            (lookup-insert_ne j f new p.features (differ ne)))
      where
        differ : (e ≢ i) ⊎ (f ≢ j) → f ≢ j
        differ (inl n) = absurd (n s)
        differ (inr n) = n

-- A request whose feature is not there is refused; else the operation has it.
pub addressed_cases {ℓ} :
    (P : Handled → Type ℓ) (h : Handler) (req : Request) (go : Feature → Handled)
    → P (refuse h req invalid_endpoint)
    → P (refuse h req invalid_feature)
    → ((p : Endpoint) (f : Feature)
        → get_endpoint h.device req.endpoint_id ≡ some p
        → get_feature h.device req.endpoint_id req.feature_id ≡ some f
        → P (go f))
    → P (addressed h req go)
unfolding get_feature
addressed_cases P h req go no_endpoint no_feature k =
    elim (Option-cases (get_endpoint h.device req.endpoint_id)) [
      | inl e ↦ rw e no_endpoint
      | inr (p, e) ↦ elim (Option-cases (get_feature_by_id p req.feature_id)) [
        | inl e' ↦ rw (e, e') no_feature
        | inr (f, e') ↦
            rw (e, e')
              (k p f e (ap (λ (o : Option Endpoint). from_endpoint o req.feature_id) e ∙ e'))
      ]
    ]

-- A request whose feature is there.
pub addressed_found :
    (h : Handler) (req : Request) (go : Feature → Handled) (f : Feature)
    → get_feature h.device req.endpoint_id req.feature_id ≡ some f
    → (p : Endpoint) × (get_endpoint h.device req.endpoint_id ≡ some p)
      × (addressed h req go ≡ go f)
unfolding get_feature
addressed_found h req go f g = elim (Option-cases (get_endpoint h.device req.endpoint_id)) [
  | inl e ↦
      absurd
        (none-ne-some (sym (ap (λ (o : Option Endpoint). from_endpoint o req.feature_id) e) ∙ g))
  | inr (p, e) ↦
      (p, e, rw (e, sym (ap (λ (o : Option Endpoint). from_endpoint o req.feature_id) e) ∙ g) refl)
]
