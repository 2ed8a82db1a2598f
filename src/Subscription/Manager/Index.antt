-- ===== src/Subscription/Manager/Index.antt =====
-- mash-go/pkg/subscription/manager.go: what Subscribe and Unsubscribe do to the index by feature.
use mash.Base.{ℕ, ◌≡◌, ◌≢◌, sym, subst, ap, Bool, true, List, [], ◌∷◌, ◌++◌, arith}
use mash.Base.GoMap.{
  GoMap, nat_key, lookup, insert, lookup-insert_self, lookup-insert_ne, lookup-delete_ne,
  lookup-delete_self,
}
use mash.Subscription.{contains}
use mash.Subscription.Manager.{
  FeatureKey, feature_key, FeatureKey-discrete, or_nil, remove_id, put_or_delete,
}

contains-append : (a : ℕ) (xs ys : List ℕ) → contains a xs ≡ true → contains a (xs ++ ys) ≡ true
contains-append a [] ys h = cc
contains-append a (x ∷ xs) ys h = ground (arith, contains-append a xs ys)

contains-last : (a : ℕ) (xs : List ℕ) → contains a (xs ++ a ∷ []) ≡ true
contains-last a [] = ground arith
contains-last a (x ∷ xs) = ground (arith, contains-last a xs)

contains-remove_id :
    (a id : ℕ) (xs : List ℕ) → a ≢ id → contains a xs ≡ true → contains a (remove_id id xs) ≡ true
unfolding remove_id
contains-remove_id a id [] n h = cc
contains-remove_id a id (x ∷ xs) n h = ground (arith, contains-remove_id a id xs n)

abbrev pub listed : ℕ → FeatureKey → GoMap FeatureKey (List ℕ) → Bool
listed a key index = contains a (or_nil (lookup key index))

-- A new id at one place of the index leaves the others.
pub listed-insert :
    (a id : ℕ) (j k : FeatureKey) (index : GoMap FeatureKey (List ℕ))
    → listed a j index ≡ true
    → listed a j (insert k (or_nil (lookup k index) ++ id ∷ []) index) ≡ true
listed-insert a id j k index h = elim (FeatureKey-discrete k j) [
  | yes e ↦
      subst (λ x. listed a x (insert k (or_nil (lookup k index) ++ id ∷ []) index) ≡ true) e
        (rw (lookup-insert_self k (or_nil (lookup k index) ++ id ∷ []) index) (
          contains-append a (or_nil (lookup k index)) (id ∷ [])
            (subst (λ x. listed a x index ≡ true) (sym e) h)))
  | no n ↦ rw (lookup-insert_ne j k (or_nil (lookup k index) ++ id ∷ []) index n) h
]

pub listed-new :
    (id : ℕ) (k : FeatureKey) (index : GoMap FeatureKey (List ℕ))
    → listed id k (insert k (or_nil (lookup k index) ++ id ∷ []) index) ≡ true
listed-new id k index =
    rw (lookup-insert_self k (or_nil (lookup k index) ++ id ∷ []) index)
      (contains-last id (or_nil (lookup k index)))

or_nil-put_or_delete :
    (k : FeatureKey) (ids : List ℕ) (index : GoMap FeatureKey (List ℕ))
    → or_nil (lookup k (put_or_delete k ids index)) ≡ ids
unfolding put_or_delete
or_nil-put_or_delete k [] index = ap or_nil (lookup-delete_self k index)
or_nil-put_or_delete k (i ∷ ids) index = ap or_nil (lookup-insert_self k (i ∷ ids) index)

lookup-put_or_delete_ne :
    (j k : FeatureKey) (ids : List ℕ) (index : GoMap FeatureKey (List ℕ))
    → k ≢ j
    → lookup j (put_or_delete k ids index) ≡ lookup j index
unfolding put_or_delete
lookup-put_or_delete_ne j k [] index n = lookup-delete_ne j k index n
lookup-put_or_delete_ne j k (i ∷ ids) index n = lookup-insert_ne j k (i ∷ ids) index n

pub listed-remove :
    (a id : ℕ) (j k : FeatureKey) (index : GoMap FeatureKey (List ℕ))
    → a ≢ id
    → listed a j index ≡ true
    → listed a j (put_or_delete k (remove_id id (or_nil (lookup k index))) index) ≡ true
listed-remove a id j k index away h = elim (FeatureKey-discrete k j) [
  | yes e ↦
      subst
        (λ x. listed a x (put_or_delete k (remove_id id (or_nil (lookup k index))) index) ≡ true) e
        (rw (or_nil-put_or_delete k (remove_id id (or_nil (lookup k index))) index) (
          contains-remove_id a id (or_nil (lookup k index)) away
            (subst (λ x. listed a x index ≡ true) (sym e) h)))
  | no n ↦ rw (lookup-put_or_delete_ne j k (remove_id id (or_nil (lookup k index))) index n) h
]
