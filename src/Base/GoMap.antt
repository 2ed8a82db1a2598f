-- ===== src/Base/GoMap.antt =====
-- Go's built-in map as a list of entries with distinct keys; a `range` over a map visits the list
-- in its order, and the theorems on such loops hold for every order of the entries.
use mathlib.Core.List.{Memᴰ}
use mathlib.Core.Option.{some-injective}
use mash.Base.{
  ℕ, ◌+◌, ◌≤◌, ◌≡◌, refl, sym, ap, subst, ◌∙◌, ◌≢◌, ◌⊎◌, inl, inr, none-ne-some, ite, if_pos,
  if_neg, Option, none, some, List, [], ◌∷◌, arith, length, All, String, ℕ_discrete,
  String-discrete,
}

-- A type that Go accepts for the keys of a map.
pub record Key {ℓ} (K : Type ℓ) : Type ℓ where
  pub dec : Discrete K

instance abbrev pub string_key : Key String
string_key = record { dec = String-discrete }

instance abbrev pub nat_key : Key ℕ
nat_key = record { dec = ℕ_discrete }

abbrev pub GoMap {ℓ} : Type ℓ → Type ℓ → Type ℓ
GoMap K V = List (K × V)

module _ {ℓ} {K V : Type ℓ} ⦃key : Key K⦄ where
  -- `v, ok := m[k]`
  unfoldable pub lookup : K → GoMap K V → Option V
  lookup k [] = none
  lookup k ((j, v) ∷ m) = ite (key.dec j k) (some v) (lookup k m)

  -- `m[k] = v`
  unfoldable pub insert : K → V → GoMap K V → GoMap K V
  insert k v [] = (k, v) ∷ []
  insert k v ((j, w) ∷ m) = ite (key.dec j k) ((k, v) ∷ m) ((j, w) ∷ insert k v m)

  -- `delete(m, k)`
  unfoldable pub delete : K → GoMap K V → GoMap K V
  delete k [] = []
  delete k ((j, w) ∷ m) = ite (key.dec j k) (delete k m) ((j, w) ∷ delete k m)

  pub lookup-insert :
      (j k : K) (v : V) (m : GoMap K V)
      → lookup j (insert k v m) ≡ ite (key.dec k j) (some v) (lookup j m)
  unfolding lookup insert
  lookup-insert j k v [] = refl
  lookup-insert j k v ((i, w) ∷ m) = ground (arith, lookup-insert j k v m)

  pub lookup-delete :
      (j k : K) (m : GoMap K V) → lookup j (delete k m) ≡ ite (key.dec k j) none (lookup j m)
  unfolding lookup delete
  lookup-delete j k [] = ground arith
  lookup-delete j k ((i, w) ∷ m) = ground (arith, lookup-delete j k m)

  pub length-insert-le : (k : K) (v : V) (m : GoMap K V) → length (insert k v m) ≤ length m + 1
  unfolding insert
  length-insert-le k v [] = omega arith
  length-insert-le k v ((i, w) ∷ m) = ground (arith, length-insert-le k v m)

  pub length-delete-le : (k : K) (m : GoMap K V) → length (delete k m) ≤ length m
  unfolding delete
  length-delete-le k [] = omega arith
  length-delete-le k ((i, w) ∷ m) = ground (arith, length-delete-le k m)

-- Every entry of a map passes `P` again after a write or a removal.
module _ {ℓ κ} {K V : Type ℓ} ⦃key : Key K⦄ (P : K × V → Type κ) where
  pub All-insert : (k : K) (v : V) (m : GoMap K V) → P (k, v) → All P m → All P (insert k v m)
  unfolding insert
  All-insert k v [] p a = (p, tt)
  All-insert k v ((j, w) ∷ m) p a = elim (key.dec j k) [
    | yes e ↦ rw (if_pos _ e) (p, a.1)
    | no n ↦ rw (if_neg _ n) (a.0, All-insert k v m p a.1)
  ]

  pub All-delete : (k : K) (m : GoMap K V) → All P m → All P (delete k m)
  unfolding delete
  All-delete k [] a = tt
  All-delete k ((j, w) ∷ m) a = elim (key.dec j k) [
    | yes e ↦ rw (if_pos _ e) (All-delete k m a.1)
    | no n ↦ rw (if_neg _ n) (a.0, All-delete k m a.1)
  ]

  pub All-lookup : (k : K) (v : V) (m : GoMap K V) → All P m → lookup k m ≡ some v → P (k, v)
  unfolding lookup
  All-lookup k v [] a h = cc
  All-lookup k v ((j, w) ∷ m) a h = elim (key.dec j k) [
    | yes e ↦
        let found : some w ≡ some v = rw (if_pos _ e) at h in
        let same : w ≡ v = cc in subst P (λ i. (e i, same i)) a.0
    | no n ↦ All-lookup k v m a.1 (rw (if_neg _ n) at h)
  ]

module _ {ℓ} {K V : Type ℓ} where
  abbrev pub Absent : K → GoMap K V → Type ℓ
  Absent k = All (λ e. e.0 ≢ k)

  -- Every key occurs once, the invariant of the representation.
  abbrev pub Distinct : GoMap K V → Type ℓ
  Distinct [] = Unit
  Distinct ((k, v) ∷ m) = Absent k m × Distinct m

module _ {ℓ} {K V : Type ℓ} ⦃key : Key K⦄ where
  pub insert-Distinct : (k : K) (v : V) (m : GoMap K V) → Distinct m → Distinct (insert k v m)
  unfolding insert
  insert-Distinct k v [] d = (tt, tt)
  insert-Distinct k v ((j, w) ∷ m) d = elim (key.dec j k) [
    | yes e ↦ rw (if_pos _ e) (subst (λ x. Absent x m) e d.0, d.1)
    | no n ↦
        rw (if_neg _ n)
          (All-insert (λ e. e.0 ≢ j) k v m (λ e. n (sym e)) d.0, insert-Distinct k v m d.1)
  ]

  pub delete-Distinct : (k : K) (m : GoMap K V) → Distinct m → Distinct (delete k m)
  unfolding delete
  delete-Distinct k [] d = tt
  delete-Distinct k ((j, w) ∷ m) d = elim (key.dec j k) [
    | yes e ↦ rw (if_pos _ e) (delete-Distinct k m d.1)
    | no n ↦ rw (if_neg _ n) (All-delete (λ e. e.0 ≢ j) k m d.0, delete-Distinct k m d.1)
  ]

  pub delete-Absent : (k : K) (m : GoMap K V) → Absent k m → delete k m ≡ m
  unfolding delete
  delete-Absent k [] a = refl
  delete-Absent k ((j, w) ∷ m) a = rw (if_neg _ a.0) (ap (◌∷◌ (j, w)) (delete-Absent k m a.1))

  pub lookup-Absent : (k : K) (m : GoMap K V) → Absent k m → lookup k m ≡ none
  unfolding lookup
  lookup-Absent k [] a = refl
  lookup-Absent k ((j, w) ∷ m) a = rw (if_neg _ a.0) (lookup-Absent k m a.1)

  -- A removed key takes one entry with it.
  pub length-delete :
      (k : K) (v : V) (m : GoMap K V)
      → Distinct m
      → lookup k m ≡ some v
      → length (delete k m) + 1 ≡ length m
  unfolding lookup delete
  length-delete k v [] d h = cc
  length-delete k v ((j, w) ∷ m) d h = elim (key.dec j k) [
    | yes e ↦ rw (if_pos _ e) (rw (delete-Absent k m (subst (λ x. Absent x m) e d.0)) (omega arith))
    | no n ↦ rw (if_neg _ n) (omega (arith, length-delete k v m d.1 (rw (if_neg _ n) at h)))
  ]

  -- A new key adds one entry.
  pub length-insert_new :
      (k : K) (v : V) (m : GoMap K V) → lookup k m ≡ none → length (insert k v m) ≡ length m + 1
  unfolding lookup insert
  length-insert_new k v [] h = omega arith
  length-insert_new k v ((j, w) ∷ m) h = ground (arith, length-insert_new k v m)

  pub lookup-insert_self : (k : K) (v : V) (m : GoMap K V) → lookup k (insert k v m) ≡ some v
  lookup-insert_self k v m = rw (lookup-insert k k v m) (if_pos (key.dec k k) refl _ _)

  pub lookup-insert_ne :
      (j k : K) (v : V) (m : GoMap K V) → k ≢ j → lookup j (insert k v m) ≡ lookup j m
  lookup-insert_ne j k v m n = rw (lookup-insert j k v m) (if_neg (key.dec k j) n _ _)

  pub lookup-delete_self : (k : K) (m : GoMap K V) → lookup k (delete k m) ≡ none
  lookup-delete_self k m = rw (lookup-delete k k m) (if_pos (key.dec k k) refl _ _)

  pub lookup-delete_ne : (j k : K) (m : GoMap K V) → k ≢ j → lookup j (delete k m) ≡ lookup j m
  lookup-delete_ne j k m n = rw (lookup-delete j k m) (if_neg (key.dec k j) n _ _)

  -- What is left after a removal was there before, under another key.
  pub lookup-delete-some :
      (j k : K) (v : V) (m : GoMap K V)
      → lookup j (delete k m) ≡ some v
      → (k ≢ j) × (lookup j m ≡ some v)
  lookup-delete-some j k v m e = elim (key.dec k j) [
    | yes q ↦
        absurd (none-ne-some (sym (lookup-delete_self k m) ∙ ap (λ i. lookup i (delete k m)) q ∙ e))
    | no n ↦ (n, sym (lookup-delete_ne j k m n) ∙ e)
  ]

  -- What is there after a write was written, or was there before under another key.
  pub lookup-insert-some :
      (j k : K) (v w : V) (m : GoMap K V)
      → lookup j (insert k v m) ≡ some w
      → ((k ≡ j) × (v ≡ w)) ⊎ ((k ≢ j) × (lookup j m ≡ some w))
  lookup-insert-some j k v w m e = elim (key.dec k j) [
    | yes q ↦ inl (
      q,
      some-injective v w (sym (lookup-insert_self k v m) ∙ ap (λ i. lookup i (insert k v m)) q ∙ e),
    )
    | no n ↦ inr (n, sym (lookup-insert_ne j k v m n) ∙ e)
  ]

  lookup-tail :
      (k j : K) (v w : V) (m : GoMap K V)
      → Absent k m
      → lookup j m ≡ some w
      → lookup j ((k, v) ∷ m) ≡ some w
  unfolding lookup
  lookup-tail k j v w m a e = elim (key.dec k j) [
    | yes q ↦ absurd (none-ne-some (sym (lookup-Absent k m a) ∙ ap (λ i. lookup i m) q ∙ e))
    | no n ↦ rw (if_neg (key.dec k j) n) e
  ]

  lookup-head : (k : K) (v : V) (m : GoMap K V) → lookup k ((k, v) ∷ m) ≡ some v
  unfolding lookup
  lookup-head k v m = if_pos (key.dec k k) refl _ _

  -- The entries of a map are what a lookup finds there.
  pub lookup_each :
      (es m : GoMap K V)
      → Distinct es
      → ((k : K) (v : V) → lookup k es ≡ some v → lookup k m ≡ some v)
      → All (λ e. lookup e.0 m ≡ some e.1) es
  lookup_each [] m d f = tt
  lookup_each ((k, v) ∷ es) m d f = (
    f k v (lookup-head k v es),
    lookup_each es m d.1 (λ j w e. f j w (lookup-tail k j v w es d.0 e)),
  )

  pub lookup-mem : (k : K) (v : V) (m : GoMap K V) → lookup k m ≡ some v → Memᴰ (k, v) m
  unfolding lookup
  lookup-mem k v [] e = absurd (none-ne-some e)
  lookup-mem k v ((j, w) ∷ m) e = elim (key.dec j k) [
    | yes q ↦
        let same : w ≡ v = some-injective w v (rw (if_pos _ q) at e) in
        Memᴰ.head (λ i. (sym q i, sym same i))
    | no n ↦ Memᴰ.tail (lookup-mem k v m (rw (if_neg _ n) at e))
  ]
