-- ===== src/Dispatch/Writes.antt =====
-- mash-go/pkg/service/dispatch/protocol_handler.go: what handleWrite stores, attribute by attribute,
-- and what it answers.
use mash.Base.{
  ℕ, ◌≡◌, ◌≢◌, refl, sym, ap, ◌∙◌, subst, inl, inr, Bool, true, false, ◌&&◌, Option, none, some, [],
  ◌∷◌, arith, if_pos, if_neg, if◌then◌else◌, ℕ_discrete, is_some,
}
use mash.Base.GoMap.{
  GoMap, nat_key, lookup, lookup-insert_self, lookup-insert_ne, Distinct, Absent, lookup-Absent,
}
use mash.Model.Values.{Any}
use mash.Model.Attribute.{Attribute, ModelError, store}
use mash.Model.Feature.{Feature, put_attribute}
use mash.Model.Writing.{notify_attribute_changed, Written, write_attribute}
use mash.Model.Access.{acceptable, Accepted, write_attribute-WriteOutcome}
use mash.Dispatch.Writing.{Writing, write_one, write_each, after_write, first}

-- What stands at an id after a write of a value to it.
abbrev pub storing : Any → Option Attribute → Option Attribute
storing v none = none
storing v (some a) = some (store a v)

unfoldable pub expected : ℕ → Option Any → Option Attribute → Option Attribute
unfolding acceptable
expected id none o = o
expected id (some v) o = if acceptable id v o then storing v o else o

-- All values of a payload are taken, by what a feature holds before.
unfoldable pub all_acceptable : Feature → GoMap ℕ Any → Bool
unfolding acceptable
all_acceptable f [] = true
all_acceptable f ((id, v) ∷ m) = acceptable id v (lookup id f.attributes) && all_acceptable f m

record OneWritten (l : Writing) (id : ℕ) (v : Any) (r : Writing) : Type 0 where
  self : lookup id r.feature.attributes ≡ expected id (some v) (lookup id l.feature.attributes)
  others : (j : ℕ) → id ≢ j → lookup j r.feature.attributes ≡ lookup j l.feature.attributes
  pub fails :
      is_some r.first_error
      ≡ (if acceptable id v (lookup id l.feature.attributes) then is_some l.first_error else true)

accepted_lem :
    (f : Feature) (id : ℕ) (v : Any) (a : Attribute) (w : Written)
    → Accepted f id v a w
    → acceptable id v (some a) ≡ true
unfolding acceptable
accepted_lem f id v a w acc = rw (acc.writable, acc.checked) (ground (arith, acc.below))

stored-OneWritten :
    (l : Writing) (id : ℕ) (v : Any) (a : Attribute)
    → lookup id l.feature.attributes ≡ some a
    → acceptable id v (some a) ≡ true
    → OneWritten l id v (
        after_write l id none
          (put_attribute l.feature id (store a v))
          (notify_attribute_changed l.feature id v))
unfolding put_attribute expected
stored-OneWritten l id v a found y = record {
  self = rw (found, y) (lookup-insert_self id (store a v) l.feature.attributes);
  others = λ j n. lookup-insert_ne j id (store a v) l.feature.attributes n;
  fails = rw (found, y) refl;
}

Accepted-OneWritten :
    (l : Writing) (id : ℕ) (v : Any) (a : Attribute) (w : Written)
    → Accepted l.feature id v a w
    → OneWritten l id v (after_write l id w.error w.feature w.changes)
Accepted-OneWritten l id v a w acc =
    subst (λ x. OneWritten l id v (after_write l id x.error x.feature x.changes)) (sym acc.result)
      (stored-OneWritten l id v a acc.found (accepted_lem l.feature id v a w acc))

is_some-first : (o : Option ModelError) (e : ModelError) → is_some (first o e) ≡ true
is_some-first none e = refl
is_some-first (some d) e = refl

refused-OneWritten :
    (l : Writing) (id : ℕ) (v : Any) (e : ModelError)
    → acceptable id v (lookup id l.feature.attributes) ≡ false
    → OneWritten l id v (after_write l id (some e) l.feature [])
unfolding expected
refused-OneWritten l id v e x = record {
  self = rw x refl;
  others = λ j n. refl;
  fails = rw x (is_some-first l.first_error e);
}

write_one-OneWritten : (l : Writing) (id : ℕ) (v : Any) → OneWritten l id v (write_one l id v)
unfolding write_one
write_one-OneWritten l id v = elim (write_attribute-WriteOutcome l.feature id v) [
  | inl (e, x, q) ↦ rw q (refused-OneWritten l id v e x)
  | inr (a, acc) ↦ Accepted-OneWritten l id v a (write_attribute l.feature id v) acc
]

-- What a payload means for a feature: each value at its id, by what stood there before.
pub record EachWritten (l : Writing) (m : GoMap ℕ Any) (r : Writing) : Type 0 where
  pub stands :
      (j : ℕ)
      → lookup j r.feature.attributes ≡ expected j (lookup j m) (lookup j l.feature.attributes)
  pub fails :
      is_some r.first_error ≡ (if all_acceptable l.feature m then is_some l.first_error else true)

all_acceptable_same :
    (f g : Feature) (id : ℕ) (m : GoMap ℕ Any)
    → ((j : ℕ) → id ≢ j → lookup j g.attributes ≡ lookup j f.attributes)
    → Absent id m
    → all_acceptable g m ≡ all_acceptable f m
unfolding all_acceptable
all_acceptable_same f g id [] same away = refl
all_acceptable_same f g id ((j, v) ∷ m) same away =
    rw (same j (λ e. away.0 (sym e)), all_acceptable_same f g id m same away.1) refl

each_step :
    (l : Writing) (id : ℕ) (v : Any) (m : GoMap ℕ Any) (r : Writing)
    → Absent id m
    → EachWritten (write_one l id v) m r
    → EachWritten l ((id, v) ∷ m) r
unfolding expected lookup all_acceptable
each_step l id v m r away ih = record {
  stands = λ j. at j (ℕ_discrete id j);
  fails =
      joined (acceptable id v (lookup id l.feature.attributes)) (all_acceptable l.feature m)
        (is_some l.first_error) (is_some (write_one l id v).first_error) (is_some r.first_error)
        one.fails
        (ih.fails
          ∙ ap (λ (b : Bool). if b then is_some (write_one l id v).first_error else true)
              (all_acceptable_same l.feature (write_one l id v).feature id m one.others away));
}
  where
    one : OneWritten l id v (write_one l id v)
    one = write_one-OneWritten l id v

    joined :
        (x y b c r : Bool)
        → c ≡ (if x then b else true)
        → r ≡ (if y then c else true)
        → r ≡ (if x && y then b else true)
    joined x y b c r p q = ground arith

    at :
        (j : ℕ)
        → Dec (id ≡ j)
        → lookup j r.feature.attributes
          ≡ expected j (lookup j ((id, v) ∷ m)) (lookup j l.feature.attributes)
    at j (no n) =
        ih.stands j
        ∙ ap (expected j (lookup j m)) (one.others j n)
        ∙ ap (λ (o : Option Any). expected j o (lookup j l.feature.attributes))
            (sym (if_neg (ℕ_discrete id j) n (some v) (lookup j m)))
    at j (yes e) =
        subst
          (λ i.
            lookup i r.feature.attributes
            ≡ expected i (lookup i ((id, v) ∷ m)) (lookup i l.feature.attributes))
          e
          (ih.stands id
            ∙ ap
                (λ (o : Option Any).
                  expected id o (lookup id (write_one l id v).feature.attributes))
                (lookup-Absent id m away)
            ∙ one.self
            ∙ ap (λ (o : Option Any). expected id o (lookup id l.feature.attributes))
                (sym (if_pos (ℕ_discrete id id) refl (some v) (lookup id m))))

pub write_each-EachWritten :
    (l : Writing) (m : GoMap ℕ Any) → Distinct m → EachWritten l m (write_each l m)
unfolding write_each expected lookup all_acceptable
write_each-EachWritten l [] d = record { stands = λ j. refl; fails = refl }
write_each-EachWritten l ((id, v) ∷ m) d =
    each_step l id v m (write_each (write_one l id v) m) d.0
      (write_each-EachWritten (write_one l id v) m d.1)
