-- ===== src/Subscription/Notification.antt =====
-- What a notification holds (mash-go/pkg/subscription/subscription.go).
use mash.Base.{
  ℕ, ◌≡◌, refl, sym, ap, ◌∙◌, ◌≢◌, subst, Bool, true, false, ◌&&◌, Option, none, some, [], ◌∷◌,
  Bool-cases, inl, inr, ℕ_discrete, if_pos, if_neg, if◌then◌else◌,
}
use mash.Base.GoMap.{
  GoMap, nat_key, lookup, insert, Distinct, Absent, lookup-Absent, lookup-insert_self,
  lookup-insert_ne,
}
use mash.Subscription.Values.{Value}
use mash.Subscription.{bounces, same_as, notify_loop}

-- What is sent of an attribute's pending change: nothing if it bounced back.
abbrev pub due : Bool → GoMap ℕ Value → ℕ → Option Value → Option Value
due suppress last k none = none
due suppress last k (some v) = if bounces suppress last k v then none else some v

abbrev pub or_else : Option Value → Option Value → Option Value
or_else none o = o
or_else (some v) o = some v

due_same :
    (suppress : Bool) (last last' : GoMap ℕ Value) (k : ℕ) (o : Option Value)
    → lookup k last' ≡ lookup k last
    → due suppress last' k o ≡ due suppress last k o
unfolding bounces
due_same suppress last last' k none e = refl
due_same suppress last last' k (some v) e =
    ap (λ l. if suppress && same_as l v then none else some v) e

pub lookup_here : (k : ℕ) (v : Value) (es : GoMap ℕ Value) → lookup k ((k, v) ∷ es) ≡ some v
unfolding lookup
lookup_here k v es = if_pos (ℕ_discrete k k) refl _ _

pub lookup_there :
    (k a : ℕ) (v : Value) (es : GoMap ℕ Value) → a ≢ k → lookup k ((a, v) ∷ es) ≡ lookup k es
unfolding lookup
lookup_there k a v es n = if_neg (ℕ_discrete a k) n _ _

pub loop_bounce :
    (suppress : Bool) (a : ℕ) (v : Value) (p note last : GoMap ℕ Value)
    → bounces suppress last a v ≡ true
    → notify_loop suppress ((a, v) ∷ p) note last ≡ notify_loop suppress p note last
unfolding notify_loop
loop_bounce suppress a v p note last b =
    ap
      (λ t.
        notify_loop suppress p (if t then note else insert a v note)
          (if t then last else insert a v last))
      b

loop_send :
    (suppress : Bool) (a : ℕ) (v : Value) (p note last : GoMap ℕ Value)
    → bounces suppress last a v ≡ false
    → notify_loop suppress ((a, v) ∷ p) note last
      ≡ notify_loop suppress p (insert a v note) (insert a v last)
unfolding notify_loop
loop_send suppress a v p note last b =
    ap
      (λ t.
        notify_loop suppress p (if t then note else insert a v note)
          (if t then last else insert a v last))
      b

due_bounce :
    (suppress : Bool) (last : GoMap ℕ Value) (a : ℕ) (v : Value) (p : GoMap ℕ Value)
    → bounces suppress last a v ≡ true
    → due suppress last a (lookup a ((a, v) ∷ p)) ≡ none
due_bounce suppress last a v p b =
    ap (due suppress last a) (lookup_here a v p) ∙ ap (λ t. if t then none else some v) b

due_send :
    (suppress : Bool) (last : GoMap ℕ Value) (a : ℕ) (v : Value) (p : GoMap ℕ Value)
    → bounces suppress last a v ≡ false
    → due suppress last a (lookup a ((a, v) ∷ p)) ≡ some v
due_send suppress last a v p b =
    ap (due suppress last a) (lookup_here a v p) ∙ ap (λ t. if t then none else some v) b

due-Absent :
    (suppress : Bool) (last p : GoMap ℕ Value) (a : ℕ)
    → Absent a p
    → due suppress last a (lookup a p) ≡ none
due-Absent suppress last p a d = ap (due suppress last a) (lookup-Absent a p d)

-- The maps are the old ones overwritten by what is due.
abbrev pub Overwritten :
    GoMap ℕ Value × GoMap ℕ Value → GoMap ℕ Value → GoMap ℕ Value → ℕ → Option Value → Type 0
Overwritten r note last k o =
    (lookup k r.0 ≡ or_else o (lookup k note)) × (lookup k r.1 ≡ or_else o (lookup k last))

pub notify_loop-Overwritten :
    (suppress : Bool) (p note last : GoMap ℕ Value) (k : ℕ)
    → Distinct p
    → Overwritten (notify_loop suppress p note last) note last k (due suppress last k (lookup k p))
unfolding notify_loop
notify_loop-Overwritten suppress [] note last k d = unfold lookup in (refl, refl)
notify_loop-Overwritten suppress ((a, v) ∷ p) note last k (n, d) =
    elim (Bool-cases (bounces suppress last a v)) [
      | inl b ↦
          subst (λ r. Overwritten r note last k (due suppress last k (lookup k ((a, v) ∷ p))))
            (sym (loop_bounce suppress a v p note last b))
            (elim (ℕ_discrete a k) [
              | yes e ↦
                  subst
                    (λ k.
                      Overwritten (notify_loop suppress p note last) note last k
                        (due suppress last k (lookup k ((a, v) ∷ p))))
                    e (bounced b (notify_loop-Overwritten suppress p note last a d))
              | no m ↦
                  subst (Overwritten (notify_loop suppress p note last) note last k)
                    (sym (ap (due suppress last k) (lookup_there k a v p m)))
                    (notify_loop-Overwritten suppress p note last k d)
            ])
      | inr b ↦
          subst (λ r. Overwritten r note last k (due suppress last k (lookup k ((a, v) ∷ p))))
            (sym (loop_send suppress a v p note last b))
            (elim (ℕ_discrete a k) [
              | yes e ↦
                  subst
                    (λ k.
                      Overwritten (notify_loop suppress p (insert a v note) (insert a v last)) note
                        last k (due suppress last k (lookup k ((a, v) ∷ p))))
                    e
                    (sent b
                      (notify_loop-Overwritten suppress p (insert a v note) (insert a v last) a d))
              | no m ↦
                  passed m
                    (notify_loop-Overwritten suppress p (insert a v note) (insert a v last) k d)
            ])
    ]
  where
    bounced :
        bounces suppress last a v ≡ true
        → Overwritten
            (notify_loop suppress p note last)
            note
            last
            a
            (due suppress last a (lookup a p))
        → Overwritten
            (notify_loop suppress p note last)
            note
            last
            a
            (due suppress last a (lookup a ((a, v) ∷ p)))
    bounced b =
        subst (Overwritten (notify_loop suppress p note last) note last a)
          (due-Absent suppress last p a n ∙ sym (due_bounce suppress last a v p b))

    sent :
        bounces suppress last a v ≡ false
        → Overwritten
            (notify_loop suppress p (insert a v note) (insert a v last))
            (insert a v note)
            (insert a v last)
            a
            (due suppress (insert a v last) a (lookup a p))
        → Overwritten
            (notify_loop suppress p (insert a v note) (insert a v last))
            note
            last
            a
            (due suppress last a (lookup a ((a, v) ∷ p)))
    sent b ih =
        let kept =
          subst
            (Overwritten (notify_loop suppress p (insert a v note) (insert a v last))
              (insert a v note) (insert a v last) a)
            (due-Absent suppress (insert a v last) p a n) ih in
        subst (Overwritten (notify_loop suppress p (insert a v note) (insert a v last)) note last a)
          (sym (due_send suppress last a v p b))
          (kept.0 ∙ lookup-insert_self a v note, kept.1 ∙ lookup-insert_self a v last)

    passed :
        a ≢ k
        → Overwritten
            (notify_loop suppress p (insert a v note) (insert a v last))
            (insert a v note)
            (insert a v last)
            k
            (due suppress (insert a v last) k (lookup k p))
        → Overwritten
            (notify_loop suppress p (insert a v note) (insert a v last))
            note
            last
            k
            (due suppress last k (lookup k ((a, v) ∷ p)))
    passed m ih =
        let kept =
          subst
            (Overwritten (notify_loop suppress p (insert a v note) (insert a v last))
              (insert a v note) (insert a v last) k)
            (due_same suppress last (insert a v last) k (lookup k p) (lookup-insert_ne k a v last m)
              ∙ sym (ap (due suppress last k) (lookup_there k a v p m)))
            ih in
        (
          kept.0 ∙ ap (or_else _) (lookup-insert_ne k a v note m),
          kept.1 ∙ ap (or_else _) (lookup-insert_ne k a v last m),
        )
