-- ===== src/Transport/KeepAlive/Trace.antt =====
-- mash-go/pkg/transport/keepalive.go: when onTimeout may be called, over all runs.
use mash.Base.{
  ℕ, suc, ◌+◌, ◌-◌, ◌≤◌, ◌≡◌, refl, Option, none, some, ◌&&◌, ◌==◌, Bool, true, false, List, [],
  ◌∷◌, ◌++◌, arith, inl, inr, Bool-cases, leb, if◌then◌else◌,
}
use mash.Transport.KeepAlive.{
  Config, Effect, ping, timed_out, answered, took, offered, KeepAlive, new, step, run, Event,
  started, ticked, arrived, taken, stopped, handle_tick, handle_pong, take_pong, send_ping_message,
  overdue, count_missed, set_pong_received_callback,
}

-- What an observer of the effects counts: the pings that were sent since the last one that was
-- answered, and the latest if it was sent and neither answered nor given up.
abbrev pub Seen : Type 0
Seen = ℕ × Option ℕ

abbrev answers : Option ℕ → ℕ → Bool
answers none seq = false
answers (some p) seq = seq == p

abbrev pub observe : Seen → Effect → Seen
observe s (ping seq sent) = (if sent then suc s.0 else s.0, if sent then some seq else none)
observe s (took seq) = if answers s.1 seq then (0, none) else s
observe s (timed_out _) = (s.0, none)
observe s (answered _ _) = s

abbrev pub Allowed : ℕ → Seen → Effect → Type 0
Allowed max s (timed_out _) = max ≤ s.0
Allowed max s _ = Unit

-- Each onTimeout comes when at least `max` pings were sent since the last one that was answered.
abbrev pub Justified : ℕ → Seen → List Effect → Type 0
Justified max s [] = Unit
Justified max s (e ∷ es) = Allowed max s e × Justified max (observe s e) es

abbrev seen : Seen → List Effect → Seen
seen s [] = s
seen s (e ∷ es) = seen (observe s e) es

abbrev in_flight : Bool → ℕ
in_flight true = 1
in_flight false = 0

abbrev outstanding : Bool → ℕ → Option ℕ
outstanding true seq = some seq
outstanding false seq = none

record Counted (max : ℕ) (s : Seen) (k : KeepAlive) : Type 0 where
  limit : k.config.max_missed_pongs ≡ max
  reports : k.on_timeout ≡ true
  latest : s.1 ≡ outstanding k.has_pending k.pending_ping
  count : k.missed_pongs + in_flight k.has_pending ≤ s.0

abbrev Steps : ℕ → Seen → KeepAlive × List Effect → Type 0
Steps max s r = Counted max (seen s r.1) r.0 × Justified max s r.1

send_ping_message-Counted :
    (max : ℕ) (s : Seen) (k : KeepAlive) (sent : Bool) (now : ℕ)
    → k.config.max_missed_pongs ≡ max
    → k.on_timeout ≡ true
    → k.missed_pongs ≤ s.0
    → Steps max s (send_ping_message k sent now)
unfolding send_ping_message
send_ping_message-Counted max s k true now c r h =
    (record { limit = c; reports = r; latest = refl; count = omega arith }, (tt, tt))
send_ping_message-Counted max s k false now c r h =
    (record { limit = c; reports = r; latest = refl; count = omega arith }, (tt, tt))

Steps-if :
    (max : ℕ) (s : Seen) (b : Bool) (x y : KeepAlive × List Effect)
    → Steps max s x
    → Steps max s y
    → Steps max s (if b then x else y)
Steps-if max s true x y p q = p
Steps-if max s false x y p q = q

missed :
    (max : ℕ) (s : Seen) (k : KeepAlive) (now : ℕ)
    → Counted max s k
    → overdue k now ≡ true
    → k.missed_pongs + 1 ≤ s.0
unfolding overdue
missed max s k now h due = ground arith

gives_up :
    (max : ℕ) (s : Seen) (k : KeepAlive) (now : ℕ) (reports : Bool)
    → reports ≡ true
    → Counted max s k
    → overdue k now ≡ true
    → leb k.config.max_missed_pongs (k.missed_pongs + 1) ≡ true
    → Steps max s (count_missed k, if reports then timed_out now ∷ [] else [])
unfolding count_missed
gives_up max s k now true r h due dead = (
  record {
    limit = h.limit;
    reports = h.reports;
    latest = refl;
    count = omega (arith, missed max s k now h due);
  },
  (ground (arith, missed max s k now h due, h.limit), tt),
)
gives_up max s k now false r h due dead = absurd (silent r)
  where
    silent : ◌≡◌ {A = Bool} false true → ⊥
    silent p = cc

handle_tick-Counted :
    (max : ℕ) (s : Seen) (k : KeepAlive) (sent : Bool) (now : ℕ)
    → Counted max s k
    → Steps max s (handle_tick k sent now)
unfolding handle_tick
handle_tick-Counted max s k sent now h = elim (Bool-cases (overdue k now)) [
  | inl due ↦ elim (Bool-cases (leb k.config.max_missed_pongs (k.missed_pongs + 1))) [
    | inl dead ↦ rw (due, dead) (gives_up max s k now k.on_timeout h.reports h due dead)
    | inr alive ↦
        rw (due, alive)
          (send_ping_message-Counted max s (count_missed k) sent now h.limit h.reports
            (missed max s k now h due))
  ]
  | inr waiting ↦
      rw waiting
        (send_ping_message-Counted max s k sent now h.limit h.reports (omega (arith, h.count)))
]

-- A pong that answers the pending ping, and any other.
pong_answers :
    (max : ℕ) (s : Seen) (k : KeepAlive) (seq now : ℕ)
    → Counted max s k
    → k.has_pending && (seq == k.pending_ping) ≡ true
    → Steps max s (
      record k { last_pong_time = now; has_pending = false; missed_pongs = 0 },
      took seq ∷ (if k.on_pong_received then answered seq (now - k.last_ping_time) ∷ [] else []),
    )
pong_answers max s k seq now h own = ground arith

pong_ignored :
    (max : ℕ) (s : Seen) (k : KeepAlive) (seq now : ℕ)
    → Counted max s k
    → k.has_pending && (seq == k.pending_ping) ≡ false
    → Steps max s (record k { last_pong_time = now }, took seq ∷ [])
pong_ignored max s k seq now h other = ground arith

handle_pong-Counted :
    (max : ℕ) (s : Seen) (k : KeepAlive) (seq now : ℕ)
    → Counted max s k
    → Steps max s ((handle_pong k seq now).0, took seq ∷ (handle_pong k seq now).1)
unfolding handle_pong
handle_pong-Counted max s k seq now h =
    elim (Bool-cases (k.has_pending && (seq == k.pending_ping))) [
      | inl own ↦ rw own (pong_answers max s k seq now h own)
      | inr other ↦ rw other (pong_ignored max s k seq now h other)
    ]

take_pong-Counted :
    (max : ℕ) (s : Seen) (o : Option ℕ) (k : KeepAlive) (now : ℕ)
    → Counted max s k
    → Steps max s (take_pong o k now)
unfolding take_pong
take_pong-Counted max s none k now h = (h, tt)
take_pong-Counted max s (some seq) k now h =
    handle_pong-Counted max s (record k { pong_ch = none }) seq now
      (record { limit = h.limit; reports = h.reports; latest = h.latest; count = h.count })

-- A change of the fields that are not counted.
abbrev same :
    (max : ℕ) (s : Seen) (k : KeepAlive) (b : Bool) (ch : Option ℕ)
    → Counted max s k
    → Counted max s (record k { running = b; pong_ch = ch })
same max s k b ch h = record {
  limit = h.limit;
  reports = h.reports;
  latest = h.latest;
  count = h.count;
}

step-Counted :
    (max : ℕ) (s : Seen) (k : KeepAlive) (e : Event) → Counted max s k → Steps max s (step k e)
unfolding step
step-Counted max s k (started sent now) h =
    Steps-if max s k.running (k, []) (send_ping_message (record k { running = true }) sent now)
      (h, tt)
      (send_ping_message-Counted max s (record k { running = true }) sent now h.limit h.reports
        (omega (arith, h.count)))
step-Counted max s k (ticked sent now) h =
    Steps-if max s k.running (handle_tick k sent now) (k, [])
      (handle_tick-Counted max s k sent now h) (h, tt)
step-Counted max s k (arrived seq) h = (same max s k k.running (offered k.pong_ch seq) h, tt)
step-Counted max s k (taken now) h =
    Steps-if max s k.running (take_pong k.pong_ch k now) (k, [])
      (take_pong-Counted max s k.pong_ch k now h) (h, tt)
step-Counted max s k stopped h = (same max s k false k.pong_ch h, tt)

Justified-append :
    (max : ℕ) (s : Seen) (es ds : List Effect)
    → Justified max s es
    → Justified max (seen s es) ds
    → Justified max s (es ++ ds)
Justified-append max s [] ds a b = b
Justified-append max s (e ∷ es) ds a b = (a.0, Justified-append max (observe s e) es ds a.1 b)

run-Justified :
    (max : ℕ) (s : Seen) (k : KeepAlive) (es : List Event)
    → Counted max s k
    → Justified max s (run k es).1
unfolding run
run-Justified max s k [] h = tt
run-Justified max s k (e ∷ es) h =
    let r : Steps max s (step k e) = step-Counted max s k e h in
    Justified-append max s (step k e).1 (run (step k e).0 es).1 r.1
      (run-Justified max (seen s (step k e).1) (step k e).0 es r.0)

-- Over all runs of a new keep-alive, with or without a callback for pongs, onTimeout is only called
-- when at least MaxMissedPongs pings (by the configuration with its defaults) have been sent
-- successfully since the loop last took a pong that answered the latest ping, or since the beginning.
pub run-new-Justified :
    (c : Config) (on_pong : Bool) (es : List Event)
    → Justified
        (new c true).config.max_missed_pongs
        (0, none)
        (run (set_pong_received_callback (new c true) on_pong) es).1
unfolding new set_pong_received_callback
run-new-Justified c p es =
    run-Justified (new c true).config.max_missed_pongs (0, none)
      (set_pong_received_callback (new c true) p) es
      (record { limit = refl; reports = refl; latest = refl; count = omega arith })
