-- ===== src/Transport/KeepAlive/Detection.antt =====
-- mash-go/pkg/transport/keepalive.go: the detection of a connection that has gone silent, and of one
-- whose sends fail.
use mash.Base.{
  ℕ, suc, ◌+◌, ◌-◌, ◌*◌, if◌then◌else◌, ◌≤◌, ◌<◌, ◌≡◌, ◌⊎◌, refl, sym, subst, ◌%◌, ◌^◌, Bool, true,
  false, List, [], ◌∷◌, ◌++◌, map, arith, length, All,
}
use mash.Transport.KeepAlive.{
  Config, Effect, ping, timed_out, answered, took, KeepAlive, new, step, run, Event, started,
  ticked, handle_tick, start, detection_delay,
}

-- Each tick comes at least `lo` and at most `hi` after the one before.
abbrev pub Paced : ℕ → ℕ → ℕ → List ℕ → Type 0
Paced lo hi last [] = Unit
Paced lo hi last (t ∷ ts) = (last + lo ≤ t) × (t ≤ last + hi) × Paced lo hi t ts

-- A tick whose ping is sent.
abbrev pub silent : ℕ → Event
silent t = ticked true t

abbrev pub IsPing : Effect → Type 0
IsPing (ping seq sent) = Unit
IsPing (timed_out t) = ⊥
IsPing (answered seq latency) = ⊥
IsPing (took seq) = ⊥

-- Pings only, and then onTimeout at the time `at`, which is no later than `bound`.
abbrev pub DetectedAt : ℕ → ℕ → List Effect → Type 0
DetectedAt at bound es =
    (ds : List Effect) × (es ≡ ds ++ timed_out at ∷ []) × All IsPing ds × (at ≤ bound)

-- The last of some ticks.
abbrev pub final : ℕ → List ℕ → ℕ
final t [] = t
final t (u ∷ us) = final u us

-- The ticks until onTimeout: one for each pong that may still be missed, and one more to send a ping
-- if none is pending.
abbrev pub ticks_needed : KeepAlive → ℕ
ticks_needed k = k.config.max_missed_pongs - k.missed_pongs + (if k.has_pending then 0 else 1)

record Waiting (max timeout last missed : ℕ) (k : KeepAlive) : Type 0 where
  runs : k.running ≡ true
  reports : k.on_timeout ≡ true
  pends : k.has_pending ≡ true
  limit : k.config.max_missed_pongs ≡ max
  patience : k.config.pong_timeout ≡ timeout
  since : k.last_ping_time ≡ last
  count : k.missed_pongs ≡ missed

-- A tick after the patience counts one more missed pong.
tick-last :
    (max timeout last missed t : ℕ) (k : KeepAlive)
    → Waiting max timeout last missed k
    → last + timeout ≤ t
    → max ≤ missed + 1
    → (step k (silent t)).1 ≡ timed_out t ∷ []
unfolding step handle_tick
tick-last max timeout last missed t k w p q = ground arith

tick-next :
    (max timeout last missed t : ℕ) (k : KeepAlive)
    → Waiting max timeout last missed k
    → last + timeout ≤ t
    → missed + 1 < max
    → (seq : ℕ) × ((step k (silent t)).1 ≡ ping seq true ∷ [])
      × Waiting max timeout t (missed + 1) (step k (silent t)).0
unfolding step handle_tick
tick-next max timeout last missed t k w p q =
    ((k.sequence + 1) % 2 ^ 32, ground arith, ground arith)

-- A tick with no ping pending sends one.
tick-first :
    (t : ℕ) (k : KeepAlive)
    → k.running ≡ true
    → k.on_timeout ≡ true
    → k.has_pending ≡ false
    → (seq : ℕ) × ((step k (silent t)).1 ≡ ping seq true ∷ [])
      × Waiting k.config.max_missed_pongs k.config.pong_timeout t k.missed_pongs
          (step k (silent t)).0
unfolding step handle_tick
tick-first t k r o p = ((k.sequence + 1) % 2 ^ 32, ground arith, ground arith)

later : (hi last t at n : ℕ) → t ≤ last + hi → at ≤ t + hi * suc n → at ≤ last + hi * suc (suc n)
later hi last t at n p q = grind arith

silence :
    (max timeout hi last missed t : ℕ) (ts : List ℕ) (k : KeepAlive)
    → Waiting max timeout last missed k
    → length (t ∷ ts) + missed ≡ max
    → Paced timeout hi last (t ∷ ts)
    → DetectedAt (final t ts) (last + hi * length (t ∷ ts)) (run k (map silent (t ∷ ts))).1
unfolding run
silence max timeout hi last missed t [] k w e (p, q, _) =
    ([], rw (tick-last max timeout last missed t k w p (omega arith)) refl, tt, omega arith)
silence max timeout hi last missed t (u ∷ ts) k w e (p, q, paced) =
    let (seq, shown, w') = tick-next max timeout last missed t k w p (omega arith) in
    let (ds, split, pings, bound) =
      silence max timeout hi t (missed + 1) u ts (step k (silent t)).0 w' (omega arith) paced in
    (
      ping seq true ∷ ds,
      rw (shown, split) refl,
      (tt, pings),
      later hi last t (final u ts) (length ts) q bound,
    )

same_bound : (at last hi n m : ℕ) → at ≤ last + hi * n → n ≡ m → at ≤ last + hi * m
same_bound at last hi n m h e = subst (λ x. at ≤ last + hi * x) e h

silence_from :
    (k : KeepAlive) (pends : Bool) (t : ℕ) (ts : List ℕ)
    → k.has_pending ≡ pends
    → k.running ≡ true
    → k.on_timeout ≡ true
    → k.missed_pongs < k.config.max_missed_pongs
    → length (t ∷ ts) ≡ k.config.max_missed_pongs - k.missed_pongs + (if pends then 0 else 1)
    → Paced k.config.pong_timeout k.config.ping_interval k.last_ping_time (t ∷ ts)
    → DetectedAt
        (final t ts)
        (k.last_ping_time + k.config.ping_interval * length (t ∷ ts))
        (run k (map silent (t ∷ ts))).1
unfolding run
silence_from k true t ts p r o m e paced =
    silence k.config.max_missed_pongs k.config.pong_timeout k.config.ping_interval k.last_ping_time
      k.missed_pongs t ts k
      (record {
        runs = r;
        reports = o;
        pends = p;
        limit = refl;
        patience = refl;
        since = refl;
        count = refl;
      })
      (omega arith) paced
silence_from k false t [] p r o m e paced = absurd (omega arith)
silence_from k false t (u ∷ ts) p r o m e (lo, hi, paced) =
    let (seq, shown, w) = tick-first t k r o p in
    let (ds, split, pings, bound) =
      silence k.config.max_missed_pongs k.config.pong_timeout k.config.ping_interval t
        k.missed_pongs u ts (step k (silent t)).0 w (omega arith) paced in
    (
      ping seq true ∷ ds,
      rw (shown, split) refl,
      (tt, pings),
      later k.config.ping_interval k.last_ping_time t (final u ts) (length ts) hi bound,
    )

-- From any state in which a keep-alive runs, has a timeout callback and has not yet missed
-- MaxMissedPongs pongs: when it hears no pong any more and every ping is sent, it sends pings and then
-- calls onTimeout, at exactly the tick that completes the missed pongs, or one tick later if no ping
-- was pending because the last one had been answered. That is within so many intervals of the last
-- ping, if the ticks come at least PongTimeout and at most PingInterval apart. After an answered ping
-- this is one interval more than MaxMissedPongs intervals, above DetectionDelay where the timeout is
-- shorter than the interval.
pub silence-DetectedAt :
    (k : KeepAlive) (t : ℕ) (ts : List ℕ)
    → k.running ≡ true
    → k.on_timeout ≡ true
    → k.missed_pongs < k.config.max_missed_pongs
    → length (t ∷ ts) ≡ ticks_needed k
    → Paced k.config.pong_timeout k.config.ping_interval k.last_ping_time (t ∷ ts)
    → DetectedAt
        (final t ts)
        (k.last_ping_time + k.config.ping_interval * ticks_needed k)
        (run k (map silent (t ∷ ts))).1
silence-DetectedAt k t ts r o m e paced =
    let (ds, split, pings, bound) = silence_from k k.has_pending t ts refl r o m e paced in
    (ds, split, pings, same_bound (final t ts) k.last_ping_time k.config.ping_interval _ _ bound e)

started-effect :
    (c : Config) (now : ℕ) (sent : Bool)
    → (step (new c true) (started sent now)).1 ≡ ping 1 sent ∷ []
unfolding step start new
started-effect c now sent = refl

within_delay :
    (c : Config) (last at : ℕ)
    → at ≤ last + c.ping_interval * c.max_missed_pongs
    → at ≤ last + detection_delay c
unfolding detection_delay
within_delay c last at h = omega arith

-- From Start the delay is within DetectionDelay.
pub start-DetectedAt :
    (c : Config) (now t : ℕ) (ts : List ℕ)
    → length (t ∷ ts) ≡ (new c true).config.max_missed_pongs
    → Paced (new c true).config.pong_timeout (new c true).config.ping_interval now (t ∷ ts)
    → DetectedAt
        (final t ts)
        (now + detection_delay (new c true).config)
        (run (new c true) (started true now ∷ map silent (t ∷ ts))).1
unfolding run step start new
start-DetectedAt c now t ts e paced =
    let k : KeepAlive = (step (new c true) (started true now)).0 in
    let (ds, split, pings, bound) =
      silence-DetectedAt k t ts refl refl (omega (arith, e)) (omega (arith, e)) paced in
    (
      ping 1 true ∷ ds,
      rw split refl,
      (tt, pings),
      within_delay (new c true).config now (final t ts) (
          same_bound (final t ts) now (new c true).config.ping_interval
            ((new c true).config.max_missed_pongs - 0 + 0) (new c true).config.max_missed_pongs
            bound (omega arith)),
    )

abbrev attempt : Bool × ℕ → Event
attempt (sent, t) = ticked sent t

-- Before each tick the ping was not sent, or is younger than the patience.
abbrev pub Unheard : ℕ → ℕ → Bool → List (Bool × ℕ) → Type 0
Unheard timeout last sent [] = Unit
Unheard timeout last sent ((next, t) ∷ ts) =
    ((sent ≡ false) ⊎ (t < last + timeout)) × Unheard timeout t next ts

record Unaware (timeout last : ℕ) (sent : Bool) (k : KeepAlive) : Type 0 where
  runs : k.running ≡ true
  pends : k.has_pending ≡ sent
  patience : k.config.pong_timeout ≡ timeout
  since : k.last_ping_time ≡ last
  positive : 0 < timeout

tick-Unaware :
    (timeout last t : ℕ) (sent next : Bool) (k : KeepAlive)
    → Unaware timeout last sent k
    → (sent ≡ false) ⊎ (t < last + timeout)
    → (seq : ℕ) × ((step k (ticked next t)).1 ≡ ping seq next ∷ [])
      × Unaware timeout t next (step k (ticked next t)).0
unfolding step handle_tick
tick-Unaware timeout last t sent next k w p =
    ((k.sequence + 1) % 2 ^ 32, ground arith, ground arith)

unheard :
    (timeout last : ℕ) (sent : Bool) (ts : List (Bool × ℕ)) (k : KeepAlive)
    → Unaware timeout last sent k
    → Unheard timeout last sent ts
    → All IsPing (run k (map attempt ts)).1
unfolding run
unheard timeout last sent [] k w u = tt
unheard timeout last sent ((next, t) ∷ ts) k w (p, u) =
    let (seq, shown, w') = tick-Unaware timeout last t sent next k w p in
    subst
      (λ (es : List Effect). All IsPing (es ++ (run (step k (ticked next t)).0 (map attempt ts)).1))
      (sym shown) (tt, unheard timeout t next ts (step k (ticked next t)).0 w' u)

start-Unaware :
    (c : Config) (now : ℕ) (sent : Bool)
    → Unaware (new c true).config.pong_timeout now sent (step (new c true) (started sent now)).0
unfolding step start new
start-Unaware c now sent = ground arith

-- A keep-alive never calls onTimeout while it hears no pong, however long, when before each tick the
-- last ping could not be sent or is younger than PongTimeout: a connection whose sends all fail is
-- not detected, nor is any when PongTimeout is above the interval.
pub Unheard-never_detected :
    (c : Config) (now : ℕ) (sent : Bool) (ts : List (Bool × ℕ))
    → Unheard (new c true).config.pong_timeout now sent ts
    → All IsPing (run (new c true) (started sent now ∷ map attempt ts)).1
unfolding run
Unheard-never_detected c now sent ts u =
    subst
      (λ (es : List Effect).
        All IsPing (es ++ (run (step (new c true) (started sent now)).0 (map attempt ts)).1))
      (sym (started-effect c now sent))
      (
        tt,
        unheard (new c true).config.pong_timeout now sent ts
            (step (new c true) (started sent now)).0 (start-Unaware c now sent) u,
      )
