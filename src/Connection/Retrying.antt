-- ===== src/Connection/Retrying.antt =====
-- mash-go/pkg/connection/reconnect.go: how a lost connection is established again.
use mash.Base.{
  ℕ, zero, suc, ◌≡◌, ◌<◌, ◌^◌, refl, sym, subst, Bool, true, false, List, [], ◌∷◌, ◌++◌, length,
  All, arith,
}
use mash.Connection.{
  proceeds, State, connected, reconnecting, Loop, selecting, checking, Effect, dials, state_changed,
  now_connected, now_disconnected, reconnecting_in, Manager, run, Event, connection_lost, looped,
  ready, drew, answered,
}
use mash.Connection.Backoff
use mash.Connection.Backoff.{new_backoff, next, reset}
use mash.Connection.Backoff.Delays.{reset-After, After, IsDelay, next-After, next-IsDelay}

-- One attempt of the loop up to connectFn, with the jitter's random number, and what that returned.
abbrev pub attempt : ℕ → Bool → List Event
attempt k ok =
    looped ready
    ∷ looped (drew k)
    ∷ looped ready
    ∷ looped ready
    ∷ looped ready
    ∷ looped ready
    ∷ looped ready
    ∷ looped (answered ok)
    ∷ []

-- Attempts that fail, and one that succeeds and is announced.
abbrev pub attempts : List ℕ → ℕ → List Event
attempts [] last = attempt last true ++ looped ready ∷ looped ready ∷ []
attempts (k ∷ ks) last = attempt k false ++ attempts ks last

-- The loss with what the goroutine that reports it does, and the loop taking the signal.
abbrev pub loss : List Event
loss = connection_lost ∷ proceeds 0 ∷ proceeds 0 ∷ proceeds 0 ∷ looped ready ∷ []

-- The callbacks of attempts that follow the first `n`: each is announced with its number and its delay,
-- and calls connectFn, and after `more + 1` of them the connection is announced.
abbrev pub IsRetried : ℕ → ℕ → List Effect → Type 0
IsRetried zero n (reconnecting_in number delay ∷ dials ∷ es) =
    (number ≡ suc n)
    × IsDelay n delay
    × (es ≡ state_changed reconnecting connected ∷ now_connected ∷ [])
IsRetried (suc more) n (reconnecting_in number delay ∷ dials ∷ es) =
    (number ≡ suc n) × IsDelay n delay × IsRetried more (suc n) es
IsRetried _ n es = ⊥

-- A connection that is established and observed: auto-reconnect is on, all callbacks are set, and the
-- loop waits for a signal.
pub record IsReady (m : Manager) : Type 0 where
  pub up : m.state ≡ connected
  pub retries : m.auto_reconnect ≡ true
  pub stands : m.loop ≡ selecting
  pub state_change : m.on_state_change ≡ true
  pub connection : m.on_connected ≡ true
  pub disconnection : m.on_disconnected ≡ true
  pub retry : m.on_reconnecting ≡ true

-- The manager `m` at the phase that is given.
abbrev at : Manager → State → Loop → Backoff.Backoff → Manager
at m s l b = record m {
  state = s;
  loop = l;
  backoff = b;
  auto_reconnect = true;
  on_state_change = true;
  on_connected = true;
  on_disconnected = true;
  on_reconnecting = true;
}

-- The signal is taken, and the goroutine that reported the loss is done.
abbrev spent : Manager → Manager
spent m = record m { reconnect_ch = false; threads = [] ∷ m.threads }

abbrev trying : Manager → Backoff.Backoff → Manager
trying m b = at (spent m) reconnecting checking b

abbrev prepend : List Effect → Manager × List Effect → Manager × List Effect
prepend es r = (r.0, es ++ r.1)

attempt_failed :
    (m : Manager) (b : Backoff.Backoff) (k : ℕ) (es : List Event)
    → run (trying m b) (attempt k false ++ es)
      ≡ prepend
          (reconnecting_in (next b k).0.attempts (next b k).1 ∷ dials ∷ [])
          (run (trying m (next b k).0) es)
unfolding run
attempt_failed m b k es = refl

attempt_succeeded :
    (m : Manager) (b : Backoff.Backoff) (k : ℕ)
    → run (trying m b) (attempts [] k) ≡ (
      at (spent m) connected selecting (reset (next b k).0),
      reconnecting_in (next b k).0.attempts (next b k).1
          ∷ dials
          ∷ state_changed reconnecting connected
          ∷ now_connected
          ∷ [],
    )
unfolding run
attempt_succeeded m b k = refl

abbrev lost_then : Manager × List Effect → Manager × List Effect
lost_then r = prepend (state_changed connected reconnecting ∷ now_disconnected ∷ []) r

lost-trying :
    (m : Manager) (b : Backoff.Backoff) (es : List Event)
    → run (at m connected selecting b) (loss ++ es)
      ≡ prepend (state_changed connected reconnecting ∷ now_disconnected ∷ []) (run (trying m b) es)
unfolding run
lost-trying m b es = refl

IsReady-at : (m : Manager) → IsReady m → m ≡ at m connected selecting m.backoff
IsReady-at m r = ground arith

abbrev IsDraw : ℕ → Type 0
IsDraw k = k < 2 ^ 53

-- The connection is up, the loop waits for a signal and the backoff starts again.
pub record IsRestored (m : Manager) : Type 0 where
  pub up : m.state ≡ connected
  pub stands : m.loop ≡ selecting
  pub fresh : After 0 m.backoff

abbrev Retried : ℕ → ℕ → Manager × List Effect → Type 0
Retried more n r = IsRestored r.0 × IsRetried more n r.1

attempts-Retried :
    (ks : List ℕ) (last n : ℕ) (m : Manager) (b : Backoff.Backoff)
    → After n b
    → All IsDraw ks
    → IsDraw last
    → Retried (length ks) n (run (trying m b) (attempts ks last))
attempts-Retried [] last n m b a draws h =
    let next_a : After (suc n) (next b last).0 = next-After n last b a in
    rw (attempt_succeeded m b last) (
      record { up = refl; stands = refl; fresh = reset-After (suc n) (next b last).0 next_a },
      (next_a.count, next-IsDelay n last b a h, refl),
    )
attempts-Retried (k ∷ ks) last n m b a draws h =
    let next_a : After (suc n) (next b k).0 = next-After n k b a in
    let rest : Retried (length ks) (suc n) (run (trying m (next b k).0) (attempts ks last)) =
      attempts-Retried ks last (suc n) m (next b k).0 next_a draws.1 h in
    rw (attempt_failed m b k (attempts ks last))
      ((rest.0, (next_a.count, next-IsDelay n k b a draws.0, rest.1)))

-- When the connection of a ready manager is lost, each attempt that fails is followed by another, and
-- the first that succeeds restores it: the callbacks are the loss, then for each attempt its number and
-- its delay, of which the one of attempt n is between one second doubled n - 1 times, at most sixty, and
-- a quarter more, with a call of connectFn after each, and at last the new connection. The backoff
-- then starts again. No goroutine uses the manager meanwhile but the loop and the one that reports the
-- loss, which comes to its end first, and the backoff had already made `n` attempts.
pub loss-Retried :
    (m : Manager) (n : ℕ) (ks : List ℕ) (last : ℕ)
    → IsReady m
    → After n m.backoff
    → All IsDraw ks
    → IsDraw last
    → IsRestored (run m (loss ++ attempts ks last)).0
      × ((es : List Effect) × ((run m (loss ++ attempts ks last)).1
            ≡ state_changed connected reconnecting ∷ now_disconnected ∷ es)
          × IsRetried (length ks) n es)
loss-Retried m n ks last r a draws h =
    let rest : Retried (length ks) n (run (trying m m.backoff) (attempts ks last)) =
      attempts-Retried ks last n m m.backoff a draws h in
    let es : List Event = loss ++ attempts ks last in
    let shown : run m es ≡ lost_then (run (trying m m.backoff) (attempts ks last)) =
      subst (λ (x : Manager). run x es ≡ lost_then (run (trying m m.backoff) (attempts ks last)))
        (sym (IsReady-at m r)) (lost-trying m m.backoff (attempts ks last)) in
    rw shown (rest.0, ((run (trying m m.backoff) (attempts ks last)).1, refl, rest.1))
