-- ===== src/Connection/Closing.antt =====
-- mash-go/pkg/connection/reconnect.go: what Close does to the attempts to connect.
use mash.Base.{
  not, ◌-◌, All-append, ℕ, zero, suc, ◌≡◌, ◌≢◌, ◌⊎◌, ◌↔◌, inl, inr, refl, ap, ◌∙◌, Bool, true,
  false, ◌||◌, Option, none, some, List, [], ◌∷◌, arith, ltb, All, Bool-cases,
}
use mash.Connection.{
  is_connected_state, is_connected, State, closed, connected, Loop, about_to_dial, dialing, Effect,
  dials, Action, enter, Manager, act, pick, proceed, close, step, run, Event, connect_ended, looped,
  proceeds, Wake, answered, ready, loop_step, end_connect,
}

abbrev pub is_dialing : Loop → Bool
is_dialing about_to_dial = true
is_dialing dialing = true
is_dialing _ = false

abbrev pub is_enter : Action → Bool
is_enter enter = true
is_enter _ = false

-- The call of connectFn is still to come.
abbrev pub enters : List Action → Bool
enters [] = false
enters (a ∷ actions) = is_enter a || enters actions

abbrev pub any_enters : List (List Action) → Bool
any_enters [] = false
any_enters (actions ∷ ts) = enters actions || any_enters ts

-- A Connect or the loop is in connectFn, or has passed its last test before it.
abbrev pub in_flight : Manager → Bool
in_flight m = ltb 0 m.callers || is_dialing m.loop || any_enters m.threads

record IsStill (m : Manager) : Type 0 where
  shut : m.state ≡ closed
  nobody : m.callers ≡ 0
  no_dial : is_dialing m.loop ≡ false
  no_entry : any_enters m.threads ≡ false

-- No call of connectFn.
abbrev pub IsQuiet : Effect → Type 0
IsQuiet dials = ⊥
IsQuiet _ = Unit

abbrev Stills : Manager × List Effect → Type 0
Stills r = IsStill r.0 × All IsQuiet r.1

loop_step-IsStill :
    (l : Loop) (m : Manager) (w : Wake) → m.loop ≡ l → IsStill m → Stills (loop_step l m w)
unfolding loop_step
loop_step-IsStill l m w e h = ground arith

abbrev no_enter : Option Action → Bool
no_enter none = true
no_enter (some a) = not (is_enter a)

pick_still :
    (i : ℕ) (ts : List (List Action))
    → any_enters ts ≡ false
    → (no_enter (pick i ts).0 ≡ true) × (any_enters (pick i ts).1 ≡ false)
unfolding pick
pick_still i [] h = (refl, refl)
pick_still zero ([] ∷ ts) h = (refl, h)
pick_still zero ((a ∷ actions) ∷ ts) h = ground arith
pick_still (suc i) (actions ∷ ts) h = ground (arith, pick_still i ts)

act-IsStill : (m : Manager) (o : Option Action) → no_enter o ≡ true → IsStill m → Stills (act m o)
unfolding act
act-IsStill m o e h = ground arith

step-IsStill : (m : Manager) (e : Event) → IsStill m → Stills (step m e)
unfolding step proceed
step-IsStill m (looped w) h = loop_step-IsStill m.loop m w refl h
step-IsStill m (proceeds i) h =
    let (quiet, rest) = pick_still i m.threads h.no_entry in
    act-IsStill (record m { threads = (pick i m.threads).1 }) (pick i m.threads).0 quiet
      (record { shut = h.shut; nobody = h.nobody; no_dial = h.no_dial; no_entry = rest })
step-IsStill m e h = ground arith

close-IsStill : (m : Manager) → in_flight m ≡ false → IsStill (close m).0
unfolding close
close-IsStill m h = ground arith

run-IsStill : (m : Manager) (es : List Event) → IsStill m → Stills (run m es)
unfolding run
run-IsStill m [] h = (h, tt)
run-IsStill m (e ∷ es) h =
    let s : Stills (step m e) = step-IsStill m e h in
    let r : Stills (run (step m e).0 es) = run-IsStill (step m e).0 es s.0 in
    (r.0, All-append IsQuiet (step m e).1 (run (step m e).0 es).1 s.1 r.1)

-- A run that ends connected.
abbrev Connects : Manager → Type 0
Connects m = (es : List Event) × (is_connected (run m es).0 ≡ true)

step-Connects : (m : Manager) (e : Event) → Connects (step m e).0 → Connects m
unfolding run
step-Connects m e (es, p) = (e ∷ es, p)

connected_now : (m : Manager) → m.state ≡ connected → Connects m
unfolding run is_connected
connected_now m e = ([], rw e refl)

ends_connected :
    (m : Manager) (n : ℕ) → m.callers ≡ suc n → (step m (connect_ended true)).0.state ≡ connected
unfolding step end_connect
ends_connected m n e = rw e refl

-- A Connect in connectFn succeeds.
caller-Connects : (m : Manager) (n : ℕ) → m.callers ≡ suc n → Connects m
caller-Connects m n e =
    step-Connects m (connect_ended true)
      (connected_now (step m (connect_ended true)).0 (ends_connected m n e))

-- The thread at an index.
abbrev at : ℕ → List (List Action) → List Action
at i [] = []
at zero (actions ∷ ts) = actions
at (suc i) (actions ∷ ts) = at i ts

pick_at :
    (i : ℕ) (ts : List (List Action)) (a : Action) (actions : List Action)
    → at i ts ≡ a ∷ actions
    → ((pick i ts).0 ≡ some a) × (at i (pick i ts).1 ≡ actions)
unfolding pick
pick_at i [] a actions e = absurd (cc)
pick_at zero (bs ∷ ts) a actions e = ground arith
pick_at (suc i) (bs ∷ ts) a actions e = pick_at i ts a actions e

any_enters_at :
    (ts : List (List Action)) → any_enters ts ≡ true → (i : ℕ) × (enters (at i ts) ≡ true)
any_enters_at [] h = absurd (cc)
any_enters_at (actions ∷ ts) h = elim (Bool-cases (enters actions)) [
  | inl e ↦ (0, e)
  | inr e ↦ let (i, p) = any_enters_at ts (rw e at h) in (suc i, p)
]

act_threads : (m : Manager) (o : Option Action) → (act m o).0.threads ≡ m.threads
unfolding act
act_threads m o = ground arith

act_enter :
    (m : Manager) (a : Action) → is_enter a ≡ true → (act m (some a)).0.callers ≡ suc m.callers
unfolding act
act_enter m a e = ground arith

-- A thread that is to call connectFn goes on until it has.
thread-Connects :
    (actions : List Action) (m : Manager) (i : ℕ)
    → at i m.threads ≡ actions
    → enters actions ≡ true
    → Connects m
unfolding step proceed
thread-Connects [] m i e h = absurd (cc)
thread-Connects (a ∷ actions) m i e h =
    let (next, rest) = pick_at i m.threads a actions e in
    let m1 : Manager = record m { threads = (pick i m.threads).1 } in
    let same : (step m (proceeds i)).0 ≡ (act m1 (some a)).0 = ap (λ o. (act m1 o).0) next in
    step-Connects m (proceeds i) (elim (Bool-cases (is_enter a)) [
      | inl q ↦
          caller-Connects (step m (proceeds i)).0 m.callers
            (ap (λ (x : Manager). x.callers) same ∙ act_enter m1 a q)
      | inr q ↦
          thread-Connects actions (step m (proceeds i)).0 i
            (ap (at i) (act_threads m1 (pick i m.threads).0) ∙ rest) (rw q at h)
    ])

dialing_connected :
    (m : Manager) → m.loop ≡ dialing → (step m (looped (answered true))).0.state ≡ connected
unfolding step loop_step
dialing_connected m e = rw e refl

dial_begins : (m : Manager) → m.loop ≡ about_to_dial → (step m (looped ready)).0.loop ≡ dialing
unfolding step loop_step
dial_begins m e = rw e refl

dialing-Connects : (m : Manager) → m.loop ≡ dialing → Connects m
dialing-Connects m e =
    step-Connects m (looped (answered true))
      (connected_now (step m (looped (answered true))).0 (dialing_connected m e))

dial-Connects : (m : Manager) (l : Loop) → m.loop ≡ l → is_dialing l ≡ true → Connects m
dial-Connects m dialing e h = dialing-Connects m e
dial-Connects m about_to_dial e h =
    step-Connects m (looped ready) (dialing-Connects (step m (looped ready)).0 (dial_begins m e))
dial-Connects m l e h = absurd (cc)

in_flight-Connects : (m : Manager) → in_flight m ≡ true → Connects m
in_flight-Connects m h = elim (Bool-cases (ltb 0 m.callers)) [
  | inl c ↦ caller-Connects m (m.callers - 1) (grind arith)
  | inr c ↦ elim (Bool-cases (is_dialing m.loop)) [
    | inl d ↦ dial-Connects m m.loop refl d
    | inr d ↦
        let (i, p) = any_enters_at m.threads (rw (c, d) at h) in
        thread-Connects (at i m.threads) m i refl p
  ]
]

close-in_flight : (m : Manager) → in_flight (close m).0 ≡ in_flight m
unfolding close
close-in_flight m = ground arith

still-unconnected :
    (m : Manager) (es : List Event)
    → in_flight m ≡ false
    → is_connected (run (close m).0 es).0 ≢ true
unfolding is_connected
still-unconnected m es h e =
    closed-ne (run (close m).0 es).0.state (run-IsStill (close m).0 es (close-IsStill m h)).0.shut e
  where
    closed-ne : (s : State) → s ≡ closed → is_connected_state s ≡ true → ⊥
    closed-ne s p q = ground arith

-- After Close, IsConnected can become true again exactly when, at that time, a Connect or the
-- reconnection loop is in connectFn or has passed its last test before it: its success puts Connected
-- over Closed. When none has, connectFn is never called again, whatever follows.
pub close-reopens :
    (m : Manager)
    → ((in_flight m ≡ true) ↔ ((es : List Event) × (is_connected (run (close m).0 es).0 ≡ true)))
      × (in_flight m ≡ false → (es : List Event) → All IsQuiet (run (close m).0 es).1)
close-reopens m = (
  (
    λ h. in_flight-Connects (close m).0 (close-in_flight m ∙ h),
    λ (es, p). decided m es p (Bool-cases (in_flight m)),
  ),
  λ h es. (run-IsStill (close m).0 es (close-IsStill m h)).1,
)
  where
    decided :
        (m : Manager) (es : List Event)
        → is_connected (run (close m).0 es).0 ≡ true
        → (in_flight m ≡ true) ⊎ (in_flight m ≡ false)
        → in_flight m ≡ true
    decided m es p (inl h) = h
    decided m es p (inr h) = absurd (still-unconnected m es h p)
