-- ===== src/Transport/KeepAlive/Tests.antt =====
-- mash-go/pkg/transport/keepalive.go: runs of the keep-alive at concrete times, in nanoseconds.
use mash.Base.{◌≡◌, refl, inl, none, true, false, List, [], ◌∷◌, map, arith, All}
use mash.Transport.KeepAlive.{
  KeepAlive, Config, ping, timed_out, answered, took, new, run, Event, started, ticked, arrived,
  taken, stopped, default_config, detection_delay, set_pong_received_callback,
}
use mash.Transport.KeepAlive.Trace.{Justified, run-new-Justified}
use mash.Transport.KeepAlive.Detection.{
  silent, IsPing, DetectedAt, silence-DetectedAt, Unheard-never_detected,
}

abbrev quick : Config
quick = record { ping_interval = 30; pong_timeout = 5; max_missed_pongs = 2 }

-- A pong answers the first ping, a late one is ignored, and two pings stay unanswered.
abbrev history : List Event
history =
    started true 100
    ∷ arrived 1
    ∷ taken 103
    ∷ ticked true 130
    ∷ ticked true 160
    ∷ arrived 2
    ∷ taken 161
    ∷ ticked true 190
    ∷ stopped
    ∷ ticked true 220
    ∷ []

history-run :
    (run (set_pong_received_callback (new quick true) true) history).1
    ≡ ping 1 true ∷ took 1 ∷ answered 1 3 ∷ ping 2 true ∷ ping 3 true ∷ took 2 ∷ timed_out 190 ∷ []
unfolding run new set_pong_received_callback
history-run = refl

default-detection_delay : detection_delay default_config ≡ 95000000000
unfolding detection_delay default_config
default-detection_delay = refl

run-new-Justified_example :
    Justified 2 (0, none) (run (set_pong_received_callback (new quick true) false) history).1
unfolding new
run-new-Justified_example = run-new-Justified quick false history

-- The first ping is answered after three, and nothing is heard from then on.
abbrev answered_once : KeepAlive
answered_once = (run (new quick true) (started true 100 ∷ arrived 1 ∷ taken 103 ∷ [])).0

silence-DetectedAt_example :
    DetectedAt 190 190 (run answered_once (map silent (130 ∷ 160 ∷ 190 ∷ []))).1
unfolding run new
silence-DetectedAt_example =
    silence-DetectedAt answered_once 130 (160 ∷ 190 ∷ []) refl refl (omega arith) refl
      (omega arith, omega arith, (omega arith, omega arith, (omega arith, omega arith, tt)))

-- With the defaults, in seconds: 120 after the ping that was answered at once.
late_detection :
    (run
      (new (record { ping_interval = 30; pong_timeout = 5; max_missed_pongs = 3 }) true)
      (started true 0 ∷ arrived 1 ∷ taken 0 ∷ map silent (30 ∷ 60 ∷ 90 ∷ 120 ∷ []))).1
    ≡ ping 1 true ∷ took 1 ∷ ping 2 true ∷ ping 3 true ∷ ping 4 true ∷ timed_out 120 ∷ []
unfolding run new
late_detection = refl

Unheard-never_detected_example :
    All IsPing
      (run
        (new quick true)
        (started false 100 ∷ ticked false 130 ∷ ticked false 160 ∷ ticked false 190 ∷ [])).1
unfolding new
Unheard-never_detected_example =
    Unheard-never_detected quick 100 false ((false, 130) ∷ (false, 160) ∷ (false, 190) ∷ [])
      (inl refl, (inl refl, (inl refl, tt)))
