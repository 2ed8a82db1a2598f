-- ===== src/Transport/KeepAlive.antt =====
-- mash-go/pkg/transport/keepalive.go: pings at an interval, and the pongs that answer them. The state
-- is that of KeepAlive with its channel of capacity one; a tick of the ticker, a pong from the
-- channel and each public method is an event. What sendPing reports and the time are arguments.
pub mod Trace
pub mod Detection
mod Tests
use mash.Base.{
  ℕ, ◌+◌, ◌-◌, ◌*◌, ◌%◌, ◌^◌, Bool, true, false, ◌&&◌, Option, none, some, List, [], ◌∷◌, ◌++◌, leb,
  ◌==◌, if◌then◌else◌,
}

abbrev second : ℕ
second = 1000000000

abbrev pub default_ping_interval : ℕ
default_ping_interval = 30 * second

abbrev pub default_pong_timeout : ℕ
default_pong_timeout = 5 * second

abbrev pub default_max_missed_pongs : ℕ
default_max_missed_pongs = 3

-- The values are not negative.
pub record Config : Type 0 where
  pub ping_interval : ℕ
  pub pong_timeout : ℕ
  pub max_missed_pongs : ℕ

unfoldable pub default_config : Config
default_config = record {
  ping_interval = default_ping_interval;
  pong_timeout = default_pong_timeout;
  max_missed_pongs = default_max_missed_pongs;
}

unfoldable pub detection_delay : Config → ℕ
detection_delay c = c.ping_interval * c.max_missed_pongs + c.pong_timeout

-- What the code does to its surroundings: sendPing with what it reported, onTimeout with the time of
-- the tick, and onPongReceived. The pong that the loop takes from the channel is listed too.
pub data Effect : Type 0 where
  ping : ℕ → Bool → Effect
  timed_out : ℕ → Effect
  answered : ℕ → ℕ → Effect
  took : ℕ → Effect

pub record KeepAlive : Type 0 where
  pub config : Config
  pub on_timeout : Bool
  pub on_pong_received : Bool
  pub sequence : ℕ
  pub missed_pongs : ℕ
  pub last_ping_time : ℕ
  pub last_pong_time : ℕ
  pub pending_ping : ℕ
  pub has_pending : Bool
  pub running : Bool
  pub pong_ch : Option ℕ

abbrev or_default : ℕ → ℕ → ℕ
or_default v d = if v == 0 then d else v

unfoldable pub new : Config → Bool → KeepAlive
new c on_timeout = record {
  config = record {
    ping_interval = or_default c.ping_interval default_ping_interval;
    pong_timeout = or_default c.pong_timeout default_pong_timeout;
    max_missed_pongs = or_default c.max_missed_pongs default_max_missed_pongs;
  };
  on_timeout = on_timeout;
  on_pong_received = false;
  sequence = 0;
  missed_pongs = 0;
  last_ping_time = 0;
  last_pong_time = 0;
  pending_ping = 0;
  has_pending = false;
  running = false;
  pong_ch = none;
}

unfoldable pub set_pong_received_callback : KeepAlive → Bool → KeepAlive
set_pong_received_callback k cb = record k { on_pong_received = cb }

-- A sequence number is a uint32. A send that fails takes the pending mark away again.
unfoldable pub send_ping_message : KeepAlive → Bool → ℕ → KeepAlive × List Effect
send_ping_message k sent now =
    let seq = (k.sequence + 1) % 2 ^ 32 in
    (
      record k { sequence = seq; last_ping_time = now; pending_ping = seq; has_pending = sent },
      ping seq sent ∷ [],
    )

-- The test of a tick: a ping is pending, and for PongTimeout.
unfoldable pub overdue : KeepAlive → ℕ → Bool
overdue k now = k.has_pending && leb k.config.pong_timeout (now - k.last_ping_time)

unfoldable pub count_missed : KeepAlive → KeepAlive
count_missed k = record k { missed_pongs = k.missed_pongs + 1; has_pending = false }

unfoldable pub handle_tick : KeepAlive → Bool → ℕ → KeepAlive × List Effect
unfolding overdue count_missed send_ping_message
handle_tick k sent now =
    if overdue k now
    then if leb k.config.max_missed_pongs (k.missed_pongs + 1)
      then (count_missed k, if k.on_timeout then timed_out now ∷ [] else [])
      else send_ping_message (count_missed k) sent now
    else send_ping_message k sent now

unfoldable pub handle_pong : KeepAlive → ℕ → ℕ → KeepAlive × List Effect
handle_pong k seq now =
    if k.has_pending && (seq == k.pending_ping)
    then (
      record k { last_pong_time = now; has_pending = false; missed_pongs = 0 },
      if k.on_pong_received then answered seq (now - k.last_ping_time) ∷ [] else [],
    )
    else (record k { last_pong_time = now }, [])

-- PongReceived: a send to a full channel is dropped.
abbrev pub offered : Option ℕ → ℕ → Option ℕ
offered none seq = some seq
offered (some other) seq = some other

unfoldable pub pong_received : KeepAlive → ℕ → KeepAlive
pong_received k seq = record k { pong_ch = offered k.pong_ch seq }

-- The loop takes a pong from the channel.
unfoldable pub take_pong : Option ℕ → KeepAlive → ℕ → KeepAlive × List Effect
unfolding handle_pong
take_pong none k now = (k, [])
take_pong (some seq) k now =
    let (k1, es) = handle_pong (record k { pong_ch = none }) seq now in (k1, took seq ∷ es)

-- Start, with the first ping of the loop that it starts.
unfoldable pub start : KeepAlive → Bool → ℕ → KeepAlive × List Effect
unfolding send_ping_message
start k sent now =
    if k.running then (k, []) else send_ping_message (record k { running = true }) sent now

unfoldable pub stop : KeepAlive → KeepAlive
stop k = record k { running = false }

pub data Event : Type 0 where
  started : Bool → ℕ → Event
  ticked : Bool → ℕ → Event
  arrived : ℕ → Event
  taken : ℕ → Event
  stopped : Event

-- The loop's cases are taken while it runs.
unfoldable pub step : KeepAlive → Event → KeepAlive × List Effect
unfolding start handle_tick pong_received take_pong stop
step k (started sent now) = start k sent now
step k (ticked sent now) = if k.running then handle_tick k sent now else (k, [])
step k (arrived seq) = (pong_received k seq, [])
step k (taken now) = if k.running then take_pong k.pong_ch k now else (k, [])
step k stopped = (stop k, [])

-- The effects of a run, in the order of time.
unfoldable pub run : KeepAlive → List Event → KeepAlive × List Effect
unfolding step
run k [] = (k, [])
run k (e ∷ es) = let (k1, now) = step k e in let (k2, later) = run k1 es in (k2, now ++ later)
