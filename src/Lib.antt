-- ===== src/Lib.antt =====
-- mash-go: the requests, limits, timers and zones of a MASH device, and the protocol parts they
-- stand on.
--
-- A device belongs to up to three zones (a grid operator's, a local energy manager's and a test
-- zone's). Each zone may limit what the device consumes or produces, with or without a duration.
-- The limit resolver keeps the zones' limits, the duration timers that end them and the attributes
-- that show the effective limit; the failsafe timer takes over when the device has lost its zones.
-- A zone is joined in a commissioning window, with a setup code that a QR code carries. Messages
-- travel as frames over a connection that pings keep alive; a session dispatches the requests in
-- them to the features of the device, which hold its attributes, and tracks its subscriptions.
--
-- Parts, and where they are:
--   Base            native numbers, Go's == and <, lists, signed integers, texts as bytes (Base/Text),
--                   numbers as digits (Base/Digits), and Go's maps as association lists (Base/GoMap).
--                   Go visits a map in any order; a theorem about a loop over a map holds for every
--                   list that has no key twice.
--   Zone            cert/types.go ZoneType, zone/zone.go Zone
--   Zone/Value      zone/zone.go: ZoneValue, MultiZoneValue, ResolveLimits, ResolveSetpoints
--   Zone/Manager    zone/manager.go: AddZone, RemoveZone, SetConnected and the others
--   Duration        duration/timer.go: SetTimer, CancelTimer, CancelZoneTimers, expireTimer
--   EnergyControl   features/energy_control_gen.go: the attributes and requests that limits use
--   LimitResolver   features/limit_resolver.go: resolveAndApply and the zone indices;
--                   LimitResolver/SetLimit has HandleSetLimit, LimitResolver/Clearing has
--                   HandleClearLimit, ClearZone, ResetAll and handleTimerExpiry
--   Failsafe        failsafe/timer.go: Failsafe/Operations has Start, Stop, Reset, enterFailsafe and
--                   exitGracePeriod, Failsafe/Snapshot has Snapshot and Restore
--   Transport       transport/framing.go: WriteFrame and ReadFrame (Transport/Framing);
--                   transport/keepalive.go: the pings of a connection (Transport/KeepAlive)
--   Connection      connection/reconnect.go: Connect, Disconnect, Close and attemptReconnect, on the
--                   state of Connection/Machine;
--                   Connection/Backoff has connection/backoff.go
--   Window          pase/window.go: Open, Close, BeginPASE, EndPASE, handleTimeout
--   Subscription    subscription/subscription.go: RecordChange, GetPendingNotification, NeedsHeartbeat;
--                   Subscription/Values has valuesEqual; Subscription/Manager has
--                   subscription/manager.go: Subscribe, Unsubscribe, NotifyChange and the others
--   Model           model/attribute.go, feature.go, command.go, endpoint.go, device.go: the tree of a
--                   device. Model/Values has the values, Model/Attribute has SetValue and its checks,
--                   Model/Reading and Model/Writing have ReadAttribute and WriteAttribute
--   Wire            wire/message.go, status.go, operation.go: requests, responses and payloads
--   Dispatch        service/dispatch/protocol_handler.go: Dispatch/Reading, Dispatch/Writing and
--                   Dispatch/Subscribing have a handler each, Dispatch/Requests has handleInvoke,
--                   HandleRequest and NotifyAttributeChange; Dispatch/Tracking has
--                   service/dispatch/session_subscription_tracker.go
--   Version         version/version.go, and checkVersionCompatibility of service/version_check.go
--   SetupCode       commissioning/setupcode.go: setup codes and QR codes of six fields
--   QrCode          discovery/qrcode.go: QR codes of four fields, instance names
--   Service         service/device_service_commissioning.go: acceptCommissioningConnection and what
--                   handleCommissioningConnection does around a handshake, with
--                   service/pase_tracker.go; Service/Connections has service/conn_tracker.go
-- (paths from mash-go/pkg). LimitResolver uses Zone/Value and Duration as the Go code does: it
-- owns two multi-zone values and a manager of timers, and the timers' OnExpiry is its
-- handleTimerExpiry. Dispatch reads a request by Wire and runs it on the device of Model, by the
-- functions of those modules.
--
-- Conventions. A type's methods hold its lock, so a method is one step: a function from the state
-- (and the time `now`, where the code reads the clock) to the new state, the result and the
-- callbacks that it makes, as a list of values. A callback function that is registered is a flag,
-- false for nil. Times and durations are natural numbers of nanoseconds, a zero time.Time is 0 (none in Service);
-- the source's subtractions that are then tested for a negative result stop at 0 here. A pointer
-- that may be nil is an Option. The values of limits are signed (Base/Int). An io.Writer is a
-- parameter, an io.Reader is the bytes that it still delivers, and the format of the times that
-- serve as session ids is a parameter. The device is a tree of values: a pointer into it is a place
-- in the tree, and a change through the pointer puts the new value there. A command's handler is
-- the application's and may change the device; that it does, and the hook of a feature's reads, are
-- arguments. A float is its bits, and a float64 for comparison is a multiple of 2^-1074.
--
-- The connection manager calls functions without its lock and has a goroutine of its own, and many
-- connections commission at a time: a step there is what one goroutine does under the lock, or one call
-- that it makes without it, so that runs interleave them. Elsewhere a method that calls functions or goes
-- through a slice after it has released its lock, as NotifyChange of the subscription manager does, is
-- still one step, with no other method inside it.
--
-- The Go runtime is part of the state of the timers and of the window: `pending` holds, under a
-- handle, each call that time.AfterFunc has scheduled and that neither fired nor was stopped.
-- `fire` is the runtime's step: the call of a handle that is pending, at or after its deadline,
-- together with the method that it calls. `Stop` of a timer takes its handle out. (That a call has
-- started and waits for the lock while another method stops its timer is modelled in
-- Duration/Races only.)
--
-- Bounds: the uint8 of the next zone index wraps at 256 and the uint32 of a subscription's id and of
-- a ping at 2^32, as the source's do. Loops run over a list or a number of rounds; only the digits
-- of a number are made with fuel, the number itself, which is enough as each step divides it, and the
-- bits that a product has too many for a float64, at most 63 of 64 rounds.
--
-- Not modelled: String methods, log lines, the context plumbing but for the caller's zone, and the
-- parts of the repository that are not in the list above.
mod Base
pub mod Zone
pub mod Duration
pub mod EnergyControl
pub mod LimitResolver
pub mod Failsafe
pub mod Transport
pub mod Connection
pub mod Window
pub mod Subscription
pub mod Model
pub mod Wire
pub mod Dispatch
pub mod Version
pub mod SetupCode
pub mod QrCode
pub mod Service
