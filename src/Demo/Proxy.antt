-- ===== src/Demo/Proxy.antt =====
-- cmd/wslcdemo/proxy.go: `handleProxyConn`, which relays one client of the proxy, with its two
-- goroutines, as a step relation. `io.Copy` is written out in its rounds.
pub mod Invariant
pub mod Progress
use wslcsession.Base.{
  ℕ, zero, suc, ◌+◌, ◌*◌, ◌≤◌, ◌<◌, ◌≡◌, ◌≢◌, Bool, true, false, Bytes, [], ◌++◌, length, take,
  drop,
}

-- From the client to the guest, and back.
pub data Side : Type 0 where
  up : Side
  down : Side

-- Where the goroutine of a side stands: not started, in `io.Copy`, in front of `CloseWrite`, in front
-- of `done <- struct{}{}`, or returned.
pub data CopyPc : Type 0 where
  unborn : CopyPc
  copying : CopyPc
  half_closing : CopyPc
  signalling : CopyPc
  gone : CopyPc

pub record Flow : Type 0 where
  pub pc : CopyPc
  -- all that was read, all that was written, and what is read but not written
  pub read : Bytes
  pub written : Bytes
  pub pending : Bytes
  -- `CloseWrite` of the destination was called
  pub shut : Bool

-- Where the handler stands: in `DockerConn`, in front of each `<-done`, in each deferred `Close`, or
-- returned.
pub data HandlerPc : Type 0 where
  dialing : HandlerPc
  first_wait : HandlerPc
  second_wait : HandlerPc
  closing_guest : HandlerPc
  closing_client : HandlerPc
  ended : HandlerPc

pub record Relay : Type 0 where
  pub handler : HandlerPc
  pub flow : Side → Flow
  -- how many values the channel `done` holds; it has room for two
  pub signals : ℕ
  pub guest_closed : Bool
  pub client_closed : Bool

abbrev pub put : (Side → Flow) → Side → Flow → Side → Flow
put f up x up = x
put f up x down = f down
put f down x down = x
put f down x up = f up

abbrev pub set_flow : Relay → Side → Flow → Relay
set_flow s i x = record s { flow = put s.flow i x }

abbrev pub new_flow : CopyPc → Flow
new_flow pc = record { pc = pc; read = []; written = []; pending = []; shut = false }

abbrev pub accepted : Relay
accepted = record {
  handler = dialing;
  flow = λ _. new_flow unborn;
  signals = 0;
  guest_closed = false;
  client_closed = false;
}

-- The buffer of `io.Copy`.
abbrev pub buffer_size : ℕ
buffer_size = 32 * 1024

pub data Relays (s : Relay) : Relay → Type 0 where
  dials :
      s.handler ≡ dialing
      → Relays s (record s { handler = first_wait; flow = λ _. new_flow copying })
  dial_fails : s.handler ≡ dialing → Relays s (record s { handler = closing_client })
  reads :
      (i : Side) (b : Bytes)
      → (s.flow i).pc ≡ copying
      → (s.flow i).pending ≡ []
      → 0 < length b
      → length b ≤ buffer_size
      → Relays s (set_flow s i (record (s.flow i) { read = (s.flow i).read ++ b; pending = b }))
  -- the end of the file, or an error
  stops_reading :
      (i : Side)
      → (s.flow i).pc ≡ copying
      → (s.flow i).pending ≡ []
      → Relays s (set_flow s i (record (s.flow i) { pc = half_closing }))
  writes :
      (i : Side)
      → (s.flow i).pc ≡ copying
      → (s.flow i).pending ≢ []
      → Relays s (
          set_flow s i (record (s.flow i) {
            written = (s.flow i).written ++ (s.flow i).pending;
            pending = [];
          }))
  -- `Write` takes only so many bytes, and gives an error
  fails_to_write :
      (i : Side) (k : ℕ)
      → (s.flow i).pc ≡ copying
      → (s.flow i).pending ≢ []
      → k ≤ length (s.flow i).pending
      → Relays s (
          set_flow s i (record (s.flow i) {
            pc = half_closing;
            written = (s.flow i).written ++ take k (s.flow i).pending;
            pending = drop k (s.flow i).pending;
          }))
  half_closes :
      (i : Side)
      → (s.flow i).pc ≡ half_closing
      → Relays s (set_flow s i (record (s.flow i) { pc = signalling; shut = true }))
  signals_done :
      (i : Side)
      → (s.flow i).pc ≡ signalling
      → s.signals < 2
      → Relays s
          (record (set_flow s i (record (s.flow i) { pc = gone })) { signals = suc s.signals })
  first_done :
      (n : ℕ)
      → s.handler ≡ first_wait
      → s.signals ≡ suc n
      → Relays s (record s { handler = second_wait; signals = n })
  second_done :
      (n : ℕ)
      → s.handler ≡ second_wait
      → s.signals ≡ suc n
      → Relays s (record s { handler = closing_guest; signals = n })
  closes_guest :
      s.handler ≡ closing_guest
      → Relays s (record s { handler = closing_client; guest_closed = true })
  closes_client :
      s.handler ≡ closing_client → Relays s (record s { handler = ended; client_closed = true })

pub data Relayed : Relay → Type 0 where
  start : Relayed accepted
  step : {s t : Relay} → Relayed s → Relays s t → Relayed t
