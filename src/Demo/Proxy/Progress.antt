-- ===== src/Demo/Proxy/Progress.antt =====
-- The steps of a relay that reads nothing more.
use wslcsession.Base.{ℕ, ◌+◌, ◌≤◌, ◌<◌, Bytes, [], ◌∷◌, arith, Goes, Descends, Goes-measure}
use wslcsession.Demo.Proxy.{
  Side, up, down, CopyPc, unborn, copying, half_closing, signalling, gone, HandlerPc, dialing,
  first_wait, second_wait, closing_guest, closing_client, ended, Relay, Relays, dials, reads,
  writes, Relayed, step,
}
use wslcsession.Demo.Proxy.Invariant.{Fits, Inv, guard, Relayed-Inv}

abbrev has_some : Bytes → ℕ
has_some [] = 0
has_some (_ ∷ _) = 1

abbrev flow_left : CopyPc → ℕ → ℕ
flow_left unborn n = 0
flow_left copying n = 3 + n
flow_left half_closing n = 2
flow_left signalling n = 1
flow_left gone n = 0

abbrev handler_left : HandlerPc → ℕ
handler_left dialing = 11
handler_left first_wait = 4
handler_left second_wait = 3
handler_left closing_guest = 2
handler_left closing_client = 1
handler_left ended = 0

abbrev side_left : Relay → Side → ℕ
side_left s i = flow_left (s.flow i).pc (has_some (s.flow i).pending)

-- How many steps a relay takes at most if it reads nothing more.
abbrev relay_left : Relay → ℕ
relay_left s = handler_left s.handler + (side_left s up + side_left s down)

-- A step that reads nothing.
abbrev pub Silent : {s t : Relay} → Relays s t → Type 0
Silent (reads _ _ _ _ _ _) = ⊥
Silent _ = Unit

Relays-left : {s t : Relay} (r : Relays s t) → Silent r → Inv s → relay_left t < relay_left s
Relays-left {s} (dials h) q v = ground (arith, v.fits)
Relays-left {s} (writes up p e) q v = ground (arith, v.fits)
Relays-left {s} (writes down p e) q v = ground (arith, v.fits)
Relays-left {s} r q v = ground (arith, guard r, v.fits)

abbrev pub Drains : Relay → Relay → Type 0
Drains s t = (r : Relays s t) × Silent r

-- A relay that reads nothing more comes to an end.
Drains-Descends : Descends Drains Relayed relay_left
Drains-Descends = record {
  keeps = λ h r. step h r.0;
  sinks = λ h r. Relays-left r.0 r.1 (Relayed-Inv h);
}

flow_left_max : (pc : CopyPc) (b : Bytes) → flow_left pc (has_some b) ≤ 4
flow_left_max copying [] = omega arith
flow_left_max copying (_ ∷ _) = omega arith
flow_left_max unborn b = omega arith
flow_left_max half_closing b = omega arith
flow_left_max signalling b = omega arith
flow_left_max gone b = omega arith

relay_left_max :
    (h : HandlerPc) (u d : CopyPc) (x y : Bytes) (s : Relay)
    → Fits h u d s
    → handler_left h + (flow_left u (has_some x) + flow_left d (has_some y)) ≤ 12
relay_left_max dialing u d x y s k = rw (k.0, k.1) (omega arith)
relay_left_max first_wait u d x y s k = omega (arith, flow_left_max u x, flow_left_max d y)
relay_left_max second_wait u d x y s k = omega (arith, flow_left_max u x, flow_left_max d y)
relay_left_max closing_guest u d x y s k = omega (arith, flow_left_max u x, flow_left_max d y)
relay_left_max closing_client u d x y s k = omega (arith, flow_left_max u x, flow_left_max d y)
relay_left_max ended u d x y s k = omega (arith, flow_left_max u x, flow_left_max d y)

-- A relay that reads nothing more takes at most 12 further steps, in every interleaving.
pub relay_bounded : {s t : Relay} (k : ℕ) → Relayed s → Goes Drains s k t → k ≤ 12
relay_bounded {s} k h g = omega (
  arith,
  Goes-measure Drains-Descends g h,
  relay_left_max s.handler (s.flow up).pc (s.flow down).pc (s.flow up).pending (s.flow down).pending
      s (Relayed-Inv h).fits,
)

abbrev SilentStep : Relay → Type 0
SilentStep s = (t : Relay) × Drains s t
