-- ===== src/Demo/Proxy/Invariant.antt =====
-- What holds in every state of a relay.
use wslcsession.Base.{ℕ, suc, ◌+◌, ◌≡◌, ◌≢◌, ◌⊎◌, inl, inr, Bool, true, false, [], ◌++◌, arith}
use wslcsession.Demo.Proxy.{
  Side, up, down, CopyPc, unborn, copying, half_closing, signalling, gone, Flow, HandlerPc, dialing,
  first_wait, second_wait, closing_guest, closing_client, ended, Relay, Relays, dials, dial_fails,
  reads, stops_reading, writes, fails_to_write, half_closes, signals_done, first_done, second_done,
  closes_guest, closes_client, Relayed, start, step,
}

-- All that was read is what was written and then what waits.
abbrev Kept : Flow → Type 0
Kept x = x.read ≡ x.written ++ x.pending

abbrev gone_of : CopyPc → ℕ
gone_of gone = 1
gone_of _ = 0

abbrev is_started : CopyPc → Bool
is_started unborn = false
is_started _ = true

-- What is so at each place of the handler: `u` and `d` are the two goroutines.
abbrev pub Fits : HandlerPc → CopyPc → CopyPc → Relay → Type 0
Fits dialing u d s =
    (u ≡ unborn)
    × (d ≡ unborn)
    × (s.signals ≡ 0)
    × (s.guest_closed ≡ false)
    × (s.client_closed ≡ false)
Fits first_wait u d s =
    (is_started u ≡ true)
    × (is_started d ≡ true)
    × (s.signals ≡ gone_of u + gone_of d)
    × (s.guest_closed ≡ false)
    × (s.client_closed ≡ false)
Fits second_wait u d s =
    (is_started u ≡ true)
    × (is_started d ≡ true)
    × (suc s.signals ≡ gone_of u + gone_of d)
    × (s.guest_closed ≡ false)
    × (s.client_closed ≡ false)
Fits closing_guest u d s =
    (u ≡ gone) × (d ≡ gone) × (s.signals ≡ 0) × (s.guest_closed ≡ false) × (s.client_closed ≡ false)
Fits closing_client u d s =
    (((u ≡ unborn) × (d ≡ unborn)) ⊎ ((u ≡ gone) × (d ≡ gone) × (s.guest_closed ≡ true)))
    × (s.client_closed ≡ false)
Fits ended u d s =
    (((u ≡ unborn) × (d ≡ unborn)) ⊎ ((u ≡ gone) × (d ≡ gone) × (s.guest_closed ≡ true)))
    × (s.client_closed ≡ true)

abbrev ShutFits : CopyPc → Bool → Type 0
ShutFits signalling b = b ≡ true
ShutFits gone b = b ≡ true
ShutFits _ b = Unit

pub record Inv (s : Relay) : Type 0 where
  pub fits : Fits s.handler (s.flow up).pc (s.flow down).pc s
  pub shut : (i : Side) → ShutFits (s.flow i).pc (s.flow i).shut

-- What a step asks for.
abbrev pub Guard : {s t : Relay} → Relays s t → Type 0
Guard {s} (dials _) = s.handler ≡ dialing
Guard {s} (dial_fails _) = s.handler ≡ dialing
Guard {s} (reads i _ _ _ _ _) = ((s.flow i).pc ≡ copying) × ((s.flow i).pending ≡ [])
Guard {s} (stops_reading i _ _) = ((s.flow i).pc ≡ copying) × ((s.flow i).pending ≡ [])
Guard {s} (writes i _ _) = ((s.flow i).pc ≡ copying) × ((s.flow i).pending ≢ [])
Guard {s} (fails_to_write i _ _ _ _) = ((s.flow i).pc ≡ copying) × ((s.flow i).pending ≢ [])
Guard {s} (half_closes i _) = (s.flow i).pc ≡ half_closing
Guard {s} (signals_done i _ _) = (s.flow i).pc ≡ signalling
Guard {s} (first_done n _ _) = (s.handler ≡ first_wait) × (s.signals ≡ suc n)
Guard {s} (second_done n _ _) = (s.handler ≡ second_wait) × (s.signals ≡ suc n)
Guard {s} (closes_guest _) = s.handler ≡ closing_guest
Guard {s} (closes_client _) = s.handler ≡ closing_client

pub guard : {s t : Relay} (r : Relays s t) → Guard r
guard (dials h) = h
guard (dial_fails h) = h
guard (reads _ _ p e _ _) = (p, e)
guard (stops_reading _ p e) = (p, e)
guard (writes _ p e) = (p, e)
guard (fails_to_write _ _ p e _) = (p, e)
guard (half_closes _ p) = p
guard (signals_done _ p _) = p
guard (first_done _ h e) = (h, e)
guard (second_done _ h e) = (h, e)
guard (closes_guest h) = h
guard (closes_client h) = h

abbrev pub side_of : {s t : Relay} → Relays s t → Side
side_of (reads i _ _ _ _ _) = i
side_of (stops_reading i _ _) = i
side_of (writes i _ _) = i
side_of (fails_to_write i _ _ _ _) = i
side_of (half_closes i _) = i
side_of (signals_done i _ _) = i
side_of _ = up

Relays-Fits :
    {s t : Relay} (r : Relays s t) → Inv s → Fits t.handler (t.flow up).pc (t.flow down).pc t
Relays-Fits (dials h) v = ground (arith, v.fits)
Relays-Fits r v = ground (arith, guard r, v.fits)

Relays-shut :
    {s t : Relay} (r : Relays s t) → Inv s → (i : Side) → ShutFits (t.flow i).pc (t.flow i).shut
Relays-shut (dials h) v i = tt
Relays-shut r v i = ground (arith, guard r, v.shut i, v.shut (side_of r))

pub Relayed-Inv : {s : Relay} → Relayed s → Inv s
Relayed-Inv start = record { fits = ground arith; shut = λ i. tt }
Relayed-Inv (step h r) =
    let v = Relayed-Inv h in record { fits = Relays-Fits r v; shut = Relays-shut r v }

-- Neither connection is closed while a goroutine still copies between them or has yet to pass the
-- end of its side on.
pub open_while_used :
    {s : Relay} (i : Side)
    → Relayed s
    → (s.flow i).pc ≢ unborn
    → (s.flow i).pc ≢ gone
    → (s.guest_closed ≡ false) × (s.client_closed ≡ false)
open_while_used {s} i h live going = let v = Relayed-Inv h in ground (arith, v.fits)

-- The client is closed; and either the dial failed and nothing was started, or the guest is closed,
-- both goroutines have returned and each has passed the end of its side on.
abbrev pub HasReturned : Relay → Type 0
HasReturned s =
    (s.client_closed ≡ true)
    × (((i : Side) → (s.flow i).pc ≡ unborn)
        ⊎ ((s.guest_closed ≡ true)
            × ((i : Side) → ((s.flow i).pc ≡ gone) × ((s.flow i).shut ≡ true))))

pub ended-HasReturned : {s : Relay} → Relayed s → s.handler ≡ ended → HasReturned s
ended-HasReturned {s} h e =
    let v = Relayed-Inv h in
    let (which, closed) : Fits ended (s.flow up).pc (s.flow down).pc s = rw e at v.fits in
    (
      closed,
      elim which [
        | inl (u, d) ↦ inl (λ i. ground (arith, u, d))
        | inr (u, d, g) ↦ inr (g, λ i. ground (arith, u, d, v.shut i))
      ],
    )
