-- ===== src/Transmit/Timeouts/Conserved.antt =====
-- `enet_protocol_check_timeouts` of original/protocol.c loses no command: those that were not
-- acknowledged in time go back to the queues, the others stay in flight.
use enet_rs.Prelude.{
  ℕ, ◌+◌, ◌*◌, ◌≡◌, refl, inl, inr, Bool, true, false, Option, List, [], ◌∷◌, ◌++◌, if◌then◌else◌,
  Bool-cases, arith, u32,
}
use enet_rs.State.{OutgoingCommand, Peer, Conn}
use enet_rs.Peer.Outgoing.{has_packet}
use enet_rs.Handle.Notify.{Event}
use enet_rs.Transmit.Timeouts.{
  Sweep, is_in_time, is_timed_out, note_timeout, next_in_flight, lose, swept, sweep, after_sweep,
  check_timeouts,
}

-- How many commands of a list satisfy a test.
abbrev pub count : (OutgoingCommand → Bool) → List OutgoingCommand → ℕ
count f [] = 0
count f (o ∷ os) = (if f o then 1 else 0) + count f os

count-append :
    (f : OutgoingCommand → Bool) (os rs : List OutgoingCommand)
    → count f (os ++ rs) ≡ count f os + count f rs
count-append f [] rs = omega arith
count-append f (o ∷ os) rs = omega (arith, count-append f os rs)

-- The commands of a peer that are queued or in flight.
abbrev pub unacknowledged : (OutgoingCommand → Bool) → Peer → ℕ
unacknowledged f p =
    count f p.sent_reliable_commands
    + count f p.outgoing_commands
    + count f p.outgoing_send_reliable_commands

-- A test that does not look at the time a command has.
abbrev pub IgnoresTimeout : (OutgoingCommand → Bool) → Type 0
IgnoresTimeout f = (o : OutgoingCommand) (t : ℕ) → f (record o { round_trip_timeout = t }) ≡ f o

-- The two queues of a peer, which the loop leaves as they were.
abbrev queued : (OutgoingCommand → Bool) → Peer → ℕ
queued f p = count f p.outgoing_commands + count f p.outgoing_send_reliable_commands

abbrev held : (OutgoingCommand → Bool) → Sweep → ℕ
held f s = count f s.kept + count f s.resent + count f s.resent_reliable + queued f s.peer

swept_count :
    (f : OutgoingCommand → Bool) (behind : List OutgoingCommand) (s : Sweep)
    → unacknowledged f (swept behind s) ≡ count f behind + held f s
unfolding swept
swept_count f behind s = omega (
  arith,
  count-append f s.kept behind,
  count-append f s.resent s.peer.outgoing_commands,
  count-append f s.resent_reliable s.peer.outgoing_send_reliable_commands,
)

note_timeout_count :
    (f : OutgoingCommand → Bool) (o : OutgoingCommand) (p : Peer)
    → queued f (note_timeout o p) ≡ queued f p
unfolding note_timeout
note_timeout_count f o p = ground arith

next_in_flight_count :
    (f : OutgoingCommand → Bool) (kept behind : List OutgoingCommand) (p : Peer)
    → queued f (next_in_flight kept behind p) ≡ queued f p
unfolding next_in_flight
next_in_flight_count f (k ∷ kept) behind p = refl
next_in_flight_count f [] [] p = refl
next_in_flight_count f [] (o ∷ os) p = refl

lose_count :
    (f : OutgoingCommand → Bool) (o : OutgoingCommand) (behind : List OutgoingCommand) (s : Sweep)
    → IgnoresTimeout f
    → held f (lose o behind s) ≡ (if f o then 1 else 0) + held f s
unfolding lose
lose_count f o behind s ignores =
    let o' : OutgoingCommand = record o { round_trip_timeout = u32 (o.round_trip_timeout * 2) } in
    let same : f o' ≡ f o = ignores o (u32 (o.round_trip_timeout * 2)) in
    let p : Peer = record (s.peer) { packets_lost = u32 (s.peer.packets_lost + 1) } in
    let q = next_in_flight_count f s.kept behind p in
    elim (Bool-cases (has_packet o.packet)) [
      | inl e ↦ rw e (ground (arith, same, q, count-append f s.resent_reliable (o' ∷ [])))
      | inr e ↦ rw e (ground (arith, same, q, count-append f s.resent (o' ∷ [])))
    ]

sweep_count :
    (f : OutgoingCommand → Bool) (now : ℕ) (os : List OutgoingCommand) (s : Sweep)
    → IgnoresTimeout f
    → unacknowledged f (sweep now os s).0 ≡ count f os + held f s
unfolding sweep
sweep_count f now [] s ignores = swept_count f [] s
sweep_count f now (o ∷ os) s ignores =
    let stays : Sweep = record s { kept = s.kept ++ (o ∷ []) } in
    let noted : Sweep = record s { peer = note_timeout o s.peer } in
    let n = note_timeout_count f o s.peer in
    elim (Bool-cases (is_in_time now o)) [
      | inl e ↦
          rw e (omega (arith, sweep_count f now os stays ignores, count-append f s.kept (o ∷ [])))
      | inr e ↦ rw e (elim (Bool-cases (is_timed_out now o (note_timeout o s.peer))) [
        | inl g ↦ rw g (omega (arith, swept_count f (o ∷ os) noted, n))
        | inr g ↦ rw g (
            omega (
              arith,
              sweep_count f now os (lose o os noted) ignores,
              lose_count f o os noted ignores,
              n,
            ))
      ])
    ]

after_sweep_count :
    (f : OutgoingCommand → Bool) (event : Option Event) (c : Conn) (t : Bool)
    → (after_sweep event c t).1 ≡ false
    → unacknowledged f (after_sweep event c t).0.0.peer ≡ unacknowledged f c.peer
after_sweep_count f event c true e = absurd (cc e)
after_sweep_count f event c false e = refl

-- As long as the peer has not timed out, the check for timeouts neither loses nor duplicates a
-- command: for every test on commands that does not look at their timeout, as many commands of the
-- peer satisfy it afterwards, in flight or in one of the two queues, as did before.
pub check_timeouts-unacknowledged :
    (f : OutgoingCommand → Bool) (event : Option Event) (c : Conn)
    → IgnoresTimeout f
    → (check_timeouts event c).1 ≡ false
    → unacknowledged f (check_timeouts event c).0.0.peer ≡ unacknowledged f c.peer
unfolding check_timeouts
check_timeouts-unacknowledged f event c ignores e =
    let start : Sweep = record { peer = c.peer; kept = []; resent = []; resent_reliable = [] } in
    let n = sweep_count f c.host.service_time c.peer.sent_reliable_commands start ignores in
    let r = sweep c.host.service_time c.peer.sent_reliable_commands start in
    omega (arith, after_sweep_count f event (record c { peer = r.0 }) r.1 e, n)
