-- ===== src/Standing/Sending.antt =====
-- The sending half of original/protocol.c keeps the host's counters in balance: acknowledgements,
-- timeouts and the commands that go into a datagram.
use enet_rs.Prelude.{
  ℕ, ◌≡◌, refl, ◌∙◌, Bool, true, false, Option, List, [], ◌∷◌, ◌++◌, if◌then◌else◌, Bool-cases, inl,
  inr, arith,
}
use enet_rs.Protocol.{is_disconnect}
use enet_rs.State.{Acknowledgement, OutgoingCommand, Peer, Conn, zombie}
use enet_rs.Peer.Outgoing.{has_packet}
use enet_rs.Handle.Notify.{Event}
use enet_rs.Transmit.Acknowledgements.{
  add_command, acknowledgement_for, send_acknowledgement, stop_acknowledging, acknowledge_all,
  send_acknowledgements, has_no_room,
}
use enet_rs.Transmit.Timeouts.{
  Sweep, is_in_time, is_timed_out, note_timeout, next_in_flight, lose, swept, sweep, after_sweep,
  check_timeouts,
}
use enet_rs.Standing.{Balanced}
use enet_rs.Standing.Frames.{standing-path}
use enet_rs.Standing.Moves.{
  Balanced-of, Balanced-if, dispatch_state-Balanced, notify_disconnect-Balanced,
}

send_acknowledgement-Balanced :
    (k j : ℕ) (a : Acknowledgement) (c : Conn)
    → Balanced k j c
    → Balanced k j (send_acknowledgement a c)
unfolding send_acknowledgement add_command
send_acknowledgement-Balanced k j a c b =
    let b' =
      Balanced-of _ c
        (standing-path (record c { host = add_command (acknowledgement_for a) c.host }) c refl refl
          refl refl)
        b in
    Balanced-if k j (is_disconnect a.command.body) _ _ (dispatch_state-Balanced k j zombie _ b') b'

acknowledge_all-Balanced :
    (k j : ℕ) (acks : List Acknowledgement) (c : Conn)
    → Balanced k j c
    → Balanced k j (acknowledge_all acks c)
unfolding acknowledge_all stop_acknowledging
acknowledge_all-Balanced k j [] c b = Balanced-of _ c (standing-path _ c refl refl refl refl) b
acknowledge_all-Balanced k j (a ∷ acks) c b =
    Balanced-if k j (has_no_room c) _ _ (Balanced-of _ c (standing-path _ c refl refl refl refl) b)
      (acknowledge_all-Balanced k j acks _ (send_acknowledgement-Balanced k j a c b))

pub send_acknowledgements-Balanced :
    (k j : ℕ) (c : Conn) → Balanced k j c → Balanced k j (send_acknowledgements c)
unfolding send_acknowledgements
send_acknowledgements-Balanced k j c b = acknowledge_all-Balanced k j c.peer.acknowledgements c b

-- The state and the bandwidth of a peer are kept.
abbrev pub Alike : Peer → Peer → Type 0
Alike p q = (p.state ≡ q.state) × (p.incoming_bandwidth ≡ q.incoming_bandwidth)

abbrev pub Alike-if :
    (t : Bool) (p q r : Peer) → Alike p r → Alike q r → Alike (if t then p else q) r
Alike-if true p q r a b = a
Alike-if false p q r a b = b

note_timeout-Alike : (o : OutgoingCommand) (p : Peer) → Alike (note_timeout o p) p
unfolding note_timeout
note_timeout-Alike o p = (ground arith, ground arith)

next_in_flight-Alike :
    (kept behind : List OutgoingCommand) (p : Peer) → Alike (next_in_flight kept behind p) p
unfolding next_in_flight
next_in_flight-Alike (k ∷ kept) behind p = (refl, refl)
next_in_flight-Alike [] [] p = (refl, refl)
next_in_flight-Alike [] (o ∷ os) p = (refl, refl)

lose-Alike :
    (o : OutgoingCommand) (behind : List OutgoingCommand) (s : Sweep)
    → Alike (lose o behind s).peer s.peer
unfolding lose
lose-Alike o behind s = elim (Bool-cases (has_packet o.packet)) [
  | inl e ↦ rw e (next_in_flight-Alike s.kept behind _)
  | inr e ↦ rw e (next_in_flight-Alike s.kept behind _)
]

sweep-Alike : (now : ℕ) (os : List OutgoingCommand) (s : Sweep) → Alike (sweep now os s).0 s.peer
unfolding sweep swept
sweep-Alike now [] s = (refl, refl)
sweep-Alike now (o ∷ os) s = elim (Bool-cases (is_in_time now o)) [
  | inl e ↦ rw e (sweep-Alike now os (record s { kept = s.kept ++ (o ∷ []) }))
  | inr e ↦ rw e (elim (Bool-cases (is_timed_out now o (note_timeout o s.peer))) [
    | inl f ↦ rw f (note_timeout-Alike o s.peer)
    | inr f ↦ rw f (
        let noted : Sweep = record s { peer = note_timeout o s.peer } in
        let n = note_timeout-Alike o s.peer in
        let l = lose-Alike o os noted in
        let r = sweep-Alike now os (lose o os noted) in (r.0 ∙ l.0 ∙ n.0, r.1 ∙ l.1 ∙ n.1))
  ])
]

pub Balanced-Alike :
    (k j : ℕ) (c : Conn) (p : Peer)
    → Alike p c.peer
    → Balanced k j c
    → Balanced k j (record c { peer = p })
Balanced-Alike k j c p (a, b) n = Balanced-of _ c (standing-path _ c refl refl a b) n

after_sweep-Balanced :
    (k j : ℕ) (event : Option Event) (c : Conn) (t : Bool)
    → Balanced k j c
    → Balanced k j (after_sweep event c t).0.0
after_sweep-Balanced k j event c true b = notify_disconnect-Balanced k j event c b
after_sweep-Balanced k j event c false b = b

pub check_timeouts-Balanced :
    (k j : ℕ) (event : Option Event) (c : Conn)
    → Balanced k j c
    → Balanced k j (check_timeouts event c).0.0
unfolding check_timeouts
check_timeouts-Balanced k j event c b =
    after_sweep-Balanced k j event _ _
      (Balanced-Alike k j c _ (sweep-Alike c.host.service_time c.peer.sent_reliable_commands _) b)
