-- ===== src/Standing/Services.antt =====
-- The events for the user and the service of a host keep its counters:
-- `enet_protocol_dispatch_incoming_commands`, `enet_protocol_receive_incoming_commands` and
-- `enet_host_service` of original/protocol.c.
pub mod Loop
use enet_rs.Prelude.{
  List-cases, get_or-cases, ℕ, zero, suc, ◌+◌, ◌<◌, ◌≡◌, refl, ◌∙◌, ◌⊎◌, inl, inr, Bool, true,
  false, Option, none, some, List, [], ◌∷◌, length, get_or, set, is_empty, if◌then◌else◌,
  Bool-cases, arith, leb, ap,
}
use enet_rs.State.{
  PeerState, IncomingCommand, Peer, Host, Conn, disconnected, connecting, acknowledging_connect,
  connection_pending, connection_succeeded, connected, disconnect_later, disconnecting,
  acknowledging_disconnect, zombie, bandwidth_throttle_interval,
}
use enet_rs.Time.{time_difference, time_greater_equal}
use enet_rs.World.{World, zero_peer, get_peer, focus, put_back}
use enet_rs.Peer.Dispatch.{Received, receive_first, receive}
use enet_rs.Peer.Reset.{peer_reset}
use enet_rs.Handle.Notify.{Event, set_recalculate, change_state}
use enet_rs.Handle.Datagram.{Callbacks}
use enet_rs.Transmit.Passes.{goes_on}
use enet_rs.Events.{
  Dispatched, no_dispatch, leave_queue, dispatch_connect, dispatch_disconnect, requeue,
  after_receive, dispatch_receive, dispatch_for, Checkup, dispatch_front, dispatch_events,
  dispatch_incoming_commands, clear_event,
}
use enet_rs.Service.{
  Arrival, datagram, nothing, unreadable, broken, Wait, wait_failed, woken, Interception, taken,
  refused, passed_on, Intercept, Service, User, handle_bytes, after_intercept, intercept_with,
  take_arrival, note_arrival, receive_datagrams, receive_incoming_commands, set_service_time,
  throttle_if_due, read_clock, send_commands, after_checkup, dispatch_with, and_then, service_once,
  Woken, returns, wakes, after_wait, wait_for, after_waiting, service_loop, start_service,
  dispatch_first, host_service,
}
use enet_rs.Standing.{standing, Balanced}
use enet_rs.Standing.Frames.{standing-path, standing-if, standing-set_recalculate}
use enet_rs.Standing.Moves.{Balanced-of, change_state-Balanced, peer_reset-Balanced}
use enet_rs.Standing.Totals.{IsCounted, put_back-IsCounted}
use enet_rs.Standing.Datagram.{handle_incoming_commands-IsCounted}
use enet_rs.Standing.Rounds.{send_outgoing_commands-IsCounted}
use enet_rs.Standing.Hosts.{host-IsCounted, set-outside}
use enet_rs.Standing.Hosts.Shares.{host_bandwidth_throttle-IsCounted}

standing-leave_queue : (c : Conn) → standing (leave_queue c) ≡ standing c
unfolding leave_queue
standing-leave_queue c = standing-path _ c refl refl refl refl

standing-requeue : (c : Conn) → standing (requeue c) ≡ standing c
unfolding requeue
standing-requeue c =
    standing-if (is_empty c.peer.dispatched_commands) c _ c refl
      (standing-path _ c refl refl refl refl)

standing-receive_first :
    (is : List IncomingCommand) (c : Conn) → standing (receive_first is c).0 ≡ standing c
standing-receive_first [] c = refl
standing-receive_first (i ∷ is) c = standing-path _ c refl refl refl refl

standing-receive : (c : Conn) → standing (receive c).0 ≡ standing c
unfolding receive
standing-receive c = standing-receive_first c.peer.dispatched_commands c

standing-after_receive :
    (e : Event) (r : Conn × Received) → standing (after_receive e r).conn ≡ standing r.0
standing-after_receive e (c, none) = refl
standing-after_receive e (c, some (id, packet)) = standing-requeue c

dispatch_receive-Balanced :
    (k j : ℕ) (e : Event) (c : Conn) → Balanced k j c → Balanced k j (dispatch_receive e c).conn
unfolding dispatch_receive
dispatch_receive-Balanced k j e c b = elim (Bool-cases (is_empty c.peer.dispatched_commands)) [
  | inl f ↦ rw f b
  | inr f ↦ rw f (
      Balanced-of (after_receive e (receive c)).conn c
        (standing-after_receive e (receive c) ∙ standing-receive c) b)
]

dispatch_connect-Balanced :
    (k j : ℕ) (e : Event) (c : Conn) → Balanced k j c → Balanced k j (dispatch_connect e c).conn
unfolding dispatch_connect
dispatch_connect-Balanced k j e c b = change_state-Balanced k j connected c b

dispatch_disconnect-Balanced :
    (k j : ℕ) (e : Event) (c : Conn) → Balanced k j c → Balanced k j (dispatch_disconnect e c).conn
unfolding dispatch_disconnect
dispatch_disconnect-Balanced k j e c b =
    peer_reset-Balanced k j (set_recalculate c) (Balanced-of _ c (standing-set_recalculate c) b)

dispatch_for-Balanced :
    (k j : ℕ) (s : PeerState) (e : Event) (c : Conn)
    → Balanced k j c
    → Balanced k j (dispatch_for s e c).conn
unfolding dispatch_for
dispatch_for-Balanced k j connection_pending e c b = dispatch_connect-Balanced k j e c b
dispatch_for-Balanced k j connection_succeeded e c b = dispatch_connect-Balanced k j e c b
dispatch_for-Balanced k j zombie e c b = dispatch_disconnect-Balanced k j e c b
dispatch_for-Balanced k j connected e c b = dispatch_receive-Balanced k j e c b
dispatch_for-Balanced k j disconnected e c b = b
dispatch_for-Balanced k j connecting e c b = b
dispatch_for-Balanced k j acknowledging_connect e c b = b
dispatch_for-Balanced k j disconnect_later e c b = b
dispatch_for-Balanced k j disconnecting e c b = b
dispatch_for-Balanced k j acknowledging_disconnect e c b = b

-- A place without a peer gives no event, and is no peer afterwards.
dispatch_nobody :
    (e : Event) (c : Conn)
    → c.peer ≡ zero_peer
    → dispatch_for (leave_queue c).peer.state e (leave_queue c) ≡ no_dispatch e (leave_queue c)
unfolding leave_queue dispatch_for
dispatch_nobody e c f = ap (λ t. dispatch_for t e (leave_queue c)) (ap (λ p. p.state) f)

nobody-IsCounted :
    (w : World) (h : Host) (id : ℕ) (e : Event) (c : Conn)
    → c.peer ≡ zero_peer
    → c.host ≡ h
    → set w.peers id (dispatch_for (leave_queue c).peer.state e (leave_queue c)).conn.peer ≡ w.peers
    → IsCounted (record w { host = h })
    → IsCounted (put_back w id (dispatch_for (leave_queue c).peer.state e (leave_queue c)).conn)
unfolding leave_queue
nobody-IsCounted w h id e c f g l n =
    let d : Dispatched = dispatch_for (leave_queue c).peer.state e (leave_queue c) in
    let kept : (d.conn.host.connected_peers ≡ h.connected_peers)
        × (d.conn.host.bandwidth_limited_peers ≡ h.bandwidth_limited_peers) =
      (
        ap (λ r. r.conn.host.connected_peers) (dispatch_nobody e c f)
            ∙ ap (λ t. t.connected_peers) g,
        ap (λ r. r.conn.host.bandwidth_limited_peers) (dispatch_nobody e c f)
            ∙ ap (λ t. t.bandwidth_limited_peers) g,
      ) in
    rw l (host-IsCounted (record w { host = h }) d.conn.host kept.0 kept.1 n)

Checkup-if :
    (t : Bool) (a b : Checkup)
    → IsCounted a.world
    → IsCounted b.world
    → IsCounted (if t then a else b).world
Checkup-if true a b p q = p
Checkup-if false a b p q = q

dispatch_front-IsCounted :
    (id : ℕ) (ids : List ℕ) (e : Event) (w : World)
    → IsCounted w
    → IsCounted (dispatch_front id ids e w).world
unfolding dispatch_front
dispatch_front-IsCounted id ids e w n =
    let h : Host = record (w.host) { dispatch_queue = ids } in
    let w' : World = record w { host = h } in
    let n' = host-IsCounted w h refl refl n in
    let c = leave_queue (focus w' id) in
    let d = dispatch_for c.peer.state e c in
    let inside : id < length w.peers → IsCounted (put_back w' id d.conn) = λ l.
      put_back-IsCounted w' id d.conn l
        (λ k j b.
          dispatch_for-Balanced k j c.peer.state e c
            (Balanced-of c (focus w' id) (standing-leave_queue (focus w' id)) b))
        n' in
    elim (get_or-cases w.peers id zero_peer) [
      | inl l ↦ inside l
      | inr f ↦ elim (set-outside w.peers id d.conn.peer) [
        | inl l ↦ inside l
        | inr g ↦ nobody-IsCounted w' h id e (focus w' id) f refl g n'
      ]
    ]

dispatch_events-IsCounted :
    (ids : List ℕ) (e : Event) (w : World) → IsCounted w → IsCounted (dispatch_events ids e w).world
unfolding dispatch_events
dispatch_events-IsCounted [] e w n = n
dispatch_events-IsCounted (id ∷ ids) e w n =
    let k = dispatch_front id ids e w in
    let n' = dispatch_front-IsCounted id ids e w n in
    Checkup-if k.found k (dispatch_events ids k.event k.world) n'
      (dispatch_events-IsCounted ids k.event k.world n')

pub dispatch_incoming_commands-IsCounted :
    (e : Event) (w : World) → IsCounted w → IsCounted (dispatch_incoming_commands e w).world
unfolding dispatch_incoming_commands
dispatch_incoming_commands-IsCounted e w n = dispatch_events-IsCounted w.host.dispatch_queue e w n
