-- ===== src/Standing/Commands.antt =====
-- The handlers of original/protocol.c keep the host's counters in balance.
use enet_rs.Prelude.{
  ℕ, ◌≡◌, refl, ◌∙◌, Bool, true, false, Option, List, arith, ap, if◌then◌else◌, Bool-cases, inl,
  inr, ◌||◌, ◌==◌,
}
use enet_rs.Protocol.{
  Protocol, Body, VerifyConnect, acknowledge, connect, verify_connect, disconnect, ping,
  send_reliable, send_unreliable, send_fragment, send_unsequenced, bandwidth_limit,
  throttle_configure, send_unreliable_fragment,
}
use enet_rs.State.{
  PeerState, Conn, success, failure, is_connected, state_is, disconnected, connecting,
  acknowledging_connect, connection_pending, connection_succeeded, connected, disconnect_later,
  disconnecting, acknowledging_disconnect, zombie,
}
use enet_rs.Peer.Outgoing.{has_outgoing_commands}
use enet_rs.Peer.Reset.{reset_queues}
use enet_rs.Handle.Notify.{Event, notify_connect}
use enet_rs.Handle.Control.{
  handle_ping, handle_bandwidth_limit, handle_throttle_configure, leave, handle_disconnect,
}
use enet_rs.Time.{time_less}
use enet_rs.Handle.Acknowledge.{
  Handled, handled, acknowledged, full_sent_time, round_trip_sample, handle_acknowledge,
}
use enet_rs.Handle.Verify.{adopt, is_mismatch, handle_verify_connect}
use enet_rs.Handle.Commands.{handle_command}
use enet_rs.Standing.Data.{
  standing-removed, standing-remove_sent_reliable_command, standing-handle_send_reliable,
  standing-handle_send_unreliable, standing-handle_send_unsequenced, standing-handle_send_fragment,
  standing-handle_send_unreliable_fragment,
}
use enet_rs.Standing.{standing, Balanced}
use enet_rs.Standing.Frames.{standing-path, standing-reset_queues}
use enet_rs.Standing.Moves.{
  Balanced-of, Balanced-if, disconnect_connected-Balanced, notify_connect-Balanced,
  notify_disconnect-Balanced, change_state-Balanced, dispatch_state-Balanced, peer_reset-Balanced,
  recalculate_if-Balanced,
}

Balanced-if₂ {ℓ} :
    {A : Type ℓ} (k j : ℕ) (t : Bool) (c d : Conn × A)
    → Balanced k j c.0
    → Balanced k j d.0
    → Balanced k j (if t then c else d).0
Balanced-if₂ k j true c d p q = p
Balanced-if₂ k j false c d p q = q

Balanced-if₃ :
    (k j : ℕ) (t : Bool) (c d : Handled)
    → Balanced k j c.conn
    → Balanced k j d.conn
    → Balanced k j (if t then c else d).conn
Balanced-if₃ k j true c d p q = p
Balanced-if₃ k j false c d p q = q

handle_ping-Balanced : (k j : ℕ) (c : Conn) → Balanced k j c → Balanced k j (handle_ping c).0
unfolding handle_ping
handle_ping-Balanced k j c b =
    Balanced-if₂ k j (is_connected c.peer.state) (c, success) (c, failure) b b

handle_bandwidth_limit-Balanced :
    (k j incoming outgoing : ℕ) (c : Conn)
    → Balanced k j c
    → Balanced k j (handle_bandwidth_limit incoming outgoing c).0
unfolding handle_bandwidth_limit standing
handle_bandwidth_limit-Balanced k j incoming outgoing c b = ground arith

handle_throttle_configure-Balanced :
    (k j i a d : ℕ) (c : Conn) → Balanced k j c → Balanced k j (handle_throttle_configure i a d c).0
unfolding handle_throttle_configure
handle_throttle_configure-Balanced k j i a d c b =
    Balanced-if₂ k j (is_connected c.peer.state) _ (c, failure)
      (Balanced-of _ c (standing-path _ c refl refl refl refl) b) b

leave-Balanced : (k j : ℕ) (t : Bool) (c : Conn) → Balanced k j c → Balanced k j (leave t c)
unfolding leave
leave-Balanced k j t c b =
    Balanced-if k j
      (state_is c.peer.state connection_succeeded
        || state_is c.peer.state disconnecting
        || state_is c.peer.state connecting)
      _ _ (dispatch_state-Balanced k j zombie c b)
      (Balanced-if k j (is_connected c.peer.state) _ _
        (Balanced-if k j t _ _ (change_state-Balanced k j acknowledging_disconnect c b)
          (dispatch_state-Balanced k j zombie c b))
        (peer_reset-Balanced k j _ (recalculate_if-Balanced k j _ c b)))

handle_disconnect-Balanced :
    (k j : ℕ) (t : Bool) (code : ℕ) (c : Conn)
    → Balanced k j c
    → Balanced k j (handle_disconnect t code c).0
unfolding handle_disconnect
handle_disconnect-Balanced k j t code c b =
    let left =
      leave-Balanced k j t _ (Balanced-of (reset_queues c) c (standing-reset_queues c) b) in
    Balanced-if₂ k j
      (state_is c.peer.state disconnected
        || state_is c.peer.state zombie
        || state_is c.peer.state acknowledging_disconnect)
      (c, success) _ b
      (Balanced-if₂ k j (state_is (leave t (reset_queues c)).peer.state disconnected)
        (leave t (reset_queues c), success) _ left
        (Balanced-of _ _ (standing-path _ (leave t (reset_queues c)) refl refl refl refl) left))

acknowledged-Balanced :
    (k j : ℕ) (s : PeerState) (event : Option Event) (number : ℕ) (c : Conn)
    → Balanced k j c
    → Balanced k j (acknowledged s event number c).conn
unfolding acknowledged
acknowledged-Balanced k j acknowledging_connect event number c b =
    Balanced-if₃ k j (number == 3) _ _ (notify_connect-Balanced k j event c b) b
acknowledged-Balanced k j disconnecting event number c b =
    Balanced-if₃ k j (number == 4) _ _ (notify_disconnect-Balanced k j event c b) b
acknowledged-Balanced k j disconnect_later event number c b =
    Balanced-if₃ k j (has_outgoing_commands c.peer) _ _ b
      (disconnect_connected-Balanced k j c.peer.event_data c b)
acknowledged-Balanced k j disconnected event number c b = b
acknowledged-Balanced k j connecting event number c b = b
acknowledged-Balanced k j connection_pending event number c b = b
acknowledged-Balanced k j connection_succeeded event number c b = b
acknowledged-Balanced k j connected event number c b = b
acknowledged-Balanced k j acknowledging_disconnect event number c b = b
acknowledged-Balanced k j zombie event number c b = b

handle_acknowledge-Balanced :
    (k j : ℕ) (event : Option Event) (id number time : ℕ) (c : Conn)
    → Balanced k j c
    → Balanced k j (handle_acknowledge event id number time c).conn
unfolding handle_acknowledge
handle_acknowledge-Balanced k j event id number time c b =
    let sent = full_sent_time c.host.service_time time in
    let rtt = round_trip_sample c.host.service_time sent in
    Balanced-if₃ k j
      (state_is c.peer.state disconnected
        || state_is c.peer.state zombie
        || time_less c.host.service_time sent)
      (handled (c, event)) _ b
      (acknowledged-Balanced k j _ event _ _
        (Balanced-of _ c (standing-removed c.host.service_time rtt number id c) b))

-- A peer that is not connected may change its bandwidth.
adopt-Balanced :
    (k j : ℕ) (v : VerifyConnect) (c : Conn)
    → is_connected c.peer.state ≡ false
    → Balanced k j c
    → Balanced k j (record c { peer = adopt v c.peer })
unfolding adopt standing
adopt-Balanced k j v c h b = ground arith

state_is-connecting : (s : PeerState) → state_is s connecting ≡ true → is_connected s ≡ false
state_is-connecting disconnected h = refl
state_is-connecting connecting h = refl
state_is-connecting acknowledging_connect h = refl
state_is-connecting connection_pending h = refl
state_is-connecting connection_succeeded h = refl
state_is-connecting connected h = ground arith
state_is-connecting disconnect_later h = ground arith
state_is-connecting disconnecting h = refl
state_is-connecting acknowledging_disconnect h = refl
state_is-connecting zombie h = refl

connect_adopted-Balanced :
    (k j : ℕ) (event : Option Event) (v : VerifyConnect) (c d : Conn)
    → state_is c.peer.state connecting ≡ true
    → standing d ≡ standing c
    → Balanced k j c
    → Balanced k j (notify_connect event (record d { peer = adopt v d.peer })).0
unfolding standing
connect_adopted-Balanced k j event v c d h e b = notify_connect-Balanced k j event _ (
    adopt-Balanced k j v d (ap (λ s. is_connected (s.state)) e ∙ state_is-connecting c.peer.state h)
      (Balanced-of d c e b))

handle_verify_connect-Balanced :
    (k j : ℕ) (event : Option Event) (v : VerifyConnect) (c : Conn)
    → Balanced k j c
    → Balanced k j (handle_verify_connect event v c).conn
unfolding handle_verify_connect
handle_verify_connect-Balanced k j event v c b =
    elim (Bool-cases (state_is c.peer.state connecting)) [
      | inr e ↦ rw e b
      | inl e ↦ rw e (
          Balanced-if₃ k j (is_mismatch v c.peer) _ _
            (dispatch_state-Balanced k j zombie _
              (Balanced-of _ c (standing-path _ c refl refl refl refl) b))
            (connect_adopted-Balanced k j event v c _ e
              (standing-remove_sent_reliable_command 1 0xff c) b))
    ]

-- Every command of a known peer keeps the counters of connected and of bandwidth-limited peers
-- balanced: if they count the other peers (k and j of them) and this one, they do so afterwards,
-- whatever the command, the state of the peer and the payload.
pub handle_command-Balanced :
    (k j : ℕ) (event : Option Event) (m : Protocol) (body : Body) (payload : List ℕ) (c : Conn)
    → Balanced k j c
    → Balanced k j (handle_command event m body payload c).conn
unfolding handle_command
handle_command-Balanced k j event m (acknowledge number time) payload c b =
    handle_acknowledge-Balanced k j event m.channel_id number time c b
handle_command-Balanced k j event m (connect x) payload c b = b
handle_command-Balanced k j event m (verify_connect v) payload c b =
    handle_verify_connect-Balanced k j event v c b
handle_command-Balanced k j event m (disconnect code) payload c b =
    handle_disconnect-Balanced k j m.flag_acknowledge code c b
handle_command-Balanced k j event m ping payload c b = handle_ping-Balanced k j c b
handle_command-Balanced k j event m (send_reliable len) payload c b =
    Balanced-of _ c (standing-handle_send_reliable m len payload c) b
handle_command-Balanced k j event m (send_unreliable number len) payload c b =
    Balanced-of _ c (standing-handle_send_unreliable m len payload c) b
handle_command-Balanced k j event m (send_unsequenced group len) payload c b =
    Balanced-of _ c (standing-handle_send_unsequenced m group len payload c) b
handle_command-Balanced k j event m (send_fragment f) payload c b =
    Balanced-of _ c (standing-handle_send_fragment m f payload c) b
handle_command-Balanced k j event m (bandwidth_limit incoming outgoing) payload c b =
    handle_bandwidth_limit-Balanced k j incoming outgoing c b
handle_command-Balanced k j event m (throttle_configure i a d) payload c b =
    handle_throttle_configure-Balanced k j i a d c b
handle_command-Balanced k j event m (send_unreliable_fragment f) payload c b =
    Balanced-of _ c (standing-handle_send_unreliable_fragment m f payload c) b
