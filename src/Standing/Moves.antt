-- ===== src/Standing/Moves.antt =====
-- The functions of original/peer.c and original/protocol.c that change a peer's state keep the
-- host's counters in balance.
use enet_rs.Prelude.{
  ℕ, ◌≡◌, refl, sym, ◌∙◌, subst, Bool, true, false, Option, none, some, arith, if◌then◌else◌,
  Bool-cases, inl, inr, leb,
}
use enet_rs.State.{
  PeerState, Peer, Conn, zombie, connected, disconnect_later, is_connected, state_number,
  connection_pending,
}
use enet_rs.Peer.Reset.{on_connect, on_disconnect, reset_fields, peer_reset}
use enet_rs.Peer.Disconnect.{tell_leaving, disconnect_connected}
use enet_rs.Handle.Notify.{
  Event, change_state, dispatch_state, notify_connect, notify_disconnect, tell_disconnect,
  set_recalculate, recalculate_if, is_unannounced,
}
use enet_rs.Standing.{standing, IsBalanced, Balanced}
use enet_rs.Standing.Frames.{
  standing-path, standing-queue_outgoing_command, standing-reset_queues, standing-mark_dispatch,
  standing-set_recalculate, standing-recalculate_if,
}

-- Where the standing is kept, the balance is.
pub Balanced-of : {k j : ℕ} (c d : Conn) → standing c ≡ standing d → Balanced k j d → Balanced k j c
Balanced-of {k} {j} c d e b = subst (IsBalanced k j) (sym e) b

pub Balanced-if :
    (k j : ℕ) (t : Bool) (c d : Conn)
    → Balanced k j c
    → Balanced k j d
    → Balanced k j (if t then c else d)
Balanced-if k j true c d p q = p
Balanced-if k j false c d p q = q

pub change_state-Balanced :
    (k j : ℕ) (s : PeerState) (c : Conn) → Balanced k j c → Balanced k j (change_state s c)
unfolding change_state on_connect on_disconnect standing
change_state-Balanced k j s c b = ground arith

-- The first part of `enet_peer_reset` and of `enet_peer_disconnect`.
leave-Balanced :
    (k j : ℕ) (c : Conn) (p : Peer)
    → is_connected p.state ≡ false
    → Balanced k j c
    → Balanced k j (record { host = on_disconnect c.peer c.host; peer = p })
unfolding on_disconnect standing
leave-Balanced k j c p h b = ground arith

pub dispatch_state-Balanced :
    (k j : ℕ) (s : PeerState) (c : Conn) → Balanced k j c → Balanced k j (dispatch_state s c)
unfolding dispatch_state
dispatch_state-Balanced k j s c b =
    Balanced-of _ (change_state s c) (standing-mark_dispatch _) (change_state-Balanced k j s c b)

pub peer_reset-Balanced : (k j : ℕ) (c : Conn) → Balanced k j c → Balanced k j (peer_reset c)
unfolding peer_reset reset_fields
peer_reset-Balanced k j c b =
    Balanced-of _ _ (standing-reset_queues _) (leave-Balanced k j c _ refl b)

pub set_recalculate-Balanced :
    (k j : ℕ) (c : Conn) → Balanced k j c → Balanced k j (set_recalculate c)
set_recalculate-Balanced k j c = Balanced-of _ c (standing-set_recalculate c)

pub recalculate_if-Balanced :
    (k j : ℕ) (t : Bool) (c : Conn) → Balanced k j c → Balanced k j (recalculate_if t c)
recalculate_if-Balanced k j t c = Balanced-of _ c (standing-recalculate_if t c)

pub tell_leaving-Balanced :
    (k j : ℕ) (t : Bool) (code : ℕ) (c : Conn)
    → Balanced k j c
    → Balanced k j (tell_leaving t code c)
unfolding tell_leaving
tell_leaving-Balanced k j t code c =
    Balanced-of _ c (standing-queue_outgoing_command _ none 0 0 _ ∙ standing-reset_queues c)

pub disconnect_connected-Balanced :
    (k j code : ℕ) (c : Conn) → Balanced k j c → Balanced k j (disconnect_connected code c)
unfolding disconnect_connected
disconnect_connected-Balanced k j code c b =
    leave-Balanced k j _ _ refl (tell_leaving-Balanced k j true code c b)

-- Both states are counted alike.
pub connected_states-Balanced :
    (k j code : ℕ) (c : Conn)
    → is_connected c.peer.state ≡ true
    → Balanced k j c
    → Balanced k j
        (record c { peer = record (c.peer) { state = disconnect_later; event_data = code } })
unfolding standing
connected_states-Balanced k j code c h b = ground arith

pub notify_connect-Balanced :
    (k j : ℕ) (event : Option Event) (c : Conn)
    → Balanced k j c
    → Balanced k j (notify_connect event c).0
unfolding notify_connect
notify_connect-Balanced k j none c b =
    dispatch_state-Balanced k j _ _ (set_recalculate-Balanced k j c b)
notify_connect-Balanced k j (some e) c b =
    change_state-Balanced k j connected _ (set_recalculate-Balanced k j c b)

tell_disconnect-Balanced :
    (k j : ℕ) (event : Option Event) (c : Conn)
    → Balanced k j c
    → Balanced k j (tell_disconnect event c).0
unfolding tell_disconnect
tell_disconnect-Balanced k j none c b =
    dispatch_state-Balanced k j zombie _ (Balanced-of _ c (standing-path _ c refl refl refl refl) b)
tell_disconnect-Balanced k j (some e) c b = peer_reset-Balanced k j c b

pub notify_disconnect-Balanced :
    (k j : ℕ) (event : Option Event) (c : Conn)
    → Balanced k j c
    → Balanced k j (notify_disconnect event c).0
unfolding notify_disconnect
notify_disconnect-Balanced k j event c b =
    let b' =
      recalculate_if-Balanced k j
        (leb (state_number connection_pending) (state_number c.peer.state)) c b in
    elim (Bool-cases (is_unannounced c.peer.state)) [
      | inl e ↦ rw e (peer_reset-Balanced k j _ b')
      | inr e ↦ rw e (tell_disconnect-Balanced k j event _ b')
    ]
