-- ===== src/Peer/Incoming/Window.antt =====
-- Taking in a command leaves the window of unsequenced groups as it is: the functions of
-- original/peer.c behind `enet_peer_queue_incoming_command`.
use enet_rs.Prelude.{
  ℕ, ◌≡◌, refl, ◌∙◌, Bool, true, false, Option, some, List, if◌then◌else◌, is_empty, leb, ltb, not,
  ◌&&◌,
}
use enet_rs.Protocol.{maximum_fragment_count, is_send_unsequenced}
use enet_rs.State.{IncomingCommand, Conn, state_is, disconnect_later}
use enet_rs.Peer.Outgoing.{get_channel}
use enet_rs.Peer.Dispatch.{
  is_ahead, Walk, settle, walk_channel, deliver, next_in_order, mark_dispatch, dispatch_unreliable,
  dispatch_reliable,
}
use enet_rs.Peer.Incoming.{
  Incoming, Target, discard, to_reliable, to_unreliable, insert_command, dispatch_target,
  queue_target, store_incoming, queue_incoming_command,
}

-- The window of a peer: the block of groups that it covers, and the bits of those received.
pub record Window : Type 0 where
  pub incoming_unsequenced_group : ℕ
  pub unsequenced_window : List ℕ

unfoldable pub window : Conn → Window
window c = record {
  incoming_unsequenced_group = c.peer.incoming_unsequenced_group;
  unsequenced_window = c.peer.unsequenced_window;
}

window-path :
    (c d : Conn)
    → c.peer.incoming_unsequenced_group ≡ d.peer.incoming_unsequenced_group
    → c.peer.unsequenced_window ≡ d.peer.unsequenced_window
    → window c ≡ window d
unfolding window
window-path c d p q = λ i. record { incoming_unsequenced_group = p i; unsequenced_window = q i }

window-if :
    (b : Bool) (c d e : Conn)
    → window c ≡ window e
    → window d ≡ window e
    → window (if b then c else d) ≡ window e
window-if true c d e p q = p
window-if false c d e p q = q

window-if₂ {ℓ} :
    {A : Type ℓ} (b : Bool) (c d : Conn × A) (e : Conn)
    → window c.0 ≡ window e
    → window d.0 ≡ window e
    → window (if b then c else d).0 ≡ window e
window-if₂ true c d e p q = p
window-if₂ false c d e p q = q

window-mark_dispatch : (c : Conn) → window (mark_dispatch c) ≡ window c
unfolding mark_dispatch
window-mark_dispatch c = window-if c.peer.needs_dispatch c _ c refl (window-path _ c refl refl)

window-settle :
    (id : ℕ) (q : Option ℕ) (w : Walk × List IncomingCommand) (c : Conn)
    → window (settle id q w c) ≡ window c
unfolding settle
window-settle id q w c = window-path _ c refl refl

window-dispatch_unreliable :
    (id : ℕ) (q : Option ℕ) (c : Conn) → window (dispatch_unreliable id q c) ≡ window c
unfolding dispatch_unreliable
window-dispatch_unreliable id q c =
    window-if (is_empty (walk_channel id c.peer).0.moved) _ _ c (window-settle id q _ c)
      (window-mark_dispatch _ ∙ window-settle id q _ c)

window-deliver :
    (id : ℕ) (n : List IncomingCommand × List IncomingCommand × ℕ) (c : Conn)
    → window (deliver id n c) ≡ window c
unfolding deliver
window-deliver id n c = window-mark_dispatch _ ∙ window-path _ c refl refl

window-dispatch_reliable :
    (id : ℕ) (q : Option ℕ) (c : Conn) → window (dispatch_reliable id q c) ≡ window c
unfolding dispatch_reliable
window-dispatch_reliable id q c = window-if (is_empty (next_in_order id c.peer).0) c _ c refl (
    window-if (is_empty (get_channel c.peer id).incoming_unreliable_commands) _ _ c
      (window-deliver id _ c) (window-dispatch_unreliable id q _ ∙ window-deliver id _ c))

window-insert_command :
    (q : Incoming) (t : Target) (c : Conn) → window (insert_command q t c).0 ≡ window c
unfolding insert_command
window-insert_command q t c = window-path _ c refl refl

window-dispatch_target :
    (t : Target) (id packet : ℕ) (c : Conn) → window (dispatch_target t id packet c) ≡ window c
window-dispatch_target discard id packet c = window-dispatch_unreliable id (some packet) c
window-dispatch_target (to_reliable k) id packet c = window-dispatch_reliable id (some packet) c
window-dispatch_target (to_unreliable k) id packet c = window-dispatch_unreliable id (some packet) c

window-store_incoming :
    (q : Incoming) (t : Target) (c : Conn) → window (store_incoming q t c).0 ≡ window c
window-store_incoming q t c =
    window-if₂ (leb c.host.maximum_waiting_data c.peer.total_waiting_data) _ _ c refl (
      window-if₂ (ltb maximum_fragment_count q.fragment_count) _ _ c (window-path _ c refl refl)
        (window-dispatch_target t q.command.channel_id _ _ ∙ window-insert_command q t c))

window-queue_target :
    (q : Incoming) (t : Target) (c : Conn) → window (queue_target q t c).0 ≡ window c
window-queue_target q discard c = refl
window-queue_target q (to_reliable k) c = window-store_incoming q (to_reliable k) c
window-queue_target q (to_unreliable k) c = window-store_incoming q (to_unreliable k) c

pub window-queue_incoming_command :
    (q : Incoming) (c : Conn) → window (queue_incoming_command q c).0 ≡ window c
unfolding queue_incoming_command
window-queue_incoming_command q c = window-if₂ (state_is c.peer.state disconnect_later) _ _ c refl (
    window-if₂
      (not (is_send_unsequenced q.command.body)
        && not (
            is_ahead q.command.reliable_sequence_number
              (get_channel c.peer q.command.channel_id).incoming_reliable_sequence_number))
      _ _ c refl (window-queue_target q _ c))
