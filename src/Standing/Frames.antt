-- ===== src/Standing/Frames.antt =====
-- Functions of original/peer.c and original/protocol.c that leave a peer's standing as it is.
use enet_rs.Prelude.{
  ℕ, ◌≡◌, refl, ◌∙◌, Bool, true, false, Option, none, some, List, arith, if◌then◌else◌, is_empty,
  leb, ltb, not, ◌&&◌,
}
use enet_rs.Protocol.{Protocol, maximum_fragment_count, is_send_unsequenced}
use enet_rs.State.{OutgoingCommand, IncomingCommand, Peer, Conn, state_is, disconnect_later}
use enet_rs.Peer.Outgoing.{
  get_channel, assign_numbers, enqueue, setup_outgoing_command, queue_outgoing_command,
}
use enet_rs.Peer.Dispatch.{
  is_ahead, Walk, settle, walk_channel, deliver, next_in_order, mark_dispatch, dispatch_unreliable,
  dispatch_reliable,
}
use enet_rs.Peer.Incoming.{
  Incoming, Target, discard, to_reliable, to_unreliable, insert_command, dispatch_target,
  queue_target, store_incoming, queue_incoming_command,
}
use enet_rs.Peer.Reset.{leave_dispatch_queue, reset_queues}
use enet_rs.Handle.Notify.{set_recalculate, recalculate_if}
use enet_rs.Standing.{standing}

-- Two connections that agree on the four parts.
pub standing-path :
    (c d : Conn)
    → c.host.connected_peers ≡ d.host.connected_peers
    → c.host.bandwidth_limited_peers ≡ d.host.bandwidth_limited_peers
    → c.peer.state ≡ d.peer.state
    → c.peer.incoming_bandwidth ≡ d.peer.incoming_bandwidth
    → standing c ≡ standing d
unfolding standing
standing-path c d p q r s = λ i. record {
  connected_peers = p i;
  bandwidth_limited_peers = q i;
  state = r i;
  incoming_bandwidth = s i;
}

-- The standing of a conditional.
pub standing-if :
    (b : Bool) (c d e : Conn)
    → standing c ≡ standing e
    → standing d ≡ standing e
    → standing (if b then c else d) ≡ standing e
standing-if true c d e p q = p
standing-if false c d e p q = q

pub standing-if₂ {ℓ} :
    {A : Type ℓ} (b : Bool) (c d : Conn × A) (e : Conn)
    → standing c.0 ≡ standing e
    → standing d.0 ≡ standing e
    → standing (if b then c else d).0 ≡ standing e
standing-if₂ true c d e p q = p
standing-if₂ false c d e p q = q

assign_numbers_frame :
    (p : Peer) (o : OutgoingCommand)
    → ((assign_numbers p o).0.state ≡ p.state)
      × ((assign_numbers p o).0.incoming_bandwidth ≡ p.incoming_bandwidth)
unfolding assign_numbers
assign_numbers_frame p o = (ground arith, ground arith)

enqueue_frame :
    (p : Peer) (o : OutgoingCommand)
    → ((enqueue p o).state ≡ p.state) × ((enqueue p o).incoming_bandwidth ≡ p.incoming_bandwidth)
unfolding enqueue
enqueue_frame p o = (ground arith, ground arith)

pub standing-setup_outgoing_command :
    (o : OutgoingCommand) (c : Conn) → standing (setup_outgoing_command o c) ≡ standing c
unfolding setup_outgoing_command
standing-setup_outgoing_command o c =
    standing-path _ c refl refl ((enqueue_frame _ _).0 ∙ (assign_numbers_frame _ o).0)
      ((enqueue_frame _ _).1 ∙ (assign_numbers_frame _ o).1)

pub standing-queue_outgoing_command :
    (m : Protocol) (packet : Option ℕ) (offset len : ℕ) (c : Conn)
    → standing (queue_outgoing_command m packet offset len c) ≡ standing c
unfolding queue_outgoing_command
standing-queue_outgoing_command m none offset len c = standing-setup_outgoing_command _ c
standing-queue_outgoing_command m (some k) offset len c =
    standing-setup_outgoing_command _ _ ∙ standing-path _ c refl refl refl refl

pub standing-mark_dispatch : (c : Conn) → standing (mark_dispatch c) ≡ standing c
unfolding mark_dispatch
standing-mark_dispatch c =
    standing-if c.peer.needs_dispatch c _ c refl (standing-path _ c refl refl refl refl)

standing-settle :
    (id : ℕ) (q : Option ℕ) (w : Walk × List IncomingCommand) (c : Conn)
    → standing (settle id q w c) ≡ standing c
unfolding settle
standing-settle id q w c = standing-path _ c refl refl refl refl

pub standing-dispatch_unreliable :
    (id : ℕ) (q : Option ℕ) (c : Conn) → standing (dispatch_unreliable id q c) ≡ standing c
unfolding dispatch_unreliable
standing-dispatch_unreliable id q c =
    standing-if (is_empty (walk_channel id c.peer).0.moved) _ _ c (standing-settle id q _ c)
      (standing-mark_dispatch _ ∙ standing-settle id q _ c)

standing-deliver :
    (id : ℕ) (n : List IncomingCommand × List IncomingCommand × ℕ) (c : Conn)
    → standing (deliver id n c) ≡ standing c
unfolding deliver
standing-deliver id n c = standing-mark_dispatch _ ∙ standing-path _ c refl refl refl refl

pub standing-dispatch_reliable :
    (id : ℕ) (q : Option ℕ) (c : Conn) → standing (dispatch_reliable id q c) ≡ standing c
unfolding dispatch_reliable
standing-dispatch_reliable id q c = standing-if (is_empty (next_in_order id c.peer).0) c _ c refl (
    standing-if (is_empty (get_channel c.peer id).incoming_unreliable_commands) _ _ c
      (standing-deliver id _ c) (standing-dispatch_unreliable id q _ ∙ standing-deliver id _ c))

standing-insert_command :
    (q : Incoming) (t : Target) (c : Conn) → standing (insert_command q t c).0 ≡ standing c
unfolding insert_command
standing-insert_command q t c = standing-path _ c refl refl refl refl

standing-dispatch_target :
    (t : Target) (id packet : ℕ) (c : Conn) → standing (dispatch_target t id packet c) ≡ standing c
standing-dispatch_target discard id packet c = standing-dispatch_unreliable id (some packet) c
standing-dispatch_target (to_reliable k) id packet c = standing-dispatch_reliable id (some packet) c
standing-dispatch_target (to_unreliable k) id packet c =
    standing-dispatch_unreliable id (some packet) c

standing-store_incoming :
    (q : Incoming) (t : Target) (c : Conn) → standing (store_incoming q t c).0 ≡ standing c
standing-store_incoming q t c =
    standing-if₂ (leb c.host.maximum_waiting_data c.peer.total_waiting_data) _ _ c refl (
      standing-if₂ (ltb maximum_fragment_count q.fragment_count) _ _ c
        (standing-path _ c refl refl refl refl)
        (standing-dispatch_target t q.command.channel_id _ _ ∙ standing-insert_command q t c))

standing-queue_target :
    (q : Incoming) (t : Target) (c : Conn) → standing (queue_target q t c).0 ≡ standing c
standing-queue_target q discard c = refl
standing-queue_target q (to_reliable k) c = standing-store_incoming q (to_reliable k) c
standing-queue_target q (to_unreliable k) c = standing-store_incoming q (to_unreliable k) c

pub standing-queue_incoming_command :
    (q : Incoming) (c : Conn) → standing (queue_incoming_command q c).0 ≡ standing c
unfolding queue_incoming_command
standing-queue_incoming_command q c =
    standing-if₂ (state_is c.peer.state disconnect_later) _ _ c refl (
      standing-if₂
        (not (is_send_unsequenced q.command.body)
          && not (
              is_ahead q.command.reliable_sequence_number
                (get_channel c.peer q.command.channel_id).incoming_reliable_sequence_number))
        _ _ c refl (standing-queue_target q _ c))

standing-leave_dispatch_queue : (c : Conn) → standing (leave_dispatch_queue c) ≡ standing c
unfolding leave_dispatch_queue
standing-leave_dispatch_queue c =
    standing-if c.peer.needs_dispatch _ c c (standing-path _ c refl refl refl refl) refl

pub standing-reset_queues : (c : Conn) → standing (reset_queues c) ≡ standing c
unfolding reset_queues
standing-reset_queues c =
    standing-path _ (leave_dispatch_queue c) refl refl refl refl ∙ standing-leave_dispatch_queue c

pub standing-set_recalculate : (c : Conn) → standing (set_recalculate c) ≡ standing c
unfolding set_recalculate
standing-set_recalculate c = standing-path _ c refl refl refl refl

pub standing-recalculate_if : (b : Bool) (c : Conn) → standing (recalculate_if b c) ≡ standing c
unfolding recalculate_if
standing-recalculate_if b c = standing-if b _ c c (standing-set_recalculate c) refl
