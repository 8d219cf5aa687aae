-- ===== src/Tests/Queues.antt =====
-- The theorems on incoming queues and on repeated packets (original/peer.c and
-- original/protocol.c), at sample queues.
use mathlib.Core.List.{reverse}
use enet_rs.State.{Channel}
use enet_rs.Peer.Outgoing.{fresh_channel}
use enet_rs.Peer.Incoming.{insert_at, target_reliable}
use enet_rs.Peer.Incoming.Insert.{insert_at-IsDescending}
use enet_rs.Prelude.{
  ℕ, ◌≡◌, refl, true, false, [], ◌∷◌, length, bitmap_test, bitmap_set, test_bit, set_bit, arith,
}
use enet_rs.Protocol.{Protocol, send_reliable, send_unsequenced}
use enet_rs.Packet.{packet_create, retain}
use enet_rs.State.{IncomingCommand, success}
use enet_rs.Peer.Dispatch.{
  take_in_order, mark_dispatch, dispatch_unreliable, walk_channel, walk, settle, remove_commands,
}
use enet_rs.Peer.Dispatch.InOrder.{Cut, take_in_order-Cut}
use enet_rs.Peer.Incoming.{reliable_place, queue_incoming_command, target, insert_command}
use enet_rs.Peer.Incoming.Order.{
  none_left, below, IsDescending, sorted_empty, sorted, IsPlaced, reliable_place-IsPlaced,
}
use enet_rs.Handle.Receive.{
  handle_send_unsequenced, is_receivable, is_oversized, is_group_beyond, unwrap_group,
  is_group_seen, mark_queued, mark_group, advance_window,
}
use enet_rs.Handle.Receive.Replay.{handle_send_unsequenced_once}
use enet_rs.Tests.Samples.{some_conn, command_of}

-- A complete command of a reliable queue.
abbrev waiting : ℕ → IncomingCommand
waiting number = record {
  reliable_sequence_number = number;
  unreliable_sequence_number = 0;
  command = command_of number (send_reliable 0);
  fragment_count = 0;
  fragments_remaining = 0;
  fragments = [];
  packet = number;
}

-- The end of a queue whose numbers wrap: 2, 65535.
wrapped-IsDescending : IsDescending 65530 (waiting 2 ∷ waiting 65535 ∷ [])
wrapped-IsDescending =
    sorted _ _ (omega arith) (below _ _ (omega arith) (omega arith) none_left)
      (sorted _ _ (omega arith) none_left sorted_empty)

-- The channel with that queue.
abbrev wrapped_channel : Channel
wrapped_channel = record fresh_channel {
  incoming_reliable_sequence_number = 65530;
  incoming_reliable_commands = waiting 65535 ∷ waiting 2 ∷ [];
}

insert_at-IsDescending_example : IsDescending 65530 (
    reverse
      (insert_at
        (target_reliable 0 wrapped_channel)
        (waiting 0)
        wrapped_channel).incoming_reliable_commands)
insert_at-IsDescending_example =
    insert_at-IsDescending (waiting 0) wrapped_channel (omega arith) (omega arith)
      wrapped-IsDescending

reliable_place-IsPlaced_example :
    IsPlaced 65530 0
      (waiting 2 ∷ waiting 65535 ∷ [])
      0
      (reliable_place 0 65530 (waiting 2 ∷ waiting 65535 ∷ []) 0)
reliable_place-IsPlaced_example =
    reliable_place-IsPlaced 0 65530 (waiting 2 ∷ waiting 65535 ∷ []) 0 (omega arith) (omega arith)
      wrapped-IsDescending

take_in_order-Cut_example :
    Cut 65534
      (waiting 65535 ∷ waiting 0 ∷ waiting 2 ∷ [])
      (take_in_order 65534 (waiting 65535 ∷ waiting 0 ∷ waiting 2 ∷ []))
take_in_order-Cut_example = take_in_order-Cut 65534 (waiting 65535 ∷ waiting 0 ∷ waiting 2 ∷ [])

-- Two commands are delivered, over the wrap.
take_in_order_wraps :
    length (take_in_order 65534 (waiting 65535 ∷ waiting 0 ∷ waiting 2 ∷ [])).0 ≡ 2
unfolding take_in_order
take_in_order_wraps = refl

abbrev unsequenced_command : Protocol
unsequenced_command = command_of 0 (send_unsequenced 5 1)

not_beyond : is_group_beyond 5 some_conn.peer.incoming_unsequenced_group ≡ false
unfolding is_group_beyond unwrap_group
not_beyond = refl

first_taken : (handle_send_unsequenced unsequenced_command 5 1 (7 ∷ []) some_conn).1 ≡ success
unfolding handle_send_unsequenced is_group_beyond unwrap_group is_group_seen bitmap_test bitmap_set
    test_bit set_bit mark_queued mark_group queue_incoming_command advance_window target
    dispatch_unreliable walk_channel walk insert_command mark_dispatch settle packet_create retain
    remove_commands
first_taken = refl

still_receivable :
    is_receivable unsequenced_command
      (handle_send_unsequenced unsequenced_command 5 1 (7 ∷ []) some_conn).0
    ≡ true
unfolding handle_send_unsequenced is_group_beyond unwrap_group is_group_seen bitmap_test bitmap_set
    test_bit set_bit mark_queued mark_group queue_incoming_command advance_window target
    dispatch_unreliable walk_channel walk insert_command mark_dispatch settle packet_create retain
    remove_commands
still_receivable = refl

still_fits :
    is_oversized 1 (8 ∷ []) (handle_send_unsequenced unsequenced_command 5 1 (7 ∷ []) some_conn).0
    ≡ false
unfolding handle_send_unsequenced is_group_beyond unwrap_group is_group_seen bitmap_test bitmap_set
    test_bit set_bit mark_queued mark_group queue_incoming_command advance_window target
    dispatch_unreliable walk_channel walk insert_command mark_dispatch settle packet_create retain
    remove_commands
still_fits = refl

handle_send_unsequenced_once_example :
    handle_send_unsequenced unsequenced_command 5 1
      (8 ∷ [])
      (handle_send_unsequenced unsequenced_command 5 1 (7 ∷ []) some_conn).0
    ≡ ((handle_send_unsequenced unsequenced_command 5 1 (7 ∷ []) some_conn).0, success)
handle_send_unsequenced_once_example =
    handle_send_unsequenced_once unsequenced_command unsequenced_command 5 1 1 (7 ∷ []) (8 ∷ [])
      some_conn refl not_beyond first_taken still_receivable still_fits
