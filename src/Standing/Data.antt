-- ===== src/Standing/Data.antt =====
-- Handlers of original/protocol.c that leave a peer's standing as it is: those of data and of
-- fragments, and the removal of an acknowledged command.
use enet_rs.Prelude.{
  ℕ, ◌≡◌, refl, ◌∙◌, Bool, true, false, not, ◌&&◌, ◌||◌, Option, none, some, List, if◌then◌else◌,
  ltb, leb, ◌==◌, arith, bitmap_test,
}
use enet_rs.Protocol.{Protocol, Fragment}
use enet_rs.State.{OutgoingCommand, Peer, Conn, success, failure}
use enet_rs.Peer.Outgoing.{get_channel}
use enet_rs.Peer.Throttle.{throttle}
use enet_rs.Peer.Dispatch.{is_ahead}
use enet_rs.Peer.Incoming.{Incoming, Queued, refused, discarded, queued}
use enet_rs.Handle.Acknowledge.{
  Found, retire, retire_second_queue, retire_first_queue, retire_sent, remove_sent_reliable_command,
  smooth, measure, track_extremes, note_round_trip,
}
use enet_rs.Handle.Receive.{
  receive_data, is_receivable, is_oversized, is_group_beyond, is_group_seen, advance_window,
  mark_group, mark_queued, handle_send_reliable, handle_send_unreliable, handle_send_unsequenced,
}
use enet_rs.Handle.Fragments.{
  Start, missing, mismatch, found, fragments_of, remaining_of, on_command, tick_fragment,
  add_fragment, add_unreliable_fragment, after_queue, after_search, handle_send_fragment,
  handle_send_unreliable_fragment, is_unusable, is_malformed,
}
use enet_rs.Standing.{standing}
use enet_rs.Standing.Frames.{
  standing-path, standing-if, standing-if₂, standing-queue_incoming_command,
  standing-dispatch_reliable, standing-dispatch_unreliable,
}

abbrev KeepsPeerStanding : Peer → Peer → Type 0
KeepsPeerStanding p q = (p.state ≡ q.state) × (p.incoming_bandwidth ≡ q.incoming_bandwidth)

throttle_frame : (rtt : ℕ) (p : Peer) → KeepsPeerStanding (throttle rtt p).0 p
unfolding throttle
throttle_frame rtt p = (ground arith, ground arith)

smooth_frame : (rtt : ℕ) (p : Peer) → KeepsPeerStanding (smooth rtt p) p
unfolding smooth
smooth_frame rtt p = (ground arith, ground arith)

KeepsPeerStanding-if :
    (t : Bool) (p q r : Peer)
    → KeepsPeerStanding p r
    → KeepsPeerStanding q r
    → KeepsPeerStanding (if t then p else q) r
KeepsPeerStanding-if true p q r a b = a
KeepsPeerStanding-if false p q r a b = b

measure_frame : (rtt : ℕ) (p : Peer) → KeepsPeerStanding (measure rtt p) p
unfolding measure
measure_frame rtt p =
    KeepsPeerStanding-if (ltb 0 p.last_receive_time) _ _ p
      (
        (smooth_frame rtt (throttle rtt p).0).0 ∙ (throttle_frame rtt p).0,
        (smooth_frame rtt (throttle rtt p).0).1 ∙ (throttle_frame rtt p).1,
      )
      (refl, refl)

track_extremes_frame : (t : ℕ) (p : Peer) → KeepsPeerStanding (track_extremes t p) p
unfolding track_extremes
track_extremes_frame t p = (ground arith, ground arith)

pub note_round_trip_frame : (t rtt : ℕ) (p : Peer) → KeepsPeerStanding (note_round_trip t rtt p) p
unfolding note_round_trip
note_round_trip_frame t rtt p = (
  (track_extremes_frame t (measure rtt p)).0 ∙ (measure_frame rtt p).0,
  (track_extremes_frame t (measure rtt p)).1 ∙ (measure_frame rtt p).1,
)

standing-retire :
    (t : Bool) (number id : ℕ) (o : OutgoingCommand) (c : Conn)
    → standing (retire t number id o c) ≡ standing c
unfolding retire
standing-retire t number id o c = standing-path _ c refl refl (ground arith) (ground arith)

standing-retire_second_queue :
    (number id : ℕ) (f : Option Found) (c : Conn)
    → standing (retire_second_queue number id f c).0 ≡ standing c
standing-retire_second_queue number id none c = refl
standing-retire_second_queue number id (some f) c =
    standing-retire _ number id _ _ ∙ standing-path _ c refl refl refl refl

standing-retire_first_queue :
    (number id : ℕ) (f : Option Found) (c : Conn)
    → standing (retire_first_queue number id f c).0 ≡ standing c
standing-retire_first_queue number id none c = standing-retire_second_queue number id _ c
standing-retire_first_queue number id (some f) c =
    standing-retire _ number id _ _ ∙ standing-path _ c refl refl refl refl

standing-retire_sent :
    (number id : ℕ) (f : Option Found) (c : Conn)
    → standing (retire_sent number id f c).0 ≡ standing c
standing-retire_sent number id none c = standing-retire_first_queue number id _ c
standing-retire_sent number id (some f) c =
    standing-retire _ number id _ _ ∙ standing-path _ c refl refl refl refl

pub standing-remove_sent_reliable_command :
    (number id : ℕ) (c : Conn) → standing (remove_sent_reliable_command number id c).0 ≡ standing c
unfolding remove_sent_reliable_command
standing-remove_sent_reliable_command number id c = standing-retire_sent number id _ c

standing-receive_data :
    (m : Protocol) (payload : List ℕ) (len flags : ℕ) (c : Conn)
    → standing (receive_data m payload len flags c).0 ≡ standing c
standing-receive_data m payload len flags c =
    standing-if₂ (not (is_receivable m c) || is_oversized len payload c) (c, failure) _ c refl
      (standing-queue_incoming_command _ c)

pub standing-handle_send_reliable :
    (m : Protocol) (len : ℕ) (payload : List ℕ) (c : Conn)
    → standing (handle_send_reliable m len payload c).0 ≡ standing c
unfolding handle_send_reliable
standing-handle_send_reliable m len payload c = standing-receive_data m payload len 1 c

pub standing-handle_send_unreliable :
    (m : Protocol) (len : ℕ) (payload : List ℕ) (c : Conn)
    → standing (handle_send_unreliable m len payload c).0 ≡ standing c
unfolding handle_send_unreliable
standing-handle_send_unreliable m len payload c = standing-receive_data m payload len 0 c

standing-mark_queued :
    (group : ℕ) (r : Conn × Queued) → standing (mark_queued group r).0 ≡ standing r.0
unfolding mark_queued mark_group
standing-mark_queued group (c, refused) = refl
standing-mark_queued group (c, discarded) = standing-path _ c refl refl refl refl
standing-mark_queued group (c, queued k) = standing-path _ c refl refl refl refl

advance_window_frame : (group : ℕ) (p : Peer) → KeepsPeerStanding (advance_window group p) p
unfolding advance_window
advance_window_frame group p = (ground arith, ground arith)

pub standing-handle_send_unsequenced :
    (m : Protocol) (group len : ℕ) (payload : List ℕ) (c : Conn)
    → standing (handle_send_unsequenced m group len payload c).0 ≡ standing c
unfolding handle_send_unsequenced
standing-handle_send_unsequenced m group len payload c =
    standing-if₂ (not (is_receivable m c) || is_oversized len payload c) (c, failure) _ c refl
      (standing-if₂ (is_group_beyond group c.peer.incoming_unsequenced_group) (c, success) _ c refl
        (standing-if₂ (is_group_seen group c.peer) (c, success) _ c refl
          (standing-mark_queued group _
            ∙ standing-queue_incoming_command _ _
            ∙ standing-path _ c refl refl (advance_window_frame group c.peer).0
                (advance_window_frame group c.peer).1)))

-- What a function that adds a fragment to its packet keeps.
abbrev KeepsStanding : (ℕ → Conn → Conn) → Type 0
KeepsStanding add = (packet : ℕ) (c : Conn) → standing (add packet c) ≡ standing c

standing-add_fragment :
    (id : ℕ) (f : Fragment) (payload : List ℕ) → KeepsStanding (add_fragment id f payload)
unfolding add_fragment
standing-add_fragment id f payload packet c =
    let queue = (get_channel c.peer id).incoming_reliable_commands in
    standing-if (bitmap_test (fragments_of packet queue) f.fragment_number) c _ c refl (
      standing-if
        (leb (remaining_of packet (on_command packet (tick_fragment f.fragment_number) queue)) 0) _
        _ c (standing-dispatch_reliable id none _ ∙ standing-path _ c refl refl refl refl)
        (standing-path _ c refl refl refl refl))

standing-add_unreliable_fragment :
    (id : ℕ) (f : Fragment) (payload : List ℕ)
    → KeepsStanding (add_unreliable_fragment id f payload)
unfolding add_unreliable_fragment
standing-add_unreliable_fragment id f payload packet c =
    let queue = (get_channel c.peer id).incoming_unreliable_commands in
    standing-if (bitmap_test (fragments_of packet queue) f.fragment_number) c _ c refl (
      standing-if
        (leb (remaining_of packet (on_command packet (tick_fragment f.fragment_number) queue)) 0) _
        _ c (standing-dispatch_unreliable id none _ ∙ standing-path _ c refl refl refl refl)
        (standing-path _ c refl refl refl refl))

standing-after_queue :
    (add : ℕ → Conn → Conn)
    → KeepsStanding add
    → (r : Conn × Queued) → standing (after_queue add r).0 ≡ standing r.0
unfolding after_queue
standing-after_queue add keeps (c, refused) = refl
standing-after_queue add keeps (c, discarded) = refl
standing-after_queue add keeps (c, queued packet) = keeps packet c

standing-after_search :
    (add : ℕ → Conn → Conn)
    → KeepsStanding add
    → (q : Incoming) (s : Start) (c : Conn) → standing (after_search add q s c).0 ≡ standing c
unfolding after_search
standing-after_search add keeps q missing c =
    standing-after_queue add keeps _ ∙ standing-queue_incoming_command q c
standing-after_search add keeps q mismatch c = refl
standing-after_search add keeps q (found packet) c = keeps packet c

pub standing-handle_send_fragment :
    (m : Protocol) (f : Fragment) (payload : List ℕ) (c : Conn)
    → standing (handle_send_fragment m f payload c).0 ≡ standing c
unfolding handle_send_fragment
standing-handle_send_fragment m f payload c =
    let ch = get_channel c.peer m.channel_id in
    standing-if₂ (not (is_receivable m c) || is_unusable f payload c) (c, failure) _ c refl
      (standing-if₂ (not (is_ahead f.start_sequence_number ch.incoming_reliable_sequence_number))
        (c, success) _ c refl
        (standing-if₂ (is_malformed f c) (c, failure) _ c refl
          (standing-after_search _ (standing-add_fragment m.channel_id f payload) _ _ c)))

pub standing-handle_send_unreliable_fragment :
    (m : Protocol) (f : Fragment) (payload : List ℕ) (c : Conn)
    → standing (handle_send_unreliable_fragment m f payload c).0 ≡ standing c
unfolding handle_send_unreliable_fragment
standing-handle_send_unreliable_fragment m f payload c =
    let ch = get_channel c.peer m.channel_id in
    let number = m.reliable_sequence_number in
    standing-if₂ (not (is_receivable m c) || is_unusable f payload c) (c, failure) _ c refl
      (standing-if₂ (not (is_ahead number ch.incoming_reliable_sequence_number)) (c, success) _ c
        refl
        (standing-if₂
          (number == ch.incoming_reliable_sequence_number
            && leb f.start_sequence_number ch.incoming_unreliable_sequence_number)
          (c, success) _ c refl
          (standing-if₂ (is_malformed f c) (c, failure) _ c refl
            (standing-after_search _ (standing-add_unreliable_fragment m.channel_id f payload) _ _
              c))))

-- An acknowledgement, up to the switch on the peer's state.
pub standing-removed :
    (t rtt number id : ℕ) (c : Conn)
    → standing
        (remove_sent_reliable_command number id
          (record c { peer = note_round_trip t rtt c.peer })).0
      ≡ standing c
standing-removed t rtt number id c =
    standing-remove_sent_reliable_command number id _
    ∙ standing-path _ c refl refl (note_round_trip_frame t rtt c.peer).0
        (note_round_trip_frame t rtt c.peer).1
