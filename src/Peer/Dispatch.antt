-- ===== src/Peer/Dispatch.antt =====
-- Incoming commands on their way to the user, of original/peer.c:
-- `enet_peer_remove_incoming_commands`, `enet_peer_dispatch_incoming_unreliable_commands`,
-- `enet_peer_dispatch_incoming_reliable_commands` and `enet_peer_receive`.
pub mod InOrder
use enet_rs.Prelude.{
  ℕ, ◌+◌, ◌-◌, ◌/◌, Bool, true, false, not, ◌&&◌, ◌||◌, Option, none, some, List, [], ◌∷◌, ◌++◌,
  length, take, drop, is_empty, ltb, leb, ◌==◌, if◌then◌else◌, u16, enet_min, size_sub,
}
use enet_rs.Protocol.{is_send_unsequenced}
use enet_rs.Packet.{Memory, get_packet, on_packet, release}
use enet_rs.State.{IncomingCommand, Peer, Host, Conn, reliable_window_size, free_reliable_windows}
use enet_rs.Peer.Outgoing.{get_channel, on_channel, window_of}

-- Whether a command is the one that must stay.
abbrev pub is_excluded : Option ℕ → IncomingCommand → Bool
is_excluded none i = false
is_excluded (some k) i = i.packet == k

-- What the removal of commands changes: the bytes that wait, and the packets.
pub record Store : Type 0 where
  pub waiting : ℕ
  pub memory : Memory

unfoldable pub remove_one : IncomingCommand → Store → Store
remove_one i s = record {
  waiting = s.waiting - enet_min s.waiting (get_packet s.memory i.packet).data_length;
  memory = release i.packet s.memory;
}

-- `enet_peer_remove_incoming_commands` on the commands from `startCommand` to `endCommand`: those
-- that stay (the excluded one), and the store without the others.
unfoldable pub remove_commands :
    Option ℕ → List IncomingCommand → Store → List IncomingCommand × Store
remove_commands exclude [] s = ([], s)
remove_commands exclude (i ∷ is) s =
    let stays = is_excluded exclude i in
    let (kept, s') = remove_commands exclude is (if stays then s else remove_one i s) in
    (if stays then i ∷ kept else kept, s')

-- What can be reached from the start of the dispatch queue once the node of the peer `id` was inserted
-- at its end. If it is linked already, the nodes behind it are cut off.
unfoldable pub put_at_end : ℕ → List ℕ → List ℕ
put_at_end id [] = id ∷ []
put_at_end id (x ∷ xs) = let rest = put_at_end id xs in if x == id then x ∷ [] else x ∷ rest

unfoldable pub is_queued : ℕ → List ℕ → Bool
is_queued id [] = false
is_queued id (x ∷ xs) = x == id || is_queued id xs

-- enet_list_insert (enet_list_end (& host -> dispatchQueue), & peer -> dispatchList).
abbrev pub insert_peer : ℕ → Host → Host
insert_peer id h = record h {
  dispatch_queue = put_at_end id h.dispatch_queue;
  dispatch_tangled = h.dispatch_tangled || is_queued id h.dispatch_queue;
}

-- The peer joins the dispatch queue, if it is not marked as standing in it.
unfoldable pub mark_dispatch : Conn → Conn
mark_dispatch c = if c.peer.needs_dispatch then c else record {
  host = insert_peer c.peer.incoming_peer_id c.host;
  peer = record (c.peer) { needs_dispatch = true };
}

-- The state of the walk over the unreliable commands. The list is `behind`, then `pending` (from
-- `startCommand` up to `currentCommand`), then what is not walked yet; `moved` went to the
-- dispatched commands, and `droppedCommand` is the place `dropped` of the list.
pub record Walk : Type 0 where
  pub behind : List IncomingCommand
  pub pending : List IncomingCommand
  pub moved : List IncomingCommand
  pub dropped : ℕ
  pub unreliable_number : ℕ

-- `currentCommand` stays behind, and the pending commands before it are moved out.
abbrev pub move_pending : ℕ → IncomingCommand → Walk → Walk
move_pending dropped i w = record w {
  behind = w.behind ++ (i ∷ []);
  pending = [];
  moved = w.moved ++ w.pending;
  dropped = dropped;
}

-- Whether the walk stops at a command of another reliable number: it is still to come.
unfoldable pub is_ahead : ℕ → ℕ → Bool
is_ahead number current =
    let reliable_window = window_of number current in
    let current_window = current / reliable_window_size in
    leb current_window reliable_window
    && ltb reliable_window (current_window + free_reliable_windows - 1)

-- An incomplete fragmented command: it stays, and where `droppedCommand` goes.
unfoldable pub hold_incomplete : IncomingCommand → Walk → Walk
hold_incomplete i w =
    let place = length w.behind in
    if not (is_empty w.pending)
    then move_pending place i w
    else if not (w.dropped == place)
    then move_pending (place - 1) i w
    else move_pending w.dropped i w

-- The loop of `enet_peer_dispatch_incoming_unreliable_commands`; the second list is what lies at and
-- after the command at which it stops.
unfoldable pub walk : ℕ → List IncomingCommand → Walk → Walk × List IncomingCommand
walk current [] w = (w, [])
walk current (i ∷ is) w =
    let pend = record w { pending = w.pending ++ (i ∷ []) } in
    let on_unsequenced = walk current is pend in
    let on_complete =
      walk current is (record pend { unreliable_number = i.unreliable_sequence_number }) in
    let on_incomplete = walk current is (hold_incomplete i w) in
    let on_stale = walk current is (move_pending (length w.behind + 1) i w) in
    if is_send_unsequenced i.command.body
    then on_unsequenced
    else if i.reliable_sequence_number == current
    then (if leb i.fragments_remaining 0 then on_complete else on_incomplete)
    else if is_ahead i.reliable_sequence_number current
    then (w, i ∷ is)
    else on_stale

-- The pending commands at the end of the walk are moved out too.
abbrev pub finish_walk : Walk → Walk
finish_walk w =
    if is_empty w.pending
    then w
    else record w { pending = []; moved = w.moved ++ w.pending; dropped = length w.behind }

-- The walk over the unreliable commands of the channel `id`, with its end.
unfoldable pub walk_channel : ℕ → Peer → Walk × List IncomingCommand
walk_channel id p =
    let ch = get_channel p id in
    let (walked, rest) =
      walk ch.incoming_reliable_sequence_number ch.incoming_unreliable_commands (record {
        behind = [];
        pending = [];
        moved = [];
        dropped = 0;
        unreliable_number = ch.incoming_unreliable_sequence_number;
      }) in
    (finish_walk walked, rest)

-- The state after the walk: the commands that were moved out, and those in front of
-- `droppedCommand` removed, but for the queued one.
unfoldable pub settle : ℕ → Option ℕ → Walk × List IncomingCommand → Conn → Conn
settle id queued (w, rest) c =
    let left = w.behind ++ rest in
    let (kept, store) =
      remove_commands queued (take w.dropped left)
        (record { waiting = c.peer.total_waiting_data; memory = c.host.memory }) in
    let p : Peer = on_channel c.peer id (λ k. record k {
      incoming_unreliable_sequence_number = w.unreliable_number;
      incoming_unreliable_commands = kept ++ drop w.dropped left;
    }) in
    record {
      host = record (c.host) { memory = store.memory };
      peer = record p {
        dispatched_commands = c.peer.dispatched_commands ++ w.moved;
        total_waiting_data = store.waiting;
      };
    }

-- `enet_peer_dispatch_incoming_unreliable_commands` for the channel `id`.
unfoldable pub dispatch_unreliable : ℕ → Option ℕ → Conn → Conn
dispatch_unreliable id queued c =
    let walked = walk_channel id c.peer in
    let settled = settle id queued walked c in
    if is_empty walked.0.moved then settled else mark_dispatch settled

-- The loop of `enet_peer_dispatch_incoming_reliable_commands`: the commands that are next in order,
-- what is left, and the channel's new number.
unfoldable pub take_in_order :
    ℕ → List IncomingCommand → List IncomingCommand × List IncomingCommand × ℕ
take_in_order number [] = ([], [], number)
take_in_order number (i ∷ is) =
    let number' =
      if ltb 0 i.fragment_count
      then u16 (i.reliable_sequence_number + (i.fragment_count - 1))
      else i.reliable_sequence_number in
    let (taken, rest, last) = take_in_order number' is in
    if ltb 0 i.fragments_remaining || not (i.reliable_sequence_number == u16 (number + 1))
    then ([], i ∷ is, number)
    else (i ∷ taken, rest, last)

-- The commands that are next in order on the channel `id`.
unfoldable pub next_in_order : ℕ → Peer → List IncomingCommand × List IncomingCommand × ℕ
next_in_order id p =
    let ch = get_channel p id in
    take_in_order ch.incoming_reliable_sequence_number ch.incoming_reliable_commands

-- They are moved to the dispatched commands.
unfoldable pub deliver : ℕ → List IncomingCommand × List IncomingCommand × ℕ → Conn → Conn
deliver id (taken, rest, number) c =
    let p : Peer = on_channel c.peer id (λ k. record k {
      incoming_reliable_sequence_number = number;
      incoming_unreliable_sequence_number = 0;
      incoming_reliable_commands = rest;
    }) in
    mark_dispatch
      (record c { peer = record p { dispatched_commands = c.peer.dispatched_commands ++ taken } })

-- `enet_peer_dispatch_incoming_reliable_commands` for the channel `id`.
unfoldable pub dispatch_reliable : ℕ → Option ℕ → Conn → Conn
dispatch_reliable id queued c =
    let next = next_in_order id c.peer in
    let delivered = deliver id next c in
    let after = dispatch_unreliable id queued delivered in
    if is_empty next.0
    then c
    else if is_empty (get_channel c.peer id).incoming_unreliable_commands
    then delivered
    else after

-- What `enet_peer_receive` returns: nothing, or the channel and the packet.
abbrev pub Received : Type 0
Received = Option (ℕ × ℕ)

-- The first of the delivered commands is taken.
abbrev pub receive_first : List IncomingCommand → Conn → Conn × Received
receive_first [] c = (c, none)
receive_first (i ∷ is) c = (
  record {
    host = record (c.host) {
      memory =
          on_packet c.host.memory i.packet
            (λ k. record k { reference_count = size_sub k.reference_count 1 });
    };
    peer = record (c.peer) {
      dispatched_commands = is;
      total_waiting_data =
          c.peer.total_waiting_data
          - enet_min c.peer.total_waiting_data (get_packet c.host.memory i.packet).data_length;
    };
  },
  some (i.command.channel_id, i.packet),
)

-- `enet_peer_receive`: the oldest dispatched command, whose reference to the packet is given up.
unfoldable pub receive : Conn → Conn × Received
receive c = receive_first c.peer.dispatched_commands c
