-- ===== src/Handle/Datagram.antt =====
-- A datagram, of original/protocol.c: `enet_protocol_handle_incoming_commands`. The
-- compressor and the checksum are the user's, and so arguments.
use enet_rs.Prelude.{
  ℕ, ◌+◌, ◌-◌, ◌/◌, ◌%◌, Bool, true, false, not, ◌&&◌, ◌||◌, Option, none, some, List, ◌++◌, length,
  take, drop, ltb, leb, ◌==◌, if◌then◌else◌, u32,
}
use enet_rs.Protocol.{maximum_peer_id, maximum_mtu}
use enet_rs.Wire.{field16, field32, put32}
use enet_rs.State.{Peer, Host, disconnected, zombie, state_is}
use enet_rs.World.{World, get_peer, put_back}
use enet_rs.Handle.Notify.{Event}
use enet_rs.Handle.Commands.{Progress, run_commands}

-- The callbacks of the host's user.
pub record Callbacks : Type 0 where
  pub compress : Option (List ℕ → List ℕ)
  pub decompress : Option (List ℕ → List ℕ)
  pub checksum : Option (List ℕ → ℕ)

-- The header: `flags` are the bits for a sent time and for compression.
pub record Header : Type 0 where
  pub peer_id : ℕ
  pub session_id : ℕ
  pub is_compressed : Bool
  pub sent_time : Option ℕ
  pub size : ℕ

unfoldable pub decode_header : Bool → List ℕ → Header
decode_header has_checksum bytes =
    let word = field16 bytes 0 in
    let has_sent_time = word / 32768 % 2 == 1 in
    record {
      peer_id = word % 4096;
      session_id = word / 4096 % 4;
      is_compressed = word / 16384 % 2 == 1;
      sent_time = if has_sent_time then some (field16 bytes 2) else none;
      size = (if has_sent_time then 4 else 2) + (if has_checksum then 4 else 0);
    }

-- The datagram does not come from the peer whose id it carries.
unfoldable pub is_foreign : Header → Host → Peer → Bool
is_foreign header h p =
    state_is p.state disconnected
    || state_is p.state zombie
    || not (h.received_address.ip == p.address.ip && h.received_address.port == p.address.port)
      && not (p.address.ip == 0xffffffff)
    || ltb p.outgoing_peer_id maximum_peer_id && not (header.session_id == p.incoming_session_id)

-- The peer of a datagram: none yet, or the one with its id; or the datagram is dropped.
pub data Sender : Type 0 where
  dropped : Sender
  known : Option ℕ → Sender

unfoldable pub find_sender : Header → World → Sender
find_sender header w =
    if header.peer_id == maximum_peer_id
    then known none
    else if leb w.host.peer_count header.peer_id
    then dropped
    else if is_foreign header w.host (get_peer w header.peer_id)
    then dropped
    else known (some header.peer_id)

-- The datagram, decompressed behind its header if need be.
abbrev pub decompress_with : Option (List ℕ → List ℕ) → ℕ → List ℕ → Option (List ℕ)
decompress_with none size bytes = none
decompress_with (some f) size bytes =
    let original = f (drop size bytes) in
    if leb (length original) 0 || ltb (maximum_mtu - size) (length original)
    then none
    else some (take size bytes ++ original)

unfoldable pub plain_bytes : Callbacks → Header → List ℕ → Option (List ℕ)
plain_bytes cb header bytes =
    if header.is_compressed then decompress_with cb.decompress header.size bytes else some bytes

abbrev pub expected_id : World → Option ℕ → ℕ
expected_id w none = 0
expected_id w (some id) = (get_peer w id).connect_id

-- The checksum, with the connect id in its place, is the one that was sent.
abbrev pub checks_out : Option (List ℕ → ℕ) → ℕ → ℕ → List ℕ → Bool
checks_out none size connect_id bytes = true
checks_out (some f) size connect_id bytes =
    f (take (size - 4) bytes ++ put32 connect_id (drop size bytes)) == field32 bytes (size - 4)

-- The address and the data that were received are noted.
abbrev pub note_received : Option ℕ → ℕ → World → World
note_received none count w = w
note_received (some id) count w = put_back w id (record {
  host = w.host;
  peer = record (get_peer w id) {
    address = w.host.received_address;
    incoming_data_total = u32 ((get_peer w id).incoming_data_total + count);
  };
})

unfoldable pub handle_plain :
    Callbacks → Header → Option ℕ → Option Event → Option (List ℕ) → World → Progress
handle_plain cb header peer event none w = record { world = w; peer = peer; event = event }
handle_plain cb header peer event (some bytes) w =
    let commands = drop header.size bytes in
    let done =
      run_commands (length bytes) header.sent_time commands
        (record { world = note_received peer (length bytes) w; peer = peer; event = event }) in
    if checks_out cb.checksum header.size (expected_id w peer) bytes
    then done
    else record { world = w; peer = peer; event = event }

abbrev pub handle_from : Callbacks → Header → Option Event → List ℕ → World → Sender → Progress
handle_from cb header event bytes w dropped = record { world = w; peer = none; event = event }
handle_from cb header event bytes w (known peer) =
    handle_plain cb header peer event (plain_bytes cb header bytes) w

abbrev pub is_some {ℓ} : {A : Type ℓ} → Option A → Bool
is_some none = false
is_some (some _) = true

-- `enet_protocol_handle_incoming_commands`. (It returns 1 if the event has a type then.)
unfoldable pub handle_incoming_commands : Callbacks → Option Event → List ℕ → World → Progress
handle_incoming_commands cb event bytes w =
    let header = decode_header (is_some cb.checksum) bytes in
    if ltb (length bytes) 2
    then record { world = w; peer = none; event = event }
    else handle_from cb header event bytes w (find_sender header w)
