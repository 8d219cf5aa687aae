-- ===== src/Standing/Datagram.antt =====
-- Datagrams keep the host's counters: `enet_protocol_handle_incoming_commands` of
-- original/protocol.c.
use enet_rs.Prelude.{
  true, false, get_or-cases, ℕ, ◌<◌, ◌≡◌, refl, Option, none, some, List, length, drop, Bool-cases,
  inl, inr, ltb, leb, ◌==◌,
}
use enet_rs.Protocol.{maximum_peer_id}
use enet_rs.State.{Peer, Host}
use enet_rs.World.{World, zero_peer, get_peer, focus}
use enet_rs.Handle.Notify.{Event}
use enet_rs.Handle.Datagram.{
  Callbacks, Header, Sender, dropped, known, decode_header, find_sender, is_foreign, note_received,
  handle_plain, handle_from, is_some, checks_out, expected_id, handle_incoming_commands,
}
use enet_rs.Standing.Frames.{standing-path}
use enet_rs.Standing.Moves.{Balanced-of}
use enet_rs.Standing.Totals.{IsCounted}
use enet_rs.Standing.Connect.{Points, nowhere, there, inside_of, IsSound}
use enet_rs.Standing.Loop.{put_back-IsSound, Sound-go_on, run_commands-IsSound}

note_received-IsSound :
    (peer : Option ℕ) (count : ℕ) (w : World)
    → IsSound w peer
    → IsSound (note_received peer count w) peer
note_received-IsSound none count w n = n
note_received-IsSound (some id) count w n =
    put_back-IsSound w id _ (inside_of n.present)
      (λ k j b. Balanced-of _ (focus w id) (standing-path _ (focus w id) refl refl refl refl) b)
      n.counted

handle_plain-IsCounted :
    (cb : Callbacks) (header : Header) (peer : Option ℕ) (event : Option Event)
    (bytes : Option (List ℕ)) (w : World)
    → IsSound w peer
    → IsCounted (handle_plain cb header peer event bytes w).world
unfolding handle_plain
handle_plain-IsCounted cb header peer event none w n = n.counted
handle_plain-IsCounted cb header peer event (some bytes) w n =
    (Sound-go_on (checks_out cb.checksum header.size (expected_id w peer) bytes) _
      (record { world = w; peer = peer; event = event })
      (run_commands-IsSound (length bytes) header.sent_time (drop header.size bytes) _
        (note_received-IsSound peer (length bytes) w n))
      n).counted

data Sends (w : World) : Sender → Type 0 where
  sends_dropped : Sends w dropped
  sends : (peer : Option ℕ) → Points (λ id. id < length w.peers) peer → Sends w (known peer)

-- A place without a peer is no sender.
zero_peer-is_foreign :
    (header : Header) (h : Host) (p : Peer) → p ≡ zero_peer → is_foreign header h p ≡ true
unfolding is_foreign
zero_peer-is_foreign header h p e = rw e refl

sender_inside :
    (header : Header) (w : World)
    → is_foreign header w.host (get_peer w header.peer_id) ≡ false
    → header.peer_id < length w.peers
sender_inside header w c = elim (get_or-cases w.peers header.peer_id zero_peer) [
  | inl h ↦ h
  | inr e ↦ absurd (cc (zero_peer-is_foreign header w.host (get_peer w header.peer_id) e, c))
]

find_sender-Sends : (header : Header) (w : World) → Sends w (find_sender header w)
unfolding find_sender
find_sender-Sends header w = elim (Bool-cases (header.peer_id == maximum_peer_id)) [
  | inl a ↦ rw a (sends none nowhere)
  | inr a ↦ rw a (elim (Bool-cases (leb w.host.peer_count header.peer_id)) [
    | inl b ↦ rw b sends_dropped
    | inr b ↦ rw b (elim (Bool-cases (is_foreign header w.host (get_peer w header.peer_id))) [
      | inl c ↦ rw c sends_dropped
      | inr c ↦ rw c (sends (some header.peer_id) (there header.peer_id (sender_inside header w c)))
    ])
  ])
]

handle_from-IsCounted :
    (cb : Callbacks) (header : Header) (event : Option Event) (bytes : List ℕ) (w : World)
    (s : Sender)
    → Sends w s
    → IsCounted w
    → IsCounted (handle_from cb header event bytes w s).world
handle_from-IsCounted cb header event bytes w dropped f n = n
handle_from-IsCounted cb header event bytes w (known peer) (sends _ f) n =
    handle_plain-IsCounted cb header peer event _ w (record { counted = n; present = f })

-- Where the host's counters say how many of its peers are connected and how many of those have a
-- limited incoming bandwidth, and the number of its peers is below 4096, they say so after any
-- datagram was handled, whatever its bytes and whatever the user's callbacks.
pub handle_incoming_commands-IsCounted :
    (cb : Callbacks) (event : Option Event) (bytes : List ℕ) (w : World)
    → IsCounted w
    → IsCounted (handle_incoming_commands cb event bytes w).world
unfolding handle_incoming_commands
handle_incoming_commands-IsCounted cb event bytes w n = elim (Bool-cases (ltb (length bytes) 2)) [
  | inl a ↦ rw a n
  | inr a ↦ rw a (
      handle_from-IsCounted cb _ event bytes w _
        (find_sender-Sends (decode_header (is_some cb.checksum) bytes) w) n)
]
