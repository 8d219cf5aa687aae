-- ===== src/Standing/Hosts.antt =====
-- The functions of original/host.c keep the host's counters: creation, connection and broadcast.
pub mod Shares
use enet_rs.Prelude.{
  get_or-cases, ℕ, zero, suc, ◌+◌, ◌<◌, ◌≤◌, ◌≡◌, refl, sym, ◌∙◌, subst, ap, ◌⊎◌, inl, inr, Bool,
  true, false, ◌||◌, not, Option, none, some, List, [], ◌∷◌, length, get_or, set, replicate,
  if◌then◌else◌, Bool-cases, arith, ltb, leb, ◌==◌, length-set,
}
use enet_rs.Protocol.{maximum_peer_id}
use enet_rs.Packet.{Memory, get_packet, packet_destroy}
use enet_rs.State.{
  Address, OutgoingCommand, Peer, Host, Conn, success, failure, state_is, disconnected, connected,
}
use enet_rs.World.{World, zero_peer, get_peer, focus, put_back}
use enet_rs.Peer.Outgoing.{setup_outgoing_command, get_channel}
use enet_rs.Peer.Reset.{peer_reset, reset_fields, on_disconnect}
use enet_rs.Peer.Send.{
  make_fragments, setup_all, fragment_length, whole_command, plan_fragments, send_fragments,
  peer_send,
}
use enet_rs.Host.{
  new_host, prepare_peer, prepare_peers, host_create, reset_peers, host_destroy, find_free,
  connecting_peer, connect_command, start_connecting, connect_at, host_connect, host_random,
  clamp_channels, send_to_all, host_broadcast,
}
use enet_rs.Standing.{standing, Balanced}
use enet_rs.Standing.Frames.{
  standing-path, standing-if, standing-if₂, standing-setup_outgoing_command,
  standing-queue_outgoing_command, standing-reset_queues,
}
use enet_rs.Standing.Moves.{Balanced-of, peer_reset-Balanced}
use enet_rs.Standing.Totals.{
  IsCounted, total, is_counted, is_limited, put_back-IsCounted, total-length, is_counted-few,
  is_limited-few,
}
use enet_rs.Standing.Connect.{Points, nowhere, there}

pub set-outside {ℓ} :
    {A : Type ℓ} (xs : List A) (i : ℕ) (v : A) → (i < length xs) ⊎ (set xs i v ≡ xs)
set-outside [] i v = inr refl
set-outside (x ∷ xs) zero v = inl (omega arith)
set-outside (x ∷ xs) (suc i) v = elim (set-outside xs i v) [
  | inl h ↦ inl (omega arith)
  | inr e ↦ inr (ap (λ ys. x ∷ ys) e)
]

peer_reset-disconnected : (c : Conn) → (peer_reset c).peer.state ≡ disconnected
unfolding peer_reset reset_fields standing
peer_reset-disconnected c =
    ap (λ s. s.state)
      (standing-reset_queues (record {
        host = on_disconnect c.peer c.host;
        peer = reset_fields (on_disconnect c.peer c.host) c.peer;
      }))

-- Outside the array there is no peer that counts.
outside-IsCounted :
    (w : World) (id : ℕ) (c : Conn)
    → get_or w.peers id zero_peer ≡ zero_peer
    → set w.peers id c.peer ≡ w.peers
    → c.peer.state ≡ disconnected
    → ((k j : ℕ) → Balanced k j (focus w id) → Balanced k j c)
    → IsCounted w
    → IsCounted (put_back w id c)
unfolding standing
outside-IsCounted w id c e f d keeps n =
    let few = total-length is_counted is_counted-few w.peers in
    let few' = total-length is_limited is_limited-few w.peers in
    let state : (get_peer w id).state ≡ disconnected = ap (λ p. p.state) e in
    let b = keeps w.host.connected_peers w.host.bandwidth_limited_peers (record {
      connected = ground (arith, state);
      limited = ground (arith, state);
      few_connected = omega (arith, n.connected, few, n.few);
      few_limited = omega (arith, n.limited, few', n.few);
    }) in
    record {
      connected = rw f (ground (arith, b.connected, d, n.connected));
      limited = rw f (ground (arith, b.limited, d, n.limited));
      few = rw f n.few;
    }

-- A peer that is reset, at any place.
pub reset_at-IsCounted :
    (w : World) (id : ℕ) (p : Peer)
    → p.state ≡ (get_peer w id).state
    → p.incoming_bandwidth ≡ (get_peer w id).incoming_bandwidth
    → IsCounted w
    → IsCounted (put_back w id (peer_reset (record { host = w.host; peer = p })))
reset_at-IsCounted w id p a b n =
    let c : Conn = record { host = w.host; peer = p } in
    let keeps : (k j : ℕ) → Balanced k j (focus w id) → Balanced k j (peer_reset c) = λ k j m.
      peer_reset-Balanced k j c
        (Balanced-of c (focus w id) (standing-path c (focus w id) refl refl a b) m) in
    elim (set-outside w.peers id (peer_reset c).peer) [
      | inl h ↦ put_back-IsCounted w id (peer_reset c) h keeps n
      | inr f ↦ elim (get_or-cases w.peers id zero_peer) [
        | inl h ↦ put_back-IsCounted w id (peer_reset c) h keeps n
        | inr e ↦ outside-IsCounted w id (peer_reset c) e f (peer_reset-disconnected c) keeps n
      ]
    ]

prepare_peers-IsCounted :
    (left id : ℕ) (w : World) → IsCounted w → IsCounted (prepare_peers left id w)
unfolding prepare_peers
prepare_peers-IsCounted zero id w n = n
prepare_peers-IsCounted (suc left) id w n =
    prepare_peers-IsCounted left (id + 1) _ (reset_at-IsCounted w id _ refl refl n)

total-replicate : (f : Peer → ℕ) (n : ℕ) → f zero_peer ≡ 0 → total f (replicate n zero_peer) ≡ 0
total-replicate f zero e = refl
total-replicate f (suc n) e = omega (arith, e, total-replicate f n e)

length-replicate : (n : ℕ) → length (replicate n zero_peer) ≡ n
length-replicate zero = refl
length-replicate (suc n) = ap suc (length-replicate n)

-- A property of what may be made.
pub data Made {ℓ} {A : Type ℓ} (good : A → Type 0) : Option A → Type ℓ where
  not_made : Made good none
  made : (a : A) → good a → Made good (some a)

-- A host that `enet_host_create` makes, with any number of peers that it allows and any limits, has its
-- counters right: they are the numbers of its connected peers and of those with a limited bandwidth.
pub host_create-IsCounted :
    (seed : ℕ) (m : Memory) (peer_count channel_limit incoming outgoing : ℕ)
    → Made IsCounted (host_create seed m peer_count channel_limit incoming outgoing)
unfolding host_create
host_create-IsCounted seed m peer_count channel_limit incoming outgoing =
    elim (Bool-cases (ltb maximum_peer_id peer_count)) [
      | inl e ↦ rw e not_made
      | inr e ↦ rw e (
          made _ (
            prepare_peers-IsCounted peer_count 0 _ (record {
              connected = sym (total-replicate is_counted peer_count refl);
              limited = sym (total-replicate is_limited peer_count refl);
              few = let l = length-replicate peer_count in ground (arith, l, e);
            })))
    ]

reset_peers-IsCounted : (left id : ℕ) (w : World) → IsCounted w → IsCounted (reset_peers left id w)
unfolding reset_peers
reset_peers-IsCounted zero id w n = n
reset_peers-IsCounted (suc left) id w n =
    reset_peers-IsCounted left (id + 1) _ (reset_at-IsCounted w id _ refl refl n)

pub host_destroy-IsCounted : (w : World) → IsCounted w → IsCounted (host_destroy w)
unfolding host_destroy
host_destroy-IsCounted w n = reset_peers-IsCounted w.host.peer_count 0 w n

-- The peer that `enet_host_connect` finds is in the array, and disconnected.
pub record IsFreeAt (ps : List Peer) (start id : ℕ) : Type 0 where
  pub place : ℕ
  pub here : id ≡ start + place
  pub inside : place < length ps
  pub free : state_is (get_or ps place zero_peer).state disconnected ≡ true

find_free-Points : (ps : List Peer) (start : ℕ) → Points (IsFreeAt ps start) (find_free ps start)
unfolding find_free
find_free-Points [] start = nowhere
find_free-Points (p ∷ ps) start = elim (Bool-cases (state_is p.state disconnected)) [
  | inl e ↦
      rw e (there start (record { place = 0; here = omega arith; inside = omega arith; free = e }))
  | inr e ↦ rw e (behind (find_free ps (start + 1)) (find_free-Points ps (start + 1)))
]
  where
    behind :
        (o : Option ℕ) → Points (IsFreeAt ps (start + 1)) o → Points (IsFreeAt (p ∷ ps) start) o
    behind none q = nowhere
    behind (some id) (there _ f) = there id (record {
      place = suc f.place;
      here = omega (arith, f.here);
      inside = omega (arith, f.inside);
      free = f.free;
    })

connecting_peer-Balanced :
    (k j : ℕ) (address : Address) (channel_count connect_id seed : ℕ) (c : Conn)
    → state_is c.peer.state disconnected ≡ true
    → Balanced k j c
    → Balanced k j (record {
      host = record (c.host) { random_seed = seed };
      peer =
          connecting_peer address channel_count connect_id
            (record (c.host) { random_seed = seed })
            c.peer;
    })
unfolding connecting_peer standing
connecting_peer-Balanced k j address channel_count connect_id seed c h b = ground arith

start_connecting-Balanced :
    (k j : ℕ) (address : Address) (channel_count code : ℕ) (c : Conn)
    → state_is c.peer.state disconnected ≡ true
    → Balanced k j c
    → Balanced k j (start_connecting address channel_count code c)
unfolding start_connecting
start_connecting-Balanced k j address channel_count code c h b =
    let drawn = host_random c.host.random_seed in
    Balanced-of _ _ (standing-queue_outgoing_command _ none 0 0 _)
      (connecting_peer-Balanced k j address channel_count drawn.0 drawn.1 c h b)

connect_at-IsCounted :
    (address : Address) (channel_count code : ℕ) (w : World) (place : Option ℕ)
    → Points (IsFreeAt w.peers 0) place
    → IsCounted w
    → IsCounted (connect_at address channel_count code w place).0
connect_at-IsCounted address channel_count code w none q n = n
connect_at-IsCounted address channel_count code w (some id) (there _ f) n =
    let same : f.place ≡ id = omega (arith, f.here) in
    put_back-IsCounted w id _ (omega (arith, same, f.inside))
      (λ k j b.
        start_connecting-Balanced k j address channel_count code (focus w id)
          (subst (λ i. state_is (get_or w.peers i zero_peer).state disconnected ≡ true) same f.free)
          b)
      n

-- Asking for a connection keeps the host's counters right, whether a free peer is found or not.
pub host_connect-IsCounted :
    (address : Address) (channel_count code : ℕ) (w : World)
    → IsCounted w
    → IsCounted (host_connect address channel_count code w).0
unfolding host_connect
host_connect-IsCounted address channel_count code w n =
    connect_at-IsCounted address (clamp_channels channel_count) code w _
      (find_free-Points w.peers 0) n

standing-setup_all : (os : List OutgoingCommand) (c : Conn) → standing (setup_all os c) ≡ standing c
unfolding setup_all
standing-setup_all [] c = refl
standing-setup_all (o ∷ os) c = standing-setup_all os _ ∙ standing-setup_outgoing_command o c

standing-send_fragments :
    (id packet : ℕ) (c : Conn) → standing (send_fragments id packet c).0 ≡ standing c
unfolding send_fragments
standing-send_fragments id packet c =
    standing-if₂ _ (c, failure) _ c refl
      (standing-setup_all _ _ ∙ standing-path _ c refl refl refl refl)

standing-peer_send : (id packet : ℕ) (c : Conn) → standing (peer_send id packet c).0 ≡ standing c
unfolding peer_send
standing-peer_send id packet c =
    standing-if₂ _ (c, failure) _ c refl
      (standing-if₂ _ (send_fragments id packet c) _ c (standing-send_fragments id packet c)
        (standing-queue_outgoing_command _ (some packet) 0 _ c))

World-if : (t : Bool) (v w : World) → IsCounted v → IsCounted w → IsCounted (if t then v else w)
World-if true v w p q = p
World-if false v w p q = q

send_to_all-IsCounted :
    (left id channel packet : ℕ) (w : World)
    → IsCounted w
    → IsCounted (send_to_all left id channel packet w)
unfolding send_to_all
send_to_all-IsCounted zero id channel packet w n = n
send_to_all-IsCounted (suc left) id channel packet w n =
    send_to_all-IsCounted left (id + 1) channel packet _ (elim (get_or-cases w.peers id zero_peer) [
      | inr e ↦ rw e n
      | inl h ↦
          World-if (state_is (get_peer w id).state connected) _ w
            (put_back-IsCounted w id _ h
              (λ k j b.
                Balanced-of _ (focus w id) (standing-peer_send channel packet (focus w id)) b)
              n)
            n
    ])

-- A change of the host that leaves its two counters alone.
pub host-IsCounted :
    (w : World) (h : Host)
    → h.connected_peers ≡ w.host.connected_peers
    → h.bandwidth_limited_peers ≡ w.host.bandwidth_limited_peers
    → IsCounted w
    → IsCounted (record w { host = h })
host-IsCounted w h a b n = record {
  connected = a ∙ n.connected;
  limited = b ∙ n.limited;
  few = n.few;
}

pub host_broadcast-IsCounted :
    (channel packet : ℕ) (w : World) → IsCounted w → IsCounted (host_broadcast channel packet w)
unfolding host_broadcast
host_broadcast-IsCounted channel packet w n =
    let n' = send_to_all-IsCounted w.host.peer_count 0 channel packet w n in
    let w' = send_to_all w.host.peer_count 0 channel packet w in
    let h : Host = record (w'.host) { memory = packet_destroy packet w'.host.memory } in
    World-if ((get_packet w'.host.memory packet).reference_count == 0) (record w' { host = h }) w'
      (host-IsCounted w' h refl refl n') n'
