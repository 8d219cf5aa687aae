-- ===== src/Host/Fresh.antt =====
-- The peers of a host that `enet_host_create` of original/host.c has made.
use enet_rs.Prelude.{
  ℕ, zero, suc, ◌+◌, ◌<◌, ◌≤◌, ◌≡◌, refl, sym, ◌∙◌, subst, false, length, length-replicate,
  length-set, get_or-set_self, get_or-set_ne, Bool-cases, inl, inr, ltb, ◌==◌, arith,
}
use enet_rs.Protocol.{maximum_peer_id}
use enet_rs.Packet.{Memory}
use enet_rs.State.{Peer, Conn, disconnected}
use enet_rs.World.{World, zero_peer, get_peer, focus, put_back}
use enet_rs.Peer.Reset.{reset_fields, reset_queues, leave_dispatch_queue, peer_reset}
use enet_rs.Host.{prepare_peer, prepare_peers, host_create}
use enet_rs.Standing.Hosts.{Made, not_made, made}

-- The peer at the place of this number, as nothing has used it yet.
pub record IsFresh (id : ℕ) (p : Peer) : Type 0 where
  pub place : p.incoming_peer_id ≡ id
  pub state : p.state ≡ disconnected
  pub unknown : p.outgoing_peer_id ≡ maximum_peer_id
  pub outgoing_session : p.outgoing_session_id ≡ 0xff
  pub incoming_session : p.incoming_session_id ≡ 0xff
  pub no_dispatch : p.needs_dispatch ≡ false

pub record AllFresh (n : ℕ) (w : World) : Type 0 where
  pub count : length w.peers ≡ n
  pub few : n ≤ maximum_peer_id
  pub fresh : (i : ℕ) → i < n → IsFresh i (get_peer w i)

peer_reset-IsFresh :
    (id : ℕ) (c : Conn) → IsFresh id (peer_reset (record c { peer = prepare_peer id c.peer })).peer
unfolding peer_reset reset_fields reset_queues leave_dispatch_queue
peer_reset-IsFresh id c = record {
  place = refl;
  state = refl;
  unknown = refl;
  outgoing_session = refl;
  incoming_session = refl;
  no_dispatch = refl;
}

put_back-IsFresh :
    (w : World) (id i : ℕ) (c : Conn)
    → id < length w.peers
    → IsFresh id c.peer
    → (i < id → IsFresh i (get_peer w i))
    → i < id + 1
    → IsFresh i (get_peer (put_back w id c) i)
put_back-IsFresh w id i c h f old l = elim (Bool-cases (id == i)) [
  | inl e ↦
      let same : id ≡ i = ground arith in
      subst (λ j. IsFresh j (get_peer (put_back w id c) j)) same
        (subst (IsFresh id) (sym (get_or-set_self w.peers id c.peer zero_peer h)) f)
  | inr n ↦
      subst (IsFresh i) (sym (get_or-set_ne w.peers id i c.peer zero_peer (ground arith)))
        (old (ground arith))
]

prepare_peers-length :
    (left id : ℕ) (w : World) → length (prepare_peers left id w).peers ≡ length w.peers
unfolding prepare_peers
prepare_peers-length zero id w = refl
prepare_peers-length (suc left) id w =
    prepare_peers-length left (id + 1) _ ∙ length-set w.peers id _

prepare_peers-IsFresh :
    (left id : ℕ) (w : World)
    → length w.peers ≡ id + left
    → ((i : ℕ) → i < id → IsFresh i (get_peer w i))
    → (i : ℕ) → i < id + left
    → IsFresh i (get_peer (prepare_peers left id w) i)
unfolding prepare_peers
prepare_peers-IsFresh zero id w n old i h = old i (omega (arith, h))
prepare_peers-IsFresh (suc left) id w n old i h =
    let c = peer_reset (record (focus w id) { peer = prepare_peer id (get_peer w id) }) in
    prepare_peers-IsFresh left (id + 1) (put_back w id c)
      (omega (arith, n, length-set w.peers id c.peer))
      (λ j l.
        put_back-IsFresh w id j c (omega (arith, n)) (peer_reset-IsFresh id (focus w id)) (old j) l)
      i (omega (arith, h))

-- A host that `enet_host_create` makes has as many peers as it was asked for, at most 4095, and each of
-- them has its place in the array as its id, is disconnected, does not know its id at the other side,
-- has both session ids at 255, and is not marked for dispatch.
pub host_create-AllFresh :
    (seed : ℕ) (m : Memory) (peer_count channel_limit incoming outgoing : ℕ)
    → Made (AllFresh peer_count) (host_create seed m peer_count channel_limit incoming outgoing)
unfolding host_create
host_create-AllFresh seed m peer_count channel_limit incoming outgoing =
    elim (Bool-cases (ltb maximum_peer_id peer_count)) [
      | inl e ↦ rw e not_made
      | inr e ↦ rw e (
          made _ (record {
            count = prepare_peers-length peer_count 0 _ ∙ length-replicate peer_count zero_peer;
            few = ground arith;
            fresh = λ i h.
                prepare_peers-IsFresh peer_count 0 _
                  (omega (arith, length-replicate peer_count zero_peer))
                  (λ j l. absurd (omega arith)) i (omega (arith, h));
          }))
    ]
