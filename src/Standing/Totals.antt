-- ===== src/Standing/Totals.antt =====
-- Sums over the peers of a host: the counters of original/include/enet/enet.h's `ENetHost` as counts
-- of its peers, and what a change of one peer does to them.
use enet_rs.Prelude.{
  ℕ, zero, suc, ◌+◌, ◌<◌, ◌≤◌, ◌≡◌, ◌∙◌, sym, List, [], ◌∷◌, length, get_or, set, length-set, arith,
}
use enet_rs.State.{Peer, Conn}
use enet_rs.World.{World, zero_peer, focus, put_back}
use enet_rs.Standing.{Balanced, standing, connected_part, limited_part}

abbrev pub total : (Peer → ℕ) → List Peer → ℕ
total f [] = 0
total f (p ∷ ps) = f p + total f ps

-- The sum without the peer at a place.
abbrev without : (Peer → ℕ) → ℕ → List Peer → ℕ
without f i [] = 0
without f zero (p ∷ ps) = total f ps
without f (suc i) (p ∷ ps) = f p + without f i ps

total-get :
    (f : Peer → ℕ) (ps : List Peer) (i : ℕ)
    → i < length ps
    → total f ps ≡ without f i ps + f (get_or ps i zero_peer)
total-get f [] i h = absurd (omega arith)
total-get f (p ∷ ps) zero h = omega arith
total-get f (p ∷ ps) (suc i) h = omega (arith, total-get f ps i (omega arith))

total-set :
    (f : Peer → ℕ) (ps : List Peer) (i : ℕ) (p : Peer)
    → i < length ps
    → total f (set ps i p) ≡ without f i ps + f p
total-set f [] i q h = absurd (omega arith)
total-set f (p ∷ ps) zero q h = omega arith
total-set f (p ∷ ps) (suc i) q h = omega (arith, total-set f ps i q (omega arith))

pub total-length :
    (f : Peer → ℕ) → ((p : Peer) → f p ≤ 1) → (ps : List Peer) → total f ps ≤ length ps
total-length f few [] = omega arith
total-length f few (p ∷ ps) = omega (arith, few p, total-length f few ps)

abbrev pub is_counted : Peer → ℕ
is_counted p = connected_part p.state

abbrev pub is_limited : Peer → ℕ
is_limited p = limited_part p.state p.incoming_bandwidth

pub is_counted-few : (p : Peer) → is_counted p ≤ 1
is_counted-few p = ground arith

pub is_limited-few : (p : Peer) → is_limited p ≤ 1
is_limited-few p = ground arith

-- The counters of a host are the numbers of its connected peers, and of those among them whose
-- incoming bandwidth is limited; and it has no more peers than `enet_host_create` allows.
pub record IsCounted (w : World) : Type 0 where
  pub connected : w.host.connected_peers ≡ total is_counted w.peers
  pub limited : w.host.bandwidth_limited_peers ≡ total is_limited w.peers
  pub few : length w.peers < 4096

focus-Balanced :
    (w : World) (id : ℕ)
    → id < length w.peers
    → IsCounted w
    → Balanced (without is_counted id w.peers) (without is_limited id w.peers) (focus w id)
unfolding standing
focus-Balanced w id h n = record {
  connected = n.connected ∙ total-get is_counted w.peers id h;
  limited = n.limited ∙ total-get is_limited w.peers id h;
  few_connected = omega (
    arith,
    total-get is_counted w.peers id h,
    total-length is_counted is_counted-few w.peers,
    n.few,
  );
  few_limited = omega (
    arith,
    total-get is_limited w.peers id h,
    total-length is_limited is_limited-few w.peers,
    n.few,
  );
}

put_back-Counted :
    (w : World) (id : ℕ) (c : Conn)
    → id < length w.peers
    → length w.peers < 4096
    → Balanced (without is_counted id w.peers) (without is_limited id w.peers) c
    → IsCounted (put_back w id c)
unfolding standing
put_back-Counted w id c h few b = record {
  connected = b.connected ∙ sym (total-set is_counted w.peers id c.peer h);
  limited = b.limited ∙ sym (total-set is_limited w.peers id c.peer h);
  few = omega (arith, length-set w.peers id c.peer, few);
}

-- A change of one peer that keeps the balance keeps the counts.
pub put_back-IsCounted :
    (w : World) (id : ℕ) (c : Conn)
    → id < length w.peers
    → ((k j : ℕ) → Balanced k j (focus w id) → Balanced k j c)
    → IsCounted w
    → IsCounted (put_back w id c)
put_back-IsCounted w id c h keeps n =
    put_back-Counted w id c h n.few (keeps _ _ (focus-Balanced w id h n))
