-- ===== src/Standing/Connect.antt =====
-- A CONNECT keeps the host's counters: `enet_protocol_handle_connect` of original/protocol.c.
use enet_rs.Prelude.{
  ℕ, suc, ◌+◌, ◌<◌, ◌≡◌, subst, Bool, true, false, Option, none, some, List, [], ◌∷◌, length,
  get_or, length-set, arith, Bool-cases, inl, inr, ◌&&◌, ◌||◌, not, ltb, leb, if◌then◌else◌,
}
use enet_rs.Protocol.{Connect, minimum_channel_count, maximum_channel_count}
use enet_rs.State.{PeerState, Peer, Host, Conn, state_is, disconnected, is_connected}
use enet_rs.World.{World, zero_peer, get_peer, focus}
use enet_rs.Handle.Connect.{
  Scan, same_connection, candidates, is_duplicate, is_same, first_of, scan_peers, set_up_peer,
  open_connection, accept_candidate, handle_connect,
}
use enet_rs.Handle.Verify.{lower}
use enet_rs.Standing.{standing, Balanced}
use enet_rs.Standing.Frames.{standing-queue_outgoing_command}
use enet_rs.Standing.Moves.{Balanced-of}
use enet_rs.Standing.Totals.{IsCounted, put_back-IsCounted}

-- A property of the id that a pointer stands for, unless it is NULL.
pub data Points (good : ℕ → Type 0) : Option ℕ → Type 0 where
  nowhere : Points good none
  there : (id : ℕ) → good id → Points good (some id)

pub inside_of : {n id : ℕ} → Points (λ k. k < n) (some id) → id < n
inside_of (there _ h) = h

data Finds (good : ℕ → Type 0) : Scan → Type 0 where
  finds_same : Finds good same_connection
  finds :
      (free : Option ℕ) (duplicates : ℕ)
      → Points good free
      → Finds good (candidates free duplicates)

Finds-if :
    (good : ℕ → Type 0) (t : Bool) (a b : Scan)
    → Finds good a
    → Finds good b
    → Finds good (if t then a else b)
Finds-if good true a b p q = p
Finds-if good false a b p q = q

first_free :
    (good : ℕ → Type 0) (p : Peer) (place : ℕ) (free : Option ℕ)
    → (state_is p.state disconnected ≡ true → good place)
    → Points good free
    → Points good (if state_is p.state disconnected then first_of free place else free)
first_free good p place free g f = elim (Bool-cases (state_is p.state disconnected)) [
  | inr e ↦ rw e f
  | inl e ↦ rw e (first free (g e) f)
]
  where
    first : (free : Option ℕ) → good place → Points good free → Points good (first_of free place)
    first none g f = there place g
    first (some id) g f = f

-- The loop over the peers gives a place with a disconnected peer.
scan_peers-Finds :
    (good : ℕ → Type 0) (h : Host) (connect_id : ℕ) (ps : List Peer) (place : ℕ) (free : Option ℕ)
    (duplicates : ℕ)
    → ((i : ℕ)
        → i < length ps
        → state_is (get_or ps i zero_peer).state disconnected ≡ true
        → good (place + i))
    → Points good free
    → Finds good (scan_peers h connect_id ps place free duplicates)
unfolding scan_peers
scan_peers-Finds good h connect_id [] place free duplicates g f = finds free duplicates f
scan_peers-Finds good h connect_id (p ∷ ps) place free duplicates g f =
    Finds-if good
      (not (state_is p.state disconnected) && is_duplicate h p && is_same h connect_id p)
      same_connection _ finds_same
      (scan_peers-Finds good h connect_id ps (place + 1) _ _
        (λ i l e.
          subst good (let q : place + suc i ≡ place + 1 + i = omega arith in q)
            (g (suc i) (omega arith) e))
        (first_free good p place free
          (λ e. subst good (let q : place + 0 ≡ place = omega arith in q) (g 0 (omega arith) e)) f))

-- A peer that is not connected is set up for a connection, in a state that is not counted either.
set_up_peer-Balanced :
    (k j : ℕ) (x : Connect) (n : ℕ) (c : Conn)
    → is_connected c.peer.state ≡ false
    → Balanced k j c
    → Balanced k j (record c { peer = set_up_peer c.host x n c.peer })
unfolding set_up_peer standing
set_up_peer-Balanced k j x n c h b = ground arith

state_is-disconnected : (s : PeerState) → state_is s disconnected ≡ true → is_connected s ≡ false
state_is-disconnected s h = ground arith

-- A place in the array of peers, with a disconnected peer.
record IsFree (w : World) (id : ℕ) : Type 0 where
  inside : id < length w.peers
  free : is_connected (get_peer w id).state ≡ false

open_connection-IsCounted :
    (x : Connect) (place : ℕ) (w : World)
    → IsFree w place
    → IsCounted w
    → IsCounted (open_connection x place w)
unfolding open_connection
open_connection-IsCounted x place w f n =
    put_back-IsCounted w place _ f.inside
      (λ k j b. Balanced-of _ _ (standing-queue_outgoing_command _ none 0 0 _) (
        set_up_peer-Balanced k j x (lower w.host.channel_limit x.channel_count) (focus w place)
          f.free b))
      n

open_connection-length :
    (x : Connect) (place : ℕ) (w : World)
    → length (open_connection x place w).peers ≡ length w.peers
unfolding open_connection
open_connection-length x place w = length-set w.peers place _

-- What the handling of a datagram keeps: the counters are right, and the peer is one of the array.
pub record IsSound (w : World) (peer : Option ℕ) : Type 0 where
  pub counted : IsCounted w
  pub present : Points (λ id. id < length w.peers) peer

accept_candidate-IsSound :
    (x : Connect) (s : Scan) (w : World)
    → Finds (IsFree w) s
    → IsCounted w
    → IsSound (accept_candidate x s w).0 (accept_candidate x s w).1
accept_candidate-IsSound x same_connection w f n = record { counted = n; present = nowhere }
accept_candidate-IsSound x (candidates none d) w f n = record { counted = n; present = nowhere }
accept_candidate-IsSound x (candidates (some place) d) w (finds _ _ (there _ f)) n =
    elim (Bool-cases (leb w.host.duplicate_peers d)) [
      | inl e ↦ rw e (record { counted = n; present = nowhere })
      | inr e ↦ rw e (record {
        counted = open_connection-IsCounted x place w f n;
        present = there place (omega (arith, open_connection-length x place w, f.inside));
      })
    ]

pub handle_connect-IsSound :
    (x : Connect) (w : World) → IsCounted w → IsSound (handle_connect x w).0 (handle_connect x w).1
unfolding handle_connect
handle_connect-IsSound x w n =
    elim (Bool-cases
      (ltb x.channel_count minimum_channel_count || ltb maximum_channel_count x.channel_count)) [
        | inl e ↦ rw e (record { counted = n; present = nowhere })
        | inr e ↦ rw e (
            accept_candidate-IsSound x (scan_peers w.host x.connect_id w.peers 0 none 0) w
              (scan_peers-Finds (IsFree w) w.host x.connect_id w.peers 0 none 0
                (λ i l d.
                  subst (IsFree w) (let q : i ≡ 0 + i = omega arith in q)
                    (record { inside = l; free = state_is-disconnected _ d }))
                nowhere)
              n)
      ]
