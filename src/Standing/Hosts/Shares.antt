-- ===== src/Standing/Hosts/Shares.antt =====
-- The shares of the bandwidth leave the host's counters as they are: `enet_host_bandwidth_throttle` of
-- original/host.c.
use enet_rs.Prelude.{
  get_or-cases, ℕ, zero, suc, ◌+◌, ◌≡◌, refl, sym, ◌∙◌, Bool, true, false, not, ◌||◌, ◌&&◌, ◌/◌,
  none, List, [], ◌∷◌, length, map, if◌then◌else◌, Bool-cases, inl, inr, arith, ltb, ◌==◌, u32,
  sub32,
}
use enet_rs.State.{Peer, Host, is_connected, bandwidth_throttle_interval}
use enet_rs.World.{World, zero_peer, get_peer, focus}
use enet_rs.Host.Bandwidth.{
  Shares, front, is_settled, is_satisfied, scaled, limit_throttle, limit_peer, limit_round,
  limit_rounds, share_throttle, share_rest, share_out, keeps_share, give_up_round, give_up_rounds,
  tell_limits, limit_command, recalculate, start_shares, share_bandwidth, host_bandwidth_throttle,
}
use enet_rs.Standing.{connected_part, limited_part}
use enet_rs.Standing.Frames.{standing-queue_outgoing_command}
use enet_rs.Standing.Moves.{Balanced-of}
use enet_rs.Standing.Totals.{IsCounted, total, is_counted, is_limited, put_back-IsCounted}
use enet_rs.Standing.Sending.{Alike, Alike-if}

-- The sums over two arrays of peers are the same.
abbrev SameTotals : List Peer → List Peer → Type 0
SameTotals ps qs =
    (total is_counted ps ≡ total is_counted qs)
    × (total is_limited ps ≡ total is_limited qs)
    × (length ps ≡ length qs)

SameTotals-front :
    (p q : Peer) (ps qs : List Peer) → Alike p q → SameTotals ps qs → SameTotals (p ∷ ps) (q ∷ qs)
SameTotals-front p q ps qs (a, b) (c, d, e) =
    ((λ i. connected_part (a i) + c i), (λ i. limited_part (a i) (b i) + d i), (λ i. suc (e i)))

SameTotals-trans : (ps qs rs : List Peer) → SameTotals ps qs → SameTotals qs rs → SameTotals ps rs
SameTotals-trans ps qs rs (a, b, c) (d, e, f) = (a ∙ d, b ∙ e, c ∙ f)

SameTotals-if :
    (t : Bool) (a b : Shares) (qs : List Peer)
    → SameTotals a.peers qs
    → SameTotals b.peers qs
    → SameTotals (if t then a else b).peers qs
SameTotals-if true a b qs p q = p
SameTotals-if false a b qs p q = q

limit_peer-Alike : (now elapsed : ℕ) (p : Peer) → Alike (limit_peer now elapsed p) p
unfolding limit_peer limit_throttle
limit_peer-Alike now elapsed p = (refl, refl)

limit_round-SameTotals :
    (now elapsed throttle : ℕ) (ps : List Peer) (s : Shares)
    → SameTotals (limit_round now elapsed throttle ps s).peers ps
unfolding limit_round
limit_round-SameTotals now elapsed throttle [] s = (refl, refl, refl)
limit_round-SameTotals now elapsed throttle (p ∷ ps) s =
    let s' : Shares = record s {
      peers_remaining = sub32 s.peers_remaining 1;
      bandwidth = sub32 s.bandwidth (scaled p.incoming_bandwidth elapsed);
      data_total = sub32 s.data_total (scaled p.incoming_bandwidth elapsed);
      needs_adjustment = true;
    } in
    SameTotals-if (is_settled now p || is_satisfied elapsed throttle p)
      (front p (limit_round now elapsed throttle ps s))
      (front (limit_peer now elapsed p) (limit_round now elapsed throttle ps s')) (p ∷ ps)
      (SameTotals-front p p _ ps (refl, refl) (limit_round-SameTotals now elapsed throttle ps s))
      (SameTotals-front (limit_peer now elapsed p) p _ ps (limit_peer-Alike now elapsed p)
        (limit_round-SameTotals now elapsed throttle ps s'))

limit_rounds-SameTotals :
    (fuel now elapsed : ℕ) (s : Shares) → SameTotals (limit_rounds fuel now elapsed s).peers s.peers
unfolding limit_rounds
limit_rounds-SameTotals zero now elapsed s = (refl, refl, refl)
limit_rounds-SameTotals (suc fuel) now elapsed s =
    let throttle = share_throttle s.bandwidth s.data_total in
    let s' = limit_round now elapsed throttle s.peers (record s { needs_adjustment = false }) in
    SameTotals-if (ltb 0 s.peers_remaining && s.needs_adjustment) (limit_rounds fuel now elapsed s')
      s s.peers
      (SameTotals-trans _ s'.peers s.peers (limit_rounds-SameTotals fuel now elapsed s')
        (limit_round-SameTotals now elapsed throttle s.peers _))
      (refl, refl, refl)

share_rest-Alike : (now throttle : ℕ) (p : Peer) → Alike (share_rest now throttle p) p
unfolding share_rest limit_throttle
share_rest-Alike now throttle p =
    Alike-if (not (is_connected p.state) || p.outgoing_bandwidth_throttle_epoch == now) p
      (limit_throttle throttle p) p (refl, refl) (refl, refl)

map-SameTotals :
    (f : Peer → Peer) → ((p : Peer) → Alike (f p) p) → (ps : List Peer) → SameTotals (map f ps) ps
map-SameTotals f alike [] = (refl, refl, refl)
map-SameTotals f alike (p ∷ ps) =
    SameTotals-front (f p) p (map f ps) ps (alike p) (map-SameTotals f alike ps)

share_out-SameTotals : (now : ℕ) (s : Shares) → SameTotals (share_out now s) s.peers
unfolding share_out
share_out-SameTotals now s = elim (Bool-cases (ltb 0 s.peers_remaining)) [
  | inl e ↦ rw e (map-SameTotals _ (share_rest-Alike now _) s.peers)
  | inr e ↦ rw e (refl, refl, refl)
]

give_up_round-SameTotals :
    (now limit : ℕ) (ps : List Peer) (s : Shares)
    → SameTotals (give_up_round now limit ps s).peers ps
unfolding give_up_round
give_up_round-SameTotals now limit [] s = (refl, refl, refl)
give_up_round-SameTotals now limit (p ∷ ps) s =
    let s' : Shares = record s {
      peers_remaining = sub32 s.peers_remaining 1;
      bandwidth = sub32 s.bandwidth p.outgoing_bandwidth;
      needs_adjustment = true;
    } in
    let given : Peer = record p { incoming_bandwidth_throttle_epoch = now } in
    SameTotals-if (keeps_share now limit p) (front p (give_up_round now limit ps s))
      (front given (give_up_round now limit ps s')) (p ∷ ps)
      (SameTotals-front p p _ ps (refl, refl) (give_up_round-SameTotals now limit ps s))
      (SameTotals-front given p _ ps (refl, refl) (give_up_round-SameTotals now limit ps s'))

give_up_rounds-SameTotals :
    (fuel now limit : ℕ) (s : Shares) → SameTotals (give_up_rounds fuel now limit s).0.peers s.peers
unfolding give_up_rounds
give_up_rounds-SameTotals zero now limit s = (refl, refl, refl)
give_up_rounds-SameTotals (suc fuel) now limit s =
    let limit' = s.bandwidth / s.peers_remaining in
    let s' = give_up_round now limit' s.peers (record s { needs_adjustment = false }) in
    elim (Bool-cases (ltb 0 s.peers_remaining && s.needs_adjustment)) [
      | inr e ↦ rw e (refl, refl, refl)
      | inl e ↦ rw e (
          SameTotals-trans _ s'.peers s.peers (give_up_rounds-SameTotals fuel now limit' s')
            (give_up_round-SameTotals now limit' s.peers _))
    ]

World-if : (t : Bool) (v w : World) → IsCounted v → IsCounted w → IsCounted (if t then v else w)
World-if true v w p q = p
World-if false v w p q = q

tell_limits-IsCounted :
    (left id now limit : ℕ) (w : World) → IsCounted w → IsCounted (tell_limits left id now limit w)
unfolding tell_limits
tell_limits-IsCounted zero id now limit w n = n
tell_limits-IsCounted (suc left) id now limit w n =
    tell_limits-IsCounted left (id + 1) now limit _ (elim (get_or-cases w.peers id zero_peer) [
      | inr e ↦ rw e n
      | inl h ↦
          World-if (is_connected (get_peer w id).state) _ w
            (put_back-IsCounted w id _ h
              (λ k j b.
                Balanced-of _ (focus w id)
                  (standing-queue_outgoing_command (limit_command now limit w.host (get_peer w id))
                    none 0 0 (focus w id))
                  b)
              n)
            n
    ])

-- The counters stay where the sums and the two numbers of the host do.
same-IsCounted :
    (w : World) (h : Host) (ps : List Peer)
    → h.connected_peers ≡ w.host.connected_peers
    → h.bandwidth_limited_peers ≡ w.host.bandwidth_limited_peers
    → SameTotals ps w.peers
    → IsCounted w
    → IsCounted (record { host = h; peers = ps })
same-IsCounted w h ps a b (c, d, e) n = record {
  connected = a ∙ n.connected ∙ sym c;
  limited = b ∙ n.limited ∙ sym d;
  few = omega (arith, e, n.few);
}

recalculate-IsCounted : (now : ℕ) (w : World) → IsCounted w → IsCounted (recalculate now w)
unfolding recalculate
recalculate-IsCounted now w n = elim (Bool-cases (w.host.incoming_bandwidth == 0)) [
  | inl e ↦ rw e (
      tell_limits-IsCounted w.host.peer_count 0 now 0 _
        (same-IsCounted w _ w.peers refl refl (refl, refl, refl) n))
  | inr e ↦ rw e (
      tell_limits-IsCounted w.host.peer_count 0 now _ _
        (same-IsCounted w _ _ refl refl (give_up_rounds-SameTotals (length w.peers + 1) now 0 _) n))
]

share_bandwidth-IsCounted :
    (now elapsed : ℕ) (w : World) → IsCounted w → IsCounted (share_bandwidth now elapsed w)
unfolding share_bandwidth start_shares
share_bandwidth-IsCounted now elapsed w n =
    let s = limit_rounds (length w.peers + 1) now elapsed (start_shares elapsed w) in
    let n' =
      same-IsCounted w w.host (share_out now s) refl refl
        (SameTotals-trans (share_out now s) s.peers w.peers (share_out-SameTotals now s)
          (limit_rounds-SameTotals (length w.peers + 1) now elapsed (start_shares elapsed w)))
        n in
    World-if w.host.recalculate_bandwidth_limits _ (record w { peers = share_out now s })
      (recalculate-IsCounted now _ n') n'

-- The bandwidth throttle keeps the host's counters right, whatever the clock says and whichever of its
-- loops it goes through.
pub host_bandwidth_throttle-IsCounted :
    (now : ℕ) (w : World) → IsCounted w → IsCounted (host_bandwidth_throttle now w)
unfolding host_bandwidth_throttle
host_bandwidth_throttle-IsCounted now w n =
    let n' =
      same-IsCounted w (record (w.host) { bandwidth_throttle_epoch = now }) w.peers refl refl
        (refl, refl, refl) n in
    World-if (ltb (sub32 now w.host.bandwidth_throttle_epoch) bandwidth_throttle_interval) w _ n
      (World-if (u32 w.host.connected_peers == 0) _ _ n' (share_bandwidth-IsCounted now _ _ n'))
