-- ===== src/Host/Bandwidth.antt =====
-- The shares of the bandwidth, of original/host.c: `enet_host_bandwidth_throttle`.
pub mod Rounds
pub mod Limits
use enet_rs.Prelude.{
  ℕ, zero, suc, ◌+◌, ◌*◌, ◌/◌, Bool, true, false, not, ◌&&◌, ◌||◌, none, List, [], ◌∷◌, length, map,
  ltb, leb, ◌==◌, if◌then◌else◌, u32, sub32,
}
use enet_rs.Protocol.{Protocol, bandwidth_limit}
use enet_rs.State.{Peer, Host, is_connected, packet_throttle_scale, bandwidth_throttle_interval}
use enet_rs.World.{World, get_peer, focus, put_back}
use enet_rs.Peer.Outgoing.{queue_outgoing_command}

-- The local variables of the loops, with the peers.
pub record Shares : Type 0 where
  pub peers : List Peer
  pub peers_remaining : ℕ
  pub bandwidth : ℕ
  pub data_total : ℕ
  pub needs_adjustment : Bool

-- bandwidth * elapsedTime / 1000
abbrev pub scaled : ℕ → ℕ → ℕ
scaled bandwidth elapsed = u32 (bandwidth * elapsed) / 1000

-- dataTotal of the connected peers.
unfoldable pub sum_data : List Peer → ℕ → ℕ
sum_data [] total = total
sum_data (p ∷ ps) total =
    sum_data ps (if is_connected p.state then u32 (total + p.outgoing_data_total) else total)

-- The throttle that fits the data into the bandwidth.
unfoldable pub share_throttle : ℕ → ℕ → ℕ
share_throttle bandwidth total =
    if leb total bandwidth
    then packet_throttle_scale
    else u32 (bandwidth * packet_throttle_scale) / total

-- The peer takes no part in a round, or has had its share.
unfoldable pub is_settled : ℕ → Peer → Bool
is_settled now p =
    not (is_connected p.state)
    || p.incoming_bandwidth == 0
    || p.outgoing_bandwidth_throttle_epoch == now

-- At this throttle the peer gets no more than its incoming bandwidth allows.
unfoldable pub is_satisfied : ℕ → ℕ → Peer → Bool
is_satisfied elapsed throttle p =
    leb (u32 (throttle * p.outgoing_data_total) / packet_throttle_scale)
      (scaled p.incoming_bandwidth elapsed)

-- The peer with a throttle limit; its totals start again.
unfoldable pub limit_throttle : ℕ → Peer → Peer
limit_throttle limit p = record p {
  packet_throttle_limit = limit;
  packet_throttle = if ltb limit p.packet_throttle then limit else p.packet_throttle;
  incoming_data_total = 0;
  outgoing_data_total = 0;
}

-- The limit of a peer whose own incoming bandwidth is the narrower one; at least 1.
unfoldable pub own_limit : ℕ → Peer → ℕ
own_limit elapsed p =
    let limit =
      u32 (scaled p.incoming_bandwidth elapsed * packet_throttle_scale) / p.outgoing_data_total in
    if limit == 0 then 1 else limit

unfoldable pub limit_peer : ℕ → ℕ → Peer → Peer
limit_peer now elapsed p = record (limit_throttle (own_limit elapsed p) p) {
  outgoing_bandwidth_throttle_epoch = now;
}

abbrev pub front : Peer → Shares → Shares
front p s = record s { peers = p ∷ s.peers }

-- A round over the peers; `s` has what is left to share.
unfoldable pub limit_round : ℕ → ℕ → ℕ → List Peer → Shares → Shares
limit_round now elapsed throttle [] s = record s { peers = [] }
limit_round now elapsed throttle (p ∷ ps) s =
    let bandwidth = scaled p.incoming_bandwidth elapsed in
    let kept = limit_round now elapsed throttle ps s in
    let limited = limit_round now elapsed throttle ps (record s {
      peers_remaining = sub32 s.peers_remaining 1;
      bandwidth = sub32 s.bandwidth bandwidth;
      data_total = sub32 s.data_total bandwidth;
      needs_adjustment = true;
    }) in
    if is_settled now p || is_satisfied elapsed throttle p
    then front p kept
    else front (limit_peer now elapsed p) limited

-- The first loop; every round but the last settles a peer.
unfoldable pub limit_rounds : ℕ → ℕ → ℕ → Shares → Shares
limit_rounds zero now elapsed s = s
limit_rounds (suc fuel) now elapsed s =
    let throttle = share_throttle s.bandwidth s.data_total in
    let rest =
      limit_rounds fuel now elapsed
        (limit_round now elapsed throttle s.peers (record s { needs_adjustment = false })) in
    if ltb 0 s.peers_remaining && s.needs_adjustment then rest else s

-- The second loop: the other peers share what is left.
unfoldable pub share_rest : ℕ → ℕ → Peer → Peer
share_rest now throttle p =
    if not (is_connected p.state) || p.outgoing_bandwidth_throttle_epoch == now
    then p
    else limit_throttle throttle p

unfoldable pub share_out : ℕ → Shares → List Peer
share_out now s =
    if ltb 0 s.peers_remaining
    then map (share_rest now (share_throttle s.bandwidth s.data_total)) s.peers
    else s.peers

-- The peer does not give up its share of the host's incoming bandwidth.
unfoldable pub keeps_share : ℕ → ℕ → Peer → Bool
keeps_share now limit p =
    not (is_connected p.state)
    || p.incoming_bandwidth_throttle_epoch == now
    || ltb 0 p.outgoing_bandwidth && leb limit p.outgoing_bandwidth

-- A round of the third loop.
unfoldable pub give_up_round : ℕ → ℕ → List Peer → Shares → Shares
give_up_round now limit [] s = record s { peers = [] }
give_up_round now limit (p ∷ ps) s =
    let kept = give_up_round now limit ps s in
    let given = give_up_round now limit ps (record s {
      peers_remaining = sub32 s.peers_remaining 1;
      bandwidth = sub32 s.bandwidth p.outgoing_bandwidth;
      needs_adjustment = true;
    }) in
    if keeps_share now limit p
    then front p kept
    else front (record p { incoming_bandwidth_throttle_epoch = now }) given

-- The third loop, and bandwidthLimit.
unfoldable pub give_up_rounds : ℕ → ℕ → ℕ → Shares → Shares × ℕ
give_up_rounds zero now limit s = (s, limit)
give_up_rounds (suc fuel) now limit s =
    let limit' = s.bandwidth / s.peers_remaining in
    let rest =
      give_up_rounds fuel now limit'
        (give_up_round now limit' s.peers (record s { needs_adjustment = false })) in
    if ltb 0 s.peers_remaining && s.needs_adjustment then rest else (s, limit)

-- The BANDWIDTH_LIMIT command for a peer.
unfoldable pub limit_command : ℕ → ℕ → Host → Peer → Protocol
limit_command now limit h p = record {
  flag_acknowledge = true;
  flag_unsequenced = false;
  channel_id = 0xff;
  reliable_sequence_number = 0;
  body =
      bandwidth_limit
        (if p.incoming_bandwidth_throttle_epoch == now then p.outgoing_bandwidth else limit)
        h.outgoing_bandwidth;
}

-- The last loop: `left` peers from `id` on are told.
unfoldable pub tell_limits : ℕ → ℕ → ℕ → ℕ → World → World
tell_limits zero id now limit w = w
tell_limits (suc left) id now limit w =
    let c = focus w id in
    let told =
      put_back w id (queue_outgoing_command (limit_command now limit c.host c.peer) none 0 0 c) in
    tell_limits left (id + 1) now limit (if is_connected c.peer.state then told else w)

unfoldable pub recalculate : ℕ → World → World
recalculate now w =
    let start : Shares = record {
      peers = w.peers;
      peers_remaining = u32 w.host.connected_peers;
      bandwidth = w.host.incoming_bandwidth;
      data_total = 0;
      needs_adjustment = true;
    } in
    let (s, limit) =
      if w.host.incoming_bandwidth == 0
      then (start, 0)
      else give_up_rounds (length w.peers + 1) now 0 start in
    tell_limits w.host.peer_count 0 now limit
      (record { host = record (w.host) { recalculate_bandwidth_limits = false }; peers = s.peers })

-- The bandwidth and the data, in the time that has passed; no limit is 2 ^ 32 - 1.
unfoldable pub start_shares : ℕ → World → Shares
start_shares elapsed w = record {
  peers = w.peers;
  peers_remaining = u32 w.host.connected_peers;
  bandwidth =
      if w.host.outgoing_bandwidth == 0
      then 4294967295
      else scaled w.host.outgoing_bandwidth elapsed;
  data_total = if w.host.outgoing_bandwidth == 0 then 4294967295 else sum_data w.peers 0;
  needs_adjustment = ltb 0 w.host.bandwidth_limited_peers;
}

unfoldable pub share_bandwidth : ℕ → ℕ → World → World
share_bandwidth now elapsed w =
    let s = limit_rounds (length w.peers + 1) now elapsed (start_shares elapsed w) in
    let w' : World = record w { peers = share_out now s } in
    if w.host.recalculate_bandwidth_limits then recalculate now w' else w'

-- `enet_host_bandwidth_throttle`; `now` is what the clock says.
unfoldable pub host_bandwidth_throttle : ℕ → World → World
host_bandwidth_throttle now w =
    let elapsed = sub32 now w.host.bandwidth_throttle_epoch in
    let w' : World = record w { host = record (w.host) { bandwidth_throttle_epoch = now } } in
    if ltb elapsed bandwidth_throttle_interval
    then w
    else if u32 w.host.connected_peers == 0
    then w'
    else share_bandwidth now elapsed w'
