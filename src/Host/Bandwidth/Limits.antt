-- ===== src/Host/Bandwidth/Limits.antt =====
-- The limits that `enet_host_bandwidth_throttle` of original/host.c sets are throttles.
use native.Mathlib.Nat.{div-le_of_le-mul, mul-le-mul_right}
use enet_rs.Prelude.{
  ℕ, zero, suc, ◌*◌, ◌/◌, ◌≤◌, ◌≡◌, refl, Bool, true, false, not, ◌&&◌, ◌||◌, List, [], ◌∷◌, map,
  if◌then◌else◌, Bool-cases, inl, inr, arith, ltb, leb, ◌==◌, u32, sub32,
}
use enet_rs.State.{Peer, is_connected, packet_throttle_scale}
use enet_rs.Host.Bandwidth.{
  Shares, scaled, is_settled, is_satisfied, limit_throttle, own_limit, limit_peer, share_throttle,
  front, limit_round, limit_rounds, share_rest, share_out,
}

-- The throttle of a peer is within its limit, and the limit within the scale of 32.
pub record IsThrottled (p : Peer) : Type 0 where
  pub limit : p.packet_throttle_limit ≤ 32
  pub throttle : p.packet_throttle ≤ p.packet_throttle_limit

pub data AllThrottled : List Peer → Type 0 where
  no_peers : AllThrottled []
  throttled : (p : Peer) (ps : List Peer) → IsThrottled p → AllThrottled ps → AllThrottled (p ∷ ps)

share_throttle-bound : (bandwidth total : ℕ) → share_throttle bandwidth total ≤ 32
unfolding share_throttle
share_throttle-bound bandwidth total = elim (Bool-cases (leb total bandwidth)) [
  | inl e ↦ rw e (omega arith)
  | inr e ↦ rw e (div-le_of_le-mul total (ground (arith, e)))
]

limit_throttle-IsThrottled :
    (limit : ℕ) (p : Peer) → limit ≤ 32 → IsThrottled (limit_throttle limit p)
unfolding limit_throttle
limit_throttle-IsThrottled limit p h = record { limit = h; throttle = ground arith }

-- A peer that is not satisfied at a throttle of at most 32 gets a limit of at most 32.
own_limit-bound :
    (elapsed throttle : ℕ) (p : Peer)
    → throttle ≤ 32
    → is_satisfied elapsed throttle p ≡ false
    → own_limit elapsed p ≤ 32
unfolding own_limit is_satisfied
own_limit-bound elapsed throttle p h e =
    let product = mul-le-mul_right p.outgoing_data_total h in
    let quotient : u32 (scaled p.incoming_bandwidth elapsed * packet_throttle_scale)
          / p.outgoing_data_total
        ≤ 32 =
      div-le_of_le-mul p.outgoing_data_total (ground (arith, e, product)) in
    ground (arith, quotient)

limit_peer-IsThrottled :
    (now elapsed : ℕ) (p : Peer) → own_limit elapsed p ≤ 32 → IsThrottled (limit_peer now elapsed p)
unfolding limit_peer
limit_peer-IsThrottled now elapsed p h =
    let t = limit_throttle-IsThrottled (own_limit elapsed p) p h in
    record { limit = t.limit; throttle = t.throttle }

Shares-if :
    (t : Bool) (a b : Shares)
    → (t ≡ true → AllThrottled a.peers)
    → (t ≡ false → AllThrottled b.peers)
    → AllThrottled (if t then a else b).peers
Shares-if true a b p q = p refl
Shares-if false a b p q = q refl

or-right : (a b : Bool) → (a || b) ≡ false → b ≡ false
or-right true b e = absurd (cc e)
or-right false b e = e

limit_round-AllThrottled :
    (now elapsed throttle : ℕ) (ps : List Peer) (s : Shares)
    → throttle ≤ 32
    → AllThrottled ps
    → AllThrottled (limit_round now elapsed throttle ps s).peers
unfolding limit_round
limit_round-AllThrottled now elapsed throttle [] s h no_peers = no_peers
limit_round-AllThrottled now elapsed throttle (p ∷ ps) s h (throttled _ _ t ts) =
    let s' : Shares = record s {
      peers_remaining = sub32 s.peers_remaining 1;
      bandwidth = sub32 s.bandwidth (scaled p.incoming_bandwidth elapsed);
      data_total = sub32 s.data_total (scaled p.incoming_bandwidth elapsed);
      needs_adjustment = true;
    } in
    Shares-if (is_settled now p || is_satisfied elapsed throttle p)
      (front p (limit_round now elapsed throttle ps s))
      (front (limit_peer now elapsed p) (limit_round now elapsed throttle ps s'))
      (λ _. throttled p _ t (limit_round-AllThrottled now elapsed throttle ps s h ts))
      (λ e.
        throttled (limit_peer now elapsed p) _
          (limit_peer-IsThrottled now elapsed p (
            own_limit-bound elapsed throttle p h
              (or-right (is_settled now p) (is_satisfied elapsed throttle p) e)))
          (limit_round-AllThrottled now elapsed throttle ps s' h ts))

limit_rounds-AllThrottled :
    (fuel now elapsed : ℕ) (s : Shares)
    → AllThrottled s.peers
    → AllThrottled (limit_rounds fuel now elapsed s).peers
unfolding limit_rounds
limit_rounds-AllThrottled zero now elapsed s t = t
limit_rounds-AllThrottled (suc fuel) now elapsed s t =
    let throttle = share_throttle s.bandwidth s.data_total in
    let s' = limit_round now elapsed throttle s.peers (record s { needs_adjustment = false }) in
    Shares-if (ltb 0 s.peers_remaining && s.needs_adjustment) (limit_rounds fuel now elapsed s') s
      (λ _. limit_rounds-AllThrottled fuel now elapsed s' (
        limit_round-AllThrottled now elapsed throttle s.peers _
          (share_throttle-bound s.bandwidth s.data_total) t))
      (λ _. t)

share_rest-IsThrottled :
    (now throttle : ℕ) (p : Peer)
    → throttle ≤ 32
    → IsThrottled p
    → IsThrottled (share_rest now throttle p)
unfolding share_rest
share_rest-IsThrottled now throttle p h t =
    elim (Bool-cases (not (is_connected p.state) || p.outgoing_bandwidth_throttle_epoch == now)) [
      | inl e ↦ rw e t
      | inr e ↦ rw e (limit_throttle-IsThrottled throttle p h)
    ]

map-AllThrottled :
    (f : Peer → Peer)
    → ((p : Peer) → IsThrottled p → IsThrottled (f p))
    → (ps : List Peer) → AllThrottled ps
    → AllThrottled (map f ps)
map-AllThrottled f keeps [] no_peers = no_peers
map-AllThrottled f keeps (p ∷ ps) (throttled _ _ t ts) =
    throttled (f p) (map f ps) (keeps p t) (map-AllThrottled f keeps ps ts)

-- If every peer's packet throttle is within its limit and the limit within 32, the scale of the
-- throttle, then this holds after the bandwidth throttle has shared out the host's outgoing bandwidth,
-- whatever the bandwidth, the data sent, the clock and the number of rounds, also where the 32-bit
-- products wrap.
pub share_out-AllThrottled :
    (fuel now elapsed : ℕ) (s : Shares)
    → AllThrottled s.peers
    → AllThrottled (share_out now (limit_rounds fuel now elapsed s))
unfolding share_out
share_out-AllThrottled fuel now elapsed s t =
    let r = limit_rounds fuel now elapsed s in
    let rt = limit_rounds-AllThrottled fuel now elapsed s t in
    elim (Bool-cases (ltb 0 r.peers_remaining)) [
      | inl e ↦ rw e (
          map-AllThrottled (share_rest now (share_throttle r.bandwidth r.data_total))
            (λ p h.
              share_rest-IsThrottled now _ p (share_throttle-bound r.bandwidth r.data_total) h)
            r.peers rt)
      | inr e ↦ rw e rt
    ]
