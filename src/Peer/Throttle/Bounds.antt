-- ===== src/Peer/Throttle/Bounds.antt =====
-- What `enet_peer_throttle` of original/peer.c promises of the throttle.
use enet_rs.Prelude.{ℕ, ◌+◌, ◌-◌, ◌*◌, ◌<◌, ◌≤◌, ◌≡◌, ◌⊎◌, inl, inr, Bool-cases, leb, min, arith}
use enet_rs.State.{Peer}
use enet_rs.Peer.Throttle.{throttle}

-- If the throttle is within its limit, and neither the limit with the acceleration nor the tolerated
-- round trip time exceeds 32 bits, then after `enet_peer_throttle` with any round trip time it is
-- within the limit, which is the old one, and it is one of these: the limit itself, where the last
-- round trip time is not above its variance; otherwise the old throttle raised by the acceleration, but
-- not above the limit, where the round trip time is at most the last one; the old throttle, where it is
-- above the last one by no more than twice the variance; and the old throttle lowered by the
-- deceleration, but not below 0, where it is above that.
pub throttle_bounds :
    (rtt : ℕ) (p : Peer)
    → p.packet_throttle ≤ p.packet_throttle_limit
    → p.packet_throttle_limit + p.packet_throttle_acceleration < 4294967296
    → p.last_round_trip_time + 2 * p.last_round_trip_time_variance < 4294967296
    → ((throttle rtt p).0.packet_throttle ≤ p.packet_throttle_limit)
      × ((throttle rtt p).0.packet_throttle_limit ≡ p.packet_throttle_limit)
      × (((p.last_round_trip_time ≤ p.last_round_trip_time_variance)
            × ((throttle rtt p).0.packet_throttle ≡ p.packet_throttle_limit))
          ⊎ ((p.last_round_trip_time_variance < p.last_round_trip_time)
              × (((rtt ≤ p.last_round_trip_time)
                    × ((throttle rtt p).0.packet_throttle
                        ≡ min p.packet_throttle_limit
                            (p.packet_throttle + p.packet_throttle_acceleration)))
                  ⊎ (((p.last_round_trip_time < rtt)
                        × (rtt ≤ p.last_round_trip_time + 2 * p.last_round_trip_time_variance)
                        × ((throttle rtt p).0.packet_throttle ≡ p.packet_throttle))
                      ⊎ ((p.last_round_trip_time + 2 * p.last_round_trip_time_variance < rtt)
                          × ((throttle rtt p).0.packet_throttle
                              ≡ p.packet_throttle - p.packet_throttle_deceleration))))))
unfolding throttle
throttle_bounds rtt p h k l = (
  ground arith,
  ground arith,
  elim (Bool-cases (leb p.last_round_trip_time p.last_round_trip_time_variance)) [
    | inl a ↦ inl (ground arith, ground arith)
    | inr a ↦ inr (
      ground arith,
      elim (Bool-cases (leb rtt p.last_round_trip_time)) [
        | inl b ↦ inl (ground arith, ground arith)
        | inr b ↦
            inr
              (elim (Bool-cases
                (leb rtt (p.last_round_trip_time + 2 * p.last_round_trip_time_variance))) [
                  | inl c ↦ inl (ground arith, ground arith, ground arith)
                  | inr c ↦ inr (ground arith, ground arith)
                ])
      ],
    )
  ],
)
