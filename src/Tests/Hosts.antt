-- ===== src/Tests/Hosts.antt =====
-- The theorems on original/host.c applied to samples.
use enet_rs.Prelude.{◌+◌, ◌≡◌, true, false, false, [], ◌∷◌, arith}
use enet_rs.World.{zero_peer}
use enet_rs.Handle.Verify.{is_mismatch, adopt}
use enet_rs.Host.{host_create, host_connect}
use enet_rs.Host.Bandwidth.{Shares, limit_rounds, share_out, give_up_rounds}
use enet_rs.Host.Bandwidth.Rounds.{asks_again, limit_rounds-ends, give_up_rounds-ends}
use enet_rs.Host.Bandwidth.Limits.{AllThrottled, no_peers, throttled, share_out-AllThrottled}
use enet_rs.Host.Fresh.{AllFresh, host_create-AllFresh}
use enet_rs.Host.Handshake.{Agrees, IsInRange, asking, answering, answer, handshake}
use enet_rs.Standing.Totals.{IsCounted}
use enet_rs.Standing.Hosts.{Made, host_create-IsCounted, host_connect-IsCounted}
use enet_rs.Tests.Samples.{some_host, some_peer, some_world}
use enet_rs.Tests.Counters.{some_world-IsCounted}

host_create-IsCounted_example :
    Made IsCounted (host_create 1 (record { packets = []; fresh_byte = 0 }) 3 0 0 0)
host_create-IsCounted_example =
    host_create-IsCounted 1 (record { packets = []; fresh_byte = 0 }) 3 0 0 0

host_create-AllFresh_example :
    Made (AllFresh 2) (host_create 1 (record { packets = []; fresh_byte = 0 }) 2 0 0 0)
host_create-AllFresh_example =
    host_create-AllFresh 1 (record { packets = []; fresh_byte = 0 }) 2 0 0 0

host_connect-IsCounted_example :
    IsCounted (host_connect (record { ip = 5; port = 6 }) 2 9 some_world).0
host_connect-IsCounted_example =
    host_connect-IsCounted (record { ip = 5; port = 6 }) 2 9 some_world some_world-IsCounted

-- A limited peer, and more data than there is bandwidth.
abbrev some_shares : Shares
some_shares = record {
  peers =
      record some_peer { incoming_bandwidth = 1000; outgoing_data_total = 5000 } ∷ zero_peer ∷ [];
  peers_remaining = 1;
  bandwidth = 3000;
  data_total = 5000;
  needs_adjustment = true;
}

limit_rounds-ends_example :
    (limit_rounds (5 + (2 + 1)) 7000 1000 some_shares ≡ limit_rounds (2 + 1) 7000 1000 some_shares)
    × (asks_again (limit_rounds (2 + 1) 7000 1000 some_shares) ≡ false)
limit_rounds-ends_example = limit_rounds-ends 5 7000 1000 some_shares

some_shares-AllThrottled : AllThrottled some_shares.peers
some_shares-AllThrottled =
    throttled _ _ (record { limit = omega arith; throttle = omega arith })
      (throttled _ _ (record { limit = omega arith; throttle = omega arith }) no_peers)

share_out-AllThrottled_example :
    AllThrottled (share_out 7000 (limit_rounds 3 7000 1000 some_shares))
share_out-AllThrottled_example =
    share_out-AllThrottled 3 7000 1000 some_shares some_shares-AllThrottled

give_up_rounds-ends_example :
    (give_up_rounds (5 + (2 + 1)) 7000 0 some_shares ≡ give_up_rounds (2 + 1) 7000 0 some_shares)
    × (asks_again (give_up_rounds (2 + 1) 7000 0 some_shares).0 ≡ false)
give_up_rounds-ends_example = give_up_rounds-ends 5 7000 0 some_shares

some_host-IsInRange : IsInRange some_host
some_host-IsInRange = record {
  mtu_least = omega arith;
  mtu_most = omega arith;
  channels_least = omega arith;
  channels_most = omega arith;
}

handshake_example :
    (is_mismatch
        (answer (record { ip = 5; port = 6 }) 2 77 9 some_host some_host zero_peer zero_peer)
        (asking (record { ip = 5; port = 6 }) 2 77 9 some_host some_host zero_peer zero_peer)
      ≡ false)
    × Agrees
        (adopt
          (answer (record { ip = 5; port = 6 }) 2 77 9 some_host some_host zero_peer zero_peer)
          (asking (record { ip = 5; port = 6 }) 2 77 9 some_host some_host zero_peer zero_peer))
        (answering (record { ip = 5; port = 6 }) 2 77 9 some_host some_host zero_peer zero_peer)
handshake_example =
    handshake (record { ip = 5; port = 6 }) 2 77 9 some_host some_host zero_peer zero_peer
      (omega arith) (omega arith) some_host-IsInRange some_host-IsInRange
