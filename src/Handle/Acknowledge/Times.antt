-- ===== src/Handle/Acknowledge/Times.antt =====
-- The reconstruction of sent times in `enet_protocol_handle_acknowledge` of original/protocol.c.
use enet_rs.Prelude.{ℕ, ◌+◌, ◌%◌, ◌<◌, ◌≡◌, false, max, arith}
use enet_rs.Time.{time_less, time_elapsed}
use enet_rs.Handle.Acknowledge.{full_sent_time, round_trip_sample}

full_sent_time-eq :
    (t elapsed : ℕ)
    → t < 4294967296
    → elapsed < 32768
    → full_sent_time ((t + elapsed) % 4294967296) (t % 65536) ≡ t
unfolding full_sent_time
full_sent_time-eq t elapsed ht he = ground arith

-- A command sent at any time t of the 32-bit clock and acknowledged less than 32768 ms later, whether
-- or not the low 16 bits or the whole clock wrapped in between: from the low 16 bits of t the full t
-- is found, it does not count as later than the present, and the round trip time is the time elapsed,
-- or 1 if none has.
pub full_sent_time_exact :
    (t elapsed : ℕ)
    → t < 4294967296
    → elapsed < 32768
    → (full_sent_time ((t + elapsed) % 4294967296) (t % 65536) ≡ t)
      × (time_less
            ((t + elapsed) % 4294967296)
            (full_sent_time ((t + elapsed) % 4294967296) (t % 65536))
          ≡ false)
      × (round_trip_sample
            ((t + elapsed) % 4294967296)
            (full_sent_time ((t + elapsed) % 4294967296) (t % 65536))
          ≡ max elapsed 1)
unfolding round_trip_sample
full_sent_time_exact t elapsed ht he =
    let e = full_sent_time-eq t elapsed ht he in
    let d = time_elapsed t elapsed ht (omega arith) in
    (e, rw e (d.0), rw e (rw (d.2) (ground arith)))
