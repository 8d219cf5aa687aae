-- ===== src/Tests/Wires.antt =====
-- The theorems on the wire format, fragments and clocks (original/protocol.c, original/peer.c and
-- original/include/enet/time.h), at sample values.
use enet_rs.Prelude.{max, ◌+◌, ◌%◌, ◌≡◌, true, false, none, some, [], ◌∷◌, length, arith}
use enet_rs.Protocol.{Protocol, bandwidth_limit}
use enet_rs.Wire.{encode, encode_body, decode}
use enet_rs.Wire.RoundTrip.{decode-encode}
use enet_rs.Time.{time_elapsed, time_less, time_greater_equal, time_difference}
use enet_rs.Peer.Send.{Fragmentation, make_fragments}
use enet_rs.Peer.Send.Tiling.{Tiles, fragments_tile}
use enet_rs.Handle.Acknowledge.{full_sent_time, round_trip_sample}
use enet_rs.Handle.Acknowledge.Times.{full_sent_time_exact}
use enet_rs.Handle.Commands.{Progress, run_commands}
use enet_rs.Handle.Commands.Fuel.{run_commands_enough}
use enet_rs.Tests.Samples.{some_world, command_of}

abbrev three_parts : Fragmentation
three_parts = record {
  packet = 0;
  data_length = 25;
  channel_id = 0;
  is_unreliable = false;
  start_sequence_number = 1;
  fragment_count = 3;
}

fragments_tile_example :
    (length (make_fragments 3 three_parts 0 0 10) ≡ 3)
    × Tiles three_parts 10 0 0 (make_fragments 3 three_parts 0 0 10)
fragments_tile_example =
    fragments_tile three_parts 10 (omega arith) (omega arith) (omega arith) (omega arith)

abbrev limit_command : Protocol
limit_command = command_of 1 (bandwidth_limit 1000 2000)

decode-encode_example : decode (encode limit_command (9 ∷ [])) ≡ some (limit_command, 9 ∷ [])
decode-encode_example =
    decode-encode limit_command (9 ∷ [])
      (record { channel = omega arith; number = omega arith; body = (omega arith, omega arith) })

abbrev started : Progress
started = record { world = some_world; peer = some 0; event = none }

run_commands_enough_example :
    run_commands 12 none (encode limit_command []) started
    ≡ run_commands 100 none (encode limit_command []) started
unfolding encode encode_body
run_commands_enough_example =
    run_commands_enough 12 100 none (encode limit_command []) started (omega arith) (omega arith)

full_sent_time_exact_example :
    (full_sent_time ((4294967290 + 20) % 4294967296) (4294967290 % 65536) ≡ 4294967290)
    × (time_less
          ((4294967290 + 20) % 4294967296)
          (full_sent_time ((4294967290 + 20) % 4294967296) (4294967290 % 65536))
        ≡ false)
    × (round_trip_sample
          ((4294967290 + 20) % 4294967296)
          (full_sent_time ((4294967290 + 20) % 4294967296) (4294967290 % 65536))
        ≡ max 20 1)
full_sent_time_exact_example = full_sent_time_exact 4294967290 20 (omega arith) (omega arith)

time_elapsed_example :
    (time_less ((4294967290 + 20) % 4294967296) 4294967290 ≡ false)
    × (time_greater_equal ((4294967290 + 20) % 4294967296) 4294967290 ≡ true)
    × (time_difference ((4294967290 + 20) % 4294967296) 4294967290 ≡ 20)
    × (time_difference 4294967290 ((4294967290 + 20) % 4294967296) ≡ 20)
time_elapsed_example = time_elapsed 4294967290 20 (omega arith) (omega arith)
