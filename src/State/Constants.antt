-- ===== src/State/Constants.antt =====
-- Constants of original/include/enet/enet.h.
use enet_rs.Prelude.{ℕ}

abbrev pub default_mtu : ℕ
default_mtu = 1392

abbrev pub default_maximum_packet_size : ℕ
default_maximum_packet_size = 33554432

abbrev pub default_maximum_waiting_data : ℕ
default_maximum_waiting_data = 33554432

abbrev pub bandwidth_throttle_interval : ℕ
bandwidth_throttle_interval = 1000

abbrev pub default_round_trip_time : ℕ
default_round_trip_time = 500

abbrev pub default_packet_throttle : ℕ
default_packet_throttle = 32

abbrev pub packet_throttle_scale : ℕ
packet_throttle_scale = 32

abbrev pub packet_throttle_counter : ℕ
packet_throttle_counter = 7

abbrev pub default_throttle_acceleration : ℕ
default_throttle_acceleration = 2

abbrev pub default_throttle_deceleration : ℕ
default_throttle_deceleration = 2

abbrev pub default_throttle_interval : ℕ
default_throttle_interval = 5000

abbrev pub packet_loss_scale : ℕ
packet_loss_scale = 65536

abbrev pub packet_loss_interval : ℕ
packet_loss_interval = 10000

abbrev pub window_size_scale : ℕ
window_size_scale = 65536

abbrev pub default_timeout_limit : ℕ
default_timeout_limit = 32

abbrev pub default_timeout_minimum : ℕ
default_timeout_minimum = 5000

abbrev pub default_timeout_maximum : ℕ
default_timeout_maximum = 30000

abbrev pub default_ping_interval : ℕ
default_ping_interval = 500

abbrev pub unsequenced_window_size : ℕ
unsequenced_window_size = 1024

abbrev pub free_unsequenced_windows : ℕ
free_unsequenced_windows = 32

abbrev pub reliable_windows_count : ℕ
reliable_windows_count = 16

abbrev pub reliable_window_size : ℕ
reliable_window_size = 0x1000

abbrev pub free_reliable_windows : ℕ
free_reliable_windows = 8
