-- ===== src/Settings/Sample.antt =====
-- The settings of conf/config.yaml.
use gts.Base.{true, false, [], ◌∷◌}
use gts.Base.Int.{pos}
use gts.Settings.{AppConfig}

abbrev pub config_yaml : AppConfig
config_yaml = record {
  mode = 100 ∷ 101 ∷ 118 ∷ [];
  name = 103 ∷ 116 ∷ 115 ∷ [];
  version = 118 ∷ 49 ∷ 46 ∷ 48 ∷ 46 ∷ 48 ∷ [];
  start_time = 50 ∷ 48 ∷ 50 ∷ 51 ∷ 45 ∷ 51 ∷ 45 ∷ 49 ∷ 55 ∷ [];
  tcp_mode = false;
  ws_mode = false;
  quic_mode = false;
  kcp_mode = true;
  ip = 48 ∷ 46 ∷ 48 ∷ 46 ∷ 48 ∷ 46 ∷ 48 ∷ [];
  port = pos 7777;
  ws_port = pos 8888;
  ip_version = 116 ∷ 99 ∷ 112 ∷ 52 ∷ [];
  max_conn = pos 3000;
  max_packet_size = 4096;
  worker_pool_size = pos 10;
  max_worker_task_len = 1024;
  heartbeat_max_time = pos 30;
  heartbeat_interval = pos 10;
  worker_id = pos 1;
  datacenter_id = pos 2;
  log_level = 73 ∷ 78 ∷ 70 ∷ 79 ∷ [];
  log_path = 46 ∷ 47 ∷ 108 ∷ 111 ∷ 103 ∷ 102 ∷ 105 ∷ 108 ∷ 101 ∷ 115 ∷ [];
}
