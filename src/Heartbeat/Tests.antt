-- ===== src/Heartbeat/Tests.antt =====
-- Ticks of the checker of heartbead/heartbeat.go at concrete values.
use gts.Base.Int.{pos}
use gts.World.Sample.{open_conn}
use gts.Settings.{AppConfig, get_heartbeat_max_time}
use gts.Settings.Sample.{config_yaml}
use gts.Heartbeat.Timeline.{Event, beats, ticks, takes, reloads, run, kept, run-in_time}
use gts.Base.{List, ◌≡◌, refl, true, false, some, [], ◌∷◌}
use gts.World.{returns, idle, selecting, checking, Connection, World, blocks, at}
use gts.Conn.{stop}
use gts.Conn.Property.{is_alive}
use gts.Heartbeat.{Heartbeat, tick}
use gts.Heartbeat.Check.{tick_dead}

abbrev checked : Connection
checked = record open_conn { checker = selecting; last_activity_time = 100 }

abbrev world : World
world = record { heap = λ _. checked; connections = (7, 4) ∷ []; locked = false }

abbrev heartbeat : Heartbeat
heartbeat = record {
  interval = 5;
  msg_id = 99999;
  router = 0;
  make_msg = 0;
  on_remote_not_alive = 0;
  conn = some 4;
}

tick_dead_example :
    (tick heartbeat stop 110 10 [] 4 (at world 4 checked)
      ≡ blocks (at world 4 (record checked { checker = checking })))
    × (stop 4 (at world 4 (record checked { checker = checking }))
        ≡ blocks (at world 4 (record checked { checker = checking })))
unfolding is_alive
tick_dead_example = tick_dead heartbeat 110 10 [] 4 world checked refl refl refl

abbrev fresh : Connection
fresh = record checked { checker = idle; has_on_start = true; has_on_stop = true }

-- The time of the last heartbeat, in nanoseconds, and a setting of 5 seconds instead of 30.
abbrev beating : Connection
beating = record checked { last_activity_time = 1000 }

abbrev strict : AppConfig
strict = record config_yaml { heartbeat_max_time = pos 5 }

abbrev events : List Event
events =
    ticks 10000001000 []
    ∷ beats 12000000000
    ∷ ticks 20000001000 []
    ∷ takes
    ∷ beats 29000000000
    ∷ reloads strict
    ∷ ticks 30000001000 []
    ∷ []

run-in_time_example :
    run heartbeat 4 config_yaml events (at world 4 beating)
    ≡ returns tt (at world 4 (kept heartbeat events beating))
unfolding get_heartbeat_max_time
run-in_time_example =
    run-in_time heartbeat 4 world refl events config_yaml beating refl refl refl refl
