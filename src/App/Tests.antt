-- ===== src/App/Tests.antt =====
-- A client of the program of main.go over TCP.
use gts.Base.{
  ℕ, ◌≡◌, refl, sym, ap, Bool, true, false, Option, some, List, [], ◌∷◌, map, arith, length, count,
  ◌+◌, ◌*◌,
}
use gts.Base.Result.{ok}
use gts.Base.Int.{pos}
use gts.World.{World, returns, ◌>>◌, at}
use gts.World.Sample.{open_conn}
use gts.Message.{Message, is_too_large}
use gts.FuncPool.{GPoolWithFunc}
use gts.FuncPool.Steps.{
  Reaches, here, next, is_enabled, step, invokes, retrieves, spawns, works, reverts, puts_back,
}
use gts.FuncPool.Quiet.{IsKept, Quiet}
use gts.Conn.Reader.{classify, read_rounds, request}
use gts.Conn.Reader.Frames.{AllFit, frames, ends_of_input, read_rounds-frames}
use gts.Handler.Queue.{start_worker_pool, requests}
use gts.Transport.Tcp.{ops, ops-IsConnection}
use gts.Settings.{AppConfig}
use gts.Settings.Sample.{config_yaml}
use gts.Server.{done}
use gts.App.Startup.{running, main_lem}
use gts.App.{main, serve_all, drain, app_routers}
use gts.App.EndToEnd.{from, asks, pong, pong2, answered_lem}

abbrev ping : Message
ping = record { id = 2; data_len = 0; body = [] }

-- A frame of `ping` and one of a heartbeat, and a pool that has handled the first.
abbrev beat : Message
beat = record { id = 99999; data_len = 0; body = [] }

abbrev messages : List Message
messages = ping ∷ beat ∷ []

messages-AllFit : AllFit 4096 messages
unfolding is_too_large
messages-AllFit = (
  record { sized = refl; short = omega arith; small_id = omega arith },
  refl,
  (record { sized = refl; short = omega arith; small_id = omega arith }, refl, tt),
)

abbrev new : GPoolWithFunc Message
new = record {
  cap = pos 1;
  running = 0;
  closed = false;
  workers = record { items = []; expiry = [] };
  parking = [];
  blocked = [];
  woken = [];
  entering = [];
  spawning = [];
  busy = [];
  returning = 0;
  inserting = 0;
  exiting = 0;
  retiring = 0;
  signalling = 0;
  broadcasting = 0;
  dormant = 0;
  releasing = 0;
  invoked = [];
  rejected = [];
  handled = [];
  ended = 0;
}

new_started : start_worker_pool (pos 1) ≡ ok new
unfolding start_worker_pool gts.FuncPool.new_pool_with_func gts.FuncPool.empty_pool
new_started = refl

abbrev entered : GPoolWithFunc Message
entered = record new { invoked = some ping ∷ []; entering = some ping ∷ [] }

abbrev spawning_one : GPoolWithFunc Message
spawning_one = record entered { entering = []; spawning = some ping ∷ [] }

abbrev working : GPoolWithFunc Message
working = record spawning_one { spawning = []; running = 1; busy = some ping ∷ [] }

abbrev worked : GPoolWithFunc Message
worked = record working { busy = []; returning = 1; handled = ping ∷ [] }

abbrev reverting : GPoolWithFunc Message
reverting = record worked { returning = 0; inserting = 1 }

abbrev rested : GPoolWithFunc Message
rested = record reverting {
  inserting = 0;
  workers = record { items = record { last_used = 5 } ∷ []; expiry = [] };
}

rested_reach : Reaches IsKept new rested
unfolding step is_enabled gts.FuncPool.invoke gts.FuncPool.retrieve gts.FuncPool.may_spawn
    gts.FuncPool.spawn gts.FuncPool.work gts.FuncPool.revert gts.FuncPool.is_surplus
    gts.FuncPool.put_back gts.FuncPool.signal gts.FuncPool.Steps.at_place gts.FuncPool.Steps.take_at
    gts.Stack.detach gts.Stack.detach_items gts.Stack.insert
rested_reach =
    next {q = reverting} (puts_back 5)
      (next {q = worked} reverts
        (next {q = working} (works false 0)
          (next {q = spawning_one} (spawns 0)
            (next {q = entered} (retrieves 0) (next {q = new} (invokes (some ping)) here refl tt)
              refl tt)
            refl tt)
          refl tt)
        refl tt)
      refl tt

rested-Quiet : Quiet rested
rested-Quiet = record {
  entering = refl;
  parking = refl;
  woken = refl;
  spawning = refl;
  busy = refl;
  returning = refl;
  inserting = refl;
  exiting = refl;
  retiring = refl;
  signalling = refl;
  broadcasting = refl;
}

given :
    (test : Option Message → Bool)
    → count test rested.invoked
      ≡ count test
          (map some (requests (read_rounds 4096 (length messages + 1) (frames messages)).0))
unfolding requests classify
given test =
    ap (λ r. count test (map some (requests r.0)))
      (sym (read_rounds-frames 4096 1 messages messages-AllFit))

abbrev world : World
world = record { heap = λ _. open_conn; connections = (7, 4) ∷ []; locked = false }

answered_lem_example :
    (v : World) × (bytes : List ℕ) × ((serve_all ops app_routers (from 4 (ping ∷ []))
          >> drain ops 1 4)
        (at world 4 open_conn)
      ≡ returns bytes v)
    × (read_rounds 4096 2 bytes ≡ (request pong2 ∷ ends_of_input 1, []))
    × ((test : Message → Bool)
        → count test (pong2 ∷ [])
          ≡ count (asks 1) messages * count test (pong ∷ [])
            + count (asks 2) messages * count test (pong2 ∷ []))
unfolding is_too_large
answered_lem_example =
    answered_lem ops ops-IsConnection 4 world open_conn refl refl 4096 4096 1 1 1 messages
      messages-AllFit (omega arith) (omega arith) new_started rested_reach rested-Quiet
      (omega arith) given refl

-- The settings of conf/config.yaml, decoded as they stand.
abbrev as_read : AppConfig → AppConfig → Bool × AppConfig
as_read raw conf = (true, raw)

main_lem_example :
    main as_read (some config_yaml) config_yaml world ≡ done (running config_yaml) world
main_lem_example = main_lem as_read (some config_yaml) config_yaml world
