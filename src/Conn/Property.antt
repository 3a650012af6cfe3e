-- ===== src/Conn/Property.antt =====
-- The properties of a connection in server/conn.go, a map under its own lock, and its activity.
use gts.Base.{ℕ, ◌+◌, ◌≡◌, Bool, false, Option, none, some, ltb, ◌==◌, if◌then◌else◌}
use gts.Base.Map.{
  lookup, insert, delete, IsMap, lookup-insert, lookup-delete, insert-IsMap, delete-IsMap,
}
use gts.World.{Connection}

unfoldable pub set_property : ℕ → ℕ → Connection → Connection
set_property key value c = record c { property = insert key value c.property }

-- `none` is the error "no property found".
unfoldable pub get_property : ℕ → Connection → Option ℕ
get_property key c = lookup key c.property

unfoldable pub remove_property : ℕ → Connection → Connection
remove_property key c = record c { property = delete key c.property }

-- `IsAlive` at the time `now`, with `Conf.GetHeartbeatMaxTime()` as `max`.
unfoldable pub is_alive : ℕ → ℕ → Connection → Bool
is_alive now max c = if c.is_closed then false else ltb now (c.last_activity_time + max)

unfoldable pub update_activity : ℕ → Connection → Connection
update_activity now c = record c { last_activity_time = now }

-- After `SetProperty`, `GetProperty` finds the value at its key and at any other key what it found
-- before; after `RemoveProperty` it finds nothing at the key and elsewhere what it found before.
-- Both keep the property map free of double keys.
pub property_lem :
    (c : Connection) (key other value : ℕ)
    → IsMap c.property
    → (get_property other (set_property key value c)
        ≡ (if key == other then some value else get_property other c))
      × (get_property other (remove_property key c)
          ≡ (if key == other then none else get_property other c))
      × IsMap (set_property key value c).property
      × IsMap (remove_property key c).property
unfolding get_property set_property remove_property
property_lem c key other value m = (
  lookup-insert key other value c.property,
  lookup-delete key other c.property m,
  insert-IsMap key value c.property m,
  delete-IsMap key c.property m,
)
