-- ===== src/Handler.antt =====
-- message/messagehandler.go: the handlers of the messages, and what a message makes of them. The
-- worker pool that runs `DoMsgHandler` is in Pool.antt.
pub mod Dispatch
pub mod Queue
mod Tests
use gts.Base.{ℕ, Bool, Option, none, some, List, [], ◌∷◌, ◌++◌}
use gts.Base.Int.{ℤ, pos, negsuc}
use gts.Base.Map.{lookup, insert}
use gts.Message.{Message}

-- The three calls of a handler, which is known by a number.
pub data Call : Type 0 where
  pre_handle handle post_handle : ℕ → Message → Call

-- `NewMsgHandle` with the `WorkerPoolSize` of the settings, which is the length of its task queue:
-- `none` is the panic of `make` for a negative length.
unfoldable pub new_msg_handle : ℤ → Option (List (ℕ × ℕ))
new_msg_handle (pos n) = some []
new_msg_handle (negsuc n) = none

-- What a message sets off: nothing when its identifier has no handler.
unfoldable pub calls_of : Option ℕ → Message → List Call
calls_of none m = []
calls_of (some router) m = pre_handle router m ∷ handle router m ∷ post_handle router m ∷ []

unfoldable pub do_msg_handler : List (ℕ × ℕ) → Message → List Call
unfolding calls_of
do_msg_handler apis m = calls_of (lookup m.id apis) m

-- `none` is the panic on a repeated identifier.
unfoldable pub add_router : ℕ → ℕ → List (ℕ × ℕ) → Option (List (ℕ × ℕ))
add_router msg_id router apis = elim (lookup msg_id apis) [
  | some _ ↦ none
  | none ↦ some (insert msg_id router apis)
]

-- Calls of `AddRouter` in their order.
unfoldable pub add_routers : List (ℕ × ℕ) → List (ℕ × ℕ) → Option (List (ℕ × ℕ))
unfolding add_router
add_routers [] apis = some apis
add_routers ((msg_id, router) ∷ rest) apis = elim (add_router msg_id router apis) [
  | none ↦ none
  | some after ↦ add_routers rest after
]
