-- ===== src/Handler/Tests.antt =====
-- Two handlers of message/messagehandler.go.
use gts.Base.{ℕ, ◌≡◌, refl, some, List, [], ◌∷◌}
use gts.Base.Map.{lookup, insert}
use gts.Base.Int.{pos}
use gts.Message.{Message}
use gts.Handler.{
  pre_handle, handle, post_handle, do_msg_handler, add_router, add_routers, new_msg_handle,
}
use gts.Handler.Dispatch.{do_msg_handler_lem}

abbrev routers : List (ℕ × ℕ)
routers = (1, 10) ∷ (2, 20) ∷ []

abbrev ping : Message
ping = record { id = 2; data_len = 0; body = [] }

registered : add_routers routers [] ≡ some routers
unfolding add_routers add_router lookup insert
registered = refl

do_msg_handler_lem_example :
    do_msg_handler routers ping ≡ pre_handle 20 ping ∷ handle 20 ping ∷ post_handle 20 ping ∷ []
unfolding lookup new_msg_handle
do_msg_handler_lem_example = do_msg_handler_lem (pos 10) routers [] routers ping refl registered
