-- ===== src/Handler/Dispatch.antt =====
-- Registration and dispatch in message/messagehandler.go.
use gts.Base.{
  ℕ, ◌≡◌, refl, ap, inl, inr, Option, none, some, List, [], ◌∷◌, arith, if◌then◌else◌, ◌==◌,
  Bool-cases, ◌∙◌, sym,
}
use gts.Base.Int.{ℤ, pos, negsuc}
use gts.Base.Map.{lookup, insert, lookup-insert}
use gts.Message.{Message}
use gts.Handler.{
  Call, pre_handle, handle, post_handle, calls_of, do_msg_handler, add_router, add_routers,
  new_msg_handle,
}

add_router-found :
    (msg_id router k : ℕ) (apis after : List (ℕ × ℕ))
    → add_router msg_id router apis ≡ some after
    → lookup k after ≡ (if msg_id == k then some router else lookup k apis)
      × (lookup msg_id apis ≡ none)
unfolding add_router
add_router-found msg_id router k apis after h = ground (arith, lookup-insert msg_id k router apis)

-- Later registrations leave a registered identifier as it is.
-- The first of two answers.
abbrev pub or_else : Option ℕ → Option ℕ → Option ℕ
or_else (some r) other = some r
or_else none other = other

or_else-none : (o : Option ℕ) → or_else o none ≡ o
or_else-none none = refl
or_else-none (some r) = refl

add_routers-split :
    (msg_id router : ℕ) (rest apis after : List (ℕ × ℕ))
    → add_routers ((msg_id, router) ∷ rest) apis ≡ some after
    → (lookup msg_id apis ≡ none) × (add_routers rest (insert msg_id router apis) ≡ some after)
unfolding add_routers add_router
add_routers-split msg_id router rest apis after h = ground arith

add_routers-lookup_from :
    (rs apis after : List (ℕ × ℕ)) (k : ℕ)
    → add_routers rs apis ≡ some after
    → lookup k after ≡ or_else (lookup k apis) (lookup k rs)
unfolding add_routers lookup
add_routers-lookup_from [] apis after k h = ground (arith, or_else-none (lookup k apis))
add_routers-lookup_from ((msg_id, router) ∷ rest) apis after k h =
    let (new, later) = add_routers-split msg_id router rest apis after h in
    let ih = add_routers-lookup_from rest (insert msg_id router apis) after k later in
    let found = lookup-insert msg_id k router apis in
    elim (Bool-cases (msg_id == k)) [ inl e ↦ ground arith | inr e ↦ ground arith ]

calls_by :
    (o : Option ℕ) (m : Message)
    → calls_of o m ≡ (elim o as (λ _. List Call) [
      | none ↦ []
      | some router ↦ pre_handle router m ∷ handle router m ∷ post_handle router m ∷ []
    ])
unfolding calls_of
calls_by none m = refl
calls_by (some router) m = refl

new_msg_handle-empty :
    (size : ℤ) (apis : List (ℕ × ℕ)) → new_msg_handle size ≡ some apis → apis ≡ []
unfolding new_msg_handle
new_msg_handle-empty (pos n) apis h = ground arith
new_msg_handle-empty (negsuc n) apis h = absurd (ground arith)

module _ (size : ℤ) (rs apis after : List (ℕ × ℕ)) (m : Message)
    (made : new_msg_handle size ≡ some apis) (registered : add_routers rs apis ≡ some after) where
  -- After registrations that did not panic, a message sets off the three calls of the handler that
  -- was registered for its identifier, in the order before, handle, after, and nothing when none was.
  pub do_msg_handler_lem : do_msg_handler after m ≡ (elim (lookup m.id rs) as (λ _. List Call) [
    | none ↦ []
    | some router ↦ pre_handle router m ∷ handle router m ∷ post_handle router m ∷ []
  ])
  unfolding do_msg_handler lookup calls_of
  do_msg_handler_lem =
      ap (λ o. calls_of o m)
        (add_routers-lookup_from rs [] after m.id
          (ap (add_routers rs) (sym (new_msg_handle-empty size apis made)) ∙ registered))
      ∙ calls_by (lookup m.id rs) m

-- To register an identifier again panics, whatever was registered in between.
pub add_router_repeat :
    (rs after : List (ℕ × ℕ)) (msg_id router again : ℕ)
    → add_routers rs [] ≡ some after
    → lookup msg_id rs ≡ some router
    → add_router msg_id again after ≡ none
unfolding lookup add_router
add_router_repeat rs after msg_id router again h e =
    rw (add_router, add_routers-lookup_from rs [] after msg_id h, e) refl
