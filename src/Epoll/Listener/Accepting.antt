-- ===== src/Epoll/Listener/Accepting.antt =====
-- The accepting loop of epoll/server.go.
use gts.Base.{
  ℕ, ◌+◌, ◌≤◌, ◌≡◌, refl, ap, ◌∙◌, inl, inr, Bool, List, [], ◌∷◌, ◌++◌, leb, arith, length,
  Bool-cases,
}
use gts.Base.Map.{length-insert}
use gts.Epoll.{Connection, ConnManager, Outcome, returns, waits, len, put, add}
use gts.Epoll.Keep.{reached, reached-add}
use gts.Epoll.Listener.{
  Client, refused, unnumbered, came, Looped, again, full, over, stuck_at, added, admit, round,
  go_on, accept_loop,
}

abbrev pub manager : Looped → ConnManager
manager (again cm) = cm
manager (full cm) = cm
manager (over cm) = cm
manager (stuck_at cm) = cm

go_on-over :
    (f g : ConnManager → Looped) (end : ConnManager)
    → ((cm : ConnManager) → f cm ≡ over end → g cm ≡ over end)
    → (r : Looped) → go_on f r ≡ over end
    → go_on g r ≡ over end
unfolding go_on
go_on-over f g end k (again cm) h = k cm h
go_on-over f g end k (full cm) h = h
go_on-over f g end k (over cm) h = h
go_on-over f g end k (stuck_at cm) h = h

accept_loop-over :
    (ctl_ok : Bool) (max_conn : ℕ) (before after : List Client) (cm end : ConnManager)
    → accept_loop ctl_ok max_conn before cm ≡ over end
    → accept_loop ctl_ok max_conn (before ++ after) cm ≡ over end
unfolding accept_loop
accept_loop-over ctl_ok max_conn [] after cm end e = absurd (ground arith)
accept_loop-over ctl_ok max_conn (client ∷ clients) after cm end e =
    go_on-over (accept_loop ctl_ok max_conn clients)
      (accept_loop ctl_ok max_conn (clients ++ after)) end
      (λ next h. accept_loop-over ctl_ok max_conn clients after next end h)
      (round ctl_ok max_conn client cm) e

manager-added : (o : Outcome (Unit {0})) → manager (added o) ≡ reached o
unfolding added
manager-added (returns _ cm) = refl
manager-added (waits cm) = refl

length-added :
    (ctl_ok : Bool) (conn : Connection) (cm : ConnManager)
    → length (manager (added (add ctl_ok conn cm))).connections ≤ length cm.connections + 1
unfolding put
length-added ctl_ok conn cm =
    let size = manager-added (add ctl_ok conn cm) in
    elim (reached-add ctl_ok conn cm) [
      | inl same ↦ omega (arith, ap (λ (m : ConnManager). length m.connections) (size ∙ same))
      | inr (fd, at_fd, e) ↦ omega (
        arith,
        ap (λ (m : ConnManager). length m.connections) (size ∙ e),
        length-insert conn.conn_id conn cm.connections,
      )
    ]

admit-bound :
    (ctl_ok : Bool) (client : Client) (cm : ConnManager)
    → length (manager (admit ctl_ok client cm)).connections ≤ length cm.connections + 1
unfolding admit
admit-bound ctl_ok refused cm = omega arith
admit-bound ctl_ok unnumbered cm = omega arith
admit-bound ctl_ok (came conn) cm = length-added ctl_ok conn cm

round-bound :
    (ctl_ok : Bool) (max_conn : ℕ) (client : Client) (cm : ConnManager)
    → length cm.connections ≤ max_conn
    → length (manager (round ctl_ok max_conn client cm)).connections ≤ max_conn
unfolding round len
round-bound ctl_ok max_conn client cm h = elim (Bool-cases cm.locked) [
  | inl held ↦ rw (round, len, held) h
  | inr free ↦ elim (Bool-cases (leb max_conn (length cm.connections))) [
    | inl at_limit ↦ rw (round, len, free) (simp at_limit h)
    | inr below ↦ rw (round, len, free) (simp below (ground (arith, admit-bound ctl_ok client cm)))
  ]
]

go_on-bound :
    (max_conn : ℕ) (f : ConnManager → Looped)
    → ((cm : ConnManager)
        → length cm.connections ≤ max_conn
        → length (manager (f cm)).connections ≤ max_conn)
    → (r : Looped) → length (manager r).connections ≤ max_conn
    → length (manager (go_on f r)).connections ≤ max_conn
unfolding go_on
go_on-bound max_conn f k (again cm) h = k cm h
go_on-bound max_conn f k (full cm) h = h
go_on-bound max_conn f k (over cm) h = h
go_on-bound max_conn f k (stuck_at cm) h = h

-- From a table within the limit, the accepting loop keeps it within the limit, whatever clients come
-- and whatever `EpollCtl` answers.
pub accept_loop-bound :
    (ctl_ok : Bool) (max_conn : ℕ) (clients : List Client) (cm : ConnManager)
    → length cm.connections ≤ max_conn
    → length (manager (accept_loop ctl_ok max_conn clients cm)).connections ≤ max_conn
unfolding accept_loop
accept_loop-bound ctl_ok max_conn [] cm h = h
accept_loop-bound ctl_ok max_conn (client ∷ clients) cm h =
    go_on-bound max_conn (accept_loop ctl_ok max_conn clients)
      (accept_loop-bound ctl_ok max_conn clients) (round ctl_ok max_conn client cm)
      (round-bound ctl_ok max_conn client cm h)
