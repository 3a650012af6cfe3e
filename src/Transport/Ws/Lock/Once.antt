-- ===== src/Transport/Ws/Lock/Once.antt =====
-- How often the hook and the socket of a connection of server/conn_ws.go are called.
use gts.Base.{◌≡◌, refl, Bool, true, false, not, ◌&&◌, List, [], ◌∷◌, arith, if◌then◌else◌}
use gts.Transport.Ws.Lock.{
  Holder, nobody, locked, quitted, marked, removed, Shared, Event, calls_stop, locks, quits, marks,
  removes, closes, reads, receives, fails, new_shared, quit, mark, remove, close, read, step, run,
}

-- A call of `Stop` that has marked the connection and not yet closed the socket.
abbrev pub is_closing : Holder → Bool
is_closing nobody = false
is_closing locked = false
is_closing quitted = false
is_closing marked = true
is_closing removed = true

-- The hook, where it is set, was called once if the connection is closed, and never before; the socket
-- was closed once if the connection is closed and no call of `Stop` is between the hook and the
-- socket, and never before. The lock has one kind of holder, nobody reads from a closed connection,
-- and a call of `Stop` past its second test and before the hook has an open one.
pub record ClosedOnce (s : Shared) : Type 0 where
  pub hook : s.hook_calls ≡ (if s.is_closed && s.has_on_stop then 1 else 0)
  pub socket : s.socket_closes ≡ (if s.is_closed && not (is_closing s.holder) then 1 else 0)
  pub one_holder : s.reading ≡ true → s.holder ≡ nobody
  pub open_reader : s.reading ≡ true → s.is_closed ≡ false
  pub open_quitted : s.holder ≡ quitted → s.is_closed ≡ false
  pub closed_closing : is_closing s.holder ≡ true → s.is_closed ≡ true

quit-ClosedOnce : (s : Shared) (k : Holder) → s.holder ≡ k → ClosedOnce s → ClosedOnce (quit k s)
unfolding quit
quit-ClosedOnce s locked e c = ground arith
quit-ClosedOnce s nobody e c = c
quit-ClosedOnce s quitted e c = c
quit-ClosedOnce s marked e c = c
quit-ClosedOnce s removed e c = c

mark-ClosedOnce : (s : Shared) (k : Holder) → s.holder ≡ k → ClosedOnce s → ClosedOnce (mark k s)
unfolding mark
mark-ClosedOnce s quitted e c = ground arith
mark-ClosedOnce s nobody e c = c
mark-ClosedOnce s locked e c = c
mark-ClosedOnce s marked e c = c
mark-ClosedOnce s removed e c = c

remove-ClosedOnce :
    (s : Shared) (k : Holder) → s.holder ≡ k → ClosedOnce s → ClosedOnce (remove k s)
unfolding remove
remove-ClosedOnce s marked e c = ground arith
remove-ClosedOnce s nobody e c = c
remove-ClosedOnce s locked e c = c
remove-ClosedOnce s quitted e c = c
remove-ClosedOnce s removed e c = c

close-ClosedOnce : (s : Shared) (k : Holder) → s.holder ≡ k → ClosedOnce s → ClosedOnce (close k s)
unfolding close
close-ClosedOnce s removed e c = ground arith
close-ClosedOnce s nobody e c = c
close-ClosedOnce s locked e c = c
close-ClosedOnce s quitted e c = c
close-ClosedOnce s marked e c = c

step-ClosedOnce : (s : Shared) (e : Event) → ClosedOnce s → ClosedOnce (step s e)
unfolding step read
step-ClosedOnce s calls_stop c = ground arith
step-ClosedOnce s locks c = ground arith
step-ClosedOnce s quits c = quit-ClosedOnce s s.holder refl c
step-ClosedOnce s marks c = mark-ClosedOnce s s.holder refl c
step-ClosedOnce s removes c = remove-ClosedOnce s s.holder refl c
step-ClosedOnce s closes c = close-ClosedOnce s s.holder refl c
step-ClosedOnce s reads c = ground arith
step-ClosedOnce s receives c = ground arith
step-ClosedOnce s fails c = ground arith

run-ClosedOnce : (s : Shared) (es : List Event) → ClosedOnce s → ClosedOnce (run s es)
unfolding run
run-ClosedOnce s [] c = c
run-ClosedOnce s (e ∷ es) c = run-ClosedOnce (step s e) es (step-ClosedOnce s e c)

-- In every interleaving of calls of `Stop` and of the reader on a new WebSocket connection, the hook,
-- where it is set, is called once if the connection is closed and never while it is open; its socket
-- is closed once unless a call of `Stop` is still between the hook and the socket, as it is for as
-- long as it waits in `Remove`, and never while the connection is open; and `ReadMessage` is not
-- under way on a closed connection.
pub new_shared-ClosedOnce :
    (has_on_stop : Bool) (es : List Event) → ClosedOnce (run (new_shared has_on_stop) es)
unfolding new_shared
new_shared-ClosedOnce has_on_stop es = run-ClosedOnce (new_shared has_on_stop) es (record {
  hook = refl;
  socket = refl;
  one_holder = λ h. refl;
  open_reader = λ h. refl;
  open_quitted = λ h. refl;
  closed_closing = λ h. absurd (ground arith);
})
