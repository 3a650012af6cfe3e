-- ===== src/Transport/Ws/Lock.antt =====
-- The interleavings of `read` and `Stop` of server/conn_ws.go, which share the lock of the connection.
pub mod Once
use gts.Base.{
  ℕ, ◌+◌, ◌-◌, ◌<◌, ◌≡◌, refl, ap, ◌∙◌, Bool, true, false, not, ◌&&◌, ◌||◌, List, [], ◌∷◌, arith,
  ltb, if◌then◌else◌,
}

-- The call of `Stop` that holds the lock, if one does: behind `Lock`, behind the heartbeat's `Stop`,
-- behind the hook, or behind `Remove`.
pub data Holder : Type 0 where
  nobody locked quitted marked removed : Holder

pub record Shared : Type 0 where
  pub is_closed : Bool
  -- `onConnStop` is not `nil`.
  pub has_on_stop : Bool
  -- The reader holds the lock in `ReadMessage`; a call of `Stop` holds it.
  pub reading : Bool
  pub holder : Holder
  -- Calls of `Stop` behind its first test that wait for the lock.
  pub pending : ℕ
  pub hook_calls : ℕ
  pub socket_closes : ℕ
  -- How the calls of `read` ended: with a message, or with an error.
  pub messages : ℕ
  pub failures : ℕ

pub data Event : Type 0 where
  -- `Stop` up to `Lock`, and the lock that is given to it.
  calls_stop locks : Event
  -- The second test, and the heartbeat's `Stop`, which returns at once where none is bound and
  -- otherwise when its goroutine receives; `isClosed` and the hook; `Remove`, which returns at once
  -- where there is no manager and otherwise when it has had the lock of the table; `Close`, `cancel`
  -- and the release of the lock.
  quits marks removes closes : Event
  reads : Event
  -- `ReadMessage` gives a message, or an error.
  receives fails : Event

unfoldable pub new_shared : Bool → Shared
new_shared has_on_stop = record {
  is_closed = false;
  has_on_stop = has_on_stop;
  reading = false;
  holder = nobody;
  pending = 0;
  hook_calls = 0;
  socket_closes = 0;
  messages = 0;
  failures = 0;
}

abbrev pub is_free : Holder → Bool
is_free nobody = true
is_free locked = false
is_free quitted = false
is_free marked = false
is_free removed = false

-- `Stop` under the lock, from where it is.
unfoldable pub quit : Holder → Shared → Shared
quit locked s = record s { holder = if s.is_closed then nobody else quitted }
quit nobody s = s
quit quitted s = s
quit marked s = s
quit removed s = s

unfoldable pub mark : Holder → Shared → Shared
mark quitted s = record s {
  holder = marked;
  is_closed = true;
  hook_calls = if s.has_on_stop then s.hook_calls + 1 else s.hook_calls;
}
mark nobody s = s
mark locked s = s
mark marked s = s
mark removed s = s

unfoldable pub remove : Holder → Shared → Shared
remove marked s = record s { holder = removed }
remove nobody s = s
remove locked s = s
remove quitted s = s
remove removed s = s

unfoldable pub close : Holder → Shared → Shared
close removed s = record s { holder = nobody; socket_closes = s.socket_closes + 1 }
close nobody s = s
close locked s = s
close quitted s = s
close marked s = s

-- `read` up to `ReadMessage`; a lock that a writer waits for is not given to a reader.
unfoldable pub read : Shared → Shared
read s =
    if s.reading || not (is_free s.holder) || ltb 0 s.pending
    then s
    else (if s.is_closed
        then record s { failures = s.failures + 1 }
        else record s { reading = true })

-- One step of a goroutine that can make it; any other leaves things as they are.
unfoldable pub step : Shared → Event → Shared
unfolding quit mark remove close read
step s calls_stop = if s.is_closed then s else record s { pending = s.pending + 1 }
step s locks =
    if ltb 0 s.pending && not s.reading && is_free s.holder
    then record s { pending = s.pending - 1; holder = locked }
    else s
step s quits = quit s.holder s
step s marks = mark s.holder s
step s removes = remove s.holder s
step s closes = close s.holder s
step s reads = read s
step s receives = if s.reading then record s { reading = false; messages = s.messages + 1 } else s
step s fails = if s.reading then record s { reading = false; failures = s.failures + 1 } else s

unfoldable pub run : Shared → List Event → Shared
run s [] = s
run s (e ∷ es) = run (step s e) es

-- The events in which the peer says nothing.
abbrev pub IsSilent : List Event → Type 0
IsSilent [] = Unit
IsSilent (receives ∷ es) = ⊥
IsSilent (fails ∷ es) = ⊥
IsSilent (_ ∷ es) = IsSilent es

-- The calls of `Stop` among the events.
abbrev pub stops : List Event → ℕ
stops [] = 0
stops (calls_stop ∷ es) = stops es + 1
stops (_ ∷ es) = stops es

pending_same : (s : Shared) → s ≡ record s { pending = s.pending + 0 }
pending_same s = ap (λ n. record s { pending = n }) (omega arith)

step-silent :
    (s : Shared) (e : Event)
    → s.reading ≡ true
    → s.holder ≡ nobody
    → s.is_closed ≡ false
    → IsSilent (e ∷ [])
    → step s e ≡ record s { pending = s.pending + stops (e ∷ []) }
unfolding step quit mark remove close read
step-silent s calls_stop r l o q = ground arith
step-silent s locks r l o q = ground arith
step-silent s quits r l o q = ap (λ k. quit k s) l ∙ pending_same s
step-silent s marks r l o q = ap (λ k. mark k s) l ∙ pending_same s
step-silent s removes r l o q = ap (λ k. remove k s) l ∙ pending_same s
step-silent s closes r l o q = ap (λ k. close k s) l ∙ pending_same s
step-silent s reads r l o q = ground arith
step-silent s receives r l o q = absurd q
step-silent s fails r l o q = absurd q

IsSilent-cons : (e : Event) (es : List Event) → IsSilent (e ∷ es) → IsSilent (e ∷ []) × IsSilent es
IsSilent-cons calls_stop es q = (tt, q)
IsSilent-cons locks es q = (tt, q)
IsSilent-cons quits es q = (tt, q)
IsSilent-cons marks es q = (tt, q)
IsSilent-cons removes es q = (tt, q)
IsSilent-cons closes es q = (tt, q)
IsSilent-cons reads es q = (tt, q)
IsSilent-cons receives es q = absurd q
IsSilent-cons fails es q = absurd q

stops_cons : (e : Event) (es : List Event) → stops (e ∷ es) ≡ stops (e ∷ []) + stops es
stops_cons calls_stop es = omega arith
stops_cons locks es = omega arith
stops_cons quits es = omega arith
stops_cons marks es = omega arith
stops_cons removes es = omega arith
stops_cons closes es = omega arith
stops_cons reads es = omega arith
stops_cons receives es = omega arith
stops_cons fails es = omega arith

run-silent :
    (s : Shared) (es : List Event)
    → s.reading ≡ true
    → s.holder ≡ nobody
    → s.is_closed ≡ false
    → IsSilent es
    → run s es ≡ record s { pending = s.pending + stops es }
unfolding run
run-silent s [] r l o q = ground arith
run-silent s (e ∷ es) r l o q =
    let (now, later) = IsSilent-cons e es q in
    ap (λ (t : Shared). run t es) (step-silent s e r l o now)
    ∙ run-silent (record s { pending = s.pending + stops (e ∷ []) }) es r l o later
    ∙ ap (λ (n : ℕ). record s { pending = n }) (omega (arith, stops_cons e es))

then_closes :
    (s : Shared)
    → s.reading ≡ true
    → s.holder ≡ nobody
    → s.is_closed ≡ false
    → 0 < s.pending
    → ((run s (receives ∷ locks ∷ quits ∷ marks ∷ [])).is_closed ≡ true)
      × ((run s (fails ∷ locks ∷ quits ∷ marks ∷ [])).is_closed ≡ true)
unfolding run step quit mark
then_closes s r l o h = ground arith

-- While the peer is silent, each call of `Stop` on an open connection whose reader waits in
-- `ReadMessage` waits too, and the connection stays open; with the next message or error, a call that
-- waits closes it for its users, when there is one, once the heartbeat's `Stop` has returned.
pub run-IsSilent :
    (s : Shared) (es : List Event)
    → s.reading ≡ true
    → s.holder ≡ nobody
    → s.is_closed ≡ false
    → IsSilent es
    → 0 < s.pending + stops es
    → (run s es ≡ record s { pending = s.pending + stops es })
      × ((run (run s es) (receives ∷ locks ∷ quits ∷ marks ∷ [])).is_closed ≡ true)
      × ((run (run s es) (fails ∷ locks ∷ quits ∷ marks ∷ [])).is_closed ≡ true)
run-IsSilent s es r l o q h =
    let silent = run-silent s es r l o q in
    let (received, failed) = then_closes (record s { pending = s.pending + stops es }) r l o h in
    (
      silent,
      ap (λ (t : Shared). (run t (receives ∷ locks ∷ quits ∷ marks ∷ [])).is_closed) silent
          ∙ received,
      ap (λ (t : Shared). (run t (fails ∷ locks ∷ quits ∷ marks ∷ [])).is_closed) silent ∙ failed,
    )
