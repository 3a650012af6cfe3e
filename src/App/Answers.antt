-- ===== src/App/Answers.antt =====
-- What the handlers of main.go put into the channels of the connections, over any transport.
use mathlib.Core.List.{append_assoc, append-nil}
use gts.Base.{
  ℕ, ◌+◌, ◌≡◌, refl, sym, ap, ◌∙◌, inl, inr, Bool, true, false, List, [], ◌∷◌, ◌++◌, ◌==◌, map,
  arith, if◌then◌else◌, Bool-cases, ==_iff,
}
use gts.World.{Connection, World, returns, ◌>>=◌, at, at_self}
use gts.Message.{Message, new_msg_package, pack}
use gts.Handler.{calls_of, do_msg_handler}
use gts.Transport.{ConnectionOps, IsConnection}
use gts.App.{
  Request, ping_text, ping2_text, handle_by, perform, performs, serve, serve_all, app_routers,
}

-- The messages that the application answers a message with, by its identifier.
abbrev pub reply_to : ℕ → List Message
reply_to id =
    if 1 == id
    then new_msg_package 1 ping_text ∷ []
    else if 2 == id
    then new_msg_package 1 ping2_text ∷ []
    else []

abbrev pub queued : List Message → Connection → Connection
queued ms c = record c { msg_chan = c.msg_chan ++ map pack ms }

-- A closed connection takes no answer.
abbrev pub answered : Message → Connection → Connection
answered m c = if c.is_closed then c else queued (reply_to m.id) c

-- The answers to the requests of one connection, in the order of the requests.
abbrev pub replies : ℕ → List Request → List Message
replies a [] = []
replies a (r ∷ rs) = (if r.conn == a then reply_to r.msg.id else []) ++ replies a rs

module _ (ops : ConnectionOps) (laws : IsConnection ops) where
  send_eq :
      (text : List ℕ) (c : Connection)
      → (ops.send c 1 text).1 ≡ (if c.is_closed then c else queued (new_msg_package 1 text ∷ []) c)
  send_eq text c =
      let branch : Bool → Connection =
        λ b. if b then c else queued (new_msg_package 1 text ∷ []) c in
      elim (Bool-cases c.is_closed) [
        | inl e ↦ ap (λ r. r.1) (laws.refuses c 1 text e) ∙ sym (ap branch e)
        | inr e ↦ laws.queues c 1 text e ∙ sym (ap branch e)
      ]

  queued_nil : (b : Bool) (c : Connection) → (if b then c else queued [] c) ≡ c
  queued_nil true c = refl
  queued_nil false c = ap (λ chan. record c { msg_chan = chan }) (append-nil c.msg_chan)

  -- A request puts its answer behind what waits on its own connection, and changes nothing else.
  serve_eq :
      (r : Request) (w : World)
      → serve ops app_routers r w ≡ returns tt (at w r.conn (answered r.msg (w.heap r.conn)))
  unfolding serve performs perform handle_by do_msg_handler calls_of gts.Base.Map.lookup
  serve_eq r w = elim (Bool-cases (1 == r.msg.id)) [
    | inl e ↦ rw e (ap (λ c. returns tt (at w r.conn c)) (send_eq ping_text (w.heap r.conn)))
    | inr e ↦ elim (Bool-cases (2 == r.msg.id)) [
      | inl f ↦
          rw (e, f) (ap (λ c. returns tt (at w r.conn c)) (send_eq ping2_text (w.heap r.conn)))
      | inr f ↦
          rw (e, f)
            (sym (
              ap (returns tt) (
                ap (at w r.conn) (queued_nil (w.heap r.conn).is_closed (w.heap r.conn))
                ∙ at_self w r.conn)))
    ]
  ]

-- What requests in their order leave of a connection.
abbrev pub after_all : ℕ → List Request → Connection → Connection
after_all b [] c = c
after_all b (r ∷ rs) c = after_all b rs (if r.conn == b then answered r.msg c else c)

answered-open :
    (x : Bool) (m : Message) (c : Connection)
    → c.is_closed ≡ false
    → (if x then answered m c else c) ≡ queued (if x then reply_to m.id else []) c
answered-open true m c o = ap (λ b. if b then c else queued (reply_to m.id) c) o
answered-open false m c o = ap (λ chan. record c { msg_chan = chan }) (sym (append-nil c.msg_chan))

answered-closed :
    (x : Bool) (m : Message) (c : Connection)
    → c.is_closed ≡ true
    → (if x then answered m c else c) ≡ c
answered-closed true m c o = ap (λ b. if b then c else queued (reply_to m.id) c) o
answered-closed false m c o = refl

map-append_pack : (xs ys : List Message) → map pack (xs ++ ys) ≡ map pack xs ++ map pack ys
map-append_pack [] ys = refl
map-append_pack (x ∷ xs) ys = ap (◌∷◌ (pack x)) (map-append_pack xs ys)

queued-queued :
    (xs ys : List Message) (c : Connection) → queued ys (queued xs c) ≡ queued (xs ++ ys) c
queued-queued xs ys c =
    ap (λ chan. record c { msg_chan = chan })
      (append_assoc c.msg_chan (map pack xs) (map pack ys)
        ∙ ap (◌++◌ c.msg_chan) (sym (map-append_pack xs ys)))

-- Where a function is applied to the connection at one address.
heap-at :
    (w : World) (a b : ℕ) (f : Connection → Connection)
    → (at w a (f (w.heap a))).heap b ≡ (if a == b then f (w.heap b) else w.heap b)
unfolding at
heap-at w a b f = elim (Bool-cases (a == b)) [
  | inl e ↦ rw e (ap (λ k. f (w.heap k)) ((==_iff a b).0 e))
  | inr e ↦ rw e refl
]

-- An open connection gets the answers to its own requests, in their order, and no others.
pub after_all-open :
    (b : ℕ) (rs : List Request) (c : Connection)
    → c.is_closed ≡ false
    → after_all b rs c ≡ queued (replies b rs) c
after_all-open b [] c o = ap (λ chan. record c { msg_chan = chan }) (sym (append-nil c.msg_chan))
after_all-open b (r ∷ rs) c o =
    let own = if r.conn == b then reply_to r.msg.id else [] in
    ap (after_all b rs) (answered-open (r.conn == b) r.msg c o)
    ∙ after_all-open b rs (queued own c) o
    ∙ queued-queued own (replies b rs) c

pub after_all-closed :
    (b : ℕ) (rs : List Request) (c : Connection) → c.is_closed ≡ true → after_all b rs c ≡ c
after_all-closed b [] c o = refl
after_all-closed b (r ∷ rs) c o =
    ap (after_all b rs) (answered-closed (r.conn == b) r.msg c o) ∙ after_all-closed b rs c o

module _ (ops : ConnectionOps) (laws : IsConnection ops) where
  pub serve_all-heap :
      (rs : List Request) (w : World)
      → (v : World) × (serve_all ops app_routers rs w ≡ returns tt v)
        × ((b : ℕ) → v.heap b ≡ after_all b rs (w.heap b))
  unfolding serve_all
  serve_all-heap [] w = (w, refl, λ b. refl)
  serve_all-heap (r ∷ rs) w =
      let u = at w r.conn (answered r.msg (w.heap r.conn)) in
      let (v, e, h) = serve_all-heap rs u in
      (
        v,
        rw (serve_eq ops laws r w, ◌>>=◌) e,
        λ b. h b ∙ ap (after_all b rs) (heap-at w r.conn b (answered r.msg)),
      )
