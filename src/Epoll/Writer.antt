-- ===== src/Epoll/Writer.antt =====
-- `StartWriter` of epoll/conn.go, whose deferred call is the `Stop` of epoll/conn.go.
use gts.Base.{
  ℕ, ◌≡◌, refl, ap, ◌∙◌, sym, subst, Bool, true, false, Option, none, some, List, [], ◌∷◌, ◌++◌,
  take, drop, take-append-drop, concat, if◌then◌else◌,
}
use mathlib.Core.List.{append_assoc}
use gts.Epoll.{ConnManager}
use gts.Epoll.Stop.{Stoppable, Ended, stop}

-- The writer between two rounds, with the bytes that the socket took from it.
pub record Writer : Type 0 where
  pub conn : Stoppable
  pub msg_chan : List (List ℕ)
  pub manager : ConnManager
  pub wire : List ℕ

-- The loop goes on, or it was left: then the bytes on the socket and the chunks still in `msgChan`
-- are as given, and the deferred `Stop` comes to the last argument.
pub data Phase : Type 0 where
  looping : Writer → Phase
  left : List ℕ → List (List ℕ) → Ended → Phase

-- The case of `select` that is taken: a write that takes the whole chunk, or fails behind so many
-- bytes; or the end of the context.
pub data Case : Type 0 where
  writes : Option ℕ → Case
  done : Case

-- A case that is not ready leaves the writer where it is.
unfoldable pub write_chunk : Bool → Option ℕ → List (List ℕ) → Writer → Phase
write_chunk ctl_ok failure [] w = looping w
write_chunk ctl_ok none (chunk ∷ rest) w =
    looping (record w { msg_chan = rest; wire = w.wire ++ chunk })
write_chunk ctl_ok (some k) (chunk ∷ rest) w =
    left (w.wire ++ take k chunk) rest (stop ctl_ok w.conn w.manager)

unfoldable pub round : Bool → Case → Writer → Phase
unfolding write_chunk
round ctl_ok (writes failure) w = write_chunk ctl_ok failure w.msg_chan w
round ctl_ok done w =
    if w.conn.ctx_done then left w.wire w.msg_chan (stop ctl_ok w.conn w.manager) else looping w

unfoldable pub next : Bool → Case → Phase → Phase
unfolding round
next ctl_ok c (looping w) = round ctl_ok c w
next ctl_ok c (left wire chan e) = left wire chan e

-- The loop, for as many rounds as cases are given.
unfoldable pub start_writer : Bool → List Case → Phase → Phase
unfolding next
start_writer ctl_ok [] p = p
start_writer ctl_ok (c ∷ cs) p = start_writer ctl_ok cs (next ctl_ok c p)

-- The bytes of a writer, on the socket and in the channel.
abbrev pub total : Writer → List ℕ
total w = w.wire ++ concat w.msg_chan

-- What a round makes of the bytes: none is lost while the loop goes on, and the bytes on the socket
-- of a loop that was left are a beginning of them.
abbrev Keeps : List ℕ → Phase → Type 0
Keeps all (looping w) = total w ≡ all
Keeps all (left wire chan e) = (missing : List ℕ) × (wire ++ missing ≡ all)

write_chunk-Keeps :
    (ctl_ok : Bool) (failure : Option ℕ) (chan : List (List ℕ)) (w : Writer)
    → w.msg_chan ≡ chan
    → Keeps (total w) (write_chunk ctl_ok failure chan w)
unfolding write_chunk
write_chunk-Keeps ctl_ok failure [] w e = refl
write_chunk-Keeps ctl_ok none (chunk ∷ rest) w e =
    append_assoc w.wire chunk (concat rest) ∙ ap (λ chan. w.wire ++ concat chan) (sym e)
write_chunk-Keeps ctl_ok (some k) (chunk ∷ rest) w e = (
  drop k chunk ++ concat rest,
  append_assoc w.wire (take k chunk) (drop k chunk ++ concat rest)
      ∙ ap (◌++◌ w.wire) (
          sym (append_assoc (take k chunk) (drop k chunk) (concat rest))
          ∙ ap (λ xs. xs ++ concat rest) (take-append-drop k chunk))
      ∙ ap (λ chan. w.wire ++ concat chan) (sym e),
)

next-Keeps :
    (ctl_ok : Bool) (c : Case) (all : List ℕ) (p : Phase)
    → Keeps all p
    → Keeps all (next ctl_ok c p)
unfolding next round
next-Keeps ctl_ok c all (left wire chan e) k = k
next-Keeps ctl_ok (writes failure) all (looping w) k =
    subst (λ a. Keeps a (write_chunk ctl_ok failure w.msg_chan w)) k
      (write_chunk-Keeps ctl_ok failure w.msg_chan w refl)
next-Keeps ctl_ok done all (looping w) k =
    elim w.conn.ctx_done
      as (λ b.
        Keeps all
          (if b then left w.wire w.msg_chan (stop ctl_ok w.conn w.manager) else looping w)) [
            | true ↦ (concat w.msg_chan, k)
            | false ↦ k
          ]

-- Nothing is written in another order or twice, whatever the cases and the errors: while the loop
-- goes on, the bytes on the socket and those in `msgChan` are together what they were, and where it
-- was left, the bytes on the socket are a beginning of these.
pub start_writer-Keeps :
    (ctl_ok : Bool) (cs : List Case) (all : List ℕ) (p : Phase)
    → Keeps all p
    → Keeps all (start_writer ctl_ok cs p)
unfolding start_writer
start_writer-Keeps ctl_ok [] all p k = k
start_writer-Keeps ctl_ok (c ∷ cs) all p k =
    start_writer-Keeps ctl_ok cs all (next ctl_ok c p) (next-Keeps ctl_ok c all p k)
