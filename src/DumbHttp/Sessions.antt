-- ===== src/DumbHttp/Sessions.antt =====
-- The thread in front of any clients.
use echo_bot.Prelude.{
  ℕ, ◌+◌, ◌-◌, ◌^◌, ◌<◌, ◌≡◌, refl, Bool, true, false, List, [], ◌∷◌, ◌++◌, append-nil, length, All,
  arith, lt→ltb, ok,
}
use echo_bot.DumbHttp.{
  Client, AcceptAnswer, accept_failed, accepted, serve, Out, accept_error, connection, accept_loop,
  thread_socket_dumb_http,
}
use echo_bot.DumbHttp.Responses.{Allowed}
use echo_bot.DumbHttp.Served.{Served, serve_lem}

-- What comes out for the answers of `accept`, with the number of the next connection: a failed
-- `accept` is skipped, each client is served before the next is accepted, and one that does not
-- end its request, or stops taking the page, holds the thread for good.
pub data Sessions (content : List ℕ) : ℕ → List AcceptAnswer → List Out → Type 0 where
  nobody : {n : ℕ} → Sessions content n [] []
  skipped :
      {n : ℕ} {rs : List AcceptAnswer} {outs : List Out}
      → Sessions content n rs outs
      → Sessions content n (accept_failed ∷ rs) (accept_error ∷ outs)
  served_and :
      {n : ℕ} {c : Client} {rs : List AcceptAnswer} {outs more : List Out}
      → Served content c outs true
      → Sessions content (n + 1) rs more
      → Sessions content n (accepted c ∷ rs) (connection n ∷ (outs ++ more))
  held_by :
      {n : ℕ} {c : Client} {rs : List AcceptAnswer} {outs : List Out}
      → Served content c outs false
      → Sessions content n (accepted c ∷ rs) (connection n ∷ outs)

-- `send` takes a byte at least and no more than it is given.
abbrev pub IsAllowed : List ℕ → AcceptAnswer → Type 0
IsAllowed content accept_failed = Unit {0}
IsAllowed content (accepted c) = Allowed c.send content

accept_loop-client :
    (content : List ℕ) (c : Client) (rs : List AcceptAnswer) (n : ℕ) {outs more : List Out}
    → n < 2 ^ 31 - 1
    → (goes_on : Bool) → serve content c ≡ ok (outs, goes_on)
    → Served content c outs goes_on
    → accept_loop content (n + 1) rs ≡ ok more
    → Sessions content (n + 1) rs more
    → (all : List Out) × (accept_loop content n (accepted c ∷ rs) ≡ ok all)
      × Sessions content n (accepted c ∷ rs) all
unfolding accept_loop
accept_loop-client content c rs n {outs} {more} small true e s e' k =
    (connection n ∷ (outs ++ more), rw (lt→ltb n (2 ^ 31 - 1) small, e, e'), served_and s k)
accept_loop-client content c rs n {outs} {more} small false e s e' k =
    (connection n ∷ outs, rw (lt→ltb n (2 ^ 31 - 1) small, e, append-nil outs), held_by s)

accept_loop-Sessions :
    (content : List ℕ) (rs : List AcceptAnswer) (n : ℕ)
    → All (IsAllowed content) rs
    → n + length rs < 2 ^ 31
    → (outs : List Out) × (accept_loop content n rs ≡ ok outs) × Sessions content n rs outs
unfolding accept_loop
accept_loop-Sessions content [] n h small = ([], refl, nobody)
accept_loop-Sessions content (accept_failed ∷ rs) n h small =
    let (outs, e, s) = accept_loop-Sessions content rs n h.1 (omega arith) in
    (accept_error ∷ outs, rw e, skipped s)
accept_loop-Sessions content (accepted c ∷ rs) n h small =
    let (outs, goes_on, e, s) = serve_lem content c h.0 in
    let (more, e', k) = accept_loop-Sessions content rs (n + 1) h.1 (omega arith) in
    accept_loop-client content c rs n (omega arith) goes_on e s e' k

-- A thread whose socket, address and queue are granted, with fewer than 2 ^ 31 answers of `accept`,
-- whatever the clients do, with a `send` that takes a byte at least and no more than it is given:
-- nothing faults. Failed answers are skipped; the connections are numbered in order from 0; of each a
-- first part of the page goes out, none of it unless a blank line was received, and it is closed once
-- before the next is accepted. If it is closed, then its stream has ended or failed, brought no blank line
-- or a CR right behind a CR, and none of the page goes out; or a blank line was received, and the whole page goes out or a `send`
-- fails. Or the client holds the thread, after which nothing comes out: its stream
-- is open, but brought no blank line or brought a CR right behind a CR; or a blank line was received and
-- it stops taking the page, without an error, before its end.
pub thread_socket_dumb_http-Sessions :
    (content : List ℕ) (rs : List AcceptAnswer)
    → All (IsAllowed content) rs
    → length rs < 2 ^ 31
    → (outs : List Out) × (thread_socket_dumb_http content true true true rs ≡ ok outs)
      × Sessions content 0 rs outs
unfolding thread_socket_dumb_http
thread_socket_dumb_http-Sessions content rs h small =
    accept_loop-Sessions content rs 0 h (omega arith)
