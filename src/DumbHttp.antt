-- ===== src/DumbHttp.antt =====
-- src/socket_dumb_http.c: a server that reads a request up to its blank line and sends one page.
-- What the socket library answers is an argument: for each connection the answers of `recv`, `send`
-- and `close` in order. Where the answers end, the thread waits in the call.
pub mod Requests
pub mod Search
pub mod Waiting
pub mod Responses
pub mod Served
pub mod Connections
pub mod Sessions
mod Tests
use echo_bot.Prelude.{
  ℕ, ◌+◌, Bool, true, false, ◌&&◌, Option, none, some, List, [], ◌∷◌, ◌++◌, ◌==◌, if◌then◌else◌,
  Result, ok, ◌>>=◌, read, drop, length,
}
use echo_bot.Prelude.Int.{inc_int}

-- `recv` of one byte: the byte, 0, an error EAGAIN or EINTR, or another error.
pub data RecvAnswer : Type 0 where
  byte : ℕ → RecvAnswer
  end_of_stream retry recv_failed : RecvAnswer

-- `send`: how many bytes it took, or -1.
pub data SendAnswer : Type 0 where
  sent : ℕ → SendAnswer
  send_failed : SendAnswer

pub record Client : Type 0 where
  pub recv : List RecvAnswer
  pub send : List SendAnswer
  pub closes : Bool

-- `accept`
pub data AcceptAnswer : Type 0 where
  accept_failed : AcceptAnswer
  accepted : Client → AcceptAnswer

-- What the thread prints, and the bytes that it hands to `send`.
pub data Out : Type 0 where
  check_failed accept_error recv_error send_error closed close_error : Out
  connection : ℕ → Out
  wire : List ℕ → Out

-- The next `req_state` at a byte; `none` is the end of the request.
unfoldable pub next_state : ℕ → ℕ → Option ℕ
next_state req_state c =
    if req_state == 0 && c == b'\r'
    then some (req_state + 1)
    else if req_state == 1 && c == b'\n'
    then some (req_state + 1)
    else if req_state == 2 && c == b'\r'
    then some (req_state + 1)
    else if req_state == 3 && c == b'\n'
    then none
    else some 0

-- How the loop that discards the request ends.
pub data Discarded : Type 0 where
  request_end close_client error_close waiting : Discarded

unfoldable pub discard : ℕ → List RecvAnswer → Discarded
discard req_state [] = waiting
discard req_state (byte c ∷ rs) = elim (next_state req_state c) [
  | none ↦ request_end
  | some req_state' ↦ discard req_state' rs
]
discard req_state (end_of_stream ∷ rs) = close_client
discard req_state (retry ∷ rs) = discard req_state rs
discard req_state (recv_failed ∷ rs) = error_close

-- How the loop that sends the page ends.
pub data Sending : Type 0 where
  complete failed blocked : Sending

-- The bytes taken by `send`, and how the loop ends. A count beyond `len` would make the next call
-- read outside the page.
unfoldable pub send_loop : List ℕ → List SendAnswer → Result (List ℕ × Sending)
send_loop page [] = ok ([], if length page == 0 then complete else blocked)
send_loop page (send_failed ∷ rs) = ok ([], if length page == 0 then complete else failed)
send_loop page (sent n ∷ rs) =
    let rest = send_loop (drop n page) rs in
    if length page == 0
    then ok ([], complete)
    else (read page n >>= λ taken. rest >>= λ r. ok (taken ++ r.0, r.1))

abbrev pub closing : Client → List Out
closing c = (if c.closes then closed else close_error) ∷ []

-- Behind the loop that sends.
abbrev pub sent_page : Client → List ℕ → Sending → List Out × Bool
sent_page c taken complete = (wire taken ∷ closing c, true)
sent_page c taken failed = (wire taken ∷ send_error ∷ closing c, true)
sent_page c taken blocked = (wire taken ∷ [], false)

-- Behind the loop that discards.
abbrev pub respond : List ℕ → Client → Discarded → Result (List Out × Bool)
respond content c waiting = ok ([], false)
respond content c close_client = ok (closing c, true)
respond content c error_close = ok (recv_error ∷ closing c, true)
respond content c request_end = send_loop content c.send >>= λ r. ok (sent_page c r.0 r.1)

-- One connection after `accept`: what comes out, and whether the thread goes on.
unfoldable pub serve : List ℕ → Client → Result (List Out × Bool)
serve content c = respond content c (discard 0 c.recv)

-- `counter` is the number of the next connection.
unfoldable pub accept_loop : List ℕ → ℕ → List AcceptAnswer → Result (List Out)
accept_loop content counter [] = ok []
accept_loop content counter (accept_failed ∷ rs) =
    accept_loop content counter rs >>= λ rest. ok (accept_error ∷ rest)
accept_loop content counter (accepted c ∷ rs) = do
  counter' ← inc_int counter
  (outs, goes_on) ← serve content c
  rest ← if goes_on then accept_loop content counter' rs else ok []
  ok (connection counter ∷ (outs ++ rest))

-- The thread: `socket`, `bind` and `listen` must succeed, or the program exits.
unfoldable pub thread_socket_dumb_http :
    List ℕ → Bool → Bool → Bool → List AcceptAnswer → Result (List Out)
thread_socket_dumb_http content socket_ok bind_ok listen_ok rs =
    if socket_ok && (bind_ok && listen_ok) then accept_loop content 0 rs else ok (check_failed ∷ [])
