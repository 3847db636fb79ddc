-- ===== src/DumbHttp/Connections.antt =====
-- Whole connections.
use echo_bot.DumbHttp.Search.{has_blank_line, has_double_cr, discard-has_blank_line}
use echo_bot.Prelude.{
  ℕ, ◌+◌, ◌-◌, ◌^◌, ◌≤◌, ◌<◌, ◌≡◌, refl, ap, ◌∙◌, true, false, List, [], ◌∷◌, ◌++◌, length, All,
  arith, lt→ltb, ok, map,
}
use echo_bot.DumbHttp.{
  Client, closing, serve, respond, discard, request_end, Out, wire, connection, accept_loop,
  accepted, thread_socket_dumb_http,
}
use echo_bot.DumbHttp.Requests.{received}
use echo_bot.DumbHttp.Responses.{Takes, send_loop_lem}

-- Clients that send a request that is whole, and take the page.
abbrev pub IsServable : List ℕ → Client → Type 0
IsServable content c =
    (has_double_cr (received c.recv) ≡ false)
    × (has_blank_line (received c.recv) ≡ true)
    × Takes c.send content
    × (length content ≤ length c.send)

-- What comes out for clients in order, from the number of the first.
abbrev pub pages : List ℕ → ℕ → List Client → List Out
pages content n [] = []
pages content n (c ∷ cs) = connection n ∷ wire content ∷ (closing c ++ pages content (n + 1) cs)

pub served :
    (content : List ℕ) (c : Client)
    → discard 0 c.recv ≡ request_end
    → Takes c.send content
    → length content ≤ length c.send
    → serve content c ≡ ok (wire content ∷ closing c, true)
unfolding serve
served content c asked takes enough =
    ap (respond content c) asked ∙ rw (send_loop_lem c.send content takes enough) refl

accept_loop-pages :
    (content : List ℕ) (cs : List Client) (n : ℕ)
    → All (IsServable content) cs
    → n + length cs < 2 ^ 31
    → accept_loop content n (map accepted cs) ≡ ok (pages content n cs)
unfolding accept_loop
accept_loop-pages content [] n h small = refl
accept_loop-pages content (c ∷ cs) n ((plain, blank, takes, enough), h) small =
    rw
      (
        lt→ltb n (2 ^ 31 - 1) (omega arith),
        served content c ((discard-has_blank_line c.recv plain).1 blank) takes enough,
        accept_loop-pages content cs (n + 1) h (omega arith),
      )
      refl

-- A thread whose socket, address and queue are granted answers up to 2 ^ 31 - 1 clients, each of which
-- sends a blank line, and up to where its stream ends or fails no CR right behind a CR, and takes the
-- page, one after the other: each gets exactly the page, and its connection is closed before the next
-- is accepted.
pub thread_socket_dumb_http_lem :
    (content : List ℕ) (cs : List Client)
    → All (IsServable content) cs
    → length cs < 2 ^ 31
    → thread_socket_dumb_http content true true true (map accepted cs) ≡ ok (pages content 0 cs)
unfolding thread_socket_dumb_http
thread_socket_dumb_http_lem content cs h small = accept_loop-pages content cs 0 h (omega arith)
