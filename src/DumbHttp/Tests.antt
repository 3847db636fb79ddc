-- ===== src/DumbHttp/Tests.antt =====
-- A request with a retried `recv`, a page of five bytes, and the theorems on them.
use echo_bot.DumbHttp.Sessions.{Sessions, thread_socket_dumb_http-Sessions}
use echo_bot.Prelude.{ℕ, ◌≡◌, ◌↔◌, refl, true, List, [], ◌∷◌, ◌++◌, arith, ok, map, false}
use echo_bot.Prelude.Text.{codes}
use echo_bot.DumbHttp.{
  RecvAnswer, byte, retry, end_of_stream, next_state, discard, request_end, close_client, sent,
  send_loop, complete, Client, Out, accepted, thread_socket_dumb_http, AcceptAnswer, accept_failed,
}
use echo_bot.DumbHttp.Requests.{received}
use echo_bot.DumbHttp.Search.{has_blank_line, discard-has_blank_line}
use echo_bot.DumbHttp.Responses.{Takes, send_loop_lem}
use echo_bot.DumbHttp.Connections.{pages, thread_socket_dumb_http_lem}

abbrev delivered : List ℕ → List RecvAnswer
delivered [] = []
delivered (c ∷ cs) = byte c ∷ delivered cs

-- "GET", a retry, and the rest.
abbrev request_bytes : List RecvAnswer
request_bytes = delivered (codes "GET") ++ retry ∷ delivered (codes " /\r\n\r\n")

abbrev page : List ℕ
page = codes "hello"

abbrev client : Client
client = record {
  recv = request_bytes;
  send = sent 2 ∷ sent 3 ∷ sent 1 ∷ sent 1 ∷ sent 1 ∷ [];
  closes = true;
}

ended : discard 0 request_bytes ≡ request_end
unfolding discard next_state
ended = refl

-- With a CR too many before it, the blank line is missed.
missed : discard 0 (delivered (codes "GET /\r\r\n\r\n") ++ end_of_stream ∷ []) ≡ close_client
unfolding discard next_state
missed = refl

discard-has_blank_line_example :
    (discard 0 request_bytes ≡ request_end) ↔ (has_blank_line (received request_bytes) ≡ true)
discard-has_blank_line_example = discard-has_blank_line request_bytes refl

takes : Takes client.send page
takes = (
  λ n. (omega arith, omega arith),
  (
    λ n. (omega arith, omega arith),
    (λ n. absurd (n refl), (λ n. absurd (n refl), (λ n. absurd (n refl), tt))),
  ),
)

send_loop_lem_example :
    send_loop page (sent 2 ∷ sent 3 ∷ sent 1 ∷ sent 1 ∷ sent 1 ∷ []) ≡ ok (page, complete)
send_loop_lem_example =
    send_loop_lem (sent 2 ∷ sent 3 ∷ sent 1 ∷ sent 1 ∷ sent 1 ∷ []) page takes (omega arith)

thread_socket_dumb_http_lem_example :
    thread_socket_dumb_http page true true true (map accepted (client ∷ client ∷ []))
    ≡ ok (pages page 0 (client ∷ client ∷ []))
thread_socket_dumb_http_lem_example =
    thread_socket_dumb_http_lem page (client ∷ client ∷ [])
      ((refl, refl, takes, omega arith), ((refl, refl, takes, omega arith), tt)) (omega arith)

-- A client that closes at once, one that is answered, and one that stops in its request.
abbrev gone : Client
gone = record { recv = end_of_stream ∷ []; send = []; closes = false }

abbrev silent : Client
silent = record { recv = delivered (codes "GET /"); send = []; closes = true }

abbrev visitors : List AcceptAnswer
visitors = accepted gone ∷ accept_failed ∷ accepted client ∷ accepted silent ∷ accepted client ∷ []

thread_socket_dumb_http-Sessions_example :
    (outs : List Out) × (thread_socket_dumb_http page true true true visitors ≡ ok outs)
    × Sessions page 0 visitors outs
thread_socket_dumb_http-Sessions_example =
    thread_socket_dumb_http-Sessions page visitors (tt, (tt, (takes, (tt, (takes, tt)))))
      (omega arith)
