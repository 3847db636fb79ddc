-- ===== src/HttpGet.antt =====
-- src/http_get.c: a client that asks for one page and prints what comes back. What the socket library
-- answers is an argument: which of the calls fail, and the answers of `recv` in order. Where they end,
-- the thread waits in `recv`.
pub mod Observed
pub mod Response
mod Tests
use echo_bot.Prelude.{
  ℕ, Bool, true, false, List, [], ◌∷◌, ◌++◌, if◌then◌else◌, Result, ok, ◌>>=◌, copy_in, store,
  c_string, length,
}
use echo_bot.Prelude.Text.{codes}

-- The calls before the response, with their text. setsockopt is called twice, with TLS_SEC_TAG_LIST and TLS_HOSTNAME.
pub data Call : Type 0 where
  tls_credential_add socket set_sec_tag_list connect : Call
  getaddrinfo : (host port : List ℕ) → Call
  set_hostname : (host : List ℕ) → Call
  send : (bytes : List ℕ) → Call

-- HTTP_HOST, HTTP_PORT and HTTP_PATH; `tls` is CONFIG_NET_SOCKETS_SOCKOPT_TLS.
abbrev pub http_host : List ℕ
http_host = codes "google.com"

abbrev pub http_port : (tls : Bool) → List ℕ
http_port tls = if tls then codes "443" else codes "80"

abbrev pub http_path : List ℕ
http_path = codes "/"

-- REQUEST, without the NUL, which SSTRLEN leaves out.
abbrev pub request : List ℕ
request =
    codes "GET " ++ (http_path ++ (codes " HTTP/1.0\r\nHost: " ++ (http_host ++ codes "\r\n\r\n")))

-- `recv` of at most 1023 bytes; no bytes are the end of the stream.
pub data RecvAnswer : Type 0 where
  recv_failed : RecvAnswer
  received : List ℕ → RecvAnswer

-- The calls, and what is printed.
pub data Out : Type 0 where
  called check_failed : Call → Out
  unresolved read_error new_line close : Out
  printed : List ℕ → Out

-- How the thread ends: by exit(1), by returning, or not: it waits in `recv`.
pub data End : Type 0 where
  exits returns waits : End

-- `recv_loop` and what follows, with the array `response`.
unfoldable pub recv_loop : List ℕ → List RecvAnswer → Result (List Out × End)
recv_loop response [] = ok ([], waits)
recv_loop response (recv_failed ∷ rs) = ok (read_error ∷ [], returns)
recv_loop response (received [] ∷ rs) = ok (new_line ∷ close ∷ [], returns)
recv_loop response (received (c ∷ cs) ∷ rs) = do
  filled ← copy_in response 0 (c ∷ cs)
  response' ← store filled (length (c ∷ cs)) 0
  text ← c_string response'
  (outs, end) ← recv_loop response' rs
  ok (printed text ∷ outs, end)

-- What follows the line about a call that fails: for getaddrinfo the thread quits, for the others the
-- CHECK exits.
abbrev pub failing : Call → Out × End
failing (getaddrinfo host port) = (unresolved, returns)
failing c = (check_failed c, exits)

-- A call whose result is looked at, and the code behind it.
abbrev pub checked : (Call → Bool) → Call → Result (List Out × End) → Result (List Out × End)
checked fails c rest =
    if fails c
    then ok (called c ∷ (failing c).0 ∷ [], (failing c).1)
    else (rest >>= λ r. ok (called c ∷ r.0, r.1))

unfoldable pub thread_http_get :
    (tls : Bool) → (Call → Bool) → List ℕ → List RecvAnswer → Result (List Out × End)
thread_http_get tls fails response answers =
    let rest = checked fails connect (checked fails (send request) (recv_loop response answers)) in
    if tls
    then (checked fails (getaddrinfo http_host (http_port tls)) (
          checked fails socket
            (checked fails set_sec_tag_list (checked fails (set_hostname http_host) rest)))
        >>= λ r. ok (called tls_credential_add ∷ r.0, r.1))
    else checked fails (getaddrinfo http_host (http_port tls)) (checked fails socket rest)
