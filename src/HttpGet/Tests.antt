-- ===== src/HttpGet/Tests.antt =====
-- A response in two parts, and the theorem at it.
use echo_bot.Prelude.{ℕ, ◌≡◌, refl, Bool, true, false, List, [], ◌∷◌, arith, ok, replicate}
use echo_bot.Prelude.Text.{codes}
use echo_bot.HttpGet.{
  Call, tls_credential_add, getaddrinfo, socket, set_sec_tag_list, set_hostname, connect, send,
  request, RecvAnswer, recv_failed, received, Out, new_line, close, printed, End, returns,
  recv_loop, thread_http_get,
}
use echo_bot.HttpGet.Observed.{calls, shown, closes}
use echo_bot.HttpGet.Response.{thread_http_get_lem}

abbrev response : List ℕ
response = replicate 1024 170

abbrev none_do : Call → Bool
none_do c = false

abbrev answers : List RecvAnswer
answers = received (codes "HTTP") ∷ received (codes "/1.0") ∷ received [] ∷ recv_failed ∷ []

-- A shorter array, of 8 bytes.
recv_two :
    recv_loop (replicate 8 170) answers
    ≡ ok (printed (codes "HTTP") ∷ printed (codes "/1.0") ∷ new_line ∷ close ∷ [], returns)
unfolding recv_loop
recv_two = refl

thread_http_get_lem_example :
    (outs : List Out) × (end : End) × (thread_http_get true none_do response answers
      ≡ ok (outs, end))
    × (calls outs
        ≡ tls_credential_add
          ∷ getaddrinfo (codes "google.com") (codes "443")
          ∷ socket
          ∷ set_sec_tag_list
          ∷ set_hostname (codes "google.com")
          ∷ connect
          ∷ send request
          ∷ [])
    × (shown outs ≡ codes "HTTP/1.0")
    × (closes outs ≡ true)
    × (end ≡ returns)
thread_http_get_lem_example =
    thread_http_get_lem true none_do response answers refl
      (omega arith, (omega arith, (omega arith, (omega arith, tt))))
