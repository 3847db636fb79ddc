-- ===== src/HttpGet/Observed.antt =====
-- What can be observed of a run of the client, and what its answers ask for.
use echo_bot.Prelude.{
  ℕ, ◌≡◌, Bool, true, false, ◌&&◌, not, List, [], ◌∷◌, ◌++◌, if◌then◌else◌, until_nul,
}
use echo_bot.HttpGet.{
  Call, getaddrinfo, socket, set_sec_tag_list, set_hostname, connect, send, http_host, http_port,
  request, RecvAnswer, recv_failed, received, Out, called, close, printed, End, exits, returns,
  waits,
}

abbrev pub calls : List Out → List Call
calls [] = []
calls (called c ∷ os) = c ∷ calls os
calls (_ ∷ os) = calls os

-- The text that is printed of the response, and whether the socket is closed.
abbrev pub shown : List Out → List ℕ
shown [] = []
shown (printed text ∷ os) = text ++ shown os
shown (_ ∷ os) = shown os

abbrev pub closes : List Out → Bool
closes [] = false
closes (close ∷ os) = true
closes (_ ∷ os) = closes os

-- The calls whose result is looked at, in order, and those of them that are made: up to the first that
-- fails.
abbrev pub checked_calls : Bool → List Call
checked_calls true =
    getaddrinfo http_host (http_port true)
    ∷ socket
    ∷ set_sec_tag_list
    ∷ set_hostname http_host
    ∷ connect
    ∷ send request
    ∷ []
checked_calls false = getaddrinfo http_host (http_port false) ∷ socket ∷ connect ∷ send request ∷ []

abbrev pub up_to_failure : (Call → Bool) → List Call → List Call
up_to_failure fails [] = []
up_to_failure fails (c ∷ cs) = c ∷ (if fails c then [] else up_to_failure fails cs)

abbrev pub none_fails : (Call → Bool) → List Call → Bool
none_fails fails [] = true
none_fails fails (c ∷ cs) = not (fails c) && none_fails fails cs

-- The bytes of each answer up to a NUL, until the stream ends or `recv` fails.
abbrev pub text_of : List RecvAnswer → List ℕ
text_of [] = []
text_of (recv_failed ∷ rs) = []
text_of (received [] ∷ rs) = []
text_of (received (c ∷ cs) ∷ rs) = until_nul (c ∷ cs) ++ text_of rs

abbrev pub stream_ends : List RecvAnswer → Bool
stream_ends [] = false
stream_ends (recv_failed ∷ rs) = false
stream_ends (received [] ∷ rs) = true
stream_ends (received (c ∷ cs) ∷ rs) = stream_ends rs

abbrev pub bytes_of : RecvAnswer → List ℕ
bytes_of recv_failed = []
bytes_of (received bytes) = bytes

-- How a run ends: behind the first call that fails, or in the loop.
abbrev pub loop_end : List RecvAnswer → End
loop_end [] = waits
loop_end (recv_failed ∷ rs) = returns
loop_end (received [] ∷ rs) = returns
loop_end (received (c ∷ cs) ∷ rs) = loop_end rs

abbrev pub quits : Call → End
quits (getaddrinfo _ _) = returns
quits _ = exits

abbrev pub end_of : (Call → Bool) → List Call → List RecvAnswer → End
end_of fails [] answers = loop_end answers
end_of fails (c ∷ cs) answers = if fails c then quits c else end_of fails cs answers

-- What a run with these calls before it, and these answers, does.
pub record Does (fails : Call → Bool) (before : List Call) (answers : List RecvAnswer)
    (outs : List Out) (end : End) : Type 0 where
  pub made : calls outs ≡ up_to_failure fails before
  pub text : shown outs ≡ (if none_fails fails before then text_of answers else [])
  pub ends : closes outs ≡ none_fails fails before && stream_ends answers
  pub ending : end ≡ end_of fails before answers
