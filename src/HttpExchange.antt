-- ===== src/HttpExchange.antt =====
-- The client of src/http_get.c, without TLS, in front of the server of src/socket_dumb_http.c.
mod Tests
use echo_bot.Prelude.{
  not, ◌&&◌, ◌==◌, ◌≢◌, ℕ, ◌≤◌, ◌<◌, ◌≡◌, refl, sym, ap, ap₂, ◌∙◌, subst, Bool, true, false, List,
  [], ◌∷◌, ◌++◌, arith, ok, length, All, IsText, until_nul, until_nul_of_IsText, map,
}
use echo_bot.Prelude.Text.{codes}
use echo_bot.DumbHttp as Server
use echo_bot.DumbHttp.{Client, serve, wire, closing, discard, request_end}
use echo_bot.DumbHttp.Requests.{received, discard-request}
use echo_bot.DumbHttp.Responses.{Takes}
use echo_bot.DumbHttp.Connections.{served}
use echo_bot.HttpGet as Get
use echo_bot.HttpGet.{request, thread_http_get, returns}
use echo_bot.HttpGet.Observed.{calls, shown, closes, text_of, stream_ends, loop_end, bytes_of}
use echo_bot.HttpGet.Response.{thread_http_get_lem}

abbrev join : List (List ℕ) → List ℕ
join [] = []
join (piece ∷ pieces) = piece ++ join pieces

-- The answers of the client's `recv` when its peer sends these pieces and closes.
abbrev pub arrive : List (List ℕ) → List Get.RecvAnswer
arrive [] = Get.received [] ∷ []
arrive (piece ∷ pieces) = Get.received piece ∷ arrive pieces

-- A stream arrives in pieces of 1 to 1023 bytes.
abbrev pub IsPiece : List ℕ → Type 0
IsPiece piece = (0 < length piece) × (length piece ≤ 1023)

-- The texts that are sent.
abbrev sends_of : List Get.Call → List (List ℕ)
sends_of [] = []
sends_of (Get.send bytes ∷ calls) = bytes ∷ sends_of calls
sends_of (_ ∷ calls) = sends_of calls

abbrev pub sends : List Get.Out → List (List ℕ)
sends outs = sends_of (calls outs)

IsText-front : (a b : List ℕ) → IsText (a ++ b) → IsText a
IsText-front [] b h = tt
IsText-front (c ∷ a) b h = (h.0, IsText-front a b h.1)

IsText-back : (a b : List ℕ) → IsText (a ++ b) → IsText b
IsText-back [] b h = h
IsText-back (c ∷ a) b h = IsText-back a b h.1

text_of-arrive :
    (pieces : List (List ℕ))
    → All IsPiece pieces
    → IsText (join pieces)
    → (text_of (arrive pieces) ≡ join pieces)
      × (stream_ends (arrive pieces) ≡ true)
      × (loop_end (arrive pieces) ≡ returns)
      × All (λ r. length (bytes_of r) ≤ 1023) (arrive pieces)
text_of-arrive [] h text = (refl, refl, refl, (omega arith, tt))
text_of-arrive ([] ∷ pieces) h text = absurd (omega (arith, h.0.0))
text_of-arrive ((c ∷ cs) ∷ pieces) h text =
    let (same, ends, back, short) =
      text_of-arrive pieces h.1 (IsText-back (c ∷ cs) (join pieces) text) in
    (
      ap₂ (λ a b. a ++ b) (until_nul_of_IsText (c ∷ cs) (IsText-front (c ∷ cs) (join pieces) text))
          same,
      ends,
      back,
      (h.0.1, short),
    )

abbrev no_cr : List ℕ → Bool
no_cr [] = true
no_cr (c ∷ cs) = not (c == b'\r') && no_cr cs

All-of_no_cr : (cs : List ℕ) → no_cr cs ≡ true → All (λ c. c ≢ b'\r') cs
All-of_no_cr [] h = tt
All-of_no_cr (c ∷ cs) h = (ground (arith, h), All-of_no_cr cs (ground (arith, h)))

-- The client's request has two lines.
request_recognised :
    (rs : List Server.RecvAnswer) (more : List ℕ)
    → received rs ≡ request ++ more
    → discard 0 rs ≡ request_end
request_recognised rs more e =
    discard-request rs (codes "GET / HTTP/1.0") (codes "Host: google.com" ∷ []) more
      (All-of_no_cr (codes "GET / HTTP/1.0") refl)
      (All-of_no_cr (codes "Host: google.com") refl, tt) e

-- The client sends its request, and the server receives it whole, whatever follows it, and sends its
-- page with a `send` that takes a byte at least and no more than it is given, until all is taken. The
-- page has no NUL and reaches the client in any pieces of 1 to 1023 bytes, and then the end of the
-- stream. Then the server recognises the request, sends exactly the page and closes the connection;
-- and the client prints exactly the page, closes its socket and returns.
pub serve-thread_http_get :
    (content more response : List ℕ) (c : Client) (pieces : List (List ℕ))
    → received c.recv ≡ request ++ more
    → Takes c.send content
    → length content ≤ length c.send
    → IsText content
    → All IsPiece pieces
    → join pieces ≡ content
    → length response ≡ 1024
    → (outs : List Get.Out) × (serve content c ≡ ok (wire content ∷ closing c, true))
      × (thread_http_get false (λ call. false) response (arrive pieces) ≡ ok (outs, returns))
      × (sends outs ≡ request ∷ [])
      × (shown outs ≡ content)
      × (closes outs ≡ true)
serve-thread_http_get content more response c pieces asked takes enough text cut whole size =
    let (same, ends, back, short) = text_of-arrive pieces cut (subst IsText (sym whole) text) in
    let (outs, end, run, calls_made, printed, closed, ending) =
      thread_http_get_lem false (λ call. false) response (arrive pieces) size short in
    (
      outs,
      served content c (request_recognised c.recv more asked) takes enough,
      run ∙ ap (λ e. ok (outs, e)) (ending ∙ back),
      ap sends_of calls_made,
      printed ∙ same ∙ whole,
      closed ∙ ends,
    )
