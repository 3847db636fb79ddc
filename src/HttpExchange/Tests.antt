-- ===== src/HttpExchange/Tests.antt =====
-- An exchange at a small page.
use echo_bot.Prelude.{ℕ, ◌≡◌, refl, true, false, List, [], ◌∷◌, arith, ok, replicate}
use echo_bot.Prelude.Text.{codes}
use echo_bot.DumbHttp as Server
use echo_bot.DumbHttp.{Client, serve, wire, closing, byte, retry, sent}
use echo_bot.DumbHttp.Responses.{Takes}
use echo_bot.HttpGet as Get
use echo_bot.HttpGet.{request, thread_http_get, returns}
use echo_bot.HttpGet.Observed.{shown, closes}
use echo_bot.HttpExchange.{arrive, sends, serve-thread_http_get}

abbrev delivered : List ℕ → List Server.RecvAnswer
delivered [] = []
delivered (c ∷ cs) = byte c ∷ retry ∷ delivered cs

abbrev page : List ℕ
page = codes "<p>"

abbrev client : Client
client = record { recv = delivered request; send = sent 2 ∷ sent 1 ∷ sent 1 ∷ []; closes = true }

takes : Takes client.send page
takes =
    (λ n. (omega arith, omega arith), (λ n. (omega arith, omega arith), (λ n. absurd (n refl), tt)))

serve-thread_http_get_example :
    (outs : List Get.Out) × (serve page client ≡ ok (wire page ∷ closing client, true))
    × (thread_http_get false
          (λ call. false)
          (replicate 1024 0)
          (arrive (codes "<" ∷ codes "p>" ∷ []))
        ≡ ok (outs, returns))
    × (sends outs ≡ request ∷ [])
    × (shown outs ≡ page)
    × (closes outs ≡ true)
serve-thread_http_get_example =
    serve-thread_http_get page [] (replicate 1024 0) client (codes "<" ∷ codes "p>" ∷ []) refl takes
      (omega arith) (omega arith, (omega arith, (omega arith, tt)))
      ((omega arith, omega arith), ((omega arith, omega arith), tt)) refl refl
