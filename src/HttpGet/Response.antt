-- ===== src/HttpGet/Response.antt =====
-- What the client prints and calls.
use echo_bot.Prelude.{
  ℕ, ◌+◌, ◌≤◌, ◌<◌, ◌≡◌, refl, ap, ◌∙◌, inl, inr, Bool, Bool-cases, true, false, ◌&&◌, List, [],
  ◌∷◌, ◌++◌, arith, if◌then◌else◌, Result, ok, length, length-append, length-drop, length-set, drop,
  set, All, copy_in, copy_in_ok, store, store_ok, c_string, c_string-set, until_nul, take-append,
}
use echo_bot.HttpGet.{
  Call, tls_credential_add, getaddrinfo, socket, set_sec_tag_list, set_hostname, connect, send,
  http_host, http_port, request, RecvAnswer, recv_failed, received, Out, called, printed, End,
  waits, recv_loop, failing, checked, thread_http_get,
}
use echo_bot.HttpGet.Observed.{
  calls, shown, closes, checked_calls, up_to_failure, none_fails, text_of, stream_ends, bytes_of,
  Does, quits, end_of,
}

-- The array behind the copy and the terminator, and the text in it.
fill :
    (response bytes : List ℕ)
    → length bytes < length response
    → (filled : List ℕ) × (copy_in response 0 bytes ≡ ok filled)
      × (store filled (length bytes) 0 ≡ ok (set filled (length bytes) 0))
      × (c_string (set filled (length bytes) 0) ≡ ok (until_nul bytes))
      × (length (set filled (length bytes) 0) ≡ length response)
fill response bytes h =
    let rest = drop (0 + length bytes) response in
    let more = length-append bytes rest in
    let left = length-drop (0 + length bytes) response in
    let kept = length-set (bytes ++ rest) (length bytes) 0 in
    (
      bytes ++ rest,
      copy_in_ok response 0 bytes (omega arith),
      store_ok (bytes ++ rest) (length bytes) 0 (omega (arith, more, left)),
      c_string-set (bytes ++ rest) (length bytes) (omega (arith, more, left))
          ∙ ap (λ t. ok (until_nul t)) (take-append bytes rest),
      omega (arith, kept, more, left),
    )

-- What follows a call that fails is no call, no text and no close.
fails_alone :
    (c : Call)
    → (calls ((failing c).0 ∷ []) ≡ [])
      × (shown ((failing c).0 ∷ []) ≡ [])
      × (closes ((failing c).0 ∷ []) ≡ false)
      × ((failing c).1 ≡ quits c)
fails_alone tls_credential_add = (refl, refl, refl, refl)
fails_alone (getaddrinfo host port) = (refl, refl, refl, refl)
fails_alone socket = (refl, refl, refl, refl)
fails_alone set_sec_tag_list = (refl, refl, refl, refl)
fails_alone (set_hostname host) = (refl, refl, refl, refl)
fails_alone connect = (refl, refl, refl, refl)
fails_alone (send bytes) = (refl, refl, refl, refl)

module _ (fails : Call → Bool) (answers : List RecvAnswer) where
  Runs : List Call → Result (List Out × End) → Type 0
  Runs before m =
      (outs : List Out) × (end : End) × (m ≡ ok (outs, end)) × Does fails before answers outs end

  checked-Runs :
      (c : Call) (before : List Call) (m : Result (List Out × End))
      → Runs before m
      → Runs (c ∷ before) (checked fails c m)
  unfolding Runs
  checked-Runs c before m (outs, end, e, d) = elim (Bool-cases (fails c)) [
    | inl bad ↦
        let (no_call, no_text, no_close, at_end) = fails_alone c in
        (
          called c ∷ (failing c).0 ∷ [],
          (failing c).1,
          rw bad refl,
          record {
            made = rw bad (ap (λ cs. c ∷ cs) no_call);
            text = rw bad no_text;
            ends = rw bad no_close;
            ending = rw bad at_end;
          },
        )
    | inr good ↦ (
      called c ∷ outs,
      end,
      rw (good, e) refl,
      record {
        made = rw good (ap (λ cs. c ∷ cs) d.made);
        text = rw good d.text;
        ends = rw good d.ends;
        ending = rw good d.ending;
      },
    )
  ]

recv_loop-Does :
    (fails : Call → Bool) (answers : List RecvAnswer) (response : List ℕ)
    → length response ≡ 1024
    → All (λ r. length (bytes_of r) ≤ 1023) answers
    → Runs fails answers [] (recv_loop response answers)
unfolding Runs recv_loop
recv_loop-Does fails [] response size short =
    ([], waits, refl, record { made = refl; text = refl; ends = refl; ending = refl })
recv_loop-Does fails (recv_failed ∷ rs) response size short =
    (_, _, refl, record { made = refl; text = refl; ends = refl; ending = refl })
recv_loop-Does fails (received [] ∷ rs) response size short =
    (_, _, refl, record { made = refl; text = refl; ends = refl; ending = refl })
recv_loop-Does fails (received (c ∷ cs) ∷ rs) response size short =
    let (filled, e1, e2, e3, same) = fill response (c ∷ cs) (omega (arith, short.0)) in
    let (outs, end, e, d) =
      recv_loop-Does fails rs (set filled (length (c ∷ cs)) 0) (same ∙ size) short.1 in
    (
      printed (until_nul (c ∷ cs)) ∷ outs,
      end,
      rw (e1, e2, e3, e) refl,
      record {
        made = d.made;
        text = ap (λ t. until_nul (c ∷ cs) ++ t) d.text;
        ends = d.ends;
        ending = d.ending;
      },
    )

request_part :
    (fails : Call → Bool) (answers : List RecvAnswer) (response : List ℕ)
    → length response ≡ 1024
    → All (λ r. length (bytes_of r) ≤ 1023) answers
    → Runs fails answers
        (connect ∷ send request ∷ [])
        (checked fails connect (checked fails (send request) (recv_loop response answers)))
request_part fails answers response size short = checked-Runs fails answers connect _ _ (
    checked-Runs fails answers (send request) _ _
      (recv_loop-Does fails answers response size short))

-- With the array of 1024 bytes and answers of at most the 1023 bytes that are asked for: nothing faults.
-- The calls are made in order up to the first that fails. If none fails, the text that is printed is,
-- for each answer up to the end of the stream or a failure of `recv`, its bytes up to a NUL; and the
-- socket is closed exactly when none fails and the stream ends, so not when `recv` fails. The thread
-- returns if the name is not resolved, exits if another call fails, and in the loop returns when the
-- stream ends or `recv` fails, and else waits.
pub thread_http_get_lem :
    (tls : Bool) (fails : Call → Bool) (response : List ℕ) (answers : List RecvAnswer)
    → length response ≡ 1024
    → All (λ r. length (bytes_of r) ≤ 1023) answers
    → (outs : List Out) × (end : End) × (thread_http_get tls fails response answers
        ≡ ok (outs, end))
      × (calls outs
          ≡ (if tls then tls_credential_add ∷ [] else [])
            ++ up_to_failure fails (checked_calls tls))
      × (shown outs ≡ (if none_fails fails (checked_calls tls) then text_of answers else []))
      × (closes outs ≡ none_fails fails (checked_calls tls) && stream_ends answers)
      × (end ≡ end_of fails (checked_calls tls) answers)
unfolding thread_http_get Runs
thread_http_get_lem true fails response answers size short =
    let (outs, end, e, d) =
      checked-Runs fails answers (getaddrinfo http_host (http_port true)) _ _ (
        checked-Runs fails answers socket _ _ (
          checked-Runs fails answers set_sec_tag_list _ _ (
            checked-Runs fails answers (set_hostname http_host) _ _
              (request_part fails answers response size short)))) in
    (
      called tls_credential_add ∷ outs,
      end,
      rw e refl,
      ap (λ cs. tls_credential_add ∷ cs) d.made,
      d.text,
      d.ends,
      d.ending,
    )
thread_http_get_lem false fails response answers size short =
    let (outs, end, e, d) =
      checked-Runs fails answers (getaddrinfo http_host (http_port false)) _ _
        (checked-Runs fails answers socket _ _ (request_part fails answers response size short)) in
    (outs, end, e, d.made, d.text, d.ends, d.ending)
