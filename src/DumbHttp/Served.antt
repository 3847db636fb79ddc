-- ===== src/DumbHttp/Served.antt =====
-- One connection, whatever its client does.
use echo_bot.DumbHttp.Waiting.{still_open, is_whole, not_over}
use echo_bot.Prelude.{
  ℕ, ◌+◌, ◌≡◌, refl, ap, ◌∙◌, ◌⊎◌, inl, inr, Bool, Bool-cases, true, false, List, [], ◌∷◌, ◌++◌,
  append-nil, arith, ok, if◌then◌else◌, ◌≢◌,
}
use echo_bot.DumbHttp.{
  send_loop, Sending, complete, failed, blocked, Client, closing, serve, respond, discard,
  Discarded, request_end, close_client, error_close, waiting, Out, wire, closed, close_error,
  recv_error, send_error,
}
use echo_bot.DumbHttp.Requests.{HasBlankLine, received, discard-HasBlankLine}
use echo_bot.DumbHttp.Responses.{Allowed, send_loop-Sent, still_taking, Stops}

-- The bytes of the page in an output, and how often a connection is closed in it.
abbrev pub page_bytes : List Out → List ℕ
page_bytes [] = []
page_bytes (wire bs ∷ outs) = bs ++ page_bytes outs
page_bytes (_ ∷ outs) = page_bytes outs

abbrev pub closings : List Out → ℕ
closings [] = 0
closings (closed ∷ outs) = closings outs + 1
closings (close_error ∷ outs) = closings outs + 1
closings (_ ∷ outs) = closings outs

-- A client that holds the thread: its stream is open, but brought no blank line or brought a CR right
-- behind a CR, and nothing comes out; or a blank line was received, and it has stopped taking the page
-- before its end.
pub data Holds (c : Client) (outs : List Out) (unsent : List ℕ) : Type 0 where
  in_request :
      still_open c.recv ≡ true
      → is_whole (received c.recv) ≡ false
      → outs ≡ []
      → Holds c outs unsent
  in_page :
      (taken : List ℕ)
      → HasBlankLine (received c.recv)
      → still_taking c.send ≡ true
      → outs ≡ wire taken ∷ []
      → unsent ≢ []
      → Holds c outs unsent

-- A client that lets the thread go on: its stream has ended or failed before a whole request, and none
-- of the page goes out; or a blank line was received, and the whole page goes out unless a `send` fails.
pub data Ends (c : Client) (outs : List Out) (unsent : List ℕ) : Type 0 where
  no_request :
      still_open c.recv ≡ false
      → is_whole (received c.recv) ≡ false
      → page_bytes outs ≡ []
      → Ends c outs unsent
  whole_page : HasBlankLine (received c.recv) → unsent ≡ [] → Ends c outs unsent
  part_page : HasBlankLine (received c.recv) → still_taking c.send ≡ false → Ends c outs unsent

abbrev pub After : Client → List Out → List ℕ → (goes_on : Bool) → Type 0
After c outs unsent true = Ends c outs unsent
After c outs unsent false = Holds c outs unsent

-- One connection: a first part of the page goes out, none of it unless a blank line was received,
-- and the connection is closed once, unless its client holds the thread.
pub record Served (content : List ℕ) (c : Client) (outs : List Out) (goes_on : Bool) : Type 0 where
  pub unsent : List ℕ
  pub prefix : page_bytes outs ++ unsent ≡ content
  pub asked : (page_bytes outs ≡ []) ⊎ HasBlankLine (received c.recv)
  pub closes_once : closings outs ≡ (if goes_on then 1 else 0)
  pub end : After c outs unsent goes_on

some_left :
    {left : List ℕ}
    → (blocked ≡ complete) × (left ≡ []) ⊎ (blocked ≢ complete) × (left ≢ [])
    → left ≢ []
some_left (inl (e, _)) = absurd (ground arith)
some_left (inr (_, k)) = k

all_sent :
    {left : List ℕ}
    → (complete ≡ complete) × (left ≡ []) ⊎ (complete ≢ complete) × (left ≢ [])
    → left ≡ []
all_sent (inl (_, e)) = e
all_sent (inr (n, _)) = absurd (n refl)

closings-closing : (c : Client) → (closings (closing c) ≡ 1) × (page_bytes (closing c) ≡ [])
closings-closing c = elim (Bool-cases c.closes) [
  | inl e ↦ rw e (refl, refl)
  | inr e ↦ rw e (refl, refl)
]

-- On every branch, with a `send` that takes a byte at least and no more than it is given, a
-- connection faults on nothing and is served as `Served` says.
pub serve_lem :
    (content : List ℕ) (c : Client)
    → Allowed c.send content
    → (outs : List Out) × (goes_on : Bool) × (serve content c ≡ ok (outs, goes_on))
      × Served content c outs goes_on
unfolding serve
serve_lem content c h = go (discard 0 c.recv) refl
  where
    go :
        (d : Discarded)
        → discard 0 c.recv ≡ d
        → (outs : List Out) × (goes_on : Bool) × (serve content c ≡ ok (outs, goes_on))
          × Served content c outs goes_on
    go waiting e = (
      [],
      false,
      ap (respond content c) e,
      record {
        unsent = content;
        prefix = refl;
        asked = inl refl;
        closes_once = refl;
        end =
            in_request (not_over c.recv waiting e (λ e. ground arith)).0
              (not_over c.recv waiting e (λ e. ground arith)).1 refl;
      },
    )
    go close_client e = (
      closing c,
      true,
      ap (respond content c) e,
      record {
        unsent = content;
        prefix = rw (closings-closing c).1 refl;
        asked = inl (closings-closing c).1;
        closes_once = (closings-closing c).0;
        end =
            no_request (not_over c.recv close_client e (λ e. ground arith)).0
              (not_over c.recv close_client e (λ e. ground arith)).1 (closings-closing c).1;
      },
    )
    go error_close e = (
      recv_error ∷ closing c,
      true,
      ap (respond content c) e,
      record {
        unsent = content;
        prefix = rw (closings-closing c).1 refl;
        asked = inl (closings-closing c).1;
        closes_once = (closings-closing c).0;
        end =
            no_request (not_over c.recv error_close e (λ e. ground arith)).0
              (not_over c.recv error_close e (λ e. ground arith)).1 (closings-closing c).1;
      },
    )
    go request_end e =
        let (out, left, end, run, s, stop) = send_loop-Sent c.send content h in
        after end out left run s.parts s.whole stop
      where
        after :
            (end : Sending) (out left : List ℕ)
            → send_loop content c.send ≡ ok (out, end)
            → out ++ left ≡ content
            → (end ≡ complete) × (left ≡ []) ⊎ (end ≢ complete) × (left ≢ [])
            → Stops end (still_taking c.send)
            → (outs : List Out) × (goes_on : Bool) × (serve content c ≡ ok (outs, goes_on))
              × Served content c outs goes_on
        after complete out left run parts whole stop = (
          wire out ∷ closing c,
          true,
          ap (respond content c) e ∙ rw run refl,
          record {
            unsent = left;
            prefix = rw ((closings-closing c).1, append-nil out) parts;
            asked = inr (discard-HasBlankLine c.recv e);
            closes_once = (closings-closing c).0;
            end = whole_page (discard-HasBlankLine c.recv e) (all_sent whole);
          },
        )
        after failed out left run parts whole stop = (
          wire out ∷ send_error ∷ closing c,
          true,
          ap (respond content c) e ∙ rw run refl,
          record {
            unsent = left;
            prefix = rw ((closings-closing c).1, append-nil out) parts;
            asked = inr (discard-HasBlankLine c.recv e);
            closes_once = (closings-closing c).0;
            end = part_page (discard-HasBlankLine c.recv e) stop;
          },
        )
        after blocked out left run parts whole stop = (
          wire out ∷ [],
          false,
          ap (respond content c) e ∙ rw run refl,
          record {
            unsent = left;
            prefix = rw (append-nil out) parts;
            asked = inr (discard-HasBlankLine c.recv e);
            closes_once = refl;
            end = in_page out (discard-HasBlankLine c.recv e) stop refl (some_left whole);
          },
        )
