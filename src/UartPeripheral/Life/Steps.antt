-- ===== src/UartPeripheral/Life/Steps.antt =====
-- Each event, and with it the run, serves as the device that only knows its text.
use echo_bot.UartPeripheral.App.Counts.{Counted}
use echo_bot.UartPeripheral.Receive.Split.{split, rest, split-append, rest-append}
use echo_bot.UartPeripheral.App.Reports.{
  reports_of, tally, spoken_all, spoken_all-append, reports_of-append, tally-append,
}
use echo_bot.Prelude.{
  ℕ, ◌+◌, ◌<◌, ◌^◌, ◌≡◌, refl, sym, ap, ap₂, ◌∙◌, Bool, true, false, List, [], ◌∷◌, ◌++◌,
  append_assoc, append-nil, arith, ok, length, take, All, length-append, until_nul, nuls-append,
  c_string, map,
}
use echo_bot.UartPeripheral.{Config, uart_int_handler, transmit_string, UartData, Call}
use echo_bot.UartPeripheral.Receive.Pieces.{held, payloads, Handled, IsValid}
use echo_bot.UartPeripheral.Transmit.{user_set_string_fits}
use echo_bot.UartPeripheral.Api.{my_uart_set_string}
use echo_bot.UartPeripheral.App.{take_calls, Counter, Report}
use echo_bot.UartPeripheral.App.Handler.{handler_with_callback, nuls-payloads}
use echo_bot.UartPeripheral.Life.{
  World, Event, interrupt, pin_rises, set_string, Output, prints, sends, step, run,
}
use echo_bot.UartPeripheral.Life.Service.{
  received, printed, IsAllowed, IsServing, total, Served, printed-prints, sent-prints,
}

abbrev with_str : World → List ℕ → World
with_str w str = record w { dev = record w.dev { data_of = record w.dev.data_of { str = str } } }

-- An interrupt, and what follows it.
Served-interrupt :
    {cfg : Config} {f : ℕ} {text bs : List ℕ} {es : List Event} {w w'' : World} {d' : UartData}
    {c' : Counter} {calls : List Call} {rs : List Report} {more : List Output}
    → IsValid cfg w.dev.data_of
    → Handled cfg f w.dev.data_of d' calls bs
    → Counted w.tracker c' calls rs
    → Served cfg text (record w { dev = record w.dev { data_of = d' }; tracker = c' }) w'' more es
    → Served cfg text w w'' (map prints rs ++ more) (interrupt true bs ∷ es)
Served-interrupt {cfg} {f} {text} {bs} {es} {w} {w''} {d'} {c'} {calls} {rs} {more} v h k s =
    let n = cfg.rx_buf_size in
    let hd = held w.dev.data_of in
    let now = split n hd bs in
    let later = split n (rest n hd bs) (received es) in
    let cut = split-append n hd bs (received es) in
    let behind = k.behind ∙ ap (λ ps. tally ps w.tracker) h.pieces in
    record {
      valid = s.valid;
      strings =
          omega (arith, s.strings, k.strings, nuls-payloads v h, nuls-append bs (received es));
      reports =
          printed-prints rs more
          ∙ ap₂ (λ a b. a ++ b) (k.reports ∙ ap (λ ps. reports_of ps w.tracker) h.pieces)
              (s.reports ∙ ap₂ (λ l c. reports_of (split n l (received es)) c) h.left behind)
          ∙ sym (reports_of-append now later w.tracker)
          ∙ ap (λ ps. reports_of ps w.tracker) (sym cut);
      counts =
          s.counts
          ∙ ap₂ (λ l c. tally (split n l (received es)) c) h.left behind
          ∙ sym (tally-append now later w.tracker)
          ∙ ap (λ ps. tally ps w.tracker) (sym cut);
      left =
          s.left
          ∙ ap (λ l. rest n l (received es)) h.left
          ∙ sym (rest-append n hd bs (received es));
      words =
          ap (λ l. spoken_all l ++ held w''.dev.data_of) (printed-prints rs more)
          ∙ ap (λ l. l ++ held w''.dev.data_of) (spoken_all-append rs (printed more))
          ∙ append_assoc (spoken_all rs) (spoken_all (printed more)) (held w''.dev.data_of)
          ∙ ap₂ (λ a b. a ++ b) k.words s.words
          ∙ sym (append_assoc (payloads calls) (held d') (received es))
          ∙ ap (λ l. l ++ received es) h.stream
          ∙ append_assoc hd bs (received es);
      texts = sent-prints rs more ∙ s.texts;
    }

module _ (asserts : Bool) (cfg : Config) (f : ℕ) where
  abbrev Serves : World → List Event → List ℕ → Type 0
  Serves w es text =
      (w' : World) × (outs : List Output) × (run cfg w es ≡ ok (w', outs))
      × Served cfg text w w' outs es

  after_interrupt :
      (bs : List ℕ) (es : List Event) (text : List ℕ) (w : World)
      → IsServing asserts cfg f text w
      → total w + length (held w.dev.data_of ++ (bs ++ received es)) < 2 ^ 31
      → ((w' : World)
          → IsServing asserts cfg f text w'
          → total w' + length (held w'.dev.data_of ++ received es) < 2 ^ 31
          → Serves w' es text)
      → Serves w (interrupt true bs ∷ es) text
  unfolding run step
  after_interrupt bs es text w v room next =
      let hd = held w.dev.data_of in
      let all_bytes = length-append hd (bs ++ received es) in
      let here = length-append hd bs in
      let there = length-append bs (received es) in
      let (d', calls, c', rs, e, e', h, k, few) =
        handler_with_callback f bs w.tracker v.valid v.registered
          (omega (arith, all_bytes, here, there)) in
      let w' : World = record w { dev = record w.dev { data_of = d' }; tracker = c' } in
      let (w'', more, e'', s) =
        next w'
          (record {
            valid = h.valid;
            registered = h.same_callback ∙ v.registered;
            pointed = h.same_data ∙ v.pointed;
            table = v.table;
            size = ap length h.same_str ∙ v.size;
            string = ap c_string h.same_str ∙ v.string;
          })
          (omega (arith, all_bytes, here, there, length-append (held d') (received es))) in
      let taken = ap (λ u. take_calls u w.tracker calls) (sym v.pointed) ∙ e' in
      (w'', map prints rs ++ more, rw (e, taken, e''), Served-interrupt v.valid h k s)

  after_set :
      (string : List ℕ) (len : ℕ) (es : List Event) (text : List ℕ) (w : World)
      → IsServing asserts cfg f text w
      → IsAllowed cfg (set_string string len)
      → ((str : List ℕ)
          → IsServing asserts cfg f (until_nul (take len string)) (with_str w str)
          → Serves (with_str w str) es (until_nul (take len string)))
      → Serves w (set_string string len ∷ es) text
  unfolding run step my_uart_set_string
  after_set string len es text w v allowed next =
      let (str, e, full, c) =
        user_set_string_fits asserts cfg w.dev.data_of string len v.size allowed.0 allowed.1 in
      let (w', outs, e', s) = next str (record {
        valid = record {
          size = v.valid.size;
          within = v.valid.within;
          fits = v.valid.fits;
          text = v.valid.text;
        };
        registered = v.registered;
        pointed = v.pointed;
        table = v.table;
        size = full;
        string = c;
      }) in
      (
        w',
        outs,
        rw (ap (λ a. a.set_string w.dev.data_of string len) v.table ∙ e, e'),
        record {
          valid = s.valid;
          strings = s.strings;
          reports = s.reports;
          counts = s.counts;
          left = s.left;
          words = s.words;
          texts = s.texts;
        },
      )

  pub run-Served :
      (es : List Event) (text : List ℕ) (w : World)
      → IsServing asserts cfg f text w
      → All (IsAllowed cfg) es
      → total w + length (held w.dev.data_of ++ received es) < 2 ^ 31
      → Serves w es text
  unfolding run step uart_int_handler transmit_string take_calls
  run-Served [] text w v allowed room = (
    w,
    [],
    refl,
    record {
      valid = v.valid;
      strings = omega arith;
      reports = refl;
      counts = refl;
      left = refl;
      words = sym (append-nil (held w.dev.data_of));
      texts = refl;
    },
  )
  run-Served (interrupt true bs ∷ es) text w v allowed room =
      after_interrupt bs es text w v room (λ w' v' room'. run-Served es text w' v' allowed.1 room')
  run-Served (interrupt false bs ∷ es) text w v allowed room =
      let (w', outs, e, s) = run-Served es text w v allowed.1 room in
      (
        w',
        outs,
        rw e,
        record {
          valid = s.valid;
          strings = s.strings;
          reports = s.reports;
          counts = s.counts;
          left = s.left;
          words = s.words;
          texts = s.texts;
        },
      )
  run-Served (pin_rises ∷ es) text w v allowed room =
      let (w', outs, e, s) = run-Served es text w v allowed.1 room in
      (
        w',
        sends (text ++ 0 ∷ []) ∷ outs,
        rw (v.string, e),
        record {
          valid = s.valid;
          strings = s.strings;
          reports = s.reports;
          counts = s.counts;
          left = s.left;
          words = s.words;
          texts = ap (λ l. (text ++ 0 ∷ []) ∷ l) s.texts;
        },
      )
  run-Served (set_string string len ∷ es) text w v allowed room =
      after_set string len es text w v allowed.0
        (λ str v'. run-Served es (until_nul (take len string)) (with_str w str) v' allowed.1 room)
