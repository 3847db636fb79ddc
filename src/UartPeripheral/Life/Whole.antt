-- ===== src/UartPeripheral/Life/Whole.antt =====
-- From the start of the program.
use echo_bot.UartPeripheral.Receive.Split.{split, rest, rest-append}
use echo_bot.UartPeripheral.App.Reports.{reports_of, tally, spoken_all}
use echo_bot.Prelude.{
  inl, inr, ℕ, ◌+◌, ◌≤◌, ◌<◌, ◌^◌, ◌≡◌, refl, Bool, true, some, List, ◌++◌, arith, ok, length, All,
  length-append, replicate, length-replicate, length-take, until_nul, nuls, c_string-initial, [],
  sym, ap, ◌∙◌, c_string, if◌then◌else◌,
}
use echo_bot.UartPeripheral.{Config}
use echo_bot.UartPeripheral.Receive.Pieces.{held, IsValid}
use echo_bot.UartPeripheral.Setup.{Answers}
use echo_bot.UartPeripheral.Setup.Returns.{AllWell}
use echo_bot.UartPeripheral.Api.{api_of_driver, my_uart_set_callback, define_device, Device}
use echo_bot.UartPeripheral.App.{main_my_uart_peripheral}
use echo_bot.UartPeripheral.Life.{no_counts, World, Event, Output, boot, run, before}
use echo_bot.UartPeripheral.Setup.Returns.{all_calls, init_my_uart_peripheral_lem}
use echo_bot.UartPeripheral.Setup.{init_my_uart_peripheral}
use echo_bot.Prelude.Int.{pos}
use echo_bot.UartPeripheral.{initial_data, user_set_string_callback}
use echo_bot.UartPeripheral.Life.Service.{received, texts_sent, printed, sent, IsAllowed, IsServing}
use echo_bot.UartPeripheral.Life.Steps.{run-Served}
use echo_bot.UartPeripheral.Life.Early.{joined, Waits, before-Waits}

init_well :
    (asserts : Bool) (a : Answers)
    → AllWell a
    → init_my_uart_peripheral asserts a ≡ ok (pos 0, all_calls)
init_well asserts a h = elim (init_my_uart_peripheral_lem a) [
  | inl w ↦ w.1 asserts
  | inr r ↦ absurd (r.unwell h)
]

module _ (asserts : Bool) (cfg : Config) (initial_string : List ℕ) (callback tracker : ℕ) where
  -- The device, as it is defined.
  abbrev defined : Device
  defined = record {
    api = api_of_driver asserts cfg;
    data_of = initial_data cfg initial_string;
    is_ready = true;
  }

  -- The world once the application has registered its callback.
  abbrev started : Device → World
  started dev = record {
    dev = record dev {
      data_of = record dev.data_of { string_callback = some callback; user_data = tracker };
    };
    tracker = no_counts;
    tracker_at = tracker;
  }

  registers :
      (dev : Device)
      → dev.is_ready ≡ true
      → dev.api ≡ api_of_driver asserts cfg
      → main_my_uart_peripheral callback tracker dev ≡ (started dev).dev
  unfolding main_my_uart_peripheral my_uart_set_callback user_set_string_callback
  registers dev ready same_api =
      ap (λ b. if b then my_uart_set_callback dev (some callback) tracker else dev) ready
      ∙ ap (λ api. record dev { data_of = api.set_callback dev.data_of (some callback) tracker })
          same_api

  boot-started :
      (a : Answers) (early : List (List ℕ)) {dev : Device} {bs : List ℕ}
      → AllWell a
      → before cfg defined early ≡ ok (dev, [])
      → Waits cfg defined dev bs
      → boot asserts cfg initial_string callback tracker a early ≡ ok (started dev, [])
  unfolding boot define_device
  boot-started a early {dev} h e w =
      rw (init_well asserts a h, e, registers dev w.ready w.same_api) refl

  defined-IsValid :
      0 < cfg.rx_buf_size → cfg.rx_buf_size < 2 ^ 32 → IsValid cfg (initial_data cfg initial_string)
  defined-IsValid some_room fits = record {
    size = length-replicate cfg.rx_buf_size 0;
    within = some_room;
    fits = fits;
    text = tt;
  }

  size_str : length (initial_data cfg initial_string).str ≡ cfg.max_str_len + 1
  size_str = omega (
    arith,
    length-take (cfg.max_str_len + 1) (initial_string ++ replicate (cfg.max_str_len + 1) 0),
    length-append initial_string (replicate (cfg.max_str_len + 1) 0),
    length-replicate {A = ℕ} (cfg.max_str_len + 1) 0,
  )

  started-IsServing :
      {dev : Device} {bs : List ℕ}
      → Waits cfg defined dev bs
      → length initial_string ≤ cfg.max_str_len
      → IsServing asserts cfg callback (until_nul initial_string) (started dev)
  started-IsServing w short = record {
    valid = record {
      size = w.valid.size;
      within = w.valid.within;
      fits = w.valid.fits;
      text = w.valid.text;
    };
    registered = refl;
    pointed = refl;
    table = w.same_api;
    size = ap length w.same_str ∙ size_str;
    string = ap c_string w.same_str ∙ c_string-initial cfg.max_str_len initial_string short;
  }

  -- The device's initialisation succeeds, the buffer has at least one byte and fewer than 2 ^ 32,
  -- and the initial string fits. Let interrupts bring bytes before the application registers its
  -- callback, and then interrupts, rising pins and settings of strings that fit come in any order,
  -- with fewer than 2 ^ 31 bytes in all. Nothing faults, and no call is made before the callback is
  -- registered. Cut the bytes received behind each NUL and where the buffer is full: the pieces that
  -- are complete before are lost, and what is left over of them comes before the later bytes. From
  -- there on the application prints one report for each piece, with its bytes up to a NUL and the
  -- counts of strings and overflows so far, and what is left over waits in the buffer. The reports
  -- (with a NUL for each string) and what waits are the bytes left over from before and those
  -- received then, and as many strings are counted as NULs were received then. At each rising pin
  -- the device sends the string last set, up to its first NUL, or at first the initial string, and a
  -- NUL.
  pub boot-run :
      (a : Answers) (early : List (List ℕ)) (es : List Event)
      → AllWell a
      → 0 < cfg.rx_buf_size
      → cfg.rx_buf_size < 2 ^ 32
      → length initial_string ≤ cfg.max_str_len
      → All (IsAllowed cfg) es
      → length (joined early) + length (received es) < 2 ^ 31
      → let n = cfg.rx_buf_size in
        let held_before = rest n [] (joined early) in
        (w w' : World) × (outs : List Output) × (boot asserts cfg initial_string callback tracker a
            early
          ≡ ok (w, []))
        × (run cfg w es ≡ ok (w', outs))
        × (printed outs ≡ reports_of (split n held_before (received es)) no_counts)
        × (w'.tracker ≡ tally (split n held_before (received es)) no_counts)
        × (held w'.dev.data_of ≡ rest n [] (joined early ++ received es))
        × (spoken_all (printed outs) ++ held w'.dev.data_of ≡ held_before ++ received es)
        × (w'.tracker.strings ≡ nuls (received es))
        × (sent outs ≡ texts_sent es (until_nul initial_string))
  boot-run a early es well some_room fits short allowed few =
      let n : ℕ = cfg.rx_buf_size in
      let (dev, waited, wt) =
        before-Waits cfg early {dev = defined} (defined-IsValid some_room fits) refl in
      let (w', outs, e, s) =
        run-Served asserts cfg callback es (until_nul initial_string) (started dev)
          (started-IsServing wt short) allowed
          (omega (arith, wt.few, length-append (held dev.data_of) (received es))) in
      (
        started dev,
        w',
        outs,
        boot-started a early well waited wt,
        e,
        s.reports ∙ ap (λ l. reports_of (split n l (received es)) no_counts) wt.left,
        s.counts ∙ ap (λ l. tally (split n l (received es)) no_counts) wt.left,
        s.left
            ∙ ap (λ l. rest n l (received es)) wt.left
            ∙ sym (rest-append n [] (joined early) (received es)),
        s.words ∙ ap (λ l. l ++ received es) wt.left,
        omega (arith, s.strings),
        s.texts,
      )
