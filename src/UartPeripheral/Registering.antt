-- ===== src/UartPeripheral/Registering.antt =====
-- driver.c: `user_set_string_callback` runs in a thread and stores the callback before its user data, so
-- an interrupt may come between the two stores.
use echo_bot.Prelude.{
  ℕ, ◌<◌, ◌⊎◌, ◌≡◌, ◌≢◌, refl, sym, ap, ◌∙◌, subst, inl, inr, Bool-cases, true, some, List, [], ◌∷◌,
  map, arith, Result, ok, fault, null_pointer, ◌>>=◌, All, c_string_upto_text,
}
use echo_bot.UartPeripheral.{Config, UartData, Call, uart_int_handler}
use echo_bot.UartPeripheral.Receive.{uart_int_handler_lem}
use echo_bot.UartPeripheral.Receive.Pieces.{held, piece, payload, IsValid, Shape, IsFrame}
use echo_bot.UartPeripheral.Receive.Split.{split, rest}
use echo_bot.UartPeripheral.App.{Counter, Report, peripheral_callback, take_calls, counter_at}
use echo_bot.UartPeripheral.App.Counts.{c_string_frame}

-- The call with the application's callback and an interrupt between its two stores: the data, the
-- counts, and what is printed.
unfoldable pub set_callback_preempted :
    Config
    → UartData
    → (callback tracker : ℕ) → Counter
    → (bytes : List ℕ) → Result (UartData × Counter × List Report)
set_callback_preempted cfg d callback tracker c bytes = do
  let half : UartData = record d { string_callback = some callback }
  (d', calls) ← uart_int_handler cfg half true bytes
  (c', rs) ← take_calls tracker c calls
  ok (record d' { user_data = tracker }, c', rs)

null_at :
    (tracker user_data : ℕ)
    → user_data ≡ 0
    → 0 < tracker
    → counter_at tracker user_data ≡ fault null_pointer
null_at tracker user_data null there = ground arith

-- With NULL as its user data the callback faults, whatever it is called on.
callback_null :
    {cfg : Config} {f : ℕ} (tracker : ℕ) (c : Counter) (call : Call)
    → 0 < tracker
    → IsFrame cfg f 0 call
    → peripheral_callback tracker c call ≡ fault null_pointer
unfolding peripheral_callback
callback_null {cfg} tracker c call there fr = elim (Bool-cases call.is_string) [
  | inl is ↦
      let (t, h, e) = subst (λ b. Shape cfg b (payload call)) is fr.shape in
      rw (
        is,
        peripheral_callback,
        c_string_frame call t h e,
        null_at tracker call.context fr.with_data there,
      )
  | inr is ↦
      let (h, full) = subst (λ b. Shape cfg b (payload call)) is fr.shape in
      rw (
        is,
        peripheral_callback,
        c_string_upto_text call.size call.bytes fr.inside h,
        null_at tracker call.context fr.with_data there,
      )
]

take_calls_null :
    (cfg : Config) (f tracker : ℕ) (c : Counter) (calls : List Call)
    → 0 < tracker
    → All (IsFrame cfg f 0) calls
    → ((calls ≡ []) × (take_calls tracker c calls ≡ ok (c, [])))
      ⊎ ((calls ≢ []) × (take_calls tracker c calls ≡ fault null_pointer))
unfolding take_calls
take_calls_null cfg f tracker c [] there frames = inl (refl, refl)
take_calls_null cfg f tracker c (call ∷ calls) there frames =
    inr (λ e. cc, rw (callback_null tracker c call there frames.0))

nothing_cut : (calls : List Call) → map piece calls ≡ [] → calls ≡ []
nothing_cut [] e = refl
nothing_cut (call ∷ calls) e = absurd (cc)

-- Before the application has registered a callback, with NULL as the user data, let an interrupt come
-- between the two stores. If its bytes complete no piece, the registration ends as without it, and the
-- bytes wait in the buffer. If they complete a string or fill the buffer, the callback is called with
-- NULL, and counts through it.
pub set_callback_preempted_lem :
    {cfg : Config} {d : UartData} (callback tracker : ℕ) (c : Counter) (bytes : List ℕ)
    → IsValid cfg d
    → d.user_data ≡ 0
    → 0 < tracker
    → ((split cfg.rx_buf_size (held d) bytes ≡ [])
        × ((d' : UartData) × (set_callback_preempted cfg d callback tracker c bytes
              ≡ ok (d', c, []))
            × (d'.string_callback ≡ some callback)
            × (d'.user_data ≡ tracker)
            × (held d' ≡ rest cfg.rx_buf_size (held d) bytes)))
      ⊎ ((split cfg.rx_buf_size (held d) bytes ≢ [])
          × (set_callback_preempted cfg d callback tracker c bytes ≡ fault null_pointer))
unfolding set_callback_preempted
set_callback_preempted_lem {cfg} {d} callback tracker c bytes v null there =
    let half : UartData = record d { string_callback = some callback } in
    let vh : IsValid cfg half = record {
      size = v.size;
      within = v.within;
      fits = v.fits;
      text = v.text;
    } in
    let (d', calls, e, h) = uart_int_handler_lem callback bytes vh refl in
    let frames = subst (λ u. All (IsFrame cfg callback u) calls) null h.frames in
    elim (take_calls_null cfg callback tracker c calls there frames) [
      | inl (quiet, run) ↦ inl (
        sym h.pieces ∙ ap (map piece) quiet,
        (record d' { user_data = tracker }, rw (e, run), h.same_callback, refl, h.left),
      )
      | inr (busy, run) ↦
          inr (λ none_cut. busy (nothing_cut calls (h.pieces ∙ none_cut)), rw (e, run))
    ]
