-- ===== src/UartPeripheral/Torn/Sends.antt =====
-- What goes out, whenever the pin rises.
use echo_bot.Prelude.{
  ℕ, suc, ◌+◌, ◌≤◌, ◌≡◌, refl, sym, ap, ap₂, ◌∙◌, Bool, List, [], ◌∷◌, ◌++◌, arith, ok, All, length,
  length-append, length-take, length-drop, length-replicate, subst, set, take, drop, replicate,
  until_nul, IsText, until_nul_IsText, c_string-append, read_ok, copy_in_ok, store_ok,
}
use echo_bot.UartPeripheral.{Config, UartData, initial_data, user_set_string, transmit_string}
use echo_bot.UartPeripheral.Transmit.{assertion_passes}
use echo_bot.UartPeripheral.Torn.{
  half_set, set_string_preempted, Event, pin_rises, set_string, step, run,
}
use echo_bot.UartPeripheral.Torn.Arrays.{
  partly, Mixes, stored, partly-last, Mixes-until_nul-partly, set-stored, until_nul-stored,
  length-stored, take-nuls, until_nul-nuls,
}

-- A string that is set lies in its object and fits.
abbrev pub IsAllowed : Config → Event → Type 0
IsAllowed cfg pin_rises = Unit {0}
IsAllowed cfg (set_string string len moments) = (len ≤ cfg.max_str_len) × (len ≤ length string)

-- A message that is sent while `new` is copied over `old`, at the moment at which the marked bytes are
-- copied: a text and a NUL, the text what is then read.
pub record IsTorn (marks : List Bool) (new old message : List ℕ) : Type 0 where
  pub text : List ℕ
  pub ends : message ≡ text ++ 0 ∷ []
  pub proper : IsText text
  pub mixes : Mixes marks new old text

-- One message for each moment.
abbrev pub AllTorn : (new old : List ℕ) → List (List Bool) → List (List ℕ) → Type 0
AllTorn new old [] [] = Unit {0}
AllTorn new old (marks ∷ moments) (message ∷ messages) =
    IsTorn marks new old message × AllTorn new old moments messages
AllTorn new old _ _ = ⊥

-- The messages of a course of events, where `text` is the string last set and `a` the characters of
-- the array, but for its last byte.
pub data Sends : (text a : List ℕ) → List Event → List (List ℕ) → Type 0 where
  quiet : {text a : List ℕ} → Sends text a [] []
  whole :
      {text a : List ℕ} {es : List Event} {messages : List (List ℕ)}
      → Sends text a es messages
      → Sends text a (pin_rises ∷ es) ((text ++ 0 ∷ []) ∷ messages)
  sets :
      {text a string : List ℕ} {len : ℕ} {moments : List (List Bool)} {es : List Event}
      {messages : List (List ℕ)} (torn : List (List ℕ))
      → AllTorn (take len string) a moments torn
      → Sends (until_nul (take len string)) (stored (take len string) a) es messages
      → Sends text a (set_string string len moments ∷ es) (torn ++ messages)

-- The array ends with a NUL.
pub record IsClosed (cfg : Config) (a : List ℕ) (d : UartData) : Type 0 where
  pub size : length a ≡ cfg.max_str_len
  pub closed : d.str ≡ a ++ 0 ∷ []

module _ (asserts : Bool) (cfg : Config) where
  sends_whole :
      {d : UartData} (a : List ℕ)
      → IsClosed cfg a d
      → transmit_string d ≡ ok (until_nul a ++ 0 ∷ [])
  unfolding transmit_string
  sends_whole {d} a v = rw (v.closed, c_string-append a [])

  module _ {d : UartData} {a : List ℕ} (v : IsClosed cfg a d) (string : List ℕ) (len : ℕ)
      (fits : len ≤ cfg.max_str_len) (there : len ≤ length string) where
    abbrev src : List ℕ
    src = take len string

    src_size : length src ≡ len
    src_size = omega (arith, length-take len string)

    size_str : length d.str ≡ cfg.max_str_len + 1
    size_str = omega (arith, ap length v.closed, length-append a (0 ∷ []), v.size)

    half :
        (copied : List Bool)
        → half_set asserts cfg d string len copied
          ≡ ok (record d { str = partly copied src a ++ 0 ∷ [] })
    unfolding half_set
    half copied = rw (
      assertion_passes asserts cfg len fits,
      read_ok string len there,
      copy_in_ok d.str 0 src (omega (arith, src_size, size_str)),
      v.closed,
      partly-last copied src a (omega (arith, src_size, v.size)),
    )

    final :
        user_set_string asserts cfg d string len ≡ ok (record d { str = stored src a ++ 0 ∷ [] })
    unfolding user_set_string
    final =
        let whole = src ++ drop (0 + length src) d.str in
        rw
          (
            assertion_passes asserts cfg len fits,
            read_ok string len there,
            copy_in_ok d.str 0 src (omega (arith, src_size, size_str)),
            store_ok whole len 0 (
                omega (
                  arith,
                  src_size,
                  size_str,
                  length-append src (drop (0 + length src) d.str),
                  length-drop (0 + length src) d.str,
                )),
          )
          (ap (λ str. ok (record d { str = str }))
            (ap₂ (λ n i. set (src ++ drop n d.str) i 0) {y = length src} (omega arith)
                (sym src_size)
              ∙ ap (λ str. set (src ++ drop (length src) str) (length src) 0) v.closed
              ∙ set-stored src a (omega (arith, src_size, v.size))))

    torn_at : List Bool → List ℕ
    torn_at copied = until_nul (partly copied src a) ++ 0 ∷ []

    torn_at-IsTorn : (copied : List Bool) → IsTorn copied src a (torn_at copied)
    unfolding torn_at
    torn_at-IsTorn copied = record {
      text = until_nul (partly copied src a);
      ends = refl;
      proper = until_nul_IsText (partly copied src a);
      mixes = Mixes-until_nul-partly copied src a;
    }

    preempted :
        (moments : List (List Bool))
        → (torn : List (List ℕ)) × (set_string_preempted asserts cfg d string len moments
            ≡ ok (record d { str = stored src a ++ 0 ∷ [] }, torn))
          × AllTorn src a moments torn
    unfolding set_string_preempted transmit_string torn_at
    preempted [] = ([], rw final, tt)
    preempted (copied ∷ moments) =
        let (torn, e, all) = preempted moments in
        (
          torn_at copied ∷ torn,
          rw (half copied, c_string-append (partly copied src a) [], e),
          (torn_at-IsTorn copied, all),
        )

  run-Sends :
      (es : List Event) {d : UartData} (a : List ℕ)
      → IsClosed cfg a d
      → All (IsAllowed cfg) es
      → (d' : UartData) × (messages : List (List ℕ)) × (run asserts cfg d es ≡ ok (d', messages))
        × Sends (until_nul a) a es messages
  unfolding run step
  run-Sends [] {d} a v allowed = (d, [], refl, quiet)
  run-Sends (pin_rises ∷ es) {d} a v allowed =
      let (d', messages, e, s) = run-Sends es a v allowed.1 in
      (d', (until_nul a ++ 0 ∷ []) ∷ messages, rw (sends_whole a v, e), whole s)
  run-Sends (set_string string len moments ∷ es) {d} a v allowed =
      let (fits, there) = allowed.0 in
      let (torn, e, all) = preempted v string len fits there moments in
      let a' = stored (take len string) a in
      let v' : IsClosed cfg a' (record d { str = a' ++ 0 ∷ [] }) = record {
        size = length-stored (take len string) a ∙ v.size;
        closed = refl;
      } in
      let (d', messages, e', s) = run-Sends es a' v' allowed.1 in
      (
        d',
        torn ++ messages,
        rw (e, e'),
        sets torn all (
            subst (λ text. Sends text a' es messages)
              (until_nul-stored (take len string) a (omega (arith, length-take len string, v.size)))
              s),
      )

  -- From an instance's initial data, with an initial string that fits, over any course of rising pins
  -- and of calls that set strings that fit, with the pin rising also at any moments of these calls,
  -- whichever bytes have then been copied: nothing faults. Outside of the calls a rising pin sends
  -- the string last set up to its first NUL, or at first the initial string, and a NUL. Inside a call
  -- it sends, up to the first NUL, the bytes of the new string that are copied and those of the array that
  -- the call found at the other places, and a NUL. A call finds at first the initial string and NULs,
  -- and later the string last set, a NUL if it does not fill the array, and what the call before it found
  -- behind that.
  pub initial_data-run :
      (initial_string : List ℕ) (es : List Event)
      → length initial_string ≤ cfg.max_str_len
      → All (IsAllowed cfg) es
      → (d' : UartData) × (messages : List (List ℕ)) × (run asserts cfg
            (initial_data cfg initial_string)
            es
          ≡ ok (d', messages))
        × Sends
            (until_nul initial_string)
            (take cfg.max_str_len (initial_string ++ replicate (cfg.max_str_len + 1) 0))
            es
            messages
  initial_data-run initial_string es short allowed =
      let n : ℕ = cfg.max_str_len in
      let zeros : List ℕ = replicate (n + 1) 0 in
      let a : List ℕ = take n (initial_string ++ zeros) in
      let v : IsClosed cfg a (initial_data cfg initial_string) = record {
        size = omega (
          arith,
          length-take n (initial_string ++ zeros),
          length-append initial_string zeros,
          length-replicate {A = ℕ} (n + 1) 0,
        );
        closed =
            ap (λ m. take m (initial_string ++ zeros)) {y = suc n} (omega arith)
            ∙ take-nuls n (n + 1) initial_string short (omega arith);
      } in
      let (d', messages, e, s) = run-Sends es a v allowed in
      (
        d',
        messages,
        e,
        subst (λ text. Sends text a es messages) (until_nul-nuls n (n + 1) initial_string short) s,
      )
