-- ===== src/UartPeripheral/App/Counts.antt =====
-- What the callback prints and counts for the calls of the driver.
use echo_bot.Prelude.{
  ℕ, suc, ◌+◌, ◌-◌, ◌≤◌, ◌<◌, ◌^◌, ◌≡◌, refl, sym, ap, ap₂, ◌∙◌, inl, inr, Bool-cases, true, false,
  List, [], ◌∷◌, ◌++◌, append_assoc, append-nil, arith, ok, length, drop, All, take-append-drop,
  subst, IsText, nuls, nuls-append, nuls_of_IsText, until_nul_of_IsText, c_string, c_string-append,
  c_string_upto_text, lt→ltb, until_nul, until_nul-append, map, ==_iff,
}
use echo_bot.UartPeripheral.{Config, Call}
use echo_bot.UartPeripheral.Receive.Pieces.{payload, payloads, Shape, IsFrame, piece}
use echo_bot.UartPeripheral.App.{Counter, Report, peripheral_callback, take_calls}
use echo_bot.UartPeripheral.App.Reports.{spoken, spoken_all, counted, tally, report_of, reports_of}

-- The string that `%s` prints is the payload without its NUL.
pub c_string_frame :
    (c : Call) (t : List ℕ) → IsText t → payload c ≡ t ++ 0 ∷ [] → c_string c.bytes ≡ ok t
c_string_frame c t h e =
    ap c_string (
      sym (take-append-drop c.size c.bytes)
      ∙ ap (λ l. l ++ drop c.size c.bytes) e
      ∙ append_assoc t (0 ∷ []) (drop c.size c.bytes))
    ∙ c_string-append t (drop c.size c.bytes)
    ∙ ap ok (until_nul_of_IsText t h)

-- What one call adds to the counts and to the output.
pub record Counted (c c' : Counter) (calls : List Call) (rs : List Report) : Type 0 where
  pub strings : c'.strings ≡ c.strings + nuls (payloads calls)
  pub all : c'.strings + c'.overflows ≡ c.strings + c.overflows + length calls
  pub words : spoken_all rs ≡ payloads calls
  pub each : length rs ≡ length calls
  pub reports : rs ≡ reports_of (map piece calls) c
  pub behind : c' ≡ tally (map piece calls) c

module _ (cfg : Config) (c : Counter) (call : Call) (tracker : ℕ)
    (there : call.context ≡ tracker) where
  string_call :
      Shape cfg true (payload call)
      → call.is_string ≡ true
      → c.strings < 2 ^ 31 - 1
      → (c' : Counter) × (r : Report) × (peripheral_callback tracker c call ≡ ok (c', r))
        × Counted c c' (call ∷ []) (r ∷ [])
  unfolding peripheral_callback
  string_call (t, h, e) is room =
      let c' : Counter = record c { strings = c.strings + 1 } in
      (
        c',
        record { is_string = true; text = t; counts = c' },
        rw (
          is,
          peripheral_callback,
          c_string_frame call t h e,
          (==_iff call.context tracker).1 there,
          lt→ltb c.strings (2 ^ 31 - 1) room,
        ),
        record {
          strings = omega (
            arith,
            nuls-append (payload call) [],
            ap nuls e,
            nuls-append t (0 ∷ []),
            nuls_of_IsText t h,
          );
          all = omega arith;
          words = ap (λ l. l ++ []) (sym e);
          each = refl;
          reports =
              ap (λ b. record { is_string = b; text = t; counts = counted b c } ∷ []) (sym is)
              ∙ ap
                  (λ x.
                    record {
                      is_string = call.is_string;
                      text = x;
                      counts = counted call.is_string c;
                    }
                    ∷ [])
                  (sym (ap until_nul e ∙ until_nul-append t [] h));
          behind = ap (λ b. counted b c) (sym is);
        },
      )

  fragment_call :
      call.size ≤ length call.bytes
      → Shape cfg false (payload call)
      → call.is_string ≡ false
      → c.overflows < 2 ^ 31 - 1
      → (c' : Counter) × (r : Report) × (peripheral_callback tracker c call ≡ ok (c', r))
        × Counted c c' (call ∷ []) (r ∷ [])
  unfolding peripheral_callback
  fragment_call inside (h, full) is room =
      let c' : Counter = record c { overflows = c.overflows + 1 } in
      (
        c',
        record { is_string = false; text = payload call; counts = c' },
        rw (
          is,
          peripheral_callback,
          c_string_upto_text call.size call.bytes inside h,
          (==_iff call.context tracker).1 there,
          lt→ltb c.overflows (2 ^ 31 - 1) room,
        ),
        record {
          strings = omega (arith, nuls-append (payload call) [], nuls_of_IsText (payload call) h);
          all = omega arith;
          words = ap (λ l. l ++ []) (append-nil (payload call));
          each = refl;
          reports =
              ap (λ b. record { is_string = b; text = payload call; counts = counted b c } ∷ [])
                (sym is)
              ∙ ap
                  (λ x.
                    record {
                      is_string = call.is_string;
                      text = x;
                      counts = counted call.is_string c;
                    }
                    ∷ [])
                  (sym (until_nul_of_IsText (payload call) h));
          behind = ap (λ b. counted b c) (sym is);
        },
      )

callback-Counted :
    {cfg : Config} {f u : ℕ} (c : Counter) (call : Call)
    → IsFrame cfg f u call
    → c.strings + c.overflows < 2 ^ 31 - 1
    → (c' : Counter) × (r : Report) × (peripheral_callback u c call ≡ ok (c', r))
      × Counted c c' (call ∷ []) (r ∷ [])
callback-Counted {cfg} {u} c call fr room = elim (Bool-cases call.is_string) [
  | inl is ↦
      string_call cfg c call u fr.with_data (subst (λ b. Shape cfg b (payload call)) is fr.shape) is
        (omega arith)
  | inr is ↦
      fragment_call cfg c call u fr.with_data fr.inside
        (subst (λ b. Shape cfg b (payload call)) is fr.shape) is (omega arith)
]

Counted-cons :
    {c c' c'' : Counter} {call : Call} {calls : List Call} {r : Report} {rs : List Report}
    → Counted c c' (call ∷ []) (r ∷ [])
    → Counted c' c'' calls rs
    → Counted c c'' (call ∷ calls) (r ∷ rs)
Counted-cons {c} {c'} {c''} {call} {calls} {r} {rs} h k = record {
  strings = omega (
    arith,
    h.strings,
    k.strings,
    nuls-append (payload call) [],
    nuls-append (payload call) (payloads calls),
  );
  all = omega (arith, h.all, k.all);
  words =
      ap₂ (λ x y. x ++ y) (sym (append-nil (spoken r)) ∙ h.words ∙ append-nil (payload call))
        k.words;
  each = ap suc k.each;
  reports =
      ap (λ l. l ++ rs) h.reports
      ∙ ap (λ l. report_of (piece call) c ∷ l)
          (k.reports ∙ ap (reports_of (map piece calls)) h.behind);
  behind = k.behind ∙ ap (tally (map piece calls)) h.behind;
}

pub take_calls-Counted :
    (cfg : Config) (f u : ℕ) (calls : List Call) (c : Counter)
    → All (IsFrame cfg f u) calls
    → c.strings + c.overflows + length calls < 2 ^ 31
    → (c' : Counter) × (rs : List Report) × (take_calls u c calls ≡ ok (c', rs))
      × Counted c c' calls rs
unfolding take_calls
take_calls-Counted cfg f u [] c frames room = (
  c,
  [],
  refl,
  record {
    strings = omega arith;
    all = omega arith;
    words = refl;
    each = refl;
    reports = refl;
    behind = refl;
  },
)
take_calls-Counted cfg f u (call ∷ calls) c frames room =
    let (c', r, e, h) = callback-Counted c call frames.0 (omega arith) in
    let (c'', rs, e', k) = take_calls-Counted cfg f u calls c' frames.1 (omega (arith, h.all)) in
    (c'', r ∷ rs, rw (e, e') refl, Counted-cons h k)
