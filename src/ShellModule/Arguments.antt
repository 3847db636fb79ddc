-- ===== src/ShellModule/Arguments.antt =====
-- What the two commands print that show their arguments.
use echo_bot.Prelude.{
  ℕ, zero, suc, ◌+◌, ◌≡◌, ◌≢◌, refl, ap, ◌∙◌, List, [], ◌∷◌, ◌++◌, arith, ok, length, length-append,
  drop, map, All, IsText, read, read_ok, c_string, c_string-append, until_nul_of_IsText,
  take-append,
}
use echo_bot.ShellModule.{
  Line, argc_line, argv_line, argument, hexdump, element, params_loop, hexdump_loop,
  cmd_demo_params, cmd_demo_hexdump,
}

-- The object that holds a string.
abbrev pub nul_ended : List ℕ → List ℕ
nul_ended string = string ++ 0 ∷ []

-- One line for each argument with its number and its text, and the dump of its bytes under its number.
abbrev pub numbered : ℕ → List (List ℕ) → List Line
numbered n [] = []
numbered n (s ∷ strings) = argument n s ∷ numbered (n + 1) strings

abbrev pub dumped : ℕ → List (List ℕ) → List Line
dumped n [] = []
dumped n (s ∷ strings) = argv_line n ∷ hexdump s ∷ dumped (n + 1) strings

nil_ne : {a : List ℕ} {rest : List (List ℕ)} → [] ≢ a ∷ rest
nil_ne h = omega (arith, ap length h)

element-drop :
    (argv : List (List ℕ)) (cnt : ℕ) (a : List ℕ) (rest : List (List ℕ))
    → drop cnt argv ≡ a ∷ rest
    → (element argv cnt ≡ ok a) × (drop (suc cnt) argv ≡ rest)
element-drop [] zero a rest h = absurd (nil_ne h)
element-drop [] (suc cnt) a rest h = absurd (nil_ne h)
element-drop (b ∷ argv) zero a rest h = (ap (λ l. element l 0) h, ap (drop 1) h)
element-drop (b ∷ argv) (suc cnt) a rest h = element-drop argv cnt a rest h

string_of : (s : List ℕ) → IsText s → c_string (nul_ended s) ≡ ok s
string_of s h = c_string-append s [] ∙ ap ok (until_nul_of_IsText s h)

bytes_of : (s : List ℕ) → read (nul_ended s) (length s) ≡ ok s
bytes_of s =
    read_ok (nul_ended s) (length s) (omega (arith, length-append s (0 ∷ [])))
    ∙ ap ok (take-append s (0 ∷ []))

module _ (argv extra : List (List ℕ)) where
  -- The rest of the array at `cnt`.
  Holds : ℕ → List (List ℕ) → Type 0
  Holds cnt strings = drop cnt argv ≡ map nul_ended strings ++ extra

  next :
      (s : List ℕ) (strings : List (List ℕ)) (cnt : ℕ)
      → Holds cnt (s ∷ strings)
      → (element argv cnt ≡ ok (nul_ended s)) × Holds (cnt + 1) strings
  unfolding Holds
  next s strings cnt e =
      let (here, there) = element-drop argv cnt (nul_ended s) (map nul_ended strings ++ extra) e in
      (here, ap (λ n. drop n argv) {x = cnt + 1} {y = suc cnt} (omega arith) ∙ there)

  params_loop-numbered :
      (strings : List (List ℕ)) (cnt : ℕ)
      → All IsText strings
      → Holds cnt strings
      → params_loop (length strings) cnt argv ≡ ok (numbered cnt strings)
  unfolding params_loop
  params_loop-numbered [] cnt h e = refl
  params_loop-numbered (s ∷ strings) cnt h e =
      let (here, there) = next s strings cnt e in
      rw (here, string_of s h.0, params_loop-numbered strings (cnt + 1) h.1 there) refl

  hexdump_loop-dumped :
      (strings : List (List ℕ)) (cnt : ℕ)
      → All IsText strings
      → Holds cnt strings
      → hexdump_loop (length strings) cnt argv ≡ ok (dumped cnt strings)
  unfolding hexdump_loop
  hexdump_loop-dumped [] cnt h e = refl
  hexdump_loop-dumped (s ∷ strings) cnt h e =
      let (here, there) = next s strings cnt e in
      rw (here, string_of s h.0, bytes_of s, hexdump_loop-dumped strings (cnt + 1) h.1 there) refl

-- With strings as arguments, whatever stands behind them in the array: neither command reads outside
-- an object, and they print the number of arguments and then each argument once, in order: its number
-- and text, or its number and the dump of all its bytes.
pub commands_print_arguments :
    (strings extra : List (List ℕ))
    → All IsText strings
    → let argv = map nul_ended strings ++ extra in
      let argc = length strings in
      (cmd_demo_params argc argv ≡ ok (argc_line argc ∷ numbered 0 strings))
      × (cmd_demo_hexdump argc argv ≡ ok (argc_line argc ∷ dumped 0 strings))
unfolding cmd_demo_params cmd_demo_hexdump Holds
commands_print_arguments strings extra h =
    let argv = map nul_ended strings ++ extra in
    (
      rw (params_loop-numbered argv extra strings 0 h refl) refl,
      rw (hexdump_loop-dumped argv extra strings 0 h refl) refl,
    )
