-- ===== src/ShellModule/Tests.antt =====
-- Commands on concrete arguments, and the theorem at them.
use echo_bot.Prelude.{ℕ, ◌≡◌, refl, true, false, List, [], ◌∷◌, ◌++◌, arith, ok, map}
use echo_bot.Prelude.Int.{pos}
use echo_bot.Prelude.Text.{codes, literal}
use echo_bot.ShellModule.{
  argc_line, argument, dictionary, started, usb_enable, k_sleep, params_loop, cmd_demo_params,
  cmd_demo_hexdump, cmd_dict, wait_dtr, thread_shell_module,
}
use echo_bot.ShellModule.Arguments.{nul_ended, numbered, dumped, commands_print_arguments}

abbrev strings : List (List ℕ)
strings = codes "params" ∷ codes "a" ∷ []

abbrev argv : List (List ℕ)
argv = map nul_ended strings ++ [] ∷ []

params_two :
    cmd_demo_params 2 argv
    ≡ ok (argc_line 2 ∷ argument 0 (codes "params") ∷ argument 1 (codes "a") ∷ [])
unfolding cmd_demo_params params_loop
params_two = refl

dict_value_3 : cmd_dict 3 (literal "value_3" ∷ []) ≡ ok (dictionary (codes "value_3") (pos 3) ∷ [])
unfolding cmd_dict
dict_value_3 = refl

-- The thread sleeps behind the read that finds DTR set, too.
waits_twice :
    thread_shell_module false true (pos 0) (0 ∷ 1 ∷ 0 ∷ [])
    ≡ started ∷ usb_enable ∷ k_sleep ∷ k_sleep ∷ []
unfolding thread_shell_module wait_dtr
waits_twice = refl

commands_print_arguments_example :
    (cmd_demo_params 2 argv ≡ ok (argc_line 2 ∷ numbered 0 strings))
    × (cmd_demo_hexdump 2 argv ≡ ok (argc_line 2 ∷ dumped 0 strings))
commands_print_arguments_example = commands_print_arguments strings ([] ∷ []) (
  (omega arith, (omega arith, (omega arith, (omega arith, (omega arith, (omega arith, tt)))))),
  ((omega arith, tt), tt),
)
