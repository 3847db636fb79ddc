-- ===== src/ShellModule.antt =====
-- src/main_shell_module.c: the commands that the sample registers with the shell, and the thread that
-- waits for the host. The shell calls a command with `argc` and `argv`; an element of `argv` is the
-- object that it points to.
pub mod Arguments
mod Tests
use echo_bot.Prelude.{
  ℕ, zero, suc, ◌+◌, Bool, true, false, ◌||◌, List, [], ◌∷◌, ◌++◌, ◌==◌, if◌then◌else◌, not, Result,
  ok, fault, out_of_bounds, ◌>>=◌, read, c_string, length,
}
use echo_bot.Prelude.Int.{ℤ, pos, int_of}
use echo_bot.Prelude.Text.{codes}
use echo_bot.Zephyr.Errno.{is_error}

-- What the commands print, and shell_hexdump with its bytes.
pub data Line : Type 0 where
  text : List ℕ → Line
  argc_line argv_line : ℕ → Line
  argument : ℕ → List ℕ → Line
  hexdump : List ℕ → Line
  dictionary : List ℕ → ℤ → Line

-- `argv[cnt]`
abbrev pub element : List (List ℕ) → ℕ → Result (List ℕ)
element [] cnt = fault out_of_bounds
element (a ∷ argv) zero = ok a
element (a ∷ argv) (suc cnt) = element argv cnt

-- The loops, with so many turns left at `cnt`.
unfoldable pub params_loop : ℕ → ℕ → List (List ℕ) → Result (List Line)
params_loop zero cnt argv = ok []
params_loop (suc left) cnt argv = do
  arg ← element argv cnt
  string ← c_string arg
  rest ← params_loop left (cnt + 1) argv
  ok (argument cnt string ∷ rest)

unfoldable pub hexdump_loop : ℕ → ℕ → List (List ℕ) → Result (List Line)
hexdump_loop zero cnt argv = ok []
hexdump_loop (suc left) cnt argv = do
  arg ← element argv cnt
  string ← c_string arg
  bytes ← read arg (length string)
  rest ← hexdump_loop left (cnt + 1) argv
  ok (argv_line cnt ∷ hexdump bytes ∷ rest)

-- Each command returns 0.
unfoldable pub cmd_demo_params : ℕ → List (List ℕ) → Result (List Line)
cmd_demo_params argc argv = do lines ← params_loop argc 0 argv; ok (argc_line argc ∷ lines)

unfoldable pub cmd_demo_hexdump : ℕ → List (List ℕ) → Result (List Line)
cmd_demo_hexdump argc argv = do lines ← hexdump_loop argc 0 argv; ok (argc_line argc ∷ lines)

unfoldable pub cmd_demo_ping : List Line
cmd_demo_ping = text (codes "pong") ∷ []

-- `board` is CONFIG_BOARD, `version` is KERNEL_VERSION_STRING.
unfoldable pub cmd_demo_board : (board : List ℕ) → List Line
cmd_demo_board board = text board ∷ []

unfoldable pub cmd_version : (version : List ℕ) → List Line
cmd_version version = text (codes "Zephyr version " ++ version) ∷ []

unfoldable pub cmd1_handler : List Line
cmd1_handler = text (codes "cmd1 executed") ∷ []

-- `data` is the number that the dictionary holds.
unfoldable pub cmd_dict : ℕ → List (List ℕ) → Result (List Line)
cmd_dict value argv = do
  arg ← element argv 0
  string ← c_string arg
  ok (dictionary string (int_of value) ∷ [])

abbrev pub sub_dict_cmds : List (List ℕ × ℕ)
sub_dict_cmds =
    (codes "value_0", 0) ∷ (codes "value_1", 1) ∷ (codes "value_2", 2) ∷ (codes "value_3", 3) ∷ []

-- What the thread calls.
pub data Step : Type 0 where
  started login_init usb_enable k_sleep : Step

-- The loop that waits for DTR, on what uart_line_ctrl_get reads each time.
unfoldable pub wait_dtr : List ℕ → List Step
wait_dtr [] = []
wait_dtr (dtr ∷ dtrs) = let rest = wait_dtr dtrs in k_sleep ∷ (if dtr == 0 then rest else [])

-- `obscured` is CONFIG_SHELL_START_OBSCURED; the shell's UART is a port over USB.
unfoldable pub thread_shell_module : (obscured ready : Bool) → ℤ → List ℕ → List Step
thread_shell_module obscured ready usb dtrs =
    started
    ∷ ((if obscured then login_init ∷ [] else [])
        ++ (if not ready then [] else usb_enable ∷ (if is_error usb then [] else wait_dtr dtrs)))
