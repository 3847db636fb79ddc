-- ===== src/UartPeripheral/Transmit.antt =====
-- The string that the device sends: setting it, and sending it.
use echo_bot.Prelude.{
  ℕ, ◌+◌, ◌≤◌, ◌<◌, ◌≡◌, refl, sym, ap, ◌∙◌, Bool, true, false, List, [], ◌∷◌, ◌++◌, arith, ok,
  fault, out_of_bounds, assert_failed, length, set, take, drop, length-take, length-append,
  length-drop, length-set, check, read_ok, leb, if◌then◌else◌, take-append, until_nul, c_string,
  c_string-set, copy_in, store_ok, store_fault, copy_in_ok, copy_in_fault,
}
use native.Mathlib.Decide.{dec_lt}
use echo_bot.UartPeripheral.{Config, UartData, user_set_string, transmit_string}

pub assertion_passes :
    (asserts : Bool) (cfg : Config) (len : ℕ)
    → len ≤ cfg.max_str_len
    → check (if asserts then leb len cfg.max_str_len else true) assert_failed ≡ ok tt
assertion_passes true cfg len h = ground arith
assertion_passes false cfg len h = refl

assertion_fails :
    (cfg : Config) (len : ℕ)
    → cfg.max_str_len < len
    → check (leb len cfg.max_str_len) assert_failed ≡ fault assert_failed
assertion_fails cfg len h = ground arith

module _ (d : UartData) (string : List ℕ) (len : ℕ) (there : len ≤ length string) where
  abbrev src : List ℕ
  src = take len string

  -- `str` behind the memcpy.
  abbrev copied : List ℕ
  copied = src ++ drop (0 + length src) d.str

  length-src : length src ≡ len
  length-src = omega (arith, length-take len string)

  length-copied : len ≤ length d.str → length copied ≡ length d.str
  length-copied h = omega (
    arith,
    length-src,
    length-append src (drop (0 + length src) d.str),
    length-drop (0 + length src) d.str,
  )

  take-copied : take len copied ≡ src
  take-copied =
      ap (λ n. take n copied) (sym length-src) ∙ take-append src (drop (0 + length src) d.str)

  copy_fits : len ≤ length d.str → copy_in d.str 0 src ≡ ok copied
  copy_fits h = copy_in_ok d.str 0 src (omega (arith, length-src))

  copy_overruns : length d.str < len → copy_in d.str 0 src ≡ fault out_of_bounds
  copy_overruns h = copy_in_fault d.str 0 src (omega (arith, length-src))

-- Setting a string that fits: the array holds it up to its first NUL.
pub user_set_string_fits :
    (asserts : Bool) (cfg : Config) (d : UartData) (string : List ℕ) (len : ℕ)
    → length d.str ≡ cfg.max_str_len + 1
    → len ≤ cfg.max_str_len
    → len ≤ length string
    → (str : List ℕ) × (user_set_string asserts cfg d string len ≡ ok (record d { str = str }))
      × (length str ≡ cfg.max_str_len + 1)
      × (c_string str ≡ ok (until_nul (take len string)))
unfolding user_set_string
user_set_string_fits asserts cfg d string len size fits there =
    let full = length-copied d string len there (omega arith) in
    (
      set (copied d string len there) len 0,
      rw (
        assertion_passes asserts cfg len fits,
        read_ok string len there,
        copy_fits d string len there (omega arith),
        store_ok (copied d string len there) len 0 (omega arith),
      ),
      length-set (copied d string len there) len 0 ∙ full ∙ size,
      rw (
        c_string-set (copied d string len there) len (omega arith),
        take-copied d string len there,
      ),
    )

-- Setting a string that fits, then a rising pin: the device sends the string up to its first NUL,
-- and a NUL. Nothing faults, and only `str` changes.
pub user_set_string-transmit_string :
    (asserts : Bool) (cfg : Config) (d : UartData) (string : List ℕ) (len : ℕ)
    → length d.str ≡ cfg.max_str_len + 1
    → len ≤ cfg.max_str_len
    → len ≤ length string
    → (str : List ℕ) × (user_set_string asserts cfg d string len ≡ ok (record d { str = str }))
      × (length str ≡ cfg.max_str_len + 1)
      × (transmit_string (record d { str = str }) ≡ ok (until_nul (take len string) ++ 0 ∷ []))
unfolding transmit_string
user_set_string-transmit_string asserts cfg d string len size fits there =
    let (str, e, full, text) = user_set_string_fits asserts cfg d string len size fits there in
    (str, e, full, rw text)

-- A string that is too long fails the assertion where assertions are compiled in; where they are
-- not, the string or its NUL is written outside `str`.
pub user_set_string_too_long :
    (cfg : Config) (d : UartData) (string : List ℕ) (len : ℕ)
    → length d.str ≡ cfg.max_str_len + 1
    → cfg.max_str_len < len
    → len ≤ length string
    → (user_set_string true cfg d string len ≡ fault assert_failed)
      × (user_set_string false cfg d string len ≡ fault out_of_bounds)
unfolding user_set_string
user_set_string_too_long cfg d string len size long there = (
  rw (assertion_fails cfg len long),
  rw (read_ok string len there) (elim (dec_lt (length d.str) len) [
    | yes h ↦ rw (copy_overruns d string len there h)
    | no h ↦ rw (
      copy_fits d string len there (omega arith),
      store_fault (copied d string len there) len 0
          (omega (arith, length-copied d string len there)),
    )
  ]),
)
