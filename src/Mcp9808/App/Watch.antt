-- ===== src/Mcp9808/App/Watch.antt =====
-- The thread with the trigger compiled in, from its start.
use echo_bot.Prelude.{
  ℕ, ◌^◌, ◌<◌, ◌⊎◌, ◌≡◌, refl, inl, inr, Bool, Bool-cases, true, false, ◌&&◌, not, Option, none,
  some, List, [], ◌∷◌, if◌then◌else◌, ok, All,
}
use echo_bot.Prelude.Int.{ℤ, pos, ◌+ℤ◌, ◌-ℤ◌, ◌*ℤ◌}
use echo_bot.Zephyr.Errno.{is_error}
use echo_bot.Zephyr.I2c.{I2cBus, ByteOrder}
use echo_bot.Mcp9808.{reg_temp_amb}
use echo_bot.Mcp9808.App.{Out, not_ready}
use echo_bot.Mcp9808.App.Readings.{Prints, reading_loop-Prints}
use echo_bot.Mcp9808.App.Window.{
  set_thresholds, set_window, set_window_ucel, SetsWindow, set_thresholds-SetsWindow, WindowCall,
}
use echo_bot.Mcp9808.App.Trigger.{
  SetupOut, window_set, sensor_trigger_set, trigger_set_failed, trigger_set_got, trigger_setup,
  thread_with_trigger,
}

-- The first of these codes that is an error.
abbrev pub first_error : List ℤ → Option ℤ
first_error [] = none
first_error (rc ∷ rcs) = if is_error rc then some rc else first_error rcs

-- The code with which setting the trigger is said to fail.
abbrev pub failed_with : List SetupOut → Option ℤ
failed_with [] = none
failed_with (trigger_set_failed rc ∷ os) = some rc
failed_with (_ ∷ os) = failed_with os

abbrev pub no_error : List ℤ → Bool
no_error [] = true
no_error (rc ∷ rcs) = not (is_error rc) && no_error rcs

-- The calls and the last line of the set-up on a device that is ready, where `codes` are what the two
-- thresholds return: the window around 25 degrees, 400 sixteenths, and behind it, if neither threshold is
-- refused, the trigger.
pub data SetsUp (codes : ℤ × ℤ) (set : ℤ) : List SetupOut → Type 0 where
  no_window :
      {rc : ℤ} {calls : List WindowCall}
      → first_error (codes.0 ∷ codes.1 ∷ []) ≡ some rc
      → SetsWindow (pos 400) codes calls
      → SetsUp codes set (window_set calls ∷ trigger_set_failed rc ∷ [])
  no_trigger :
      {calls : List WindowCall}
      → first_error (codes.0 ∷ codes.1 ∷ []) ≡ none
      → SetsWindow (pos 400) codes calls
      → is_error set ≡ true
      → SetsUp codes set (window_set calls ∷ sensor_trigger_set ∷ trigger_set_failed set ∷ [])
  all_set :
      {calls : List WindowCall}
      → first_error (codes.0 ∷ codes.1 ∷ []) ≡ none
      → SetsWindow (pos 400) codes calls
      → is_error set ≡ false
      → SetsUp codes set (window_set calls ∷ sensor_trigger_set ∷ trigger_set_got set ∷ [])

-- On a device that is not ready there is none.
abbrev pub SetsUpIf : (ready : Bool) → ℤ × ℤ → ℤ → List SetupOut → Type 0
SetsUpIf true codes set setup = SetsUp codes set setup
SetsUpIf false codes set setup = setup ≡ []

first_window :
    (lower upper : ℤ)
    → set_window_ucel lower upper (pos 25000000)
      ≡ ok (set_thresholds lower upper (pos 24500000) (pos 25500000))
unfolding set_window_ucel set_window ◌+ℤ◌ ◌-ℤ◌ ◌*ℤ◌
first_window lower upper = refl

trigger_setup_runs :
    (lower upper set : ℤ)
    → (setup : List SetupOut) × (trigger_setup lower upper set
        ≡ ok (setup, no_error (lower ∷ upper ∷ set ∷ [])))
      × (failed_with setup ≡ first_error (lower ∷ upper ∷ set ∷ []))
      × SetsUp (lower, upper) set setup
unfolding trigger_setup set_thresholds
trigger_setup_runs lower upper set =
    let calls = (set_thresholds lower upper (pos 24500000) (pos 25500000)).1 in
    let window =
      set_thresholds-SetsWindow (lower, upper) (pos 24500000) (pos 25500000) (pos 400)
        (record { exact = refl }) (record { exact = refl }) in
    elim (Bool-cases (is_error lower)) [
      | inl e ↦ (
        window_set calls ∷ trigger_set_failed lower ∷ [],
        rw (first_window lower upper, e, e) refl,
        rw e refl,
        no_window (rw e refl) window,
      )
      | inr e ↦ elim (Bool-cases (is_error upper)) [
        | inl f ↦ (
          window_set calls ∷ trigger_set_failed upper ∷ [],
          rw (first_window lower upper, e, f, f) refl,
          rw (e, f) refl,
          no_window (rw (e, f) refl) window,
        )
        | inr f ↦ elim (Bool-cases (is_error set)) [
          | inl g ↦ (
            window_set calls ∷ sensor_trigger_set ∷ trigger_set_failed set ∷ [],
            rw (first_window lower upper, e, f, f, g) refl,
            rw (e, f, g) refl,
            no_trigger (rw (e, f) refl) window g,
          )
          | inr g ↦ (
            window_set calls ∷ sensor_trigger_set ∷ trigger_set_got set ∷ [],
            rw (first_window lower upper, e, f, f, g) refl,
            rw (e, f, g) refl,
            all_set (rw (e, f) refl) window g,
          )
        ]
      ]
    ]

module _ (bus : I2cBus) (order : ByteOrder) (asserts : Bool) where
  open bus use {State, i2c_write_read_dt}

  -- On a bus that delivers bytes, with uptimes of 32 bits, the thread faults on nothing. On a device that
  -- is ready it makes the calls that set the window from half a degree below 25 degrees to half a degree
  -- above it, up to one that is refused, and, if none is, the call that sets the trigger. It fails with
  -- the first error of the two thresholds and the trigger, and then reads nothing; if none of them is an
  -- error it goes on to print what the bus's answers ask for. On a device that is not ready it sets
  -- nothing and only says so.
  pub thread_with_trigger_lem :
      ((s : State)
        → (((i2c_write_read_dt s reg_temp_amb).1).0.0 < 256)
          × (((i2c_write_read_dt s reg_temp_amb).1).0.1 < 256))
      → (ready : Bool) (lower upper set : ℤ) (uptimes : List ℕ) (s : State)
      → All (λ now. now < 2 ^ 32) uptimes
      → let codes = lower ∷ upper ∷ set ∷ [] in
        (setup : List SetupOut) × (outs : List Out) × (thread_with_trigger bus order asserts ready
            lower upper set uptimes s
          ≡ ok (setup, outs))
        × (failed_with setup ≡ (if ready then first_error codes else none))
        × SetsUpIf ready (lower, upper) set setup
        × (((ready && no_error codes ≡ true) × Prints bus order asserts uptimes s outs)
            ⊎ ((ready && no_error codes ≡ false) × (outs ≡ (if ready then [] else not_ready ∷ []))))
  unfolding thread_with_trigger
  thread_with_trigger_lem bytes false lower upper set uptimes s small =
      ([], not_ready ∷ [], refl, refl, refl, inr (refl, refl))
  thread_with_trigger_lem bytes true lower upper set uptimes s small =
      let (setup, e, failed, sets) = trigger_setup_runs lower upper set in
      let (outs, run, prints) = reading_loop-Prints bus order asserts bytes uptimes s small in
      elim (Bool-cases (no_error (lower ∷ upper ∷ set ∷ []))) [
        | inl fine ↦ (setup, outs, rw (e, fine, run) refl, failed, sets, inl (fine, prints))
        | inr bad ↦ (setup, [], rw (e, bad) refl, failed, sets, inr (bad, refl))
      ]
