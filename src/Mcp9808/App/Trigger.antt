-- ===== src/Mcp9808/App/Trigger.antt =====
-- src/main_mcp9808.c, under CONFIG_MCP9808_TRIGGER: the handler of the alert, which moves the window of
-- temperatures, and how the thread sets it.
use echo_bot.Prelude.{
  ℕ, ◌+◌, ◌*◌, ◌<◌, ◌≡◌, refl, ap, inl, inr, Bool, Bool-cases, true, false, List, [], ◌∷◌, ◌++◌,
  if◌then◌else◌, not, Result, ok, ◌>>=◌, u32, arith,
}
use echo_bot.Prelude.Int.{ℤ, pos}
use echo_bot.Zephyr.Errno.{is_error}
use echo_bot.Zephyr.I2c.{I2cBus, ByteOrder}
use echo_bot.Mcp9808.Api.{api_funcs}
use echo_bot.Mcp9808.{reg_temp_amb, SensorValue, ambient_temp, all_channels, reg_read, sample_fetch}
use echo_bot.Mcp9808.Codec.{reading, Says, channel_get_lem}
use echo_bot.Mcp9808.App.{Out, not_ready, reading_loop}
use echo_bot.Mcp9808.App.Readings.{no_error}
use echo_bot.Mcp9808.App.Window.{
  WindowCall, set_thresholds, set_window, set_window_ucel, set_window_lem, SetsWindow,
  set_thresholds-SetsWindow,
}

-- What the handler prints, and its calls that set the window.
pub data TriggerOut : Type 0 where
  handler_error : ℤ → TriggerOut
  fired : ℕ → SensorValue → TriggerOut
  window : List WindowCall → TriggerOut

-- What the thread prints and calls before its loop.
pub data SetupOut : Type 0 where
  window_set : List WindowCall → SetupOut
  sensor_trigger_set : SetupOut
  trigger_set_failed trigger_set_got : ℤ → SetupOut

abbrev pub temp_initial_cel : ℕ
temp_initial_cel = 25

-- The branch of the thread: whether it goes on to its loop. `set` is what sensor_trigger_set returns.
unfoldable pub trigger_setup : (lower upper set : ℤ) → Result (List SetupOut × Bool)
trigger_setup lower upper set = do
  (rc, calls) ← set_window_ucel lower upper (pos (temp_initial_cel * 1000000))
  ok (
      if is_error rc
      then (window_set calls ∷ trigger_set_failed rc ∷ [], false)
      else if is_error set
      then (window_set calls ∷ sensor_trigger_set ∷ trigger_set_failed set ∷ [], false)
      else (window_set calls ∷ sensor_trigger_set ∷ trigger_set_got set ∷ [], true))

module _ (bus : I2cBus) (order : ByteOrder) (asserts : Bool) where
  open bus use {State, i2c_write_read_dt}

  -- `cnt` has 32 bits; `codes` are what the two calls of sensor_attr_set return.
  unfoldable pub trigger_handler : ℕ → ℤ × ℤ → State → Result (ℕ × (List TriggerOut × State))
  trigger_handler cnt codes s = do
    let cnt' = u32 (cnt + 1)
    (rc, (reg_val, s')) ← (api_funcs bus order asserts).sample_fetch s all_channels
    if is_error rc then ok (cnt', (handler_error rc ∷ [], s')) else (do
      temp ← (api_funcs bus order asserts).channel_get reg_val ambient_temp
      (_, calls) ← set_window codes.0 codes.1 temp
      ok (cnt', (fired cnt' temp ∷ window calls ∷ [], s')))

  -- Alerts, one after the other.
  unfoldable pub alerts : ℕ → List (ℤ × ℤ) → State → Result (List TriggerOut × State)
  alerts cnt [] s = ok ([], s)
  alerts cnt (codes ∷ later) s = do
    (cnt', (outs, s')) ← trigger_handler cnt codes s
    (more, s'') ← alerts cnt' later s'
    ok (outs ++ more, s'')

  -- The thread with the trigger compiled in.
  unfoldable pub thread_with_trigger :
      Bool → (lower upper set : ℤ) → List ℕ → State → Result (List SetupOut × List Out)
  thread_with_trigger ready lower upper set uptimes s =
      if not ready then ok ([], not_ready ∷ []) else (do
        (setup, goes_on) ← trigger_setup lower upper set
        outs ← if goes_on then reading_loop bus order asserts uptimes s else ok []
        ok (setup, outs))

  -- At each alert a transfer of the temperature register. One that fails is a line with its code, and the
  -- window stays. One that succeeds is a line with the number of the alert and the temperature of its
  -- two bytes, and the window is set from half a degree below to half a degree above it.
  pub data Follows : ℕ → List (ℤ × ℤ) → State → List TriggerOut → Type 0 where
    quiet : {cnt : ℕ} {s : State} → Follows cnt [] s []
    stays :
        {cnt : ℕ} {codes : ℤ × ℤ} {later : List (ℤ × ℤ)} {s s' : State} {rc : ℤ} {raw : ℕ × ℕ}
        {outs : List TriggerOut}
        → is_error rc ≡ true
        → i2c_write_read_dt s reg_temp_amb ≡ (rc, (raw, s'))
        → Follows (u32 (cnt + 1)) later s' outs
        → Follows cnt (codes ∷ later) s (handler_error rc ∷ outs)
    moves :
        {cnt : ℕ} {codes : ℤ × ℤ} {later : List (ℤ × ℤ)} {s s' : State} {hi lo : ℕ}
        {v : SensorValue} {calls : List WindowCall} {outs : List TriggerOut}
        → i2c_write_read_dt s reg_temp_amb ≡ (pos 0, ((hi, lo), s'))
        → Says v (reading (hi * 256 + lo))
        → SetsWindow (reading (hi * 256 + lo)) codes calls
        → Follows (u32 (cnt + 1)) later s' outs
        → Follows cnt (codes ∷ later) s (fired (u32 (cnt + 1)) v ∷ window calls ∷ outs)

  -- On a bus that delivers bytes, the handler faults on no assertion and no overflow at any sequence of
  -- alerts, whatever setting the window returns. At each alert the temperature register is read: if
  -- that fails, a line with the code follows and the window stays; if not, a line with the number of
  -- the alert and the temperature of the two bytes, and the calls that set the window from half a
  -- degree below to half a degree above it: the lower threshold, behind it, if that is not refused, the
  -- upper one, and a line with both in thousandths, if neither is refused.
  pub alerts_lem :
      ((s : State)
        → (((i2c_write_read_dt s reg_temp_amb).1).0.0 < 256)
          × (((i2c_write_read_dt s reg_temp_amb).1).0.1 < 256))
      → (events : List (ℤ × ℤ)) (cnt : ℕ) (s : State)
      → (outs : List TriggerOut) × (s' : State) × (alerts cnt events s ≡ ok (outs, s'))
        × Follows cnt events s outs
  unfolding alerts trigger_handler sample_fetch reg_read
  alerts_lem bytes [] cnt s = ([], s, refl, quiet)
  alerts_lem bytes (codes ∷ later) cnt s =
      let ((hi, lo), s') = (i2c_write_read_dt s reg_temp_amb).1 in
      let (outs, end, e, f) = alerts_lem bytes later (u32 (cnt + 1)) s' in
      elim (Bool-cases (is_error (i2c_write_read_dt s reg_temp_amb).0)) [
        | inl bad ↦ (
          handler_error (i2c_write_read_dt s reg_temp_amb).0 ∷ outs,
          end,
          rw (assertion, bad, e) refl,
          stays bad refl f,
        )
        | inr good ↦
            let (h, l) = bytes s in
            let (v, got, says) = channel_get_lem asserts (hi * 256 + lo) in
            let (low, high, set, at_low, at_high) =
              set_window_lem codes.0 codes.1 (hi * 256 + lo) v says in
            (
              fired (u32 (cnt + 1)) v ∷ window (set_thresholds codes.0 codes.1 low high).1 ∷ outs,
              end,
              rw (assertion, good, order.be16_load hi lo h l, got, set, e) refl,
              moves {hi = hi} {lo = lo} (ap (λ rc. (rc, ((hi, lo), s'))) (no_error _ good)) says
                  (set_thresholds-SetsWindow codes low high (reading (hi * 256 + lo)) at_low
                    at_high)
                  f,
            )
      ]
    where
      assertion : (if asserts then true else true) ≡ true
      assertion = ground arith
