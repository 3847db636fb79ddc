-- ===== src/Mcp9808/App/Boot.antt =====
-- Driver and application from the start of the program.
use echo_bot.Prelude.{
  ℕ, ◌^◌, ◌<◌, ◌⊎◌, ◌≡◌, refl, ◌∙◌, inl, inr, Bool, Bool-cases, true, false, ◌&&◌, not, none, some,
  List, [], ◌∷◌, if◌then◌else◌, arith, Result, ok, ◌>>=◌, All,
}
use echo_bot.Zephyr.Errno.{is_error}
use echo_bot.Zephyr.I2c.{I2cBus, ByteOrder}
use echo_bot.Zephyr.Sensor.{SensorCalls, SensorAttr}
use echo_bot.Mcp9808.{
  reg_temp_amb, reg_resolution, init, set_temperature_resolution, reg_write_8bit,
}
use echo_bot.Mcp9808.Api.{api_funcs, define_device}
use echo_bot.Mcp9808.App.{Out, not_ready, thread_mcp9808}
use echo_bot.Mcp9808.App.Readings.{Prints, thread_mcp9808_lem}
use echo_bot.Mcp9808.App.Trigger.{SetupOut, thread_with_trigger}
use echo_bot.Mcp9808.App.Watch.{failed_with, thread_with_trigger_lem}

module _ (bus : I2cBus) (order : ByteOrder) (asserts : Bool) (calls : SensorCalls) where
  open bus use {State, i2c_write_dt, i2c_write_read_dt}
  open calls use {sensor_attr_set, sensor_trigger_set, attr_set_missing}

  -- The thread on the device, with CONFIG_MCP9808_TRIGGER or without.
  unfoldable pub thread_on_device :
      (trigger ready : Bool) → List ℕ → State → Result (List SetupOut × List Out)
  thread_on_device trigger ready uptimes s =
      let api = api_funcs bus order asserts in
      if trigger
      then thread_with_trigger bus order asserts ready
          (sensor_attr_set api.attr_set SensorAttr.lower_thresh)
          (sensor_attr_set api.attr_set SensorAttr.upper_thresh)
          (sensor_trigger_set api.trigger_set) uptimes s
      else (do outs ← thread_mcp9808 bus order asserts ready uptimes s; ok ([], outs))

  -- The driver's initialisation, and then the thread.
  unfoldable pub boot :
      (trigger bus_is_ready : Bool) (resolution : ℕ)
      → List ℕ
      → State
      → Result (List SetupOut × List Out)
  boot trigger bus_is_ready resolution uptimes s =
      let (ready, s') = define_device bus order asserts bus_is_ready resolution s in
      thread_on_device trigger ready uptimes s'

  refused :
      (trigger : Bool) (uptimes : List ℕ) (s : State)
      → thread_on_device trigger false uptimes s ≡ ok ([], not_ready ∷ [])
  unfolding thread_on_device thread_with_trigger thread_mcp9808
  refused false uptimes s = refl
  refused true uptimes s = refl

  module _
      (bytes : (s : State)
        → (((i2c_write_read_dt s reg_temp_amb).1).0.0 < 256)
          × (((i2c_write_read_dt s reg_temp_amb).1).0.1 < 256)) where
    -- A device that is ready.
    on_ready :
        (trigger : Bool) (uptimes : List ℕ) (s : State)
        → All (λ now. now < 2 ^ 32) uptimes
        → (setup : List SetupOut) × (outs : List Out) × (thread_on_device trigger true uptimes s
            ≡ ok (setup, outs))
          × (((not trigger ≡ true) × (setup ≡ []) × Prints bus order asserts uptimes s outs)
              ⊎ ((trigger ≡ true)
                  × (failed_with setup ≡ some (sensor_attr_set none SensorAttr.lower_thresh))
                  × (outs ≡ [])))
    unfolding thread_on_device
    on_ready false uptimes s small =
        let (outs, e, prints) = thread_mcp9808_lem bus order asserts bytes uptimes s small in
        ([], outs, rw e, inl (refl, refl, prints))
    on_ready true uptimes s small =
        let lower = sensor_attr_set none SensorAttr.lower_thresh in
        let upper = sensor_attr_set none SensorAttr.upper_thresh in
        let (setup, outs, e, failed, _, after) =
          thread_with_trigger_lem bus order asserts bytes true lower upper (sensor_trigger_set none)
            uptimes s small in
        let missing = attr_set_missing SensorAttr.lower_thresh in
        (
          setup,
          outs,
          e,
          inr (
            refl,
            failed ∙ rw missing refl,
            elim after [ inl (fine, _) ↦ absurd (ground arith) | inr (_, silent) ↦ silent ],
          ),
        )

    -- On a bus that delivers bytes, with uptimes of 32 bits: nothing faults. If the bus is not ready, or
    -- the resolution cannot be written, the thread only says that the device is not ready. If it can,
    -- and the trigger is not compiled in, the thread prints exactly the lines that the answers of the
    -- bus ask for, from the state in which the resolution is set: a line with the time and the
    -- temperature for each transfer that succeeds, up to the first that fails, whose code is the last
    -- line. With the trigger compiled in it never reads the temperature: the driver has no function that
    -- sets an attribute, so setting the lower threshold fails, and the thread says so.
    pub boot_lem :
        (trigger bus_is_ready : Bool) (resolution : ℕ) (uptimes : List ℕ) (s : State)
        → All (λ now. now < 2 ^ 32) uptimes
        → let (rc, s') = i2c_write_dt s (reg_resolution ∷ resolution ∷ []) in
          let well = bus_is_ready && not (is_error rc) in
          (setup : List SetupOut) × (outs : List Out) × (boot trigger bus_is_ready resolution
              uptimes s
            ≡ ok (setup, outs))
          × (((well ≡ false) × (setup ≡ []) × (outs ≡ not_ready ∷ []))
              ⊎ (((well && not trigger ≡ true)
                    × (setup ≡ [])
                    × Prints bus order asserts uptimes s' outs)
                  ⊎ ((well && trigger ≡ true)
                      × (failed_with setup ≡ some (sensor_attr_set none SensorAttr.lower_thresh))
                      × (outs ≡ []))))
    unfolding boot define_device init set_temperature_resolution reg_write_8bit
    boot_lem trigger false resolution uptimes s small =
        ([], not_ready ∷ [], refused trigger uptimes s, inl (refl, refl, refl))
    boot_lem trigger true resolution uptimes s small =
        let (rc, s') = i2c_write_dt s (reg_resolution ∷ resolution ∷ []) in
        elim (Bool-cases (is_error rc)) [
          | inl bad ↦
              ([], not_ready ∷ [], rw bad (refused trigger uptimes s'), inl (rw bad, refl, refl))
          | inr good ↦
              let (setup, outs, e, after) = on_ready trigger uptimes s' small in
              (setup, outs, rw good e, inr (rw good after))
        ]
