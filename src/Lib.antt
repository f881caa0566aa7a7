-- ===== src/Lib.antt =====
-- Project Mycelium emulates LilyGO T-Deck boards that talk over LoRa. One process holds several
-- instances; each loads a firmware library and gives it a virtual radio, a display, input devices,
-- storage and a board. This library models the parts that keep the state behind those devices.
--
-- Radio (core/radio_bus). `RadioBus` holds the registered nodes and the remembered transmissions. A
-- firmware broadcasts through it, `tick` resolves the transmissions that have ended by delivering
-- them to the nodes in range, and `poll` drains a node's inbox. Radio.Airtime is airtime_us and
-- airtime_ms of propagation.rs, Radio.Propagation its link budget, Radio.Types is types.rs,
-- Radio.Overlap the times on the air, Radio.Channel is channel.rs, and bus.rs is Radio.Bus (the
-- calls) and Radio.Delivery (tick and deliver_completed). Radio.Session is any sequence of calls, and any
-- in which a node is registered anew only when the bus remembers none of its transmissions.
--
-- Display (core/display). Display.Framebuffer is framebuffer.rs: the area updates that the LVGL
-- backends flush, and the byte orders. Display.St7789 and Display.St7789.Write are st7789.rs, the
-- panel controller that takes commands and pixels over the bus of Display.SharedSpi
-- (shared_spi.rs), which the radio and the SD card share.
--
-- Board (core/board). Board.Nvs is nvs.rs, the Preferences store of a firmware, and
-- Board.Partition is partition.rs, the flash layout, from which it takes its size, with its registry. Of lib.rs,
-- Board.State has the record of a board and the maps that all boards share by instance, and each
-- device has a module: Board.Power (the peripheral rail, the held pins and their shutdown before
-- sleep), Board.Psram, Board.Battery, Board.Adc (the converter's calibration curve and the search on
-- it), Board.Watchdog and Board.Rtc (the memory that survives a restart).
--
-- Input (core/input). Input.Trackball is trackball.rs, Input.I2cKeyboard is i2c_keyboard.rs and
-- Input.Gt911 is gt911.rs, the touch controller: its state and settings, Input.Gt911.Touch the
-- contacts from the host, Input.Gt911.Registers the clock and what a firmware reads and writes, and
-- Input.Gt911.Registry the live controllers with the failures that are configured for them.
-- Input.WireShim is wire_shim.rs, the I2C bus with the keyboard and the touch controller on it.
-- Input.Keyboard is keyboard.rs, the key map of the host's keys; Input.MouseTouch is touch.rs, the mouse
-- as a finger; and Input.Manager is manager.rs, which hands an SDL event to the devices of its
-- instance (Input.Trackball, Input.I2cKeyboard and Input.Gt911 among them) and queues what they report.
--
-- Storage (core/storage). Storage.Spiffs and Storage.Spiffs.Files are spiffs.rs, the flat file system
-- of an instance in a directory on the host, Storage.InstanceDirectory the name of that directory,
-- and Storage.SdCard is sdcard.rs: the mounting of the card and the checks before the host is asked.
--
-- GPS (core/gps). Gps.Uart is the serial output of manager.rs: a batch of sentences a second, read at
-- the speed of the UART. Gps.Movement is how the receiver moves, manager.rs over the state of nmea.rs: the
-- geometry, the advance along waypoints and the replay of tracks; Gps.Movement.Tick is what `tick` does of
-- it, and sequences of ticks and settings. Gps.Satellites is generate_gsv of nmea.rs, with the fields of
-- generate_gsa, by numbers instead of text.
--
-- Bridge (core/bridge). Bridge.Flash is flash_ffi.rs, the C calls on Preferences and on the
-- partition table, over the live handles of core/board/src/nvs.rs, each a Board.Nvs.
--
-- Common has the notation, lists over the native numbers, String-keyed maps, byte slices and the
-- machine words. `HashMap` and `BTreeMap` are association lists that are read by key. A lock is
-- not modelled: an operation is a function from the state to the state and its result. `f64` is
-- the record Common.Float of operations without laws, so that what is stated holds of any
-- arithmetic; Common.Toy is an instance for tests. Sums of `u64` that saturate or wrap are written
-- out, `usize` has 64 bits, and an operation that may panic returns an option. Loops are recursion
-- on the list or on the number of rounds that is left, which is the code's own bound.
--
-- The fuel of Board.Adc.bisect counts the halvings of an interval of 4095 counts, so 12 are enough;
-- this is part of what is stated of the search.
--
-- The loop of Gps.Movement.replay has as many rounds as there are points, which is enough since each
-- goes to the next point; a lack of rounds would be `none`, as an index out of range and a difference of
-- times that overflows are.
--
-- Not modelled: the SDL and LVGL backends, the dynamic loader and the other C entry points, whose state
-- is raw pointers and host libraries; the registry of shared input managers, the PWM drive of the
-- buzzer, the text of the GPS sentences and the parser of GPX files; and the host's file system:
-- what it does is an argument of the calls of Board.Nvs and Storage, and the directory tree of the SD
-- card is left to it.
pub mod Common
pub mod Radio
pub mod Display
pub mod Board
pub mod Input
pub mod Storage
pub mod Gps
pub mod Bridge
