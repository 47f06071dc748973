-- ===== src/Lib.antt =====
-- The safety core of the PLTS monitoring firmware (firmware/): what isolates the plant, what remembers
-- commands and alarms, and the checksums under them.
--
-- The emergency supervisor (firmware/Services/EmergencySupervisor.cpp) is ticked ten times a second. It
-- reads the last measurements (firmware/Core/Types.h), trips on a violated limit, and then switches the
-- emergency relay off (firmware/Drivers/EmergencyRelayDriver.cpp) and forces the relay bank off
-- (firmware/Drivers/RelayExpanderDriver.cpp), whose latch only an ARM command releases. Commands reach it
-- through `applyCommand`; the channels before it pass a command through the canonicalizer
-- (firmware/Services/CommandCanonicalizer.cpp), which hashes its canonical text, and ask the transaction
-- journal (firmware/Services/TransactionJournal.cpp) whether it is new. Alarms are kept in the alarm
-- registry (firmware/Services/AlarmRegistry.cpp). The relay controller
-- (firmware/Services/RelayController.cpp) owns the eight channels of the bank: its tick recovers the
-- expander, enforces the limits and the leases, executes the queued commands, ends the pulses, and
-- records each terminal result in its ring and in the journal; the supervisor's trip reaches it as
-- emergencyAllOff. The state of charge
-- (firmware/Services/SocStateMachine.cpp) counts the battery's current and takes a new basis from a full
-- charge or from the voltage at rest; the energy counters (firmware/Services/EnergyCounters.cpp)
-- integrate beside it. Journal and registry keep their state in NVS, under the
-- CRC of firmware/Utils/Crc.cpp.
--
-- Files:
--   Prelude: tests on numbers, lists, exclusive or.
--   Crc: crc16Ccitt, crc32 and its table, and ModbusRtuClient::crc16 of firmware/Comm/ModbusRtuClient.cpp.
--     Crc/Reflected: the shift register behind them; Crc/Table, Crc/Detection: theorems.
--   Journal: the fields of TransactionJournal, _lock, _findInJournal and the readers. Journal/Blob:
--     _saveEntryToNVSAtomic; Journal/Store: _storeNewEntryLocked, storeTransaction, updateAck;
--     Journal/Load: _loadFromNVS and begin. Journal/Lookup, Dedup, Ring, Recent, Retention, Roundtrip:
--     lemmas and theorems.
--   Expander: all of RelayExpanderDriver, and the recovery that RelayController::tick asks for.
--     Expander/Register: the bits of the register; Expander/Latch: theorems.
--   Measure: the measurement types and isSafetyUsable.
--   Emergency: the fields of EmergencySupervisor with what it owns elsewhere. Emergency/Relay: the relay
--     driver; Triggers: _readSensors, _trip, _evaluateTriggers, _armBlockReason, _trackClear; Machine:
--     tick, _arm, _pollEstop, _markRuntimeHealthy, _ledTick; Settings: the CONFIG command; Command:
--     applyCommand and the event slot; Boot: begin and a restart. Emergency/Isolation, Arming, Gate,
--     Policy, Crashes, Watchdog, Debounce, Quiet: lemmas and theorems.
--   Alarms: the fields of AlarmRegistry, _lock, _findIdx. Alarms/Save: _saveToNVSUnlocked; Raise: raise and
--     raiseTracked; Edit: clear, clearIfActive, acknowledge, acknowledgeAll; View: the readers.
--     Alarms/Live, Safety, Visible, Bounds: lemmas and theorems.
--   Relay: the fields of RelayController and its structs. Relay/Channel: _applyChannelState,
--     _evaluateSafety, _evaluateInterlock, _annotatePulseOutcome; Lockout: acknowledgeSafetyAlarm,
--     clearSafetyLockout and their record in NVS; Command: applyCommand, allOffWithResult,
--     setChannelConfig; Enforce: _checkMaxOnTime, _checkCommLossFailSafe, _processPulses; Queue:
--     queueCommand, processCommandQueue, _recordTransactionResult, getTransactionResult; Boot: begin,
--     _loadConfig, emergencyAllOff; Tick: tick. Relay/Mirror, Quiet, Recovery, Barrier, Grant, Allowed, Executor,
--     Emergency, Served, Honest, Limit, Interlock, Stuck, Machine, Results: lemmas and theorems.
--   Canon: the names and the lookups of CommandCanonicalizer. Canon/Registry: COMMAND_REGISTRY; Gates:
--     isKnownCommandType, isFieldAllowed, the validators, isCommandExpired; Build: buildCanonicalString,
--     canonicalizeAndHash, decideTransaction. Canon/Grammar, Injective, Refusals: lemmas and theorems.
--   Soc: the fields of SocStateMachine and its structs. Soc/Store: saveToNVS, loadFromNVS, begin, setSoc,
--     synchronizeFromVoltage, setCoulombBaseline; Tick: tick. Soc/Confirm, Bounded, Restore:
--     theorems.
--   Energy: all of EnergyCounterService. Energy/Count, Keep: theorems.
--   Examples (in each part): tests and the theorems at concrete inputs.
--
-- How code becomes definitions. An object is a record; a method is a function from the record, with what
-- the hardware and the libraries answer in the call as a further argument (the mutex, the clock, the
-- bus, the E-stop line, the sensors, the outcome of each read and write of NVS). A method holds its
-- object's mutex, so a call is one step and a history is a list of steps; the call that goes on without the
-- mutex beside a write under way, forceSafetyAllOff, has a definition of its own (force_beside_write).
-- Numbers are natural numbers with the wrap-around of their type written out; the settings that may be negative are integers. `float`, the `Preferences` library
-- and ArduinoJson are parameters: a type with the operations that the code calls, of which nothing is
-- assumed but where a theorem says so.
-- Texts are lists of bytes. No definition needs fuel: all loops run over lists or down a count.
--
-- Not modelled: the texts for operators and the log, publishing the status, the layout of the alarm
-- record in NVS and its load at boot, the JSON helpers of Crc.cpp, the other services, drivers and
-- channels of firmware/, the web handlers, firmware-generic/ and the backend script. A test of
-- PRODUCTION_BUILD is a Boolean argument. `millis()` is read once in a call; a phase of the relay tick is
-- one call, and an emergency comes between phases, not within one. Of the relay controller the write of
-- the configuration to NVS, the status text and the heartbeat are left out; FreeRTOS's queue is a list of
-- at most eight commands.
pub mod Prelude
pub mod Crc
pub mod Journal
pub mod Expander
pub mod Measure
pub mod Emergency
pub mod Alarms
pub mod Relay
pub mod Canon
pub mod Soc
pub mod Energy
