-- ===== src/Canon/Registry.antt =====
-- `COMMAND_REGISTRY` of firmware/Services/CommandCanonicalizer.cpp.
use Prim.Native.String.{String}
use pltsmonitoring_firmware.Prelude.{List, [], ◌∷◌, map}
use pltsmonitoring_firmware.Canon.{codes, CommandDef}

abbrev pub entry : String → String → List String → CommandDef
entry kind action fields = record {
  kind = codes kind;
  action = codes action;
  fields = map codes fields;
}

unfoldable pub command_registry : List CommandDef
command_registry =
    entry "config" "update" (
      "batteryCapacityAh" ∷ "batteryNominalV" ∷ "fullVoltage" ∷ "lowVoltage"
      ∷ "idleCurrentThreshold" ∷ "fullChargeCurrentThreshold" ∷ "fullChargePersistenceSec"
      ∷ "telemetryIntervalSec" ∷ "offlineRetentionSec" ∷ "deviceName" ∷ "timezone" ∷ "bmsProtocol"
      ∷ "bmsPollIntervalMs" ∷ "bmsModbusSlaveId" ∷ "bmsModbusTcpHost" ∷ "bmsModbusTcpPort"
      ∷ "voltageLowWarn" ∷ "voltageLowCritical" ∷ "voltageHighWarn" ∷ "voltageHighCritical"
      ∷ "currentHighWarn" ∷ "currentHighCritical" ∷ "temperatureHighWarn"
      ∷ "temperatureHighCritical" ∷ "humidityHighWarn" ∷ "socLowWarn" ∷ "socLowCritical" ∷ [])
    ∷ entry "config" "password" ("current" ∷ "next" ∷ [])
    ∷ entry "config" "device" ("deviceName" ∷ "siteName" ∷ "timezone" ∷ [])
    ∷ entry "calibration" "update" (
        "version" ∷ "voltageLow" ∷ "voltageNominal" ∷ "voltageFull" ∷ "acs712Offset"
        ∷ "acs712Sensitivity" ∷ "sht31TempOffset" ∷ "sht31HumOffset" ∷ "source" ∷ [])
    ∷ entry "calibration" "point" ("which" ∷ "reference" ∷ "raw" ∷ [])
    ∷ entry "calibration" "acs712_zero" ("capture" ∷ "offset" ∷ [])
    ∷ entry "alarm" "acknowledge" ("code" ∷ [])
    ∷ entry "alarm" "acknowledgeAll" ([])
    ∷ entry "ota" "start" ("url" ∷ "version" ∷ "size" ∷ "sha256" ∷ "signature" ∷ "target" ∷ [])
    ∷ entry "ota" "check" ("url" ∷ "version" ∷ [])
    ∷ entry "system" "reboot" ([])
    ∷ entry "system" "factory_reset_prepare" ([])
    ∷ entry "system" "factory_reset_confirm" ("token" ∷ [])
    ∷ entry "relay" "on" ("channel" ∷ "source" ∷ [])
    ∷ entry "relay" "off" ("channel" ∷ "source" ∷ [])
    ∷ entry "relay" "pulse" ("channel" ∷ "durationMs" ∷ "source" ∷ [])
    ∷ entry "relay" "all_off" ([])
    ∷ entry "relay" "config" (
        "channel" ∷ "name" ∷ "maxOnTimeSec" ∷ "minOnTimeSec" ∷ "minOffTimeSec"
        ∷ "minSwitchIntervalSec" ∷ "enabled" ∷ "interlockGroup" ∷ [])
    ∷ entry "relay" "acknowledge" ("channel" ∷ [])
    ∷ entry "relay" "clear" ("channel" ∷ [])
    ∷ []
