-- ===== src/Bindings/Devices.antt =====
-- The device classes.
pub mod LedStrip
pub mod Rs232
pub mod Io16
pub mod Gps
pub mod NfcRfid
pub mod Lcd20x4
pub mod DualButton
pub mod DualRelay
pub mod Barometer
pub mod RemoteSwitch
pub mod TemperatureIr
pub mod Dc
pub mod BrickImu
pub mod BrickImuV2
pub mod BrickMaster
pub mod BrickRed
pub mod BrickServo
pub mod BrickStepper
pub mod Accelerometer
pub mod AmbientLight
pub mod AmbientLightV2
pub mod AnalogIn
pub mod AnalogInV2
pub mod AnalogOut
pub mod AnalogOutV2
pub mod Color
pub mod Current12
pub mod Current25
pub mod DistanceIr
pub mod DistanceUs
pub mod DustDetector
pub mod HallEffect
pub mod Humidity
pub mod IndustrialAnalogOut
pub mod IndustrialDigitalIn4
pub mod IndustrialDigitalOut4
pub mod IndustrialDual020ma
pub mod IndustrialDualAnalogIn
pub mod IndustrialQuadRelay
pub mod Io4
pub mod Joystick
pub mod LaserRangeFinder
pub mod Lcd16x2
pub mod Line
pub mod LinearPoti
pub mod LoadCell
pub mod Moisture
pub mod MotionDetector
pub mod MultiTouch
pub mod PiezoBuzzer
pub mod PiezoSpeaker
pub mod Ptc
pub mod RotaryEncoder
pub mod RotaryPoti
pub mod SegmentDisplay4x7
pub mod SolidStateRelay
pub mod SoundIntensity
pub mod Temperature
pub mod Tilt
pub mod Voltage
pub mod VoltageCurrent
use lufthansa.Base.{List, [], ◌∷◌}
use lufthansa.Bindings.Class.{Binding}

abbrev pub bindings : List Binding
bindings =
    LedStrip.binding ∷ Rs232.binding ∷ Io16.binding ∷ Gps.binding ∷ NfcRfid.binding
    ∷ Lcd20x4.binding ∷ DualButton.binding ∷ DualRelay.binding ∷ Barometer.binding
    ∷ RemoteSwitch.binding ∷ TemperatureIr.binding ∷ Dc.binding ∷ BrickImu.binding
    ∷ BrickImuV2.binding ∷ BrickMaster.binding ∷ BrickRed.binding ∷ BrickServo.binding
    ∷ BrickStepper.binding ∷ Accelerometer.binding ∷ AmbientLight.binding ∷ AmbientLightV2.binding
    ∷ AnalogIn.binding ∷ AnalogInV2.binding ∷ AnalogOut.binding ∷ AnalogOutV2.binding
    ∷ Color.binding ∷ Current12.binding ∷ Current25.binding ∷ DistanceIr.binding
    ∷ DistanceUs.binding ∷ DustDetector.binding ∷ HallEffect.binding ∷ Humidity.binding
    ∷ IndustrialAnalogOut.binding ∷ IndustrialDigitalIn4.binding ∷ IndustrialDigitalOut4.binding
    ∷ IndustrialDual020ma.binding ∷ IndustrialDualAnalogIn.binding ∷ IndustrialQuadRelay.binding
    ∷ Io4.binding ∷ Joystick.binding ∷ LaserRangeFinder.binding ∷ Lcd16x2.binding ∷ Line.binding
    ∷ LinearPoti.binding ∷ LoadCell.binding ∷ Moisture.binding ∷ MotionDetector.binding
    ∷ MultiTouch.binding ∷ PiezoBuzzer.binding ∷ PiezoSpeaker.binding ∷ Ptc.binding
    ∷ RotaryEncoder.binding ∷ RotaryPoti.binding ∷ SegmentDisplay4x7.binding
    ∷ SolidStateRelay.binding ∷ SoundIntensity.binding ∷ Temperature.binding ∷ Tilt.binding
    ∷ Voltage.binding ∷ VoltageCurrent.binding ∷ []
