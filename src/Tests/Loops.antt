-- ===== src/Tests/Loops.antt =====
-- A call as a run of steps.
use lufthansa.Base.{[], ◌∷◌, true, refl}
use lufthansa.Lifecycle.Consistent.{IsConsistent}
use lufthansa.Bindings.{invoke}
use lufthansa.Bindings.Devices.LedStrip.{get_frame_duration}
use lufthansa.Steps.Run.{IsRun}
use lufthansa.Steps.Threads.{invoke-IsConsistent}
use lufthansa.Tests.Fixture.{online, some_ne}

invoke-IsConsistent_example :
    IsRun
      (invoke true ((1 ∷ 0 ∷ 0 ∷ 0 ∷ 10 ∷ 4 ∷ 24 ∷ 0 ∷ 50 ∷ 0 ∷ []) ∷ []) 0 get_frame_duration [])
    × IsConsistent
        (invoke true
          ((1 ∷ 0 ∷ 0 ∷ 0 ∷ 10 ∷ 4 ∷ 24 ∷ 0 ∷ 50 ∷ 0 ∷ []) ∷ [])
          0
          get_frame_duration
          []
          online).1
invoke-IsConsistent_example =
    invoke-IsConsistent true ((1 ∷ 0 ∷ 0 ∷ 0 ∷ 10 ∷ 4 ∷ 24 ∷ 0 ∷ 50 ∷ 0 ∷ []) ∷ []) 0
      get_frame_duration [] online (some_ne 0, some_ne 0, refl, refl)
