-- ===== src/Tests/Programs.antt =====
-- Runs of the scripts, and of the text of a uid.
use lufthansa.Base.{
  ℕ, ◌^◌, ◌<◌, ◌≡◌, refl, List, [], ◌∷◌, ◌++◌, map, true, some, codes, drop, pos, ok,
}
use lufthansa.Base58.{base58decode, column_of}
use lufthansa.Base58.Place.{place, base58decode-place}
use lufthansa.State.{World}
use lufthansa.Device.{init}
use lufthansa.Device.Identity.{init-uid}
use lufthansa.Scripts.{parse_position, int_argument}
use lufthansa.Scripts.Number.{int_of, item}
use lufthansa.Scripts.Led
use lufthansa.Scripts.Led.Shown.{clears, lit, Found}
use lufthansa.Scripts.Led.Program.{Runs, main-Runs}
use lufthansa.Scripts.Spot
use lufthansa.Tests.Fixture.{online}

-- The socket takes every packet, and nothing arrives.
abbrev silent : World
silent s = (true, [])

-- python led.py 1 01-A 02-B
abbrev command : List (List ℕ)
command = codes "led.py" ∷ codes "1" ∷ codes "01-A" ∷ codes "02-B" ∷ []

positions : Found (drop 2 command) (58 ∷ 18 ∷ [])
unfolding parse_position
positions = (refl, (refl, tt))

state_read : int_argument command 1 ≡ ok (pos 1)
unfolding int_of item
state_read = refl

main-Runs_example : Runs 7 silent command (clears 20 0 ++ map (lit (pos 1)) (58 ∷ 18 ∷ []))
main-Runs_example =
    main-Runs 7 silent command (pos 1) (58 ∷ 18 ∷ []) (λ s. refl) state_read refl positions

init-uid_example :
    let t = (init (codes "oV7") online).1 in
    ((t.objects 1).uid < 2 ^ 32) × (t.devices (t.objects 1).uid ≡ some 1)
unfolding init base58decode
init-uid_example = init-uid (codes "oV7") 1 online refl

base58decode-place_example : base58decode (codes "oV7") ≡ ok (place (22 ∷ 53 ∷ 6 ∷ []))
unfolding column_of
base58decode-place_example =
    base58decode-place (codes "oV7") (22 ∷ 53 ∷ 6 ∷ []) (refl, (refl, (refl, tt)))

-- Row 0 is the last one of its column: the index is -1.
row_zero : parse_position Led.loc_list (codes "00-A") ≡ ok 40
unfolding parse_position
row_zero = refl

-- The scripts b.py and led.py differ in their tables.
spot_table : parse_position Spot.loc_list (codes "09-B") ≡ ok 85
unfolding parse_position
spot_table = refl
