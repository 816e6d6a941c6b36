-- ===== src/Bindings/Devices/NfcRfid.antt =====
-- scripts/tinkerforge/bricklet_nfc_rfid.py: class BrickletNFCRFID.
use lufthansa.Base.{[], ◌∷◌}
use lufthansa.Format.{ch, flag, str, u16, u8, one, many}
use lufthansa.State.{always_false, always_true, set_false}
use lufthansa.Bindings.Class.{Function, Binding, setter, getter, tuple_getter}

abbrev pub request_tag_id : Function
request_tag_id = setter 1 1 (one u8 ∷ [])

abbrev pub get_tag_id : Function
get_tag_id = tuple_getter 2 0 [] (one u8 ∷ one u8 ∷ many 7 u8 ∷ []) 3

abbrev pub get_state : Function
get_state = tuple_getter 3 0 [] (one u8 ∷ one flag ∷ []) 2

abbrev pub authenticate_mifare_classic_page : Function
authenticate_mifare_classic_page = setter 4 3 (one u16 ∷ one u8 ∷ many 6 u8 ∷ [])

abbrev pub write_page : Function
write_page = setter 5 2 (one u16 ∷ many 16 u8 ∷ [])

abbrev pub request_page : Function
request_page = setter 6 1 (one u16 ∷ [])

abbrev pub get_page : Function
get_page = getter 7 0 [] (many 16 u8 ∷ [])

abbrev pub get_identity : Function
get_identity =
    tuple_getter 255 0 [] (many 8 str ∷ many 8 str ∷ one ch ∷ many 3 u8 ∷ many 3 u8 ∷ one u16 ∷ [])
      6

-- The constructor and the methods.
abbrev pub binding : Binding
binding = record {
  api_version = (2, 0, 0);
  flags =
      (1, set_false)
      ∷ (2, always_true)
      ∷ (3, always_true)
      ∷ (4, set_false)
      ∷ (5, set_false)
      ∷ (6, set_false)
      ∷ (7, always_true)
      ∷ (8, always_false)
      ∷ (255, always_true)
      ∷ [];
  formats = (8, one u8 ∷ one flag ∷ []) ∷ [];
  functions =
      request_tag_id ∷ get_tag_id ∷ get_state ∷ authenticate_mifare_classic_page ∷ write_page
      ∷ request_page ∷ get_page ∷ get_identity ∷ [];
}
