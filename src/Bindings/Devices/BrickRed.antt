-- ===== src/Bindings/Devices/BrickRed.antt =====
-- scripts/tinkerforge/brick_red.py: class BrickRED.
use lufthansa.Base.{[], ◌∷◌}
use lufthansa.Format.{ch, flag, i64, str, u16, u32, u64, u8, one, many}
use lufthansa.State.{always_false, always_true, set_false}
use lufthansa.Bindings.Class.{Function, Binding, setter, getter, tuple_getter}

abbrev pub create_session : Function
create_session = tuple_getter 1 1 (one u32 ∷ []) (one u8 ∷ one u16 ∷ []) 2

abbrev pub expire_session : Function
expire_session = getter 2 1 (one u16 ∷ []) (one u8 ∷ [])

abbrev pub expire_session_unchecked : Function
expire_session_unchecked = setter 3 1 (one u16 ∷ [])

abbrev pub keep_session_alive : Function
keep_session_alive = getter 4 2 (one u16 ∷ one u32 ∷ []) (one u8 ∷ [])

abbrev pub release_object : Function
release_object = getter 5 2 (one u16 ∷ one u16 ∷ []) (one u8 ∷ [])

abbrev pub release_object_unchecked : Function
release_object_unchecked = setter 6 2 (one u16 ∷ one u16 ∷ [])

abbrev pub allocate_string : Function
allocate_string = tuple_getter 7 3 (one u32 ∷ many 58 str ∷ one u16 ∷ []) (one u8 ∷ one u16 ∷ []) 2

abbrev pub truncate_string : Function
truncate_string = getter 8 2 (one u16 ∷ one u32 ∷ []) (one u8 ∷ [])

abbrev pub get_string_length : Function
get_string_length = tuple_getter 9 1 (one u16 ∷ []) (one u8 ∷ one u32 ∷ []) 2

abbrev pub set_string_chunk : Function
set_string_chunk = getter 10 3 (one u16 ∷ one u32 ∷ many 58 str ∷ []) (one u8 ∷ [])

abbrev pub get_string_chunk : Function
get_string_chunk = tuple_getter 11 2 (one u16 ∷ one u32 ∷ []) (one u8 ∷ many 63 str ∷ []) 2

abbrev pub allocate_list : Function
allocate_list = tuple_getter 12 2 (one u16 ∷ one u16 ∷ []) (one u8 ∷ one u16 ∷ []) 2

abbrev pub get_list_length : Function
get_list_length = tuple_getter 13 1 (one u16 ∷ []) (one u8 ∷ one u16 ∷ []) 2

abbrev pub get_list_item : Function
get_list_item =
    tuple_getter 14 3 (one u16 ∷ one u16 ∷ one u16 ∷ []) (one u8 ∷ one u16 ∷ one u8 ∷ []) 3

abbrev pub append_to_list : Function
append_to_list = getter 15 2 (one u16 ∷ one u16 ∷ []) (one u8 ∷ [])

abbrev pub remove_from_list : Function
remove_from_list = getter 16 2 (one u16 ∷ one u16 ∷ []) (one u8 ∷ [])

abbrev pub open_file : Function
open_file =
    tuple_getter 17 6 (one u16 ∷ one u32 ∷ one u16 ∷ one u32 ∷ one u32 ∷ one u16 ∷ [])
      (one u8 ∷ one u16 ∷ []) 2

abbrev pub create_pipe : Function
create_pipe = tuple_getter 18 3 (one u32 ∷ one u64 ∷ one u16 ∷ []) (one u8 ∷ one u16 ∷ []) 2

abbrev pub get_file_info : Function
get_file_info =
    tuple_getter 19 2 (one u16 ∷ one u16 ∷ [])
      (one u8
        ∷ one u8
        ∷ one u16
        ∷ one u32
        ∷ one u16
        ∷ one u32
        ∷ one u32
        ∷ one u64
        ∷ one u64
        ∷ one u64
        ∷ one u64
        ∷ [])
      11

abbrev pub read_file : Function
read_file = tuple_getter 20 2 (one u16 ∷ one u8 ∷ []) (one u8 ∷ many 62 u8 ∷ one u8 ∷ []) 3

abbrev pub read_file_async : Function
read_file_async = setter 21 2 (one u16 ∷ one u64 ∷ [])

abbrev pub abort_async_file_read : Function
abort_async_file_read = getter 22 1 (one u16 ∷ []) (one u8 ∷ [])

abbrev pub write_file : Function
write_file = tuple_getter 23 3 (one u16 ∷ many 61 u8 ∷ one u8 ∷ []) (one u8 ∷ one u8 ∷ []) 2

abbrev pub write_file_unchecked : Function
write_file_unchecked = setter 24 3 (one u16 ∷ many 61 u8 ∷ one u8 ∷ [])

abbrev pub write_file_async : Function
write_file_async = setter 25 3 (one u16 ∷ many 61 u8 ∷ one u8 ∷ [])

abbrev pub set_file_position : Function
set_file_position = tuple_getter 26 3 (one u16 ∷ one i64 ∷ one u8 ∷ []) (one u8 ∷ one u64 ∷ []) 2

abbrev pub get_file_position : Function
get_file_position = tuple_getter 27 1 (one u16 ∷ []) (one u8 ∷ one u64 ∷ []) 2

abbrev pub set_file_events : Function
set_file_events = getter 28 2 (one u16 ∷ one u16 ∷ []) (one u8 ∷ [])

abbrev pub get_file_events : Function
get_file_events = tuple_getter 29 1 (one u16 ∷ []) (one u8 ∷ one u16 ∷ []) 2

abbrev pub open_directory : Function
open_directory = tuple_getter 33 2 (one u16 ∷ one u16 ∷ []) (one u8 ∷ one u16 ∷ []) 2

abbrev pub get_directory_name : Function
get_directory_name = tuple_getter 34 2 (one u16 ∷ one u16 ∷ []) (one u8 ∷ one u16 ∷ []) 2

abbrev pub get_next_directory_entry : Function
get_next_directory_entry =
    tuple_getter 35 2 (one u16 ∷ one u16 ∷ []) (one u8 ∷ one u16 ∷ one u8 ∷ []) 3

abbrev pub rewind_directory : Function
rewind_directory = getter 36 1 (one u16 ∷ []) (one u8 ∷ [])

abbrev pub create_directory : Function
create_directory = getter 37 5 (one u16 ∷ one u32 ∷ one u16 ∷ one u32 ∷ one u32 ∷ []) (one u8 ∷ [])

abbrev pub get_processes : Function
get_processes = tuple_getter 38 1 (one u16 ∷ []) (one u8 ∷ one u16 ∷ []) 2

abbrev pub spawn_process : Function
spawn_process =
    tuple_getter 39 10
      (one u16
        ∷ one u16
        ∷ one u16
        ∷ one u16
        ∷ one u32
        ∷ one u32
        ∷ one u16
        ∷ one u16
        ∷ one u16
        ∷ one u16
        ∷ [])
      (one u8 ∷ one u16 ∷ []) 2

abbrev pub kill_process : Function
kill_process = getter 40 2 (one u16 ∷ one u8 ∷ []) (one u8 ∷ [])

abbrev pub get_process_command : Function
get_process_command =
    tuple_getter 41 2 (one u16 ∷ one u16 ∷ []) (one u8 ∷ one u16 ∷ one u16 ∷ one u16 ∷ one u16 ∷ [])
      5

abbrev pub get_process_identity : Function
get_process_identity =
    tuple_getter 42 1 (one u16 ∷ []) (one u8 ∷ one u32 ∷ one u32 ∷ one u32 ∷ []) 4

abbrev pub get_process_stdio : Function
get_process_stdio =
    tuple_getter 43 2 (one u16 ∷ one u16 ∷ []) (one u8 ∷ one u16 ∷ one u16 ∷ one u16 ∷ []) 4

abbrev pub get_process_state : Function
get_process_state = tuple_getter 44 1 (one u16 ∷ []) (one u8 ∷ one u8 ∷ one u64 ∷ one u8 ∷ []) 4

abbrev pub get_programs : Function
get_programs = tuple_getter 46 1 (one u16 ∷ []) (one u8 ∷ one u16 ∷ []) 2

abbrev pub define_program : Function
define_program = tuple_getter 47 2 (one u16 ∷ one u16 ∷ []) (one u8 ∷ one u16 ∷ []) 2

abbrev pub purge_program : Function
purge_program = getter 48 2 (one u16 ∷ one u32 ∷ []) (one u8 ∷ [])

abbrev pub get_program_identifier : Function
get_program_identifier = tuple_getter 49 2 (one u16 ∷ one u16 ∷ []) (one u8 ∷ one u16 ∷ []) 2

abbrev pub get_program_root_directory : Function
get_program_root_directory = tuple_getter 50 2 (one u16 ∷ one u16 ∷ []) (one u8 ∷ one u16 ∷ []) 2

abbrev pub set_program_command : Function
set_program_command =
    getter 51 5 (one u16 ∷ one u16 ∷ one u16 ∷ one u16 ∷ one u16 ∷ []) (one u8 ∷ [])

abbrev pub get_program_command : Function
get_program_command =
    tuple_getter 52 2 (one u16 ∷ one u16 ∷ []) (one u8 ∷ one u16 ∷ one u16 ∷ one u16 ∷ one u16 ∷ [])
      5

abbrev pub set_program_stdio_redirection : Function
set_program_stdio_redirection =
    getter 53 7 (one u16 ∷ one u8 ∷ one u16 ∷ one u8 ∷ one u16 ∷ one u8 ∷ one u16 ∷ [])
      (one u8 ∷ [])

abbrev pub get_program_stdio_redirection : Function
get_program_stdio_redirection =
    tuple_getter 54 2 (one u16 ∷ one u16 ∷ [])
      (one u8 ∷ one u8 ∷ one u16 ∷ one u8 ∷ one u16 ∷ one u8 ∷ one u16 ∷ []) 7

abbrev pub set_program_schedule : Function
set_program_schedule =
    getter 55 5 (one u16 ∷ one u8 ∷ one flag ∷ one u32 ∷ one u16 ∷ []) (one u8 ∷ [])

abbrev pub get_program_schedule : Function
get_program_schedule =
    tuple_getter 56 2 (one u16 ∷ one u16 ∷ []) (one u8 ∷ one u8 ∷ one flag ∷ one u32 ∷ one u16 ∷ [])
      5

abbrev pub get_program_scheduler_state : Function
get_program_scheduler_state =
    tuple_getter 57 2 (one u16 ∷ one u16 ∷ []) (one u8 ∷ one u8 ∷ one u64 ∷ one u16 ∷ []) 4

abbrev pub continue_program_schedule : Function
continue_program_schedule = getter 58 1 (one u16 ∷ []) (one u8 ∷ [])

abbrev pub start_program : Function
start_program = getter 59 1 (one u16 ∷ []) (one u8 ∷ [])

abbrev pub get_last_spawned_program_process : Function
get_last_spawned_program_process =
    tuple_getter 60 2 (one u16 ∷ one u16 ∷ []) (one u8 ∷ one u16 ∷ one u64 ∷ []) 3

abbrev pub get_custom_program_option_names : Function
get_custom_program_option_names =
    tuple_getter 61 2 (one u16 ∷ one u16 ∷ []) (one u8 ∷ one u16 ∷ []) 2

abbrev pub set_custom_program_option_value : Function
set_custom_program_option_value = getter 62 3 (one u16 ∷ one u16 ∷ one u16 ∷ []) (one u8 ∷ [])

abbrev pub get_custom_program_option_value : Function
get_custom_program_option_value =
    tuple_getter 63 3 (one u16 ∷ one u16 ∷ one u16 ∷ []) (one u8 ∷ one u16 ∷ []) 2

abbrev pub remove_custom_program_option : Function
remove_custom_program_option = getter 64 2 (one u16 ∷ one u16 ∷ []) (one u8 ∷ [])

abbrev pub get_identity : Function
get_identity =
    tuple_getter 255 0 [] (many 8 str ∷ many 8 str ∷ one ch ∷ many 3 u8 ∷ many 3 u8 ∷ one u16 ∷ [])
      6

-- The constructor and the methods.
abbrev pub binding : Binding
binding = record {
  api_version = (2, 0, 0);
  flags =
      (1, always_true)
      ∷ (2, always_true)
      ∷ (3, set_false)
      ∷ (4, always_true)
      ∷ (5, always_true)
      ∷ (6, set_false)
      ∷ (7, always_true)
      ∷ (8, always_true)
      ∷ (9, always_true)
      ∷ (10, always_true)
      ∷ (11, always_true)
      ∷ (12, always_true)
      ∷ (13, always_true)
      ∷ (14, always_true)
      ∷ (15, always_true)
      ∷ (16, always_true)
      ∷ (17, always_true)
      ∷ (18, always_true)
      ∷ (19, always_true)
      ∷ (20, always_true)
      ∷ (21, set_false)
      ∷ (22, always_true)
      ∷ (23, always_true)
      ∷ (24, set_false)
      ∷ (25, set_false)
      ∷ (26, always_true)
      ∷ (27, always_true)
      ∷ (28, always_true)
      ∷ (29, always_true)
      ∷ (30, always_false)
      ∷ (31, always_false)
      ∷ (32, always_false)
      ∷ (33, always_true)
      ∷ (34, always_true)
      ∷ (35, always_true)
      ∷ (36, always_true)
      ∷ (37, always_true)
      ∷ (38, always_true)
      ∷ (39, always_true)
      ∷ (40, always_true)
      ∷ (41, always_true)
      ∷ (42, always_true)
      ∷ (43, always_true)
      ∷ (44, always_true)
      ∷ (45, always_false)
      ∷ (46, always_true)
      ∷ (47, always_true)
      ∷ (48, always_true)
      ∷ (49, always_true)
      ∷ (50, always_true)
      ∷ (51, always_true)
      ∷ (52, always_true)
      ∷ (53, always_true)
      ∷ (54, always_true)
      ∷ (55, always_true)
      ∷ (56, always_true)
      ∷ (57, always_true)
      ∷ (58, always_true)
      ∷ (59, always_true)
      ∷ (60, always_true)
      ∷ (61, always_true)
      ∷ (62, always_true)
      ∷ (63, always_true)
      ∷ (64, always_true)
      ∷ (65, always_false)
      ∷ (66, always_false)
      ∷ (255, always_true)
      ∷ [];
  formats =
      (30, one u16 ∷ one u8 ∷ many 60 u8 ∷ one u8 ∷ [])
      ∷ (31, one u16 ∷ one u8 ∷ one u8 ∷ [])
      ∷ (32, one u16 ∷ one u16 ∷ [])
      ∷ (45, one u16 ∷ one u8 ∷ one u64 ∷ one u8 ∷ [])
      ∷ (65, one u16 ∷ [])
      ∷ (66, one u16 ∷ [])
      ∷ [];
  functions =
      create_session ∷ expire_session ∷ expire_session_unchecked ∷ keep_session_alive
      ∷ release_object ∷ release_object_unchecked ∷ allocate_string ∷ truncate_string
      ∷ get_string_length ∷ set_string_chunk ∷ get_string_chunk ∷ allocate_list ∷ get_list_length
      ∷ get_list_item ∷ append_to_list ∷ remove_from_list ∷ open_file ∷ create_pipe ∷ get_file_info
      ∷ read_file ∷ read_file_async ∷ abort_async_file_read ∷ write_file ∷ write_file_unchecked
      ∷ write_file_async ∷ set_file_position ∷ get_file_position ∷ set_file_events ∷ get_file_events
      ∷ open_directory ∷ get_directory_name ∷ get_next_directory_entry ∷ rewind_directory
      ∷ create_directory ∷ get_processes ∷ spawn_process ∷ kill_process ∷ get_process_command
      ∷ get_process_identity ∷ get_process_stdio ∷ get_process_state ∷ get_programs ∷ define_program
      ∷ purge_program ∷ get_program_identifier ∷ get_program_root_directory ∷ set_program_command
      ∷ get_program_command ∷ set_program_stdio_redirection ∷ get_program_stdio_redirection
      ∷ set_program_schedule ∷ get_program_schedule ∷ get_program_scheduler_state
      ∷ continue_program_schedule ∷ start_program ∷ get_last_spawned_program_process
      ∷ get_custom_program_option_names ∷ set_custom_program_option_value
      ∷ get_custom_program_option_value ∷ remove_custom_program_option ∷ get_identity ∷ [];
}
