-- ===== src/Bindings/Class.antt =====
-- scripts/tinkerforge/brick_*.py and bricklet_*.py: the tables that make up a device class.
use lufthansa.Base.{ℕ, List, [], Option, none, some}
use lufthansa.Format.{Form}
use lufthansa.State.{Flag}

-- A method: its function id, how many arguments it takes, the format of the request, the format of
-- the result, and the number of fields if the result is put into a named tuple.
pub record Function : Type 0 where
  pub function_id : ℕ
  pub arity : ℕ
  pub form : Form
  pub form_ret : Form
  pub fields : Option ℕ

-- A class: api_version, the assignments to `response_expected` and to `callback_formats`, the
-- methods.
pub record Binding : Type 0 where
  pub api_version : ℕ × ℕ × ℕ
  pub flags : List (ℕ × Flag)
  pub formats : List (ℕ × Form)
  pub functions : List Function

-- A setter.
abbrev pub setter : ℕ → ℕ → Form → Function
setter id n form = record { function_id = id; arity = n; form = form; form_ret = []; fields = none }

-- A method that returns what `send_request` does.
abbrev pub getter : ℕ → ℕ → Form → Form → Function
getter id n form form_ret = record {
  function_id = id;
  arity = n;
  form = form;
  form_ret = form_ret;
  fields = none;
}

-- A method that returns a named tuple of the result.
abbrev pub tuple_getter : ℕ → ℕ → Form → Form → ℕ → Function
tuple_getter id n form form_ret fields = record {
  function_id = id;
  arity = n;
  form = form;
  form_ret = form_ret;
  fields = some fields;
}
