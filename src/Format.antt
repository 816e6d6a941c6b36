-- ===== src/Format.antt =====
-- The payload formats of scripts/tinkerforge/ip_connection.py: the loop of `send_request` that packs
-- the arguments, and `deserialize_data`, with what they use of Python's `struct` module.
-- A format text such as 'c 3B 8s' is the list of its parts, split at the blanks. A part is a code
-- (`one`) or a count and a code (`many`). The code is read as Python 3 runs it. A `str` is the list
-- of its code points, and a float is carried as the 32 bits that stand for it.
pub mod Pack
pub mod Unpack
pub mod Typing
pub mod RoundTrip
use lufthansa.Base.{ℕ, zero, suc, ◌+◌, ◌*◌, List, [], ◌∷◌, Bool, ℤ}

-- The codes 'c', 's', 'B', 'b', 'H', 'h', 'I', 'i', 'Q', 'q', 'f' and '?'.
pub data Code : Type 0 where
  ch str u8 i8 u16 i16 u32 i32 u64 i64 f32 flag : Code

pub data Token : Type 0 where
  one : Code → Token
  many : ℕ → Code → Token

abbrev pub Form : Type 0
Form = List Token

-- What one element of a packed tuple is in Python.
pub data Scalar : Type 0 where
  int : ℤ → Scalar
  boolean : Bool → Scalar
  char : ℕ → Scalar
  real : ℕ → Scalar

-- An argument or a result: one element, a tuple or list of them, or a text.
pub data Value : Type 0 where
  scalar : Scalar → Value
  tuple : List Scalar → Value
  text : List ℕ → Value

unfoldable pub size : Code → ℕ
size u16 = 2
size i16 = 2
size u32 = 4
size i32 = 4
size f32 = 4
size u64 = 8
size i64 = 8
size _ = 1

-- struct.calcsize('<' + part)
unfoldable pub token_size : Token → ℕ
unfolding size
token_size (one k) = size k
token_size (many n k) = n * size k

-- struct.calcsize('<' + form); `struct` skips the blanks.
unfoldable pub calcsize : Form → ℕ
unfolding token_size
calcsize [] = 0
calcsize (t ∷ ts) = token_size t + calcsize ts
