-- ===== src/Format/Typing.antt =====
-- Which values a part of a format carries without loss: numbers in the range of their code, ASCII
-- characters, texts that fit and hold no NUL, tuples of the counted length.
use lufthansa.Base.{ℕ, ◌/◌, ◌^◌, ◌≤◌, ◌<◌, ◌≡◌, List, [], ◌∷◌, length, All, pos, negsuc}
use lufthansa.Format.{
  Code, ch, str, u8, i8, u16, i16, u32, i32, u64, i64, f32, flag, Token, one, many, Form, Scalar,
  int, boolean, char, real, Value, scalar, tuple, text,
}

abbrev pub InUnsigned : ℕ → Scalar → Type 0
InUnsigned w (int (pos n)) = n < 256 ^ w
InUnsigned w _ = ⊥

abbrev pub InSigned : ℕ → Scalar → Type 0
InSigned w (int (pos n)) = n < 256 ^ w / 2
InSigned w (int (negsuc n)) = n < 256 ^ w / 2
InSigned w _ = ⊥

abbrev pub Fits : Code → Scalar → Type 0
Fits u8 x = InUnsigned 1 x
Fits u16 x = InUnsigned 2 x
Fits u32 x = InUnsigned 4 x
Fits u64 x = InUnsigned 8 x
Fits i8 x = InSigned 1 x
Fits i16 x = InSigned 2 x
Fits i32 x = InSigned 4 x
Fits i64 x = InSigned 8 x
Fits flag (boolean v) = Unit
Fits f32 (real w) = w < 256 ^ 4
Fits ch (char x) = x < 128
Fits _ _ = ⊥

abbrev pub IsTextByte : ℕ → Type 0
IsTextByte x = (1 ≤ x) × (x < 128)

abbrev pub HasType : Token → Value → Type 0
HasType (many n str) (text t) = (length t ≤ n) × All IsTextByte t
HasType (many n str) _ = ⊥
HasType (many n k) (tuple xs) = (2 ≤ n) × (n ≡ length xs) × All (Fits k) xs
HasType (one k) (scalar x) = Fits k x
HasType _ _ = ⊥

-- Part by part.
abbrev pub HasTypes : Form → List Value → Type 0
HasTypes [] [] = Unit
HasTypes (t ∷ ts) (v ∷ vs) = HasType t v × HasTypes ts vs
HasTypes _ _ = ⊥
