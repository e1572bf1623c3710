-- ===== src/Prelude/Text.antt =====
-- Texts as lists of bytes: those of the messages of the kernel and of the programs.
use Prim.Native.Char.{code}
use Prim.Native.String.{String}
use Prim.Native.Nat.{ℕ}
use mathlib.Core.List.{List, [], ◌∷◌, ◌++◌}

-- The bytes of an ASCII text.
abbrev pub codes : String → List ℕ
codes String.[] = []
codes (String.◌∷◌ c s) = code c ∷ codes s

-- With a NUL behind it, as a path.
abbrev pub path : String → List ℕ
path s = codes s ++ 0 ∷ []

-- With a line end behind it, as a message.
abbrev pub line : String → List ℕ
line s = codes s ++ 10 ∷ []

-- With a line end and a NUL behind it.
abbrev pub terminated_line : String → List ℕ
terminated_line s = codes s ++ 10 ∷ 0 ∷ []

-- With a carriage return and a line end behind it, as write_line of the kernel writes it.
abbrev pub written_line : String → List ℕ
written_line s = codes s ++ 13 ∷ 10 ∷ []
