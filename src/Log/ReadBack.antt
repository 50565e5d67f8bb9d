-- ===== src/Log/ReadBack.antt =====
-- The lines of a log file as the daemon reads them: `next_line_lossy` of
-- mcproc/src/daemon/api/grpc/log_handlers.rs and the loops around it. `lossy` is
-- `String::from_utf8_lossy`, of the standard library.
pub mod Lines
pub mod Written
use mcproc.Prelude.{ℕ, zero, suc, List, [], ◌∷◌, Option, none, some, ◌==◌, if◌then◌else◌, Text}

-- `read_until(b'\n')`: the bytes up to the first newline, it included, and what is left.
unfoldable pub with_first : ℕ → Text × Text → Text × Text
with_first c (line, rest) = (c ∷ line, rest)

unfoldable pub read_until_newline : Text → Text × Text
unfolding with_first
read_until_newline [] = ([], [])
read_until_newline (c ∷ s) =
    let more = with_first c (read_until_newline s) in if c == b'\n' then (c ∷ [], s) else more

-- `if bytes.last() == Some(&c) { bytes.pop(); }`
unfoldable pub pop_last : ℕ → Text → Text
pop_last c [] = []
pop_last c (d ∷ []) = if d == c then [] else d ∷ []
pop_last c (d ∷ e ∷ s) = d ∷ pop_last c (e ∷ s)

unfoldable pub line_of : (Text → Text) → Text → Text
unfolding pop_last
line_of lossy bytes = lossy (pop_last b'\r' (pop_last b'\n' bytes))

-- The next line and what is left, or none at the end of the file.
unfoldable pub next_line : (Text → Text) → Text × Text → Option (Text × Text)
unfolding line_of
next_line lossy ([], rest) = none
next_line lossy (c ∷ s, rest) = some (line_of lossy (c ∷ s), rest)

unfoldable pub next_line_lossy : (Text → Text) → Text → Option (Text × Text)
unfolding next_line read_until_newline
next_line_lossy lossy file = next_line lossy (read_until_newline file)

unfoldable pub push_front : Text → Option (List Text) → Option (List Text)
push_front line none = none
push_front line (some lines) = some (line ∷ lines)

-- The lines that a `while let Some(line)` loop sees. `none`: the fuel ran out.
unfoldable pub read_lines : (Text → Text) → ℕ → Text → Option (List Text)
unfolding next_line_lossy push_front
read_lines lossy zero file = none
read_lines lossy (suc fuel) file = elim (next_line_lossy lossy file) [
  | none ↦ some []
  | some (line, rest) ↦ push_front line (read_lines lossy fuel rest)
]
