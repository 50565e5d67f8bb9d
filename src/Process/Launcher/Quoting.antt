-- ===== src/Process/Launcher/Quoting.antt =====
-- What a shell makes of quoted arguments (`shell_quote_args` of mcproc/src/daemon/process/launcher.rs).
use mcproc.Prelude.{
  Option, none, some, codes, contains, ℕ, List, [], ◌∷◌, ◌==◌, if◌then◌else◌, Text,
}

pub data Mode : Type 0 where
  bare quoted escaped : Mode

-- The words of a line, none for a line that is more than words.
abbrev pub Words : Type 0
Words = Option (List Text)

-- A character in front of the first word.
abbrev pub onto : ℕ → Words → Words
onto c none = none
onto c (some []) = some ((c ∷ []) ∷ [])
onto c (some (w ∷ ws)) = some ((c ∷ w) ∷ ws)

-- An empty word in front.
abbrev pub begin : Words → Words
begin none = none
begin (some ws) = some ([] ∷ ws)

-- The characters that are more than themselves where no quotes are: operators, expansions, patterns,
-- comments and the other blanks.
abbrev pub specials : Text
specials = b'"' ∷ b'\n' ∷ b'\t' ∷ codes "|&;<>()$`*?[]#~!{}^"

-- The words of a line by the rules of POSIX (Shell Command Language, 2.2.1 and 2.2.2): blanks part
-- words, a backslash quotes the next character, and single quotes all characters up to the next one. A
-- special character outside quotes, and a quote that is not closed, are no words. That a first word with an
-- equals sign is an assignment comes behind the parting of a line and is left out.
unfoldable pub words : Mode → Text → Words
words bare [] = some ([] ∷ [])
words quoted [] = none
words escaped [] = none
words escaped (c ∷ s) = onto c (words bare s)
words quoted (c ∷ s) =
    let out = words bare s in let more = onto c (words quoted s) in if c == b'\'' then out else more
words bare (c ∷ s) =
    let next = begin (words bare s) in
    let quote = words quoted s in
    let slash = words escaped s in
    let more = onto c (words bare s) in
    if c == b' '
    then next
    else if c == b'\''
    then quote
    else if c == b'\\'
    then slash
    else if contains c specials
    then none
    else more

-- A text in front of the first word.
abbrev pub prefix : Text → Words → Words
prefix [] ws = ws
prefix (c ∷ t) ws = onto c (prefix t ws)
