-- ===== src/Process/Launcher.antt =====
-- The command that a process is launched with: mcproc/src/daemon/process/launcher.rs and
-- mcproc/src/daemon/process/toolchain.rs.
pub mod Quoting
use mcproc.Prelude.{
  ℕ, zero, suc, ◌+◌, ◌≡◌, Bool, true, false, not, ◌&&◌, ◌||◌, List, [], ◌∷◌, ◌++◌, map, Option,
  none, some, leb, ◌==◌, if◌then◌else◌, is_empty, any, all, find, length, Text, codes, text_eq,
  contains, replace, intercalate, strip_prefix, parse_nat, u16_max, Dict, lookup,
}
use mcproc.Process.Proxy
use mcproc.Process.Proxy.{ProxyInfo, ProxyInfoParams}

-- The bytes that need no quotes: letters and digits of ASCII, and `_@%+=:,./-`.
unfoldable pub is_alphanumeric : ℕ → Bool
is_alphanumeric c =
    (leb b'0' c && leb c b'9') || (leb b'A' c && leb c b'Z') || (leb b'a' c && leb c b'z')

unfoldable pub is_plain : ℕ → Bool
unfolding is_alphanumeric
is_plain c = is_alphanumeric c || contains c (codes "_@%+=:,./-")

-- `arg.replace('\'', "'\\''")`
unfoldable pub escape : Text → Text
unfolding replace
escape s = replace b'\'' (codes "'\\''") s

unfoldable pub quote_arg : Text → Text
unfolding is_plain escape
quote_arg arg =
    if not (is_empty arg) && all is_plain arg then arg else b'\'' ∷ escape arg ++ b'\'' ∷ []

unfoldable pub shell_quote_args : List Text → Text
unfolding quote_arg intercalate
shell_quote_args args = intercalate b' ' (map quote_arg args)

pub record Toolchain : Type 0 where
  pub name : Text
  pub command_template : Text
  pub display_template : Text

-- A toolchain whose templates are `<prefix> sh -c '{cmd}'`.
shell_template : Text → Text → Toolchain
shell_template name prefix = record {
  name = name;
  command_template = prefix ++ codes " sh -c '{cmd}'";
  display_template = prefix ++ codes " sh -c '{cmd}'";
}

-- `Toolchain::ALL`
unfoldable pub toolchains : List Toolchain
unfolding shell_template
toolchains =
    shell_template (codes "mise") (codes "mise exec --")
    ∷ shell_template (codes "asdf") (codes "asdf exec")
    ∷ record {
      name = codes "nvm";
      command_template = codes "bash -c 'source \"$NVM_DIR/nvm.sh\" && {cmd}'";
      display_template = codes "nvm (bash) -c '{cmd}'";
    }
    ∷ shell_template (codes "rbenv") (codes "rbenv exec")
    ∷ shell_template (codes "pyenv") (codes "pyenv exec")
    ∷ shell_template (codes "nodenv") (codes "nodenv exec")
    ∷ shell_template (codes "jenv") (codes "jenv exec")
    ∷ shell_template (codes "tfenv") (codes "tfenv exec")
    ∷ shell_template (codes "goenv") (codes "goenv exec")
    ∷ shell_template (codes "rustup") (codes "rustup run stable")
    ∷ []

-- `eq_ignore_ascii_case`
unfoldable pub to_lower : ℕ → ℕ
to_lower c = if leb b'A' c && leb c b'Z' then c + 32 else c

unfoldable pub parse_toolchain : Text → Option Toolchain
unfolding toolchains to_lower
parse_toolchain s = find (λ t. text_eq (map to_lower t.name) (map to_lower s)) toolchains

-- `template.replace("{cmd}", cmd)`, where what is put in is not looked at again.
unfoldable pub fill : ℕ → Text → Text → Text
fill zero cmd template = template
fill (suc n) cmd [] = []
fill (suc n) cmd (c ∷ s) =
    let rest = c ∷ fill n cmd s in
    elim (strip_prefix (codes "{cmd}") (c ∷ s)) [
      | none ↦ rest
      | some behind ↦ cmd ++ fill n cmd behind
    ]

-- `wrap_command`: the command to run, and the one to show.
unfoldable pub wrap_command : Toolchain → Text → Text × Text
unfolding escape fill
wrap_command t shell_command = (
  fill (length t.command_template) (escape shell_command) t.command_template,
  fill (length t.display_template) shell_command t.display_template,
)

-- The characters that ask for the shell to stay: a command without them replaces it.
unfoldable pub needs_shell : Text → Bool
needs_shell s = any (λ c. contains c s) (codes "|><&;$`*?[~")

pub data Command : Type 0 where
  command : (final description : Text) → Command
  no_command : Command
  unsupported_toolchain : Text → Command

unfoldable pub with_toolchain : Text → Option Toolchain → Text → Command
unfolding wrap_command
with_toolchain tool none shell_command = unsupported_toolchain tool
with_toolchain tool (some t) shell_command =
    let (final, description) = wrap_command t shell_command in
    command (codes "exec " ++ final) description

unfoldable pub final_command : Option Text → Text → Command
unfolding with_toolchain parse_toolchain needs_shell
final_command (some tool) shell_command = with_toolchain tool (parse_toolchain tool) shell_command
final_command none shell_command =
    let wrapped =
      if needs_shell shell_command then shell_command else codes "exec " ++ shell_command in
    command wrapped wrapped

-- The command of `launch_process`: the arguments are preferred to the text of a command.
unfoldable pub build_command : List Text → Option Text → Option Text → Command
unfolding final_command shell_quote_args
build_command (arg ∷ args) cmd toolchain = final_command toolchain (shell_quote_args (arg ∷ args))
build_command [] (some cmd) toolchain = final_command toolchain cmd
build_command [] none toolchain = no_command

port_of : Option (Dict Text) → Option ℕ
port_of none = none
port_of (some env) = elim (lookup (codes "PORT") env) [ none ↦ none | some p ↦ parse_nat u16_max p ]

-- `create_proxy_info`, with the identifier that `params` holds.
unfoldable pub create_proxy_info : ℕ → ProxyInfoParams → ProxyInfo
unfolding Proxy.new port_of
create_proxy_info now params = record (Proxy.new now params) { port = port_of params.env }
