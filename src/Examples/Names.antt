-- ===== src/Examples/Names.antt =====
-- Names and keys (mcproc/src/common/validation.rs, mcproc/src/common/process_key.rs).
use mathlib.Core.List.{Memᴰ}
use mcproc.Prelude.{
  ◌≡◌, ◌≢◌, ◌↔◌, refl, [], ◌∷◌, none, some, Text, codes, ◌++◌, replicate, text_eq, is_whitespace,
  is_control, len_utf8, trim, trim_start, trim_end, cons_unless_blank, split, replace,
}
use mcproc.Names.Validation.{
  Verdict, empty, dots, separator, invalid_char, whitespace, control, too_long, reserved,
  validate_project_name, validate_process_name, is_dots, has_separator, find_invalid, is_padded,
  has_control, is_reserved, to_uppercase, max_process_len, max_project_len, windows_reserved,
}
use mcproc.Names.Accepts.{IsName, validate_process_name-IsName, validate_project_name-IsName}
use mcproc.Names.ProcessKey.{ProcessKey, new, parse, two_parts, as_str}
use mcproc.Names.Keys.{
  base, IsValidKey, parse-as_str, as_str-parse, log_path_layout, log_path_injective,
}
use mcproc.Log.Sources.{
  IsSource, additional_names, resolve_log_sources, resolve_log_sources-IsSource,
}
use mcproc.Names.LogPath.{is_absolute, needs_separator, join, get_log_file_path_for_key}

project_verdict : Text → Verdict
unfolding validate_project_name is_dots has_separator find_invalid is_padded has_control is_reserved
    text_eq trim trim_start trim_end cons_unless_blank is_whitespace is_control len_utf8
    to_uppercase
project_verdict = validate_project_name

process_verdict : Text → Verdict
unfolding project_verdict validate_process_name
process_verdict = validate_process_name

accepts_project : project_verdict (codes "project_123") ≡ none
unfolding project_verdict
accepts_project = refl

refuses_project :
    (project_verdict [] ≡ some empty)
    × (project_verdict (codes "..") ≡ some dots)
    × (project_verdict (codes "my\\project") ≡ some separator)
    × (project_verdict (codes "my?project") ≡ some (invalid_char b'?'))
    × (project_verdict (codes "project ") ≡ some whitespace)
    × (project_verdict (codes "my\nproject") ≡ some control)
    × (project_verdict (replicate 256 b'a') ≡ some too_long)
    × (project_verdict (codes "con") ≡ some reserved)
unfolding project_verdict
refuses_project = (refl, refl, refl, refl, refl, refl, refl, refl)

longest_names :
    (project_verdict (replicate 255 b'a') ≡ none) × (process_verdict (replicate 100 b'a') ≡ none)
unfolding process_verdict
longest_names = (refl, refl)

abbrev web : ProcessKey
web = new (codes "shop") (codes "web")

web_IsValid : IsValidKey web
unfolding process_verdict
web_IsValid = (refl, refl)

parse-as_str_example : parse (as_str web) ≡ some web
parse-as_str_example = parse-as_str web web_IsValid

as_str-parse_example : as_str web ≡ codes "shop/web"
unfolding parse split two_parts
as_str-parse_example = as_str-parse (codes "shop/web") web refl

log_path_layout_example :
    get_log_file_path_for_key (codes "/run/log") web
    ≡ base (codes "/run/log") ++ (codes "shop" ++ b'/' ∷ (codes "web" ++ codes ".log"))
log_path_layout_example = log_path_layout (codes "/run/log") web web_IsValid

log_path_injective_example : web ≡ web
log_path_injective_example =
    log_path_injective (codes "/run/log") web web web_IsValid web_IsValid refl

log_path_run : get_log_file_path_for_key (codes "/run/log") web ≡ codes "/run/log/shop/web.log"
unfolding get_log_file_path_for_key replace is_absolute needs_separator
log_path_run = refl

-- A project name that nothing has checked replaces the log directory.
absolute_project : join (codes "/run/log") (codes "/var/log") ≡ codes "/var/log"
unfolding join
absolute_project = refl

validate_process_name-IsName_example :
    (validate_process_name (codes "web") ≡ none) ↔ IsName max_process_len (codes "web")
validate_process_name-IsName_example = validate_process_name-IsName (codes "web")

validate_project_name-IsName_example : (validate_project_name (codes "con") ≡ none) ↔ (
    IsName max_project_len (codes "con")
    × ((r : Text) → Memᴰ r windows_reserved → to_uppercase (codes "con") ≢ r))
validate_project_name-IsName_example = validate_project_name-IsName (codes "con")

abbrev web_log : ProcessKey
web_log = new (codes "shop") (codes "web")

resolve_log_sources-IsSource_example :
    (validate_project_name (codes "shop") ≡ none)
    × IsSource (codes "shop") (additional_names [] (codes "web" ∷ codes "a/b" ∷ [])) [] web_log
unfolding resolve_log_sources validate_process_name validate_project_name is_dots has_separator
    find_invalid is_padded has_control is_reserved text_eq trim trim_start trim_end
    cons_unless_blank is_whitespace is_control len_utf8 to_uppercase
resolve_log_sources-IsSource_example =
    resolve_log_sources-IsSource (codes "shop") [] [] (codes "web" ∷ codes "a/b" ∷ [])
      (web_log ∷ []) web_log refl (Memᴰ.head refl)
