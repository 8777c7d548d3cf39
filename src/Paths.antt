-- ===== src/Paths.antt =====
-- internal/security/security.go: which paths a tool may read and write. The file system is an
-- argument: the home directory, filepath.Abs, filepath.EvalSymlinks and filepath.Join.
pub mod Safe
mod Tests
use Prim.Native.Char.{code}
use Prim.Native.String.{[] as empty, ◌∷◌ as char}
use better_telegram_mcp.Base.{
  ℕ, ◌≡◌, Bool, true, false, not, ◌&&◌, ◌||◌, Option, none, some, List, [], ◌∷◌, ◌++◌, String, ◌==◌,
  if◌then◌else◌,
}
use better_telegram_mcp.Base.Text.{str_eq, starts_with}
use better_telegram_mcp.Base.Result.{Result, ok, err}

pub record FileSystem : Type 0 where
  pub home : Option String
  pub abs : String → Option String
  pub eval_symlinks : String → Option String
  pub join : String → String → String

-- Why a path is refused: an error of the system, the directory it lies in, or its hidden part.
pub data PathError : Type 0 where
  no_home : PathError
  invalid_path : PathError
  blocked : String → PathError
  hidden : String → PathError

-- blockedReadPrefixes
abbrev pub blocked_read_prefixes : List String
blocked_read_prefixes = "/etc" ∷ "/proc" ∷ "/sys" ∷ "/dev" ∷ "/var/run" ∷ "/var/log" ∷ "/root" ∷ []

-- blockedWritePrefixes
abbrev pub blocked_write_prefixes : List String
blocked_write_prefixes =
    "/etc" ∷ "/proc" ∷ "/sys" ∷ "/dev" ∷ "/var/run" ∷ "/var/log" ∷ "/var/spool" ∷ "/root" ∷ "/usr"
    ∷ "/bin" ∷ "/sbin" ∷ "/boot" ∷ "/lib" ∷ []

-- `path == blocked || strings.HasPrefix(path, blocked+"/")`
unfoldable pub is_within : String → String → Bool
is_within path dir =
    str_eq path dir || starts_with path (Prim.Native.String.◌++◌ dir (char "/" empty))

-- the candidates of underBlockedPrefix for one prefix
unfoldable pub spellings : String → Option String → List String
spellings prefix none = prefix ∷ []
spellings prefix (some real) = if str_eq real prefix then prefix ∷ [] else prefix ∷ real ∷ []

unfoldable pub within_any : String → List String → Bool
unfolding is_within
within_any path [] = false
within_any path (dir ∷ dirs) = is_within path dir || within_any path dirs

-- underBlockedPrefix; `none` is the empty answer
unfoldable pub under_blocked_prefix : FileSystem → String → List String → Option String
unfolding within_any spellings
under_blocked_prefix fs path [] = none
under_blocked_prefix fs path (prefix ∷ prefixes) =
    if within_any path (spellings prefix (fs.eval_symlinks prefix))
    then some prefix
    else under_blocked_prefix fs path prefixes

-- strings.Split(path, "/"), with the part that is being read
unfoldable pub split_path : String → String → List String
split_path part empty = part ∷ []
split_path part (char c s) =
    let closed = part ∷ split_path empty s in
    let longer = split_path (Prim.Native.String.◌++◌ part (char c empty)) s in
    if code c == b'/' then closed else longer

-- A part that begins with a dot and is more than a way up or a way to stay.
unfoldable pub is_hidden : String → Bool
is_hidden part = not (str_eq part "" || str_eq part "." || str_eq part "..") && starts_with part "."

unfoldable pub first_hidden : List String → Option String
unfolding is_hidden
first_hidden [] = none
first_hidden (part ∷ parts) = if is_hidden part then some part else first_hidden parts

-- hiddenComponent
unfoldable pub hidden_component : String → Option String
unfolding first_hidden split_path
hidden_component path = first_hidden (split_path empty path)

-- path[2:]
after_tilde : String → String
after_tilde (char a (char b s)) = s
after_tilde s = empty

-- expandUser
unfoldable pub expand_user : FileSystem → String → Result PathError String
unfolding after_tilde
expand_user fs path =
    if not (str_eq path "~") && not (starts_with path "~/") then ok path else elim fs.home [
      | none ↦ err no_home
      | some home ↦ if str_eq path "~" then ok home else ok (fs.join home (after_tilde path))
    ]

-- the loop over `candidate`
unfoldable pub first_blocked : FileSystem → List String → List String → Option String
unfolding under_blocked_prefix
first_blocked fs [] prefixes = none
first_blocked fs (candidate ∷ candidates) prefixes =
    elim (under_blocked_prefix fs candidate prefixes) [
      | some dir ↦ some dir
      | none ↦ first_blocked fs candidates prefixes
    ]

-- The real path, or the absolute one where there is none yet.
unfoldable pub resolve : FileSystem → String → String
resolve fs abs = elim (fs.eval_symlinks abs) [ none ↦ abs | some real ↦ real ]

-- validatePath, once the path is absolute
unfoldable pub check_path : FileSystem → String → String → List String → Result PathError String
unfolding resolve first_blocked hidden_component
check_path fs abs expanded prefixes =
    let resolved = resolve fs abs in
    elim (first_blocked fs (resolved ∷ abs ∷ expanded ∷ []) prefixes) [
      | some dir ↦ err (blocked dir)
      | none ↦ elim (hidden_component resolved) [
        | some part ↦ err (hidden part)
        | none ↦ ok resolved
      ]
    ]

-- validatePath
unfoldable pub validate_path : FileSystem → String → List String → Result PathError String
unfolding expand_user
validate_path fs path prefixes = elim (expand_user fs path) [
  | err e ↦ err e
  | ok expanded ↦ elim (fs.abs expanded) [
    | none ↦ err invalid_path
    | some abs ↦ check_path fs abs expanded prefixes
  ]
]

-- ValidateFilePath
unfoldable pub validate_file_path : FileSystem → String → Result PathError String
validate_file_path fs path = validate_path fs path blocked_read_prefixes

-- ValidateOutputDir
unfoldable pub validate_output_dir : FileSystem → String → Result PathError String
validate_output_dir fs path = validate_path fs path blocked_write_prefixes
