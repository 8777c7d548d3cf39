-- ===== src/Paths/Tests.antt =====
-- Runs of the path checks, and their theorem at a concrete input.
use better_telegram_mcp.Base.{◌≡◌, refl, some, if◌then◌else◌}
use better_telegram_mcp.Base.Text.{str_eq}
use better_telegram_mcp.Base.Result.{ok, err}
use better_telegram_mcp.Paths.{
  FileSystem, blocked, hidden, blocked_read_prefixes, is_within, spellings, within_any,
  under_blocked_prefix, split_path, is_hidden, first_hidden, hidden_component, expand_user,
  first_blocked, resolve, check_path, validate_path, validate_file_path, validate_output_dir,
}
use better_telegram_mcp.Paths.Safe.{IsSafe, validate_path-IsSafe}

-- A file system where /tmp/link leads to /etc/passwd and nothing else is a link.
abbrev disk : FileSystem
disk = record {
  home = some "/home/me";
  abs = λ s. some s;
  eval_symlinks = λ s. if str_eq s "/tmp/link" then some "/etc/passwd" else some s;
  join = λ a b. Prim.Native.String.◌++◌ a (Prim.Native.String.◌++◌ "/" b);
}

plain : validate_file_path disk "~/cat.png" ≡ ok "/home/me/cat.png"
unfolding validate_file_path validate_path expand_user check_path resolve first_blocked
    under_blocked_prefix within_any is_within spellings hidden_component first_hidden split_path
    is_hidden
plain = refl

linked : validate_file_path disk "/tmp/link" ≡ err (blocked "/etc")
unfolding validate_file_path validate_path expand_user check_path resolve first_blocked
    under_blocked_prefix within_any is_within spellings hidden_component first_hidden split_path
    is_hidden
linked = refl

keys : validate_file_path disk "~/.ssh/id" ≡ err (hidden ".ssh")
unfolding validate_file_path validate_path expand_user check_path resolve first_blocked
    under_blocked_prefix within_any is_within spellings hidden_component first_hidden split_path
    is_hidden
keys = refl

decoy : validate_output_dir disk "/usr" ≡ err (blocked "/usr")
unfolding validate_output_dir validate_path expand_user check_path resolve first_blocked
    under_blocked_prefix within_any is_within spellings
decoy = refl

validate_path-IsSafe_example : IsSafe blocked_read_prefixes "/home/me/cat.png"
unfolding validate_file_path validate_path expand_user check_path resolve first_blocked
    under_blocked_prefix within_any is_within spellings hidden_component first_hidden split_path
    is_hidden
validate_path-IsSafe_example =
    validate_path-IsSafe disk "~/cat.png" blocked_read_prefixes "/home/me/cat.png" refl
