-- ===== src/Toolset/Policies.antt =====
-- examples/coding-agent/server/internal/toolset/policy.go: which paths and commands the tools accept,
-- and the arguments of their calls.
use agentframe.Base.{
  ℕ, zero, suc, ◌+◌, String, Bool, true, false, ◌&&◌, not, Option, none, some, List, [], ◌∷◌, ◌==◌,
  if◌then◌else◌,
}
use agentframe.Base.Int.{ℤ, pos, nonpositive}
use agentframe.Base.Distinct.{member}
use agentframe.Agent.Value.{Any, text, AnyMap, nil_map, map_of, get_field}
use agentframe.Agent.Errors.{
  GoError, wrap, sentinel, message, fails, path_required, path_outside_workspace, argument_invalid,
  bash_command_empty, bash_command_denied,
}
use agentframe.Agent.Prog.{Prog, pure, on_error, ◌>>=◌}
use agentframe.Agent.Interfaces.{Host}

-- strings.Contains, strings.Fields, strings.HasPrefix, strings.Replace of the first occurrence, and
-- len of a text
pub record Texts : Type 0 where
  pub contains : String → String → Bool
  pub split_fields : String → List String
  pub has_prefix : String → String → Bool
  pub replace_first : String → String → String → String
  pub len : String → ℕ

pub record FileInfo : Type 0 where
  pub is_dir : Bool
  pub size : ℤ

-- path/filepath and os: the lexical functions, and those that look at the file system or change it
pub record Os (W : Type 0) : Type 0 where
  pub is_abs : String → Bool
  pub clean : String → String
  pub join_path : String → String → String
  pub dir : String → String
  pub rel : String → String → String × Option GoError
  pub is_not_exist : GoError → Bool
  pub abs : String → Prog W (String × Option GoError)
  pub eval_symlinks : String → Prog W (String × Option GoError)
  pub stat : String → Prog W (FileInfo × Option GoError)
  pub read_file : String → Prog W (String × Option GoError)
  pub write_file : String → String → Prog W (Option GoError)
  pub mkdir_all : String → Prog W (Option GoError)

abbrev pub default_bash_timeout : ℤ
default_bash_timeout = pos 3000000000

abbrev pub default_max_read_size : ℤ
default_max_read_size = pos 1048576

pub record Policy : Type 0 where
  pub workspace_root : String
  pub bash_timeout : ℤ
  pub max_read_size : ℤ

-- Policy{}
abbrev pub no_policy : Policy
no_policy = record { workspace_root = ""; bash_timeout = pos 0; max_read_size = pos 0 }

-- the keys of allowedBashCommands
abbrev pub allowed_bash_commands : List String
allowed_bash_commands =
    "cat" ∷ "echo" ∷ "find" ∷ "grep" ∷ "head" ∷ "ls" ∷ "pwd" ∷ "rg" ∷ "sed" ∷ "stat" ∷ "tail" ∷ "wc"
    ∷ "which" ∷ "printf" ∷ []

abbrev pub forbidden_tokens : List String
forbidden_tokens = "\n" ∷ "\r" ∷ ";" ∷ "&&" ∷ "||" ∷ "|" ∷ ">" ∷ "<" ∷ "`" ∷ "$" ∷ "(" ∷ ")" ∷ []

-- `value, err := …; if err != nil { return f(err) }`
abbrev pub on_failure : {A B : Type 0} → A × Option GoError → (GoError → B) → (A → B) → B
on_failure (a, some e) f k = f e
on_failure (a, none) f k = k a

-- stringArgument, of the value under the key
text_argument : (String → String) → Option Any → String × Option GoError
text_argument trim none = ("", fails argument_invalid "missing argument")
text_argument trim (some (text s)) =
    if trim s == "" then ("", fails argument_invalid "argument must not be empty") else (s, none)
text_argument trim (some _) = ("", fails argument_invalid "argument must be a string")

-- stringArgument; the first argument is strings.TrimSpace
unfoldable pub string_argument : (String → String) → AnyMap → String → String × Option GoError
unfolding text_argument
string_argument trim nil_map key = ("", fails argument_invalid "missing argument")
string_argument trim (map_of fs) key = text_argument trim (get_field key fs)

-- the loop over the forbidden tokens
forbidden_in : Texts → String → List String → Option GoError
forbidden_in texts command [] = none
forbidden_in texts command (t ∷ ts) =
    let rest = forbidden_in texts command ts in
    if texts.contains command t then fails bash_command_denied "forbidden token" else rest

check_verb : List String → Option GoError
check_verb [] = some (sentinel bash_command_empty)
check_verb (verb ∷ parts) =
    if member verb allowed_bash_commands
    then none
    else fails bash_command_denied "command is not allowed"

-- ValidateBashCommand
unfoldable pub validate_bash_command : (String → String) → Texts → String → Option GoError
unfolding forbidden_in check_verb
validate_bash_command trim texts command =
    if trim command == ""
    then some (sentinel bash_command_empty)
    else on_error (forbidden_in texts (trim command) forbidden_tokens) some
        (check_verb (texts.split_fields (trim command)))

-- hasPathPrefix, of the relative path
unfoldable pub is_inside : Texts → String × Option GoError → Bool
is_inside texts (rel, some e) = false
is_inside texts (rel, none) =
    if rel == "." then true else not (texts.has_prefix rel "..") && not (rel == "")

module _ {W : Type 0} (host : Host W) (texts : Texts) (os : Os W) where
  open host use {trim_space}

  -- hasPathPrefix
  unfoldable pub has_path_prefix : String → String → Bool
  unfolding is_inside
  has_path_prefix root candidate = is_inside texts (os.rel root candidate)

  judge_root : String → ℤ → FileInfo × Option GoError → Policy × Option GoError
  judge_root root timeout (info, some e) =
      (no_policy, some (wrap e "new tool policy: stat workspace root"))
  judge_root root timeout (info, none) =
      if not info.is_dir
      then (no_policy, some (message "new tool policy: workspace root is not a directory"))
      else (
        record {
          workspace_root = root;
          bash_timeout = if nonpositive timeout then default_bash_timeout else timeout;
          max_read_size = default_max_read_size;
        },
        none,
      )

  root_error : GoError → GoError
  root_error e =
      if os.is_not_exist e
      then message "new tool policy: workspace root does not exist"
      else wrap e "new tool policy: resolve workspace root symlinks"

  -- NewPolicy
  unfoldable pub new_policy : String → ℤ → Prog W (Policy × Option GoError)
  unfolding judge_root root_error
  new_policy workspace_root timeout =
      if trim_space workspace_root == ""
      then pure (no_policy, some (message "new tool policy: workspace root is required"))
      else (do
        a ← os.abs (trim_space workspace_root)
        on_failure a
            (λ e. pure (no_policy, some (wrap e "new tool policy: resolve workspace root")))
            (λ root_abs. do
              r ← os.eval_symlinks root_abs
              on_failure r (λ e. pure (no_policy, some (root_error e)))
                  (λ root. do info ← os.stat root; pure (judge_root root timeout info))))

  joined : String → String → String × Option GoError → String × Option GoError
  joined path resolved (rel, some e) = ("", some e)
  joined path resolved (rel, none) = (os.clean (os.join_path resolved rel), none)

  -- the loop of resolveExistingPrefix, over the parents of the path
  unfoldable pub resolve_from : ℕ → String → String → Prog W (String × Option GoError)
  unfolding joined
  resolve_from zero path current = pure (os.clean path, none)
  resolve_from (suc n) path current = do
    r ← os.eval_symlinks current
    on_failure r
        (λ e.
          if not (os.is_not_exist e)
          then pure ("", some e)
          else if os.dir current == current
          then pure (os.clean path, none)
          else resolve_from n path (os.dir current))
        (λ resolved. pure (joined path resolved (os.rel current path)))

  -- resolveExistingPrefix; a path has no more parents than characters
  unfoldable pub resolve_existing_prefix : String → Prog W (String × Option GoError)
  resolve_existing_prefix path = resolve_from (texts.len path + 1) path path

  abbrev candidate_of : Policy → String → String
  candidate_of p path =
      if os.is_abs path then os.clean path else os.join_path p.workspace_root (os.clean path)

  judge_path : Policy → String → String → String × Option GoError
  judge_path p candidate resolved =
      if not (has_path_prefix p.workspace_root resolved)
      then ("", fails path_outside_workspace "path")
      else (candidate, none)

  -- ResolvePath
  unfoldable pub resolve_path : Policy → String → Prog W (String × Option GoError)
  unfolding judge_path
  resolve_path p raw =
      if trim_space raw == "" then pure ("", some (sentinel path_required)) else (do
        a ← os.abs (candidate_of p (trim_space raw))
        on_failure a (λ e. pure ("", some (wrap e "resolve path")))
            (λ candidate. do
              r ← resolve_existing_prefix candidate
              on_failure r (λ e. pure ("", some (wrap e "resolve path")))
                  (λ resolved. pure (judge_path p candidate resolved))))
