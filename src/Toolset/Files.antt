-- ===== src/Toolset/Files.antt =====
-- examples/coding-agent/server/internal/toolset/read.go, write.go and edit.go: the tools on files.
use agentframe.Base.{String, not, Option, none, some, [], ◌∷◌, if◌then◌else◌}
use agentframe.Base.Int.{ltbℤ}
use agentframe.Agent.Value.{AnyMap}
use agentframe.Agent.Errors.{GoError, wrap, message}
use agentframe.Agent.Prog.{Prog, pure, on_error, ◌>>=◌}
use agentframe.Agent.Interfaces.{Host}
use agentframe.Toolset.Policies.{
  Policy, Texts, Os, FileInfo, on_failure, string_argument, resolve_path,
}

module _ {W : Type 0} (host : Host W) (texts : Texts) (os : Os W) (p : Policy) where
  open host use {trim_space}

  abbrev fail : GoError → Prog W (String × Option GoError)
  fail e = pure ("", some e)

  read_found : String × Option GoError → String × Option GoError
  read_found (content, some e) = ("", some (wrap e "read"))
  read_found (content, none) = (content, none)

  read_checked : String → FileInfo → Prog W (String × Option GoError)
  unfolding read_found
  read_checked resolved info =
      if info.is_dir
      then fail (message "read: path is a directory")
      else if ltbℤ p.max_read_size info.size
      then fail (message "read: file size exceeds limit")
      else (do content ← os.read_file resolved; pure (read_found content))

  -- executeRead
  unfoldable pub execute_read : AnyMap → Prog W (String × Option GoError)
  unfolding read_checked
  execute_read arguments = on_failure (string_argument trim_space arguments "path") fail (λ path. do
    r ← resolve_path host texts os p path
    on_failure r fail (λ resolved. do
      info ← os.stat resolved
      on_failure info (λ e. fail (wrap e "read")) (read_checked resolved)))

  -- executeWrite; the length of the content is printed by the format
  unfoldable pub execute_write : AnyMap → Prog W (String × Option GoError)
  execute_write arguments = on_failure (string_argument trim_space arguments "path") fail (λ path.
      on_failure (string_argument trim_space arguments "content") fail (λ content. do
        r ← resolve_path host texts os p path
        on_failure r fail (λ resolved. do
          made ← os.mkdir_all (os.dir resolved)
          on_error made (λ e. fail (wrap e "write: create parent directory"))
              (do
                written ← os.write_file resolved content
                on_error written (λ e. fail (wrap e "write"))
                    (pure
                      (host.sprintf "write_ok path=%s bytes=%d" (path ∷ content ∷ []), none))))))

  edit_found : String → String → String → String → String → Prog W (String × Option GoError)
  edit_found path resolved old new content =
      if not (texts.contains content old) then fail (message "edit: target text not found") else (do
        written ← os.write_file resolved (texts.replace_first content old new)
        on_error written (λ e. fail (wrap e "edit: write"))
            (pure (host.sprintf "edit_ok path=%s replacements=1" (path ∷ []), none)))

  -- executeEdit
  unfoldable pub execute_edit : AnyMap → Prog W (String × Option GoError)
  unfolding edit_found
  execute_edit arguments = on_failure (string_argument trim_space arguments "path") fail (λ path.
      on_failure (string_argument trim_space arguments "old") fail (λ old.
        on_failure (string_argument trim_space arguments "new") fail (λ new. do
          r ← resolve_path host texts os p path
          on_failure r fail (λ resolved. do
            content ← os.read_file resolved
            on_failure content (λ e. fail (wrap e "edit: read"))
                (edit_found path resolved old new)))))
