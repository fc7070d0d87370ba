-- ===== src/Master/Shell/Lines.antt =====
-- How the lines of the shell compose: commands on one line, `exit`, and what `addtask` takes for the
-- expression.
use Prim.Native.String
use cpcluster.Prelude.{
  ◌≡◌, ◌⊎◌, refl, String, Bool, true, Option, none, some, List, [], ◌∷◌, ◌++◌, Bool-cases, inl, inr,
  if◌then◌else◌, ap, ◌∙◌,
}
use cpcluster.Prelude.Text.Split.{split-append}
use cpcluster.Master.Shell.Command.{exit, command_of, commands_of, is_semicolon}
use cpcluster.Master.Shell.Run.{
  World, Debug, Shell, run_command, run_commands, run_lines, run_shell,
}

module _ (world : World) (debug : Debug) where
  -- The commands that come after, unless the shell has ended.
  abbrev pub go_on_with : List String → Bool × Shell → Bool × Shell
  go_on_with cmds ran = if ran.0 then ran else run_commands world debug cmds ran.1

  run_commands-append :
      (cmds more : List String) (s : Shell)
      → run_commands world debug (cmds ++ more) s
        ≡ go_on_with more (run_commands world debug cmds s)
  unfolding run_commands
  run_commands-append [] more s = refl
  run_commands-append (cmd ∷ cmds) more s =
      elim (Bool-cases (run_command world debug (command_of cmd) s).0) [
        | inl e ↦ rw e refl
        | inr e ↦
            rw e (run_commands-append cmds more (run_command world debug (command_of cmd) s).1)
      ]

  -- Two texts on one line, with a semicolon between them, do what the first and then the second does,
  -- or only what the first does if it ends the shell.
  pub run_commands_semicolon :
      (a b : String) (s : Shell)
      → run_commands world debug (commands_of (String.◌++◌ a (String.◌∷◌ ";" b))) s
        ≡ go_on_with (commands_of b) (run_commands world debug (commands_of a) s)
  unfolding commands_of
  run_commands_semicolon a b s =
      ap (λ cmds. run_commands world debug cmds s) (split-append is_semicolon a ";" b refl)
      ∙ run_commands-append (commands_of a) (commands_of b) s

  -- Whether a line has a command that ends the shell.
  abbrev pub Leaves : List String → Type 0
  Leaves [] = ⊥
  Leaves (cmd ∷ cmds) = (command_of cmd ≡ exit) ⊎ Leaves cmds

  run_commands-Leaves :
      (cmds : List String) (s : Shell) → Leaves cmds → (run_commands world debug cmds s).0 ≡ true
  unfolding run_commands run_command
  run_commands-Leaves [] s h = absurd h
  run_commands-Leaves (cmd ∷ cmds) s (inl e) = rw e refl
  run_commands-Leaves (cmd ∷ cmds) s (inr h) =
      elim (Bool-cases (run_command world debug (command_of cmd) s).0) [
        | inl e ↦ rw e refl
        | inr e ↦ rw e (run_commands-Leaves cmds _ h)
      ]

  run_lines_exit :
      (before more : List (Option String)) (text : String) (s : Shell)
      → Leaves (commands_of text)
      → run_lines world debug (before ++ some text ∷ more) s
        ≡ run_lines world debug (before ++ some text ∷ []) s
  unfolding run_lines
  run_lines_exit [] more text s h = rw (run_commands-Leaves (commands_of text) s h) refl
  run_lines_exit (none ∷ before) more text s h = refl
  run_lines_exit (some first ∷ before) more text s h =
      ap
        (λ rest.
          if (run_commands world debug (commands_of first) s).0
          then (run_commands world debug (commands_of first) s).1
          else rest)
        (run_lines_exit before more text _ h)

  -- What is typed after a line with `exit` or `quit` among its commands changes nothing and prints
  -- nothing.
  pub run_shell_exit :
      (before more : List (Option String)) (text : String) (s : Shell)
      → Leaves (commands_of text)
      → run_shell world debug (before ++ some text ∷ more) s
        ≡ run_shell world debug (before ++ some text ∷ []) s
  unfolding run_shell
  run_shell_exit before more text s h = run_lines_exit before more text _ h
