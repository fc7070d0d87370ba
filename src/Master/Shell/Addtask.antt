-- ===== src/Master/Shell/Addtask.antt =====
-- What `addtask` of the shell takes for the kind and the argument of a task.
use Prim.Native.String
use cpcluster.Prelude.{
  ◌≡◌, refl, ap, String, true, false, [], ◌∷◌, arith, Bool-cases, inl, inr, str_eq, eq_iff,
}
use cpcluster.Prelude.Text.{trim, trim_start, trim_end}
use cpcluster.Prelude.Text.Split.{
  splitn, splitn-append, IsFree, IsFree-append, split_free, strip_prefix, strip_prefix-append,
}
use cpcluster.Prelude.Text.Trim.{IsEnded, trim_end-append, trim_end-cons, cons-IsEnded}
use cpcluster.Master.Shell.{task_of}
use cpcluster.Master.Shell.Command.{
  addtask, begins, is_space, is_semicolon, matched, command_of, commands_of,
}
use cpcluster.Master.Shell.Run.{World, Debug, Shell, run_command, run_commands, queue, queue_task}

-- `addtask <kind> <arg>`
abbrev pub addtask_line : String → String → String
addtask_line kind arg =
    String.◌++◌ "addtask" (String.◌∷◌ " " (String.◌++◌ kind (String.◌∷◌ " " arg)))

other_word :
    (cmd word : String)
    → begins "addtask" cmd ≡ true
    → begins "addtask" word ≡ false
    → str_eq cmd word ≡ false
other_word cmd word h k = elim (Bool-cases (str_eq cmd word)) [
  | inl e ↦ absurd (cc (ap (begins "addtask") ((eq_iff cmd word).0 e)))
  | inr e ↦ e
]

matched-addtask :
    (cmd : String)
    → begins "addtask" cmd ≡ true
    → begins "task" cmd ≡ false
    → matched cmd ≡ addtask (splitn 3 is_space cmd)
unfolding matched
matched-addtask cmd h k =
    rw (other_word cmd "nodes" h refl, other_word cmd "tasks" h refl, k, h) refl

line_starts : (kind arg : String) → trim_start (addtask_line kind arg) ≡ addtask_line kind arg
unfolding trim_start
line_starts kind arg =
    rw (String.append.cons "a" "ddtask" (String.◌∷◌ " " (String.◌++◌ kind (String.◌∷◌ " " arg))))
      refl

line_begins_other : (kind arg : String) → begins "task" (addtask_line kind arg) ≡ false
unfolding trim_start strip_prefix
line_begins_other kind arg =
    rw (String.append.cons "a" "ddtask" (String.◌∷◌ " " (String.◌++◌ kind (String.◌∷◌ " " arg))))
      refl

line_begins :
    (kind arg : String)
    → (begins "addtask" (addtask_line kind arg) ≡ true)
      × (begins "task" (addtask_line kind arg) ≡ false)
line_begins kind arg = (
  rw
      (
        line_starts kind arg,
        strip_prefix-append "addtask" (String.◌∷◌ " " (String.◌++◌ kind (String.◌∷◌ " " arg))),
      )
      refl,
  line_begins_other kind arg,
)

line_ends :
    (kind arg : String)
    → IsEnded arg
    → trim_end (addtask_line kind arg) ≡ addtask_line kind (trim_end arg)
line_ends kind arg h =
    let inner = trim_end-append kind (String.◌∷◌ " " arg) (cons-IsEnded " " arg h) in
    let outer =
      trim_end-append "addtask" (String.◌∷◌ " " (String.◌++◌ kind (String.◌∷◌ " " arg)))
        (cons-IsEnded " " _ inner.1) in
    rw (outer.0, trim_end-cons " " _ inner.1, inner.0, trim_end-cons " " arg h) refl

addtask-IsFree : IsFree is_space "addtask"
addtask-IsFree = ground arith

command_of-addtask_line :
    (kind arg : String)
    → IsFree is_space kind
    → IsEnded arg
    → command_of (addtask_line kind arg) ≡ addtask ("addtask" ∷ kind ∷ trim_end arg ∷ [])
unfolding command_of trim splitn
command_of-addtask_line kind arg f h =
    let end = trim_end arg in
    let begun = line_begins kind end in
    rw
      (
        line_starts kind arg,
        line_ends kind arg h,
        matched-addtask (addtask_line kind end) begun.0 begun.1,
        splitn-append 1 is_space "addtask" " " (String.◌++◌ kind (String.◌∷◌ " " end))
            addtask-IsFree refl,
        splitn-append 0 is_space kind " " end f refl,
      )
      refl

-- A line `addtask <kind> <arg>` without a semicolon queues the task of that kind for the argument,
-- with the spaces inside it and without the blanks at its end, or says that the kind is unknown.
pub run_commands-addtask :
    (world : World) (debug : Debug) (kind arg : String) (s : Shell)
    → IsFree is_space kind
    → IsFree is_semicolon kind
    → IsFree is_semicolon arg
    → IsEnded arg
    → run_commands world debug (commands_of (addtask_line kind arg)) s
      ≡ (false, queue world debug (task_of kind (trim_end arg)) s)
unfolding commands_of run_commands run_command queue_task
run_commands-addtask world debug kind arg s f g k h =
    let free : IsFree is_semicolon (addtask_line kind arg) =
      IsFree-append is_semicolon "addtask" _ (ground arith)
        (refl, IsFree-append is_semicolon kind _ g (refl, k)) in
    rw
      (
        split_free is_semicolon (addtask_line kind arg) free,
        run_commands,
        command_of-addtask_line kind arg f h,
        run_command,
      )
      refl
