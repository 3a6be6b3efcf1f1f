-- ===== src/Shell.antt =====
-- shell/shell.cc: the commands of the shell, its dispatch, and the loops that read a script or the
-- terminal. A line is taken to hold no NUL byte.
pub mod Arguments
pub mod Script
use meta_dr.Prelude.{
  ℕ, zero, suc, ◌-◌, Bool, true, false, not, ◌&&◌, ◌||◌, Option, none, some, List, [], ◌∷◌, ◌++◌,
  ◌==◌, nat_eq, text_eq, if◌then◌else◌, length, Text, codes,
}
use meta_dr.Client.{
  Stub, Attempt, returned, exception, failed, aborted, what, create, remove, set, get, list,
}
use meta_dr.Client.Address.{break_at}

-- DEBUG_MAX_ARGS
abbrev pub max_args : ℕ
max_args = 5

-- The loop of `DispatchCommand`, with the number of rounds left: the last argument keeps what is left.
unfoldable pub split_arguments : ℕ → Text → List Text
unfolding break_at
split_arguments zero buf = buf ∷ []
split_arguments (suc k) buf = elim (break_at b' ' buf) [
  | none ↦ buf ∷ []
  | some p ↦ p.0 ∷ split_arguments k p.1
]

-- The loop runs from 1 to below `max_args`.
unfoldable pub arguments : Text → List Text
unfolding split_arguments
arguments buf = split_arguments (max_args - 1) buf

-- DEBUG_MAX_LINE
abbrev pub max_line : ℕ
max_line = 256

-- How a command ends: with the lines it has printed, with an exception that is not a
-- `ClientException`, with a failed `assert`, or with the end of the process.
pub data Ending : Type 0 where
  printed : List Text → Ending
  thrown fails exits : Ending

-- The `try` and `catch` around a call.
abbrev pub report : {A : Type 0} → Attempt A → (A → List Text) → Ending
report (returned a) show = printed (show a)
report (exception e) show = printed (what e ∷ [])
report failed show = thrown
report aborted show = fails

unfoldable pub cmd_help : Ending
cmd_help = printed (
    codes "create     Create a node"
    ∷ codes "echo       Echo arguments"
    ∷ codes "exit       Exit shell"
    ∷ codes "get        Get a node"
    ∷ codes "help       Display the list of commands"
    ∷ codes "remove     Remove a node"
    ∷ codes "set        Set a node"
    ∷ [])

-- The loop of `Cmd_Echo` over the arguments behind the name.
unfoldable pub echo_line : List Text → Text
echo_line [] = []
echo_line (a ∷ args) = a ++ (b' ' ∷ echo_line args)

unfoldable pub cmd_echo : List Text → Ending
unfolding echo_line
cmd_echo args = printed (echo_line args ∷ [])

-- The commands take the arguments behind the name; `argc` counts the name too.
module _ {S : Type 0} (stub : Stub S) where
  unfoldable pub cmd_create : List Text → S → Ending × S
  cmd_create (path ∷ val ∷ []) s =
      let (r, t) = create stub path val s in
      (
        report r
            (λ created. (if created then codes "CREATED" else codes "KEY ALREADY EXISTS") ∷ []),
        t,
      )
  cmd_create _ s = (printed (codes "Usage: create PATH VALUE" ∷ []), s)

  unfoldable pub cmd_remove : List Text → S → Ending × S
  cmd_remove (path ∷ []) s =
      let (r, t) = remove stub path s in
      (report r (λ removed. (if removed then codes "REMOVED" else codes "KEY NOT FOUND") ∷ []), t)
  cmd_remove _ s = (printed (codes "Usage: remove PATH" ∷ []), s)

  unfoldable pub cmd_set : List Text → S → Ending × S
  cmd_set (path ∷ val ∷ []) s = let (r, t) = set stub path val s in (report r (λ _. []), t)
  cmd_set _ s = (printed (codes "Usage: set PATH VALUE" ∷ []), s)

  unfoldable pub cmd_get : List Text → S → Ending × S
  cmd_get (path ∷ []) s = let (r, t) = get stub path s in (report r (λ v. v ∷ []), t)
  cmd_get _ s = (printed (codes "Usage: get PATH" ∷ []), s)

  unfoldable pub cmd_list : List Text → S → Ending × S
  cmd_list (path ∷ []) s = let (r, t) = list stub path s in (report r (λ keys. keys), t)
  cmd_list _ s = (printed (codes "Usage: list PATH" ∷ []), s)

  -- The command with the name `cmd` and the arguments behind it.
  unfoldable pub execute : Text → List Text → S → Ending × S
  unfolding cmd_help cmd_echo cmd_create cmd_remove cmd_get cmd_set cmd_list
  execute cmd args s =
      if cmd == codes "help"
      then (cmd_help, s)
      else if cmd == codes "echo"
      then (cmd_echo args, s)
      else if cmd == codes "exit"
      then (exits, s)
      else if cmd == codes "create"
      then cmd_create args s
      else if cmd == codes "remove"
      then cmd_remove args s
      else if cmd == codes "get"
      then cmd_get args s
      else if cmd == codes "set"
      then cmd_set args s
      else if cmd == codes "list"
      then cmd_list args s
      else if cmd == codes "#"
      then (printed [], s)
      else if not (length cmd == 0)
      then (printed ((codes "Unknown command '" ++ (cmd ++ codes "'")) ∷ []), s)
      else (printed [], s)

  unfoldable pub dispatch_command : Text → S → Ending × S
  unfolding arguments execute
  dispatch_command buf s = elim (arguments buf) [
    | [] ↦ (printed [], s)
    | cmd ∷ args ↦ execute cmd args s
  ]

-- An `istream`: what is left to read, and its two flags.
pub record Stream : Type 0 where
  pub rest : Text
  pub eof : Bool
  pub fail : Bool

abbrev pub put : ℕ → Text × Stream → Text × Stream
put c r = (c ∷ r.0, r.1)

-- `getline` into a buffer with room for `k` more characters, once it reads.
unfoldable pub read_line : ℕ → Text → Text × Stream
read_line k [] = ([], record { rest = []; eof = true; fail = false })
read_line zero (c ∷ s) =
    if c == b'\n'
    then ([], record { rest = s; eof = false; fail = false })
    else ([], record { rest = c ∷ s; eof = false; fail = true })
read_line (suc k) (c ∷ s) =
    let more = read_line k s in
    if c == b'\n' then ([], record { rest = s; eof = false; fail = false }) else put c more

-- `getline` leaves a stream that is not good as it is, with its fail flag set, and the buffer empty.
unfoldable pub get_line : ℕ → Stream → Text × Stream
unfolding read_line
get_line k s = if s.eof || s.fail then ([], record s { fail = true }) else read_line k s.rest

-- What a loop does after a command: only one that has printed lets it go on.
abbrev pub carry : {S : Type 0} → Ending × S → Option (List Ending × S) → Option (List Ending × S)
carry (printed ls, t) none = none
carry (printed ls, t) (some (es, u)) = some (printed ls ∷ es, u)
carry (e, t) rest = some (e ∷ [], t)

module _ {S : Type 0} (stub : Stub S) where
  -- The loop of `RunScript`, with fuel: how each command ended, or `none` if the fuel has run out.
  unfoldable pub run_script : ℕ → Stream → S → Option (List Ending × S)
  unfolding get_line dispatch_command
  run_script zero fin s = none
  run_script (suc fuel) fin s =
      let (line, next) = get_line (max_line - 1) fin in
      let (ending, t) = dispatch_command stub line s in
      let rest = run_script fuel next t in if fin.eof then some ([], s) else carry (ending, t) rest

  -- The loop of `Prompt`, in the same way; the prompts are left out.
  unfoldable pub prompt : ℕ → Stream → S → Option (List Ending × S)
  unfolding get_line dispatch_command
  prompt zero cin s = none
  prompt (suc fuel) cin s =
      let (line, next) = get_line (max_line - 1) cin in
      let (ending, t) = dispatch_command stub line s in
      let rest = prompt fuel next t in
      if not cin.eof && not cin.fail then carry (ending, t) rest else some ([], s)
