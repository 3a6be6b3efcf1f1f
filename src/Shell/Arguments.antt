-- ===== src/Shell/Arguments.antt =====
-- How `DispatchCommand` of shell/shell.cc splits a line into arguments.
use meta_dr.Api.{contains}
use meta_dr.Client.{Stub}
use meta_dr.Prelude.{ℕ, suc, ◌≤◌, ◌≡◌, false, List, [], ◌∷◌, ◌++◌, nat_eq, length, take, Text, All}
use meta_dr.Shell.{dispatch_command, execute, max_args}

-- The arguments with a space between each two.
unfoldable pub unsplit : List Text → Text
unsplit [] = []
unsplit (a ∷ []) = a
unsplit (a ∷ b ∷ args) = a ++ b' ' ∷ unsplit (b ∷ args)

-- What a split in at most `k + 1` arguments is.
record Split (k : ℕ) (buf : Text) (args : List Text) : Type 0 where
  whole : unsplit args ≡ buf
  some_argument : 1 ≤ length args
  bound : length args ≤ suc k
  words : All (λ a. contains b' ' a ≡ false) (take k args)

-- A command that is run on what such a split gives.
abbrev pub Executes : {S : Type 0} → Stub S → Text → S → Type 0
Executes stub buf s =
    (cmd : Text) × (args : List Text) × (dispatch_command stub buf s ≡ execute stub cmd args s)
    × (unsplit (cmd ∷ args) ≡ buf)
    × (length (cmd ∷ args) ≤ max_args)
    × All (λ a. contains b' ' a ≡ false) (take 4 (cmd ∷ args))
