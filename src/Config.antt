-- ===== src/Config.antt =====
-- server/configurator.cc: the configuration file of a server, and the start of its replica.
pub mod Words
pub mod Parse
pub mod EndPoints
pub mod RoundTrip
pub mod Boot
pub mod Start
use meta_dr.Prelude.{
  ℕ, zero, suc, ◌+◌, ◌-◌, ◌^◌, Bool, true, false, not, ◌&&◌, ◌||◌, Option, none, some, List, [],
  ◌∷◌, ◌++◌, ◌==◌, nat_eq, text_eq, if◌then◌else◌, length, take, drop, Text, codes,
}
use meta_dr.Prelude.Dict.{Dict, lookup, insert}
use meta_dr.Prelude.Exec.{
  Exec, Outcome, done, throw, abort, pure, raise, invalid_argument, gets, assert, modify, skip,
  ◌>>=◌, ◌>>◌,
}
use meta_dr.Types.{EndPoint, normal}
use meta_dr.ReplicaState
use meta_dr.OpLog
use meta_dr.Node.{Node}
use meta_dr.Replicator.{start}

abbrev pub space : ℕ
space = b' '

-- `find_first_not_of`, counted from index `i`.
unfoldable pub find_first_not_of : ℕ → ℕ → Text → Option ℕ
find_first_not_of c i [] = none
find_first_not_of c i (d ∷ s) =
    let later = find_first_not_of c (i + 1) s in if d == c then later else some i

-- `find_last_not_of`, counted from index `i`.
unfoldable pub find_last_not_of : ℕ → ℕ → Text → Option ℕ
find_last_not_of c i [] = none
find_last_not_of c i (d ∷ s) =
    let later = find_last_not_of c (i + 1) s in
    elim later [ some pos ↦ some pos | none ↦ if d == c then none else some i ]

unfoldable pub trim_front : Text → Text
unfolding find_first_not_of
trim_front line = elim (find_first_not_of space 0 line) [ none ↦ line | some pos ↦ drop pos line ]

unfoldable pub trim_back : Text → Text
unfolding find_last_not_of
trim_back line = elim (find_last_not_of space 0 line) [
  | none ↦ line
  | some pos ↦ take (pos + 1) line
]

unfoldable pub trim : Text → Text
unfolding trim_front trim_back
trim line = trim_back (trim_front line)

-- The loop of `split`: `current` is the part of the line from the index `pos` to the index `i`, and
-- `pos < i` says that it is not empty.
unfoldable pub split_loop : ℕ → Text → Text → List Text
unfolding trim
split_loop delim current [] = trim current ∷ []
split_loop delim current (c ∷ rest) =
    let at_delim = split_loop delim [] rest in
    let inside = split_loop delim (current ++ c ∷ []) rest in
    if c == delim && not (length current == 0) then trim current ∷ at_delim else inside

unfoldable pub split : Text → ℕ → List Text
unfolding split_loop
split line delim = split_loop delim [] line

pub record UserInput : Type 0 where
  pub client_port : Text
  pub replication_port : Text
  pub end_points : List EndPoint
  pub recovering : Bool

-- The two elements of a split.
unfoldable pub pair_of : List Text → Option (Text × Text)
pair_of (a ∷ b ∷ []) = some (a, b)
pair_of _ = none

-- The loop over the endpoints.
unfoldable pub add_end_points : List Text → Exec UserInput (Unit {0})
unfolding split pair_of
add_end_points [] = skip
add_end_points (e ∷ es) = elim (pair_of (split e b':')) [
  | none ↦ raise invalid_argument
  | some (ip, port) ↦ do
    modify (λ u. record u { end_points = u.end_points ++ record { ip = ip; port = port } ∷ [] })
    add_end_points es
]

unfoldable pub set_entry : Text → Text → Exec UserInput (Unit {0})
unfolding add_end_points
set_entry key val =
    if key == codes "ClientPort"
    then modify (λ u. record u { client_port = val })
    else if key == codes "ReplicationPort"
    then modify (λ u. record u { replication_port = val })
    else if key == codes "EndPoints"
    then add_end_points (split val b',')
    else if key == codes "Recovering"
    then (if val == codes "true" then modify (λ u. record u { recovering = true }) else skip)
    else raise invalid_argument

-- The test for a comment, `find_first_of('#') == 0`, is one on the first character.
unfoldable pub parse_line : Text → Exec UserInput (Unit {0})
unfolding set_entry
parse_line text = elim (trim text) [
  | [] ↦ skip
  | c ∷ s ↦ if c == b'#' then skip else elim (pair_of (split (c ∷ s) b'=')) [
    | none ↦ raise invalid_argument
    | some (key, val) ↦ set_entry key val
  ]
]

-- The lines that `getline` reads: what stands before, between and after the newlines.
unfoldable pub lines : Text → Text → List Text
lines current [] = current ∷ []
lines current (c ∷ s) =
    let ended = lines [] s in
    let more = lines (current ++ c ∷ []) s in if c == b'\n' then current ∷ ended else more

unfoldable pub parse_lines : List Text → Exec UserInput (Unit {0})
unfolding parse_line
parse_lines [] = skip
parse_lines (l ∷ ls) = do parse_line l; parse_lines ls

-- The content of the file, or `none` if it cannot be opened; `validate` does nothing.
unfoldable pub parse : Option Text → Exec UserInput (Unit {0})
unfolding lines parse_lines
parse none = skip
parse (some content) = parse_lines (lines [] content)
