-- ===== src/Config/RoundTrip.antt =====
-- A configuration that is written in the format of the file is read back.
use meta_dr.Prelude.{
  ◌≡◌, refl, sym, ap, ◌∙◌, Bool, true, false, ◌||◌, some, List, [], ◌∷◌, ◌++◌, map, nat_eq, text_eq,
  if◌then◌else◌, Text, codes, arith, All,
}
use mathlib.Core.List.{append_assoc, append-nil}
use meta_dr.Prelude.Exec.{done}
use meta_dr.Types.{EndPoint}
use meta_dr.Api.{contains}
use meta_dr.Config.{UserInput, add_end_points, set_entry, parse_line, lines, parse_lines, parse}
use meta_dr.Config.Words.{IsWord, join}
use meta_dr.Config.Parse.{IsField, is_comment, parse_line-entry}
use meta_dr.Config.EndPoints.{
  print_end_point, IsPlain, IsPlainEndPoint, end_point-IsField, add_end_points-print, join-IsWord,
  join-lacks, All-end_points, end_point-lacks, split-end_points,
}

-- `key=val`
abbrev pub print_entry : Text → Text → Text
print_entry key val = join b'=' key (val ∷ [])

abbrev pub print_flag : Bool → Text
print_flag b = if b then codes "true" else codes "false"

-- The four lines of a configuration with the endpoints `e ∷ es`.
abbrev pub print : Text → Text → EndPoint → List EndPoint → Bool → Text
print client_port replication_port e es recovering =
    join b'\n' (print_entry (codes "ClientPort") client_port) (
      print_entry (codes "ReplicationPort") replication_port
      ∷ print_entry (codes "EndPoints") (join b',' (print_end_point e) (map print_end_point es))
      ∷ print_entry (codes "Recovering") (print_flag recovering)
      ∷ [])

lines-append :
    (l current rest : Text)
    → contains b'\n' l ≡ false
    → lines current (l ++ rest) ≡ lines (current ++ l) rest
unfolding lines
lines-append [] current rest h = rw append-nil
lines-append (c ∷ l) current rest h =
    ground (arith, lines-append l (current ++ c ∷ []) rest, append_assoc current (c ∷ []) l)

-- The lines of a text are what the newlines separate.
pub lines-join :
    (l : Text) (ls : List Text)
    → All (λ s. contains b'\n' s ≡ false) (l ∷ ls)
    → lines [] (join b'\n' l ls) ≡ l ∷ ls
unfolding lines
lines-join l [] h = ap (lines []) (sym (append-nil l)) ∙ lines-append l [] [] h.0
lines-join l (m ∷ ls) h =
    lines-append l [] (b'\n' ∷ join b'\n' m ls) h.0 ∙ ap (◌∷◌ l) (lines-join m ls h.1)

parse-entry :
    (key val : Text) (u : UserInput)
    → IsField b'=' key
    → IsField b'=' val
    → is_comment key ≡ false
    → parse_line (print_entry key val) u ≡ set_entry key val u
parse-entry key val u hk hv c =
    ap (λ (t : Text). parse_line t u)
      (ap (λ (k : Text). k ++ b'=' ∷ val) (sym (append-nil key)) ∙ sym (append-nil _))
    ∙ parse_line-entry 0 0 0 0 key val u hk hv c

parse_lines-cons :
    (l : Text) (ls : List Text) (u v : UserInput)
    → parse_line l u ≡ (done tt, v)
    → parse_lines (l ∷ ls) u ≡ parse_lines ls v
unfolding parse_lines
parse_lines-cons l ls u v h = rw h refl

plain-IsField : (s : Text) → IsPlain s → IsField b'=' s
plain-IsField s h = (h.0, ground (arith, h.1))

-- The lines of the two ports and of the flag.
parse-client_port :
    (val : Text) (u : UserInput)
    → IsPlain val
    → parse_line (print_entry (codes "ClientPort") val) u
      ≡ (done tt, record u { client_port = val })
unfolding set_entry
parse-client_port val u h =
    parse-entry (codes "ClientPort") val u ((refl, refl), refl) (plain-IsField val h) refl

parse-replication_port :
    (val : Text) (u : UserInput)
    → IsPlain val
    → parse_line (print_entry (codes "ReplicationPort") val) u
      ≡ (done tt, record u { replication_port = val })
unfolding set_entry
parse-replication_port val u h =
    parse-entry (codes "ReplicationPort") val u ((refl, refl), refl) (plain-IsField val h) refl

parse-flag :
    (b : Bool) (u : UserInput)
    → parse_line (print_entry (codes "Recovering") (print_flag b)) u
      ≡ (done tt, record u { recovering = b || u.recovering })
unfolding set_entry
parse-flag true u =
    parse-entry (codes "Recovering") (codes "true") u ((refl, refl), refl) ((refl, refl), refl) refl
parse-flag false u =
    parse-entry (codes "Recovering") (codes "false") u ((refl, refl), refl) ((refl, refl), refl)
      refl

module _ (client_port replication_port : Text) (e : EndPoint) (es : List EndPoint) (flag : Bool)
    (hc : IsPlain client_port) (hr : IsPlain replication_port)
    (he : All IsPlainEndPoint (e ∷ es)) where
  end_points : Text
  end_points = join b',' (print_end_point e) (map print_end_point es)

  end_points-IsField : IsField b'=' end_points
  unfolding end_points
  end_points-IsField = (
    join-IsWord b',' _ _ (All-end_points IsWord (e ∷ es) (λ d k. (end_point-IsField d k).0) he),
    join-lacks b'=' b',' _ _ refl
        (All-end_points (λ q. contains b'=' q ≡ false) (e ∷ es) (end_point-lacks b'=' refl) he),
  )

  parse-end_points :
      (u : UserInput)
      → parse_line (print_entry (codes "EndPoints") end_points) u
        ≡ (done tt, record u { end_points = u.end_points ++ e ∷ es })
  unfolding set_entry end_points
  parse-end_points u =
      parse-entry (codes "EndPoints") end_points u ((refl, refl), refl) end_points-IsField refl
      ∙ ap (λ (ps : List Text). add_end_points ps u) (split-end_points e es he)
      ∙ add_end_points-print (e ∷ es) u he

  -- A configuration with words that hold none of `:`, `,`, `=` and a newline, and at least one endpoint,
  -- is read back from its four lines; the flag for a recovery stays set if it was set before.
  pub parse-print :
      (u : UserInput)
      → u.end_points ≡ []
      → parse (some (print client_port replication_port e es flag)) u ≡ (
        done tt,
        record {
          client_port = client_port;
          replication_port = replication_port;
          end_points = e ∷ es;
          recovering = flag || u.recovering;
        },
      )
  unfolding parse parse_lines end_points
  parse-print u none_yet =
      let l₁ = print_entry (codes "ClientPort") client_port in
      let l₂ = print_entry (codes "ReplicationPort") replication_port in
      let l₃ = print_entry (codes "EndPoints") end_points in
      let l₄ = print_entry (codes "Recovering") (print_flag flag) in
      let u₁ = record u { client_port = client_port } in
      let u₂ = record u₁ { replication_port = replication_port } in
      let u₃ = record u₂ { end_points = u.end_points ++ e ∷ es } in
      let one_line : All (λ s. contains b'\n' s ≡ false) (l₁ ∷ l₂ ∷ l₃ ∷ l₄ ∷ []) =
        (ground (arith, hc.1), (ground (arith, hr.1), (end_points_line, (flag_line flag, tt)))) in
      ap (λ (ls : List Text). parse_lines ls u) (lines-join l₁ (l₂ ∷ l₃ ∷ l₄ ∷ []) one_line)
      ∙ parse_lines-cons l₁ (l₂ ∷ l₃ ∷ l₄ ∷ []) u u₁ (parse-client_port client_port u hc)
      ∙ parse_lines-cons l₂ (l₃ ∷ l₄ ∷ []) u₁ u₂ (parse-replication_port replication_port u₁ hr)
      ∙ parse_lines-cons l₃ (l₄ ∷ []) u₂ u₃ (parse-end_points u₂)
      ∙ parse_lines-cons l₄ [] u₃ (record u₃ { recovering = flag || u.recovering })
          (parse-flag flag u₃)
      ∙ rw none_yet refl
    where
      end_points_line : contains b'\n' (print_entry (codes "EndPoints") end_points) ≡ false
      end_points_line =
          join-lacks b'\n' b',' _ _ refl (
            All-end_points (λ q. contains b'\n' q ≡ false) (e ∷ es) (end_point-lacks b'\n' refl) he)

      flag_line :
          (b : Bool) → contains b'\n' (print_entry (codes "Recovering") (print_flag b)) ≡ false
      flag_line true = refl
      flag_line false = refl
