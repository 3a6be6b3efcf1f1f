-- ===== src/Examples/Session.antt =====
-- The theorems on the client and the shell, at a client of a fresh primary and at short scripts,
-- and the one on the form of a key.
use meta_dr.Prelude.{
  ℕ, zero, suc, ◌+◌, ◌≡◌, refl, true, false, some, none, List, [], ◌∷◌, ◌++◌, arith, Text, codes,
  length, nat_eq, text_eq, if◌then◌else◌,
}
use meta_dr.Prelude.Dict.{has, lookup, insert, erase, get_or_insert}
use meta_dr.Types.{Error, key_malformed, status_eq}
use meta_dr.ReplicaState.{incr}
use meta_dr.OpLog
use meta_dr.OpLog.{append_update, append_delete}
use meta_dr.MemStore.{set_int, has_key}
use meta_dr.Quorum.{quorum_reached, wait_get, count_response, majority_cnt}
use meta_dr.Node.{Node, invoke, invoke_for_all}
use meta_dr.Replicator.{
  is_primary, append_op, replicate, replicate_op, replicate_update, replicate_delete, commit_op,
}
use meta_dr.KvStore
use meta_dr.Api.{
  check_key_format, check_chars, valid_char, prune_key, prune_loop, list_keys, listed, find_text,
  set_insert,
}
use meta_dr.Api.Format.{is_key, check_key_format_lem}
use meta_dr.Api.Server
use meta_dr.Client.{
  returned, exception, key_not_found, connection, create, remove, set, get, list, create_reply,
  remove_reply,
}
use meta_dr.Client.Answers.{IsProper, calls-IsProper}
use meta_dr.Client.Contract.{create-get, remove-get}
use meta_dr.Shell.{
  Ending, printed, arguments, split_arguments, run_script, dispatch_command, execute,
}
use meta_dr.Shell.Script.{lines_fit, run_script-returns, run_script-stuck, unopened}
use meta_dr.Client.Address.{break_at}
use meta_dr.Examples.{fresh, calm, late, text_a, text_x}

calls-IsProper_example :
    IsProper
      ((connection late).create (record { key = text_a; val = text_x }) (fresh 0))
      (create (connection late) text_a text_x (fresh 0))
    × IsProper
        ((connection late).remove text_a (fresh 0))
        (remove (connection late) text_a (fresh 0))
    × IsProper
        ((connection late).set (record { key = text_a; val = text_x }) (fresh 0))
        (set (connection late) text_a text_x (fresh 0))
    × IsProper ((connection late).get text_a (fresh 0)) (get (connection late) text_a (fresh 0))
    × IsProper ((connection late).list text_a (fresh 0)) (list (connection late) text_a (fresh 0))
calls-IsProper_example = calls-IsProper late text_a text_x (fresh 0)

abbrev created : Node
created = (create (connection calm) text_a text_x (fresh 0)).1

creates : create (connection calm) text_a text_x (fresh 0) ≡ (returned true, created)
unfolding create create_reply Server.create check_key_format check_chars valid_char prune_key
    prune_loop KvStore.set replicate_update replicate_op replicate is_primary append_op
    append_update invoke_for_all invoke quorum_reached wait_get count_response OpLog.commit lookup
    insert set_int has_key has incr erase majority_cnt get_or_insert OpLog.push_entry commit_op
creates = refl

created_primary : is_primary created ≡ true
unfolding create create_reply Server.create check_key_format check_chars valid_char prune_key
    prune_loop KvStore.set replicate_update replicate_op replicate is_primary append_op
    append_update invoke_for_all invoke quorum_reached wait_get count_response OpLog.commit lookup
    insert set_int has_key has incr erase majority_cnt get_or_insert OpLog.push_entry commit_op
created_primary = refl

create-get_example : get (connection calm) text_a created ≡ (returned text_x, created)
create-get_example = create-get calm text_a text_x (fresh 0) created creates created_primary

abbrev holding : Node
holding = record (fresh 0) { kv = (text_a, text_x) ∷ [] }

abbrev removed : Node
removed = (remove (connection calm) text_a holding).1

removes : remove (connection calm) text_a holding ≡ (returned true, removed)
unfolding remove remove_reply Server.remove check_key_format check_chars valid_char prune_key
    prune_loop KvStore.remove replicate_delete replicate_op replicate is_primary append_op
    append_delete invoke_for_all invoke quorum_reached wait_get count_response OpLog.commit lookup
    insert has_key has incr erase majority_cnt get_or_insert OpLog.push_entry commit_op list_keys
    listed find_text set_insert
removes = refl

removed_primary : is_primary removed ≡ true
unfolding remove remove_reply Server.remove check_key_format check_chars valid_char prune_key
    prune_loop KvStore.remove replicate_delete replicate_op replicate is_primary append_op
    append_delete invoke_for_all invoke quorum_reached wait_get count_response OpLog.commit lookup
    insert has_key has incr erase majority_cnt get_or_insert OpLog.push_entry commit_op list_keys
    listed find_text set_insert
removed_primary = refl

remove-get_example : get (connection calm) text_a removed ≡ (exception key_not_found, removed)
remove-get_example = remove-get calm text_a holding removed removes removed_primary

abbrev six_words : Text
six_words = codes "echo a b c d e"

abbrev script : Text
script = codes "help" ++ b'\n' ∷ codes "get /a"

run_script-returns_example :
    (r : List Ending × Node) × (run_script
        (connection calm)
        (length script + 2)
        (record { rest = script; eof = false; fail = false })
        (fresh 0)
      ≡ some r)
run_script-returns_example = run_script-returns (connection calm) script (fresh 0) fits
  where
    fits : lines_fit 255 script ≡ true
    fits = unfold lines_fit in refl

check_key_format_lem_example :
    check_key_format (codes "/a-b") ≡ (if is_key (codes "/a-b") then Error.none else key_malformed)
check_key_format_lem_example = check_key_format_lem (codes "/a-b")

abbrev dashes : ℕ → Text
dashes zero = []
dashes (suc k) = b'-' ∷ dashes k

-- The first 255 characters of a comment.
abbrev long_comment : Text
long_comment = b'#' ∷ b' ' ∷ dashes 253

comments : dispatch_command (connection calm) long_comment (fresh 0) ≡ (printed [], fresh 0)
unfolding dispatch_command arguments split_arguments execute break_at
comments = refl

run_script-stuck_example :
    (run_script (connection calm) 1000 unopened (fresh 0) ≡ none)
    × (run_script
          (connection calm)
          1000
          (record { rest = long_comment ++ b'-' ∷ codes "--"; eof = false; fail = false })
          (fresh 0)
        ≡ none)
run_script-stuck_example =
    run_script-stuck (connection calm) 1000 long_comment b'-' (codes "--") (fresh 0) (fresh 0) []
      refl refl (omega arith) comments
