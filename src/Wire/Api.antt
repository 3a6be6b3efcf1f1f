-- ===== src/Wire/Api.antt =====
-- The calls of the clients on the wire: the procedure numbers and `call_dispatch` of
-- include/kvStore.hh, and the service that server/server.cc registers for server/kvStoreImpl.cc.
use meta_dr.Prelude.{
  ℕ, ◌≤◌, ◌≡◌, refl, ap, ◌∙◌, Option, none, some, [], Text, ◌==◌, nat_eq, if◌then◌else◌, length,
  arith,
}
use meta_dr.Prelude.Exec.{Exec, Outcome, done, throw, abort}
use meta_dr.Types.{KvPair}
use meta_dr.Node.{Node}
use meta_dr.Replicator.{Surroundings}
use meta_dr.Api.Server
use meta_dr.Api.Server.{Result}
use meta_dr.Api.Server.Results.{AllSent, create-AllSent}
use meta_dr.Client.{sent_back}
use meta_dr.Wire.{Xdr, IsXdr, Load, loaded, ◌>>=◌, max_size}
use meta_dr.Wire.Codec.{long_string, save_kv_pair, load_kv_pair, save_result, load_result}
use meta_dr.Wire.Laws.{FitsPair, FitsResult, load-save_kv_pair, load-save_result}
use meta_dr.Wire.Calls.{Call}

pub data Request : Type 0 where
  create set : KvPair → Request
  remove get list : Text → Request

-- The method of the service.
unfoldable pub method : Surroundings → Request → Exec Node Result
method env r = elim r [
  | create arg ↦ Server.create env arg
  | remove arg ↦ Server.remove env arg
  | set arg ↦ Server.set env arg
  | get arg ↦ Server.get arg
  | list arg ↦ Server.list arg
]

abbrev pub kv_store_api : ℕ
kv_store_api = 1074036870

module _ (x : Xdr) where
  unfoldable pub create_call : KvPair → Call
  unfolding save_kv_pair
  create_call arg = record { program = kv_store_api; proc = 1; args = save_kv_pair x arg [] }

  unfoldable pub remove_call : Text → Call
  remove_call arg = record { program = kv_store_api; proc = 2; args = (long_string x).save arg [] }

  unfoldable pub set_call : KvPair → Call
  unfolding save_kv_pair
  set_call arg = record { program = kv_store_api; proc = 3; args = save_kv_pair x arg [] }

  unfoldable pub get_call : Text → Call
  get_call arg = record { program = kv_store_api; proc = 4; args = (long_string x).save arg [] }

  unfoldable pub list_call : Text → Call
  list_call arg = record { program = kv_store_api; proc = 5; args = (long_string x).save arg [] }

  unfoldable pub request_call : Request → Call
  unfolding create_call remove_call set_call get_call list_call
  request_call r = elim r [
    | create arg ↦ create_call arg
    | remove arg ↦ remove_call arg
    | set arg ↦ set_call arg
    | get arg ↦ get_call arg
    | list arg ↦ list_call arg
  ]

  unfoldable pub api_dispatch : ℕ → Load Request
  unfolding load_kv_pair
  api_dispatch proc args =
      if proc == 1
      then (do arg ← load_kv_pair x; loaded (create arg)) args
      else if proc == 2
      then (do arg ← (long_string x).load; loaded (remove arg)) args
      else if proc == 3
      then (do arg ← load_kv_pair x; loaded (set arg)) args
      else if proc == 4
      then (do arg ← (long_string x).load; loaded (get arg)) args
      else if proc == 5
      then (do arg ← (long_string x).load; loaded (list arg)) args
      else none

  -- The bytes of a reply, if there is a result.
  abbrev pub reply : Outcome Result × Node → Option Text × Node
  reply o = (elim o.0 [ done r ↦ some (save_result x r []) | _ ↦ none ], o.1)

  -- The first listener, which has one service.
  unfoldable pub serve_api : Surroundings → Call → Node → Option Text × Node
  unfolding api_dispatch save_result
  serve_api env c n =
      if c.program == kv_store_api
      then elim (api_dispatch c.proc c.args) [
        | none ↦ (none, n)
        | some r ↦ reply (method env r.0 n)
      ]
      else (none, n)

  -- What the client makes of the bytes.
  abbrev pub read_reply : Option Text × Node → Option Result × Node
  read_reply o = (
    elim o.0 [
      | none ↦ none
      | some bytes ↦ elim (load_result x bytes) [ none ↦ none | some r ↦ some r.0 ]
    ],
    o.1,
  )

  -- A call from the client to the server and back.
  unfoldable pub call : Surroundings → Request → Node → Option Result × Node
  unfolding request_call serve_api load_result
  call env r n = read_reply (serve_api env (request_call r) n)

-- The argument is in the bounds of its type.
abbrev pub FitsRequest : Request → Type 0
FitsRequest r = elim r [
  | create arg ↦ FitsPair arg
  | remove arg ↦ length arg ≤ max_size
  | set arg ↦ FitsPair arg
  | get arg ↦ length arg ≤ max_size
  | list arg ↦ length arg ≤ max_size
]

-- The result, if there is one, is in the bounds of its type.
abbrev pub FitsOutcome : Outcome Result → Type 0
FitsOutcome (done r) = FitsResult r
FitsOutcome (throw e) = Unit
FitsOutcome abort = Unit

-- The results of `create` are errors, which always fit.
pub create-FitsOutcome :
    (env : Surroundings) (arg : KvPair) (n : Node) → FitsOutcome (method env (create arg) n).0
unfolding method
create-FitsOutcome env arg n = fits (Server.create env arg n) (
    create-AllSent FitsResult
      (record {
        checked = record { not_primary = tt; malformed = tt };
        ok = tt;
        no_quorum = tt;
        not_normal = tt;
      })
      env arg n tt tt)
  where
    fits : (o : Outcome Result × Node) → AllSent FitsResult o → FitsOutcome o.0
    fits (done r, m) h = h
    fits (throw e, m) h = tt
    fits (abort, m) h = tt

module _ (x : Xdr) (l : IsXdr x) where
  served :
      (env : Surroundings) (r : Request) (n : Node)
      → FitsRequest r
      → serve_api x env (request_call x r) n ≡ reply x (method env r n)
  unfolding serve_api request_call api_dispatch
  served env (create arg) n h = ground (arith, load-save_kv_pair x l arg [] h)
  served env (set arg) n h = ground (arith, load-save_kv_pair x l arg [] h)
  served env (remove arg) n h = ground (arith, l.string max_size (omega arith) arg [] h)
  served env (get arg) n h = ground (arith, l.string max_size (omega arith) arg [] h)
  served env (list arg) n h = ground (arith, l.string max_size (omega arith) arg [] h)

  read_reply-reply :
      (o : Outcome Result × Node) → FitsOutcome o.0 → read_reply x (reply x o) ≡ sent_back o
  read_reply-reply (done r, n) h = rw (load-save_result x l r [] h) refl
  read_reply-reply (throw e, n) h = refl
  read_reply-reply (abort, n) h = refl

  -- A call over the wire is a call of the method: with archives that read back what they write, an
  -- argument in the bounds of its type, and a result in its bounds, the client gets the result that
  -- the method returned, none if it did not return, and the server is in the state that the method
  -- left.
  pub call-method :
      (env : Surroundings) (r : Request) (n : Node)
      → FitsRequest r
      → FitsOutcome (method env r n).0
      → call x env r n ≡ sent_back (method env r n)
  unfolding call
  call-method env r n h k =
      ap (read_reply x) (served env r n h) ∙ read_reply-reply (method env r n) k
