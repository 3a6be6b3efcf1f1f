-- ===== src/Api/Server/Lists.antt =====
-- server/kvStoreImpl.cc, `list`: what a client is told of the keys below a key.
use meta_dr.Prelude.{
  ℕ, ◌≡◌, refl, sym, ap, ◌∙◌, true, some, List, [], ◌∷◌, ◌++◌, ◌==◌, nat_eq, text_eq, text_beq_iff,
  Text, arith, inl, inr, Bool-cases,
}
use meta_dr.Prelude.Dict.{has}
use meta_dr.Prelude.Exec.{done}
use meta_dr.Types.{Error}
use meta_dr.MemStore.{has_key}
use meta_dr.Node.{Node}
use meta_dr.Replicator.{is_primary}
use meta_dr.Api.{slash, check_key_format, prune_key, list_keys, listed}
use meta_dr.Api.Listing.{IsChild, listed-child}
use meta_dr.Api.Children.{elem, IsKey, elem-list_keys, listed-IsChild, last_slash-IsChild}
use meta_dr.Api.Server.{keys, list, list_children, leaves, with_key, if_primary}

-- Every key is below some key.
record Below (key : Text) : Type 0 where
  parent : Text
  child : IsChild parent key

-- The last components of the keys `ks`.
record Leaves (ks ls : List Text) : Type 0 where
  all : (q key : Text) (c : IsChild q key) → elem key ks ≡ true → elem c.leaf ls ≡ true
  only :
      (leaf : Text)
      → elem leaf ls ≡ true
      → (q : Text) × (key : Text) × (c : IsChild q key) × (elem key ks ≡ true) × (c.leaf ≡ leaf)

leaves-Leaves :
    (ks : List Text)
    → ((key : Text) → elem key ks ≡ true → Below key)
    → (ls : List Text) × (leaves ks ≡ some ls) × Leaves ks ls
unfolding leaves
leaves-Leaves [] h =
    ([], refl, record { all = λ q key c e. ground arith; only = λ leaf e. absurd (ground arith) })
leaves-Leaves (k ∷ ks) h =
    let b = h k (ground (arith, text_beq_iff k k)) in
    let (ls, run, d) = leaves-Leaves ks (λ key e. h key (ground arith)) in
    let l = last_slash-IsChild b.parent k b.child in
    (
      b.child.leaf ∷ ls,
      ground (arith, l, run),
      record {
        all = λ q key c e. ground (
          arith,
          text_beq_iff k key,
          text_beq_iff b.child.leaf c.leaf,
          l,
          last_slash-IsChild q key c,
          d.all q key c,
        );
        only = λ leaf e. elim (Bool-cases (b.child.leaf == leaf)) [
          | inl q ↦ (
            b.parent,
            k,
            b.child,
            ground (arith, text_beq_iff k k),
            (text_beq_iff b.child.leaf leaf).0 q,
          )
          | inr q ↦
              let (q', key, c, there, same) = d.only leaf (ground arith) in
              (q', key, c, ground arith, same)
        ];
      },
    )

-- Every key of the replica's map has the form of a key.
abbrev pub HasKeys : Node → Type 0
HasKeys n = (key : Text) → has key n.kv ≡ true → IsKey key

-- `ls` has the last component of every child of `parent`, and only last components of children of keys
-- that end in `parent`.
pub record Lists (parent : Text) (n : Node) (ls : List Text) : Type 0 where
  pub complete : (key : Text) (c : IsChild parent key) → has key n.kv ≡ true → elem c.leaf ls ≡ true
  pub sound :
      (leaf : Text)
      → elem leaf ls ≡ true
      → (pre : Text) × (key : Text) × (c : IsChild (pre ++ parent) key) × (has key n.kv ≡ true)
        × (c.leaf ≡ leaf)

list_children-Lists :
    (parent : Text) (n : Node)
    → HasKeys n
    → (ls : List Text) × (list_children parent n ≡ (done (keys ls), n)) × Lists parent n ls
unfolding list_children
list_children-Lists parent n h =
    let p = parent ++ slash ∷ [] in
    let ks = list_keys p slash n.kv in
    let kept : (key : Text)
        → elem key ks ≡ true
        → (has key n.kv ≡ true) × (listed p slash key ≡ true) =
      λ key e. (
        ground (arith, elem-list_keys key p slash n.kv),
        ground (arith, elem-list_keys key p slash n.kv),
      ) in
    let child : (key : Text) → elem key ks ≡ true → (pre : Text) × IsChild (pre ++ parent) key =
      λ key e. listed-IsChild parent key (h key (kept key e).0) (kept key e).1 in
    let (ls, run, d) =
      leaves-Leaves ks
        (λ key e. record { parent = (child key e).0 ++ parent; child = (child key e).1 }) in
    (
      ls,
      ground (arith, run),
      record {
        complete = λ key c there.
            d.all parent key c
              (elem-list_keys key p slash n.kv ∙ ground (arith, listed-child parent key c));
        sound = λ leaf e.
            let (q, key, c, there, same) = d.only leaf e in
            let (pre, c') = child key there in
            (
              pre,
              key,
              c',
              (kept key there).0,
              ground (arith, last_slash-IsChild q key c, last_slash-IsChild (pre ++ parent) key c'),
            );
      },
    )

-- The key that `list` looks below: the root for a slash, and otherwise the pruned key, which is there.
pub data Looks (arg parent : Text) (n : Node) : Type 0 where
  at_root : arg ≡ slash ∷ [] → parent ≡ [] → Looks arg parent n
  at_key :
      (last : ℕ)
      → check_key_format arg ≡ Error.none
      → prune_key arg ≡ some (parent, last)
      → has_key parent n.kv ≡ true
      → Looks arg parent n

at_root_lem :
    (arg : Text) (n : Node)
    → is_primary n ≡ true
    → arg ≡ slash ∷ []
    → list arg n ≡ list_children [] n
unfolding list if_primary
at_root_lem arg n primary e = rw (primary, e) refl

at_key_lem :
    (arg parent : Text) (last : ℕ) (n : Node)
    → is_primary n ≡ true
    → check_key_format arg ≡ Error.none
    → prune_key arg ≡ some (parent, last)
    → has_key parent n.kv ≡ true
    → list arg n ≡ list_children parent n
unfolding list if_primary with_key
at_key_lem arg parent last n primary ok p there = elim (Bool-cases (arg == slash ∷ [])) [
  | inl root ↦
      absurd (refused (ap check_key_format (sym ((text_beq_iff arg (slash ∷ [])).0 root)) ∙ ok))
  | inr other ↦ rw (primary, other, with_key, ok, p, there) refl
]
  where
    refused : check_key_format (slash ∷ []) ≡ Error.none → ⊥
    refused q = unfold check_key_format in cc

-- On a primary whose keys have the form of keys, `list` of the root or of a key that is there returns,
-- with no failed assertion, and changes nothing. The result has the last component of every child
-- of the key, and no others but those of children of keys that end in the same text.
pub list-Lists :
    (arg parent : Text) (n : Node)
    → is_primary n ≡ true
    → HasKeys n
    → Looks arg parent n
    → (ls : List Text) × (list arg n ≡ (done (keys ls), n)) × Lists parent n ls
list-Lists arg parent n primary h (at_root e f) =
    let (ls, run, d) = list_children-Lists parent n h in
    (ls, at_root_lem arg n primary e ∙ ap (λ (t : Text). list_children t n) (sym f) ∙ run, d)
list-Lists arg parent n primary h (at_key last ok p there) =
    let (ls, run, d) = list_children-Lists parent n h in
    (ls, at_key_lem arg parent last n primary ok p there ∙ run, d)
