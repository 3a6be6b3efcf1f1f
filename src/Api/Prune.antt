-- ===== src/Api/Prune.antt =====
-- What `pruneKey` does to a key.
use meta_dr.Prelude.{
  ℕ, ◌+◌, ◌-◌, ◌≡◌, ◌≢◌, refl, sym, ap, ◌∙◌, Bool, true, false, ◌&&◌, some, [], ◌∷◌, ◌++◌, arith,
  ◌==◌, nat_eq, if◌then◌else◌, length, length-append, Text, Bool-cases, inl, inr, none, ◌⊎◌,
}
use mathlib.Core.List.{append-nil, append_assoc}
use meta_dr.Api.{slash, prune_loop, prune_key, contains}

-- No two slashes side by side.
abbrev pub IsSingle : Text → Type 0
IsSingle [] = Unit
IsSingle (c ∷ []) = Unit
IsSingle (c ∷ d ∷ s) = (c == slash && d == slash ≡ false) × IsSingle (d ∷ s)

abbrev ends_in_slash : Text → Bool
ends_in_slash [] = false
ends_in_slash (c ∷ []) = c == slash
ends_in_slash (c ∷ d ∷ s) = ends_in_slash (d ∷ s)

-- A key with single slashes, the last of them at the index `last`.
pub record IsPruned (key : Text) (last : ℕ) : Type 0 where
  pub parent : Text
  pub leaf : Text
  pub split : key ≡ parent ++ slash ∷ leaf
  pub index : length parent ≡ last
  pub clean : contains slash leaf ≡ false
  pub single : IsSingle key

-- The characters other than slashes.
abbrev pub without_slashes : Text → Text
without_slashes [] = []
without_slashes (c ∷ s) = if c == slash then without_slashes s else c ∷ without_slashes s

IsSingle-snoc :
    (s : Text) (c : ℕ) → IsSingle s → ends_in_slash s && c == slash ≡ false → IsSingle (s ++ c ∷ [])
IsSingle-snoc [] c h e = tt
IsSingle-snoc (a ∷ []) c h e = (e, tt)
IsSingle-snoc (a ∷ b ∷ s) c h e = (h.0, IsSingle-snoc (b ∷ s) c h.1 e)

ends_in_slash-append :
    (s : Text) (c : ℕ) (t : Text) → ends_in_slash (s ++ c ∷ t) ≡ ends_in_slash (c ∷ t)
ends_in_slash-append [] c t = refl
ends_in_slash-append (a ∷ []) c t = refl
ends_in_slash-append (a ∷ b ∷ s) c t = ends_in_slash-append (b ∷ s) c t

ends_in_slash-clean :
    (c : ℕ) (s : Text) → contains slash (c ∷ s) ≡ false → ends_in_slash (c ∷ s) ≡ false
ends_in_slash-clean c [] h = ground arith
ends_in_slash-clean c (d ∷ s) h = ends_in_slash-clean d s (ground arith)

contains-snoc :
    (c : ℕ) (s : Text)
    → contains slash s ≡ false
    → (c == slash) ≡ false
    → contains slash (s ++ c ∷ []) ≡ false
contains-snoc c [] h e = ground arith
contains-snoc c (a ∷ s) h e = ground (arith, contains-snoc c s)

without_slashes-append :
    (s t : Text) → without_slashes (s ++ t) ≡ without_slashes s ++ without_slashes t
without_slashes-append [] t = refl
without_slashes-append (c ∷ s) t = ground (arith, without_slashes-append s t)

-- A slash after a key whose last slash is not its last character.
IsPruned-slash :
    (kept : Text) (last : ℕ)
    → IsPruned kept last
    → last ≢ length kept - 1
    → IsPruned (kept ++ slash ∷ []) (length kept)
IsPruned-slash kept last p ne = go p.leaf p.split p.clean
  where
    go :
        (leaf : Text)
        → kept ≡ p.parent ++ slash ∷ leaf
        → contains slash leaf ≡ false
        → IsPruned (kept ++ slash ∷ []) (length kept)
    go [] e h =
        absurd (ne (omega (arith, p.index, ap length e, length-append p.parent (slash ∷ []))))
    go (c ∷ s) e h = record {
      parent = kept;
      leaf = [];
      split = refl;
      index = refl;
      clean = refl;
      single =
          IsSingle-snoc kept slash p.single
            (rw (e, ends_in_slash-append p.parent slash (c ∷ s), ends_in_slash-clean c s h) refl);
    }

and_false : (a b : Bool) → b ≡ false → a && b ≡ false
and_false a b h = ground arith

IsPruned-other :
    (kept : Text) (last c : ℕ)
    → IsPruned kept last
    → (c == slash) ≡ false
    → IsPruned (kept ++ c ∷ []) last
IsPruned-other kept last c p ne = record {
  parent = p.parent;
  leaf = p.leaf ++ c ∷ [];
  split = ap (λ (t : Text). t ++ c ∷ []) p.split ∙ append_assoc p.parent (slash ∷ p.leaf) (c ∷ []);
  index = p.index;
  clean = contains-snoc c p.leaf p.clean ne;
  single = IsSingle-snoc kept c p.single (and_false (ends_in_slash kept) (c == slash) ne);
}

module _ (kept : Text) (i last c : ℕ) (rest : Text) where
  prune_loop-erased :
      (c == slash) ≡ true
      → (last == i - 1) ≡ true
      → prune_loop kept i last (c ∷ rest) ≡ prune_loop kept i last rest
  unfolding prune_loop
  prune_loop-erased p q = rw (p, q)

  prune_loop-slash :
      (c == slash) ≡ true
      → (last == i - 1) ≡ false
      → prune_loop kept i last (c ∷ rest) ≡ prune_loop (kept ++ c ∷ []) (i + 1) i rest
  unfolding prune_loop
  prune_loop-slash p q = rw (p, q)

  prune_loop-other :
      (c == slash) ≡ false
      → prune_loop kept i last (c ∷ rest) ≡ prune_loop (kept ++ c ∷ []) (i + 1) last rest
  unfolding prune_loop
  prune_loop-other p = rw p

  without_slashes-moved :
      without_slashes (kept ++ c ∷ []) ++ without_slashes rest
      ≡ without_slashes kept ++ without_slashes (c ∷ rest)
  without_slashes-moved = rw (without_slashes-append kept (c ∷ []), append_assoc) (ground arith)

-- A pruned key and the characters that it keeps.
abbrev Prunes : Text × ℕ → Text → Type 0
Prunes r chars = IsPruned r.0 r.1 × (without_slashes r.0 ≡ chars)

prune_loop-IsPruned :
    (kept : Text) (i last : ℕ) (rest : Text)
    → i ≡ length kept
    → IsPruned kept last
    → Prunes (prune_loop kept i last rest) (without_slashes kept ++ without_slashes rest)
prune_loop-IsPruned kept i last [] q p = unfold prune_loop in (p, sym (append-nil _))
prune_loop-IsPruned kept i last (c ∷ rest) q p = elim (Bool-cases (c == slash)) [
  | inr other ↦ rw (prune_loop-other kept i last c rest other) (
      moved last (
        prune_loop-IsPruned (kept ++ c ∷ []) (i + 1) last rest grown
          (IsPruned-other kept last c p other)))
  | inl at_slash ↦ elim (Bool-cases (last == i - 1)) [
    | inl double ↦
        rw (prune_loop-erased kept i last c rest at_slash double)
          (dropped (prune_loop-IsPruned kept i last rest q p) at_slash)
    | inr single ↦
        let e : c ≡ slash = ground arith in
        let p' : IsPruned (kept ++ c ∷ []) i =
          rw (e, q) (IsPruned-slash kept last p (ground arith)) in
        rw (prune_loop-slash kept i last c rest at_slash single)
          (moved i (prune_loop-IsPruned (kept ++ c ∷ []) (i + 1) i rest grown p'))
  ]
]
  where
    grown : i + 1 ≡ length (kept ++ c ∷ [])
    grown = omega (arith, length-append kept (c ∷ []))

    moved :
        (l : ℕ)
        → Prunes
            (prune_loop (kept ++ c ∷ []) (i + 1) l rest)
            (without_slashes (kept ++ c ∷ []) ++ without_slashes rest)
        → Prunes
            (prune_loop (kept ++ c ∷ []) (i + 1) l rest)
            (without_slashes kept ++ without_slashes (c ∷ rest))
    moved l r = (r.0, r.1 ∙ without_slashes-moved kept i last c rest)

    dropped :
        Prunes (prune_loop kept i last rest) (without_slashes kept ++ without_slashes rest)
        → (c == slash) ≡ true
        → Prunes (prune_loop kept i last rest) (without_slashes kept ++ without_slashes (c ∷ rest))
    dropped r h = (r.0, r.1 ∙ rw h)

-- `pruneKey` of a key that begins with a slash returns a key with no two slashes side by side and the
-- index of its last slash, and it drops no other character than slashes; for any other key its
-- assertion fails.
pub prune_key-IsPruned :
    (key : Text)
    → ((pruned : Text) × (last : ℕ) × (prune_key key ≡ some (pruned, last))
        × IsPruned pruned last
        × (without_slashes pruned ≡ without_slashes key))
      ⊎ ((prune_key key ≡ none) × ((rest : Text) → key ≢ slash ∷ rest))
unfolding prune_key
prune_key-IsPruned [] = inr (refl, λ rest e. cc)
prune_key-IsPruned (c ∷ rest) = elim (Bool-cases (c == slash)) [
  | inr other ↦ inr (rw other, λ rest' e. ground arith)
  | inl at_slash ↦
      let e : c ≡ slash = ground arith in
      let p : IsPruned (c ∷ []) 0 = record {
        parent = [];
        leaf = [];
        split = ap (λ (x : ℕ). x ∷ []) e;
        index = refl;
        clean = refl;
        single = tt;
      } in
      let (a, b) = prune_loop-IsPruned (c ∷ []) 1 0 rest refl p in
      inl (_, _, rw at_slash, a, b ∙ sym (without_slashes-append (c ∷ []) rest))
]
