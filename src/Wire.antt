-- ===== src/Wire.antt =====
-- The structs of include/kvStore.hh, server/vrTypes.hh, server/vsReplication.hh, server/viewChange.hh
-- and server/recovery.hh as bytes: their `save` and `load`, over the archives of the RPC library,
-- which are the parameter `Xdr`.
pub mod Codec
pub mod Calls
pub mod Laws
pub mod Messages
pub mod Delivery
pub mod Api
use meta_dr.Prelude.{
  ℕ, ◌-◌, ◌^◌, ◌<◌, ◌≤◌, ◌≡◌, Bool, Option, none, some, List, [], ◌∷◌, Text, All, length,
}

-- What `archive` does with a value: its bytes come before what is written after it.
pub record Archive (A : Type 0) : Type 0 where
  pub save : A → Text → Text
  pub load : Text → Option (A × Text)

-- The archives of the library: `string` for an `xstring` with its bound, `array` for an `xvector`.
pub record Xdr : Type 1 where
  pub u32 : Archive ℕ
  pub u64 : Archive ℕ
  pub bool : Archive Bool
  pub string : ℕ → Archive Text
  pub array : {A : Type 0} → Archive A → Archive (List A)

-- The values of which `P` holds are read back.
abbrev pub ReadsBack : {A : Type 0} → Archive A → (A → Type 0) → Type 0
ReadsBack {A} c P = (a : A) (rest : Text) → P a → c.load (c.save a rest) ≡ some (a, rest)

-- The bound of `xstring<>` and `xvector<>`.
abbrev pub max_size : ℕ
max_size = 2 ^ 32 - 1

-- What RFC 4506 says of the archives.
pub record IsXdr (x : Xdr) : Type 1 where
  pub u32 : ReadsBack x.u32 (λ n. n < 2 ^ 32)
  pub u64 : ReadsBack x.u64 (λ n. n < 2 ^ 64)
  pub bool : ReadsBack x.bool (λ b. Unit)
  pub string : (bound : ℕ) → bound ≤ max_size → ReadsBack (x.string bound) (λ s. length s ≤ bound)
  pub array :
      {A : Type 0} (c : Archive A) (P : A → Type 0)
      → ReadsBack c P
      → ReadsBack (x.array c) (λ xs. (length xs ≤ max_size) × All P xs)

-- A `load`, which throws for `none`.
abbrev pub Load : Type 0 → Type 0
Load A = Text → Option (A × Text)

module _ {A : Type 0} where
  abbrev pub loaded : A → Load A
  loaded a s = some (a, s)

module _ {A B : Type 0} where
  infixl 10 ◌>>=◌
  abbrev pub ◌>>=◌ : Load A → (A → Load B) → Load B
  ◌>>=◌ m f s = elim (m s) [ none ↦ none | some p ↦ f p.0 p.1 ]
