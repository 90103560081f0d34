-- ===== src/Bindings/Python/Tasks.antt =====
-- The files that the Python binding works on, and what the operating system and the compressors answer
-- (apps/python/src/lib.rs).
use air_ferry.Prelude.{
  ℕ, ◌+◌, Bool, true, false, ltb, List, length, take, drop, Option, none, some, Result, ok, err,
  String, ◌≡◌, refl, ap, if◌then◌else◌,
}
use air_ferry.Protocol.Stream.{Files}

pub data NativeError : Type 0 where
  io : String → NativeError
  value : String → NativeError

-- A time, in nanoseconds before or after the epoch.
pub data Time : Type 0 where
  before : ℕ → Time
  since : ℕ → Time

pub record Metadata : Type 0 where
  pub is_file : Bool
  pub size : ℕ
  pub modified : Result String Time

-- A call that can fail is an option: its error, or none.
pub record Disk : Type 0 where
  pub file_name : List ℕ → Option (List ℕ)
  pub to_str : List ℕ → Option (List ℕ)
  pub parent : List ℕ → Option (List ℕ)
  pub join : (folder name : List ℕ) → List ℕ
  pub canonicalize : List ℕ → Result String (List ℕ)
  pub open_fails : List ℕ → Option String
  pub read_fails : List ℕ → Option String
  pub create_fails : List ℕ → Option String
  pub write_fails : (written chunk : List ℕ) → Option String
  pub flush_fails : List ℕ → Option String
  pub metadata_fails : List ℕ → Option String
  pub remove_fails : List ℕ → Option String
  pub rename_fails : (from to : List ℕ) → Option String
  -- What a compressor writes before it ends.
  pub zstd_encoder : List ℕ → List ℕ × Result String (Unit {0})
  pub xz_encoder : List ℕ → List ℕ × Result String (Unit {0})

-- A step of work on the files: the files after it, and its value or the error that ends the work.
abbrev pub Task : Type 0 → Type 0
Task A = Files → Files × Result NativeError A

module _ {A B : Type 0} where
  unfoldable pub followed :
      (A → Task B) → Files × Result NativeError A → Files × Result NativeError B
  followed rest (files, err e) = (files, err e)
  followed rest (files, ok a) = rest a files

  infixl 5 ◌>>=◌
  abbrev pub ◌>>=◌ : Task A → (A → Task B) → Task B
  ◌>>=◌ task rest files = followed rest (task files)

  -- A task that went well consists of two that did.
  pub >>=-eq-ok :
      (task : Task A) (rest : A → Task B) (files after : Files) (b : B)
      → (task >>= rest) files ≡ (after, ok b)
      → (between : Files) × (a : A) × (task files ≡ (between, ok a))
        × (rest a between ≡ (after, ok b))
  unfolding followed
  >>=-eq-ok task rest files after b done = through (task files) refl done
    where
      through :
          (end : Files × Result NativeError A)
          → task files ≡ end
          → followed rest end ≡ (after, ok b)
          → (between : Files) × (a : A) × (task files ≡ (between, ok a))
            × (rest a between ≡ (after, ok b))
      through (between, err e) same h =
          let no_value : ◌≡◌ {A = Result NativeError B} (err e) (ok b) =
            ap (λ (p : Files × Result NativeError B). p.1) h in
          cc
      through (between, ok a) same h = (between, a, same, h)

infixl 5 ◌>>◌
abbrev pub ◌>>◌ : {B : Type 0} → Task (Unit {0}) → Task B → Task B
task >> rest = task >>= λ u. rest

module _ {A : Type 0} where
  abbrev pub done : A → Task A
  done a files = (files, ok a)

  abbrev pub fail : NativeError → Task A
  fail e files = (files, err e)

  -- A result that touches no file.
  abbrev pub lift : Result NativeError A → Task A
  lift r files = (files, r)

abbrev pub check : Option String → Task (Unit {0})
check none files = (files, ok tt)
check (some e) files = (files, err (io e))

abbrev pub reject_when : Bool → String → Task (Unit {0})
reject_when true e files = (files, err (value e))
reject_when false e files = (files, ok tt)

module _ (disk : Disk) where
  unfoldable pub content : Files → List ℕ → Result NativeError (List ℕ)
  content files path = elim (disk.open_fails path) [
    | some e ↦ err (io e)
    | none ↦ elim (files path) [ none ↦ err (io "not found") | some bytes ↦ ok bytes ]
  ]

  unfoldable pub all_of : List ℕ → (path : List ℕ) → Result NativeError (List ℕ)
  all_of bytes path = elim (disk.read_fails path) [ some e ↦ err (io e) | none ↦ ok bytes ]

  -- `seek` and `read_exact` on an opened file.
  unfoldable pub exact :
      (path : List ℕ) → (offset n : ℕ) → Result NativeError (List ℕ) → Result NativeError (List ℕ)
  exact path offset n (err e) = err e
  exact path offset n (ok bytes) = elim (disk.read_fails path) [
    | some e ↦ err (io e)
    | none ↦
        if ltb (length bytes) (offset + n)
        then err (io "failed to fill whole buffer")
        else ok (take n (drop offset bytes))
  ]

  unfoldable pub read_range : Files → (path : List ℕ) → (offset n : ℕ) → Result NativeError (List ℕ)
  read_range files path offset n = exact path offset n (content files path)
