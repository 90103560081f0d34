-- ===== src/Bindings/Python/Steps.antt =====
-- How the steps of `NativeTransfer::prepare` on files can end.
use air_ferry.Prelude.{ℕ, ◌≡◌, refl, List, [], length, Option, none, some, Result, ok, err, String}
use air_ferry.Protocol.Stream.{Files, put_file}
use air_ferry.Bindings.Python.Tasks.{io, Disk, Task, followed, ◌>>=◌, ◌>>◌, content}
use air_ferry.Bindings.Python.Outcomes.{Ends}
use air_ferry.Bindings.Python.Spool.{create_new, size_of, open_all, remove, rename, encoded}

module _ {B : Type 0} (Failed : Files → Type 0) (Done : Files → B → Type 0) (disk : Disk) where
  pub create_new-Ends :
      (path : List ℕ) (rest : Task B) (files : Files)
      → Failed files
      → (files path ≡ none → Ends Failed Done (rest (put_file files path (some []))))
      → Ends Failed Done ((create_new disk path >> rest) files)
  unfolding followed create_new
  create_new-Ends path rest files failed next = asked (disk.create_fails path) (files path) next
    where
      asked :
          (fails : Option String) (there : Option (List ℕ))
          → (there ≡ none → Ends Failed Done (rest (put_file files path (some []))))
          → Ends Failed Done (
              followed
                (λ (u : Unit {0}). rest)
                (elim fails [
                  | some e ↦ (files, err (io e))
                  | none ↦ elim there [
                    | some old ↦ (files, err (io "File exists"))
                    | none ↦ (put_file files path (some []), ok tt)
                  ]
                ]))
      asked (some e) there next = failed
      asked none (some old) next = failed
      asked none none next = next refl

  pub size_of-Ends :
      (path : List ℕ) (rest : ℕ → Task B) (files : Files)
      → Failed files
      → ((bytes : List ℕ) → files path ≡ some bytes → Ends Failed Done (rest (length bytes) files))
      → Ends Failed Done ((size_of disk path >>= rest) files)
  unfolding followed size_of
  size_of-Ends path rest files failed next = asked (disk.metadata_fails path) (files path) next
    where
      asked :
          (fails : Option String) (there : Option (List ℕ))
          → ((bytes : List ℕ) → there ≡ some bytes → Ends Failed Done (rest (length bytes) files))
          → Ends Failed Done (
              followed rest (elim fails [
                | some e ↦ (files, err (io e))
                | none ↦ elim there [
                  | none ↦ (files, err (io "not found"))
                  | some bytes ↦ (files, ok (length bytes))
                ]
              ]))
      asked (some e) there next = failed
      asked none none next = failed
      asked none (some bytes) next = next bytes refl

  pub open_all-Ends :
      (path : List ℕ) (rest : List ℕ → Task B) (files : Files)
      → Failed files
      → ((bytes : List ℕ) → files path ≡ some bytes → Ends Failed Done (rest bytes files))
      → Ends Failed Done ((open_all disk path >>= rest) files)
  unfolding followed open_all content
  open_all-Ends path rest files failed next = asked (disk.open_fails path) (files path) next
    where
      asked :
          (fails : Option String) (there : Option (List ℕ))
          → ((bytes : List ℕ) → there ≡ some bytes → Ends Failed Done (rest bytes files))
          → Ends Failed Done (
              followed rest (
                files,
                elim fails [
                  | some e ↦ err (io e)
                  | none ↦ elim there [ none ↦ err (io "not found") | some bytes ↦ ok bytes ]
                ],
              ))
      asked (some e) there next = failed
      asked none none next = failed
      asked none (some bytes) next = next bytes refl

  pub remove-Ends :
      (path : List ℕ) (rest : Task B) (files : Files)
      → Failed files
      → Ends Failed Done (rest (put_file files path none))
      → Ends Failed Done ((remove disk path >> rest) files)
  unfolding followed remove
  remove-Ends path rest files failed next = asked (disk.remove_fails path) (files path)
    where
      asked :
          (fails : Option String) (there : Option (List ℕ))
          → Ends Failed Done (
              followed
                (λ (u : Unit {0}). rest)
                (elim fails [
                  | some e ↦ (files, err (io e))
                  | none ↦ elim there [
                    | none ↦ (files, err (io "not found"))
                    | some bytes ↦ (put_file files path none, ok tt)
                  ]
                ]))
      asked (some e) there = failed
      asked none none = failed
      asked none (some bytes) = next

  pub rename-Ends :
      (from to : List ℕ) (rest : Task B) (files : Files)
      → Failed files
      → ((bytes : List ℕ)
          → files from ≡ some bytes
          → Ends Failed Done (rest (put_file (put_file files from none) to (some bytes))))
      → Ends Failed Done ((rename disk from to >> rest) files)
  unfolding followed rename
  rename-Ends from to rest files failed next = asked (disk.rename_fails from to) (files from) next
    where
      asked :
          (fails : Option String) (there : Option (List ℕ))
          → ((bytes : List ℕ)
              → there ≡ some bytes
              → Ends Failed Done (rest (put_file (put_file files from none) to (some bytes))))
          → Ends Failed Done (
              followed
                (λ (u : Unit {0}). rest)
                (elim fails [
                  | some e ↦ (files, err (io e))
                  | none ↦ elim there [
                    | none ↦ (files, err (io "not found"))
                    | some bytes ↦ (put_file (put_file files from none) to (some bytes), ok tt)
                  ]
                ]))
      asked (some e) there next = failed
      asked none none next = failed
      asked none (some bytes) next = next bytes refl

  -- The candidate has what the compressor wrote, whether or not it ended well.
  pub encoded-Ends :
      (candidate : List ℕ) (end : List ℕ × Result String (Unit {0})) (rest : Task B) (files : Files)
      → ((out : List ℕ) → Failed (put_file files candidate (some out)))
      → ((out : List ℕ)
          → end ≡ (out, ok tt)
          → Ends Failed Done (rest (put_file files candidate (some out))))
      → Ends Failed Done ((encoded candidate end >> rest) files)
  unfolding followed encoded
  encoded-Ends candidate (out, err e) rest files failed next = failed out
  encoded-Ends candidate (out, ok u) rest files failed next = next out refl
