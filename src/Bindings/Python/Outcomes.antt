-- ===== src/Bindings/Python/Outcomes.antt =====
-- How a task on files can end: rules for what holds of the files after it, with a value or with an error.
use air_ferry.Prelude.{◌≡◌, refl, Bool, true, false, Option, none, some, Result, ok, err, String}
use air_ferry.Protocol.Stream.{Files}
use air_ferry.Bindings.Python.Tasks.{
  NativeError, Task, followed, ◌>>=◌, ◌>>◌, lift, check, reject_when,
}

-- Of an error's files one predicate holds, and of a value and its files another.
abbrev pub Ends :
    {A : Type 0} → (Files → Type 0) → (Files → A → Type 0) → Files × Result NativeError A → Type 0
Ends Failed Done (files, err e) = Failed files
Ends Failed Done (files, ok a) = Done files a

module _ {A B : Type 0} (Failed : Files → Type 0) (Done : Files → B → Type 0) where
  pub >>=-Ends :
      (Between : Files → A → Type 0) (task : Task A) (rest : A → Task B) (files : Files)
      → Ends Failed Between (task files)
      → ((between : Files) (a : A) → Between between a → Ends Failed Done (rest a between))
      → Ends Failed Done ((task >>= rest) files)
  unfolding followed
  >>=-Ends Between task rest files first next = through (task files) first
    where
      through :
          (end : Files × Result NativeError A)
          → Ends Failed Between end
          → Ends Failed Done (followed rest end)
      through (between, err e) h = h
      through (between, ok a) h = next between a h

  pub lift-Ends :
      (r : Result NativeError A) (rest : A → Task B) (files : Files)
      → Failed files
      → ((a : A) → r ≡ ok a → Ends Failed Done (rest a files))
      → Ends Failed Done ((lift r >>= rest) files)
  unfolding followed
  lift-Ends (err e) rest files failed next = failed
  lift-Ends (ok a) rest files failed next = next a refl

module _ {B : Type 0} (Failed : Files → Type 0) (Done : Files → B → Type 0) where
  pub reject_when-Ends :
      (bad : Bool) (e : String) (rest : Task B) (files : Files)
      → Failed files
      → (bad ≡ false → Ends Failed Done (rest files))
      → Ends Failed Done ((reject_when bad e >> rest) files)
  unfolding followed
  reject_when-Ends true e rest files failed next = failed
  reject_when-Ends false e rest files failed next = next refl

  pub check-Ends :
      (fails : Option String) (rest : Task B) (files : Files)
      → Failed files
      → Ends Failed Done (rest files)
      → Ends Failed Done ((check fails >> rest) files)
  unfolding followed
  check-Ends (some e) rest files failed next = failed
  check-Ends none rest files failed next = next
