-- ===== src/Storage.antt =====
-- The files of the stores of crates/aichan-server/src/lib.rs. Each store keeps one JSON file, which
-- `load` reads and `save` replaces by writing a temporary file and renaming it, so that a failure
-- leaves the old file. The model's state is what the file parses to (nothing, if there is no file);
-- that `load` returns what was saved is serde's and the file system's part. The lock of a store is
-- held through a whole operation that writes.
use ai_channel.Prelude.{Option, none, some, Option-cases, inl, inr}
use ai_channel.Prelude.Text.{Text}
use ai_channel.Prelude.Result.{Result, ok, err}

-- Whether reading or replacing the file fails in one operation, and with what message.
pub record Faults : Type 0 where
  pub read_error : Option Text
  pub write_error : Option Text

abbrev pub no_faults : Faults
no_faults = record { read_error = none; write_error = none }

-- `load`
unfoldable pub load : {S : Type 0} → Faults → S → Result S
load faults contents = elim faults.read_error [ none ↦ ok contents | some e ↦ err e ]

-- `save`, and the status that the operation then returns
unfoldable pub save : {S A : Type 0} → Faults → S → S → A → Result A × S
save faults before after status = elim faults.write_error [
  | none ↦ (ok status, after)
  | some e ↦ (err e, before)
]

-- An operation on what `load` returned; where reading fails nothing changes.
unfoldable pub with_loaded : {S A : Type 0} → Faults → S → (S → Result A × S) → Result A × S
with_loaded faults contents body = elim faults.read_error [
  | none ↦ body contents
  | some e ↦ (err e, contents)
]

module _ {S A : Type 0} (Q : S → Type 0) (faults : Faults) where
  -- what holds of the contents before and of what is to be saved holds after
  pub save-keeps :
      (before after : S) (status : A) → Q before → Q after → Q (save faults before after status).1
  unfolding save
  save-keeps before after status b a = elim (Option-cases faults.write_error) [
    | inl e ↦ rw e a
    | inr (m, e) ↦ rw e b
  ]

  pub with_loaded-keeps :
      (contents : S) (body : S → Result A × S)
      → Q contents
      → Q (body contents).1
      → Q (with_loaded faults contents body).1
  unfolding with_loaded
  with_loaded-keeps contents body b a = elim (Option-cases faults.read_error) [
    | inl e ↦ rw e a
    | inr (m, e) ↦ rw e b
  ]
