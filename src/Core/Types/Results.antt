-- ===== src/Core/Types/Results.antt =====
-- crates/huginn-core/src/types.rs: the form of the results that the constructors of `ProbeResult`
-- build.
use huginn_io.Prelude.{ℕ, ◌≡◌, Bool, true, false, Option, none, some, Text, if◌then◌else◌, text_eq}
use huginn_io.Core.Platform.{Platform}
use huginn_io.Core.BTree
use huginn_io.Core.BTree.Laws
use huginn_io.Core.BTree.Laws.{IsSorted}
use huginn_io.Core.Types.Escape.{IsPlain, escape_control_chars-IsPlain}
use huginn_io.Core.Types.{ProbeResult, success, failure, with_metric}

-- The verdict and the fields that go with it: an error exactly on a failure, in printable
-- characters, and a status code on a success only.
abbrev pub Verdict : Bool → Option ℕ → Option Text → Type 0
Verdict true status none = Unit {0}
Verdict true status (some e) = ⊥
Verdict false none (some e) = IsPlain e
Verdict false _ _ = ⊥

pub record IsWellFormed {p : Platform} (r : ProbeResult p) : Type 0 where
  pub verdict : Verdict r.up r.status_code r.error
  pub sorted : IsSorted r.metrics

module _ {p : Platform} where
  pub success-IsWellFormed :
      (now : p.Timestamp) (name kind target : Text) (ms : p.F64) (status : Option ℕ)
      → IsWellFormed (success {p = p} now name kind target ms status)
  unfolding success
  success-IsWellFormed now name kind target ms status = record { verdict = tt; sorted = tt }

  pub failure-IsWellFormed :
      (now : p.Timestamp) (name kind target : Text) (ms : p.F64) (error : Text)
      → IsWellFormed (failure {p = p} now name kind target ms error)
  unfolding failure
  failure-IsWellFormed now name kind target ms error = record {
    verdict = escape_control_chars-IsPlain error;
    sorted = tt;
  }

  pub with_metric-IsWellFormed :
      (r : ProbeResult p) (key : Text) (value : p.F64)
      → IsWellFormed r
      → IsWellFormed (with_metric r key value)
  unfolding with_metric
  with_metric-IsWellFormed r key value w = record {
    verdict = w.verdict;
    sorted = Laws.insert-IsSorted key value r.metrics w.sorted;
  }

  -- After with_metric the new reading is found under its key, and any other key finds what it found
  -- before.
  pub lookup-with_metric :
      (r : ProbeResult p) (key k : Text) (value : p.F64)
      → BTree.lookup k (with_metric r key value).metrics
        ≡ (if text_eq key k then some value else BTree.lookup k r.metrics)
  unfolding with_metric
  lookup-with_metric r key k value = Laws.lookup-insert key k value r.metrics
