-- ===== src/Tests/Storing.antt =====
-- The operations of src/cache.cpp that store, at the sample cache.
use xixi.CacheMgr.View.{entry}
use xixi.CacheMgr.Linking.{stamped, watch_ok}
use xixi.CacheMgr.Store as Store
use xixi.CacheMgr.Storing.{
  Outcome, set_reason, add_reason, replace_reason, set-Outcome, add-Outcome, replace-Outcome,
}
use xixi.CacheMgr.Removing.{Removal, remove_reason, remove-Removal}
use xixi.Tests.Sample.{letter, sample, sample-IsLinked, sample-IsReady}

set-Outcome_example :
    Outcome sample
      (letter 97)
      (stamped sample 3)
      0
      (set_reason (entry sample (letter 97)) (watch_ok sample 0) 0)
      (Store.set sample 3 0 0)
set-Outcome_example = set-Outcome sample 3 0 0 sample-IsLinked sample-IsReady

add-Outcome_example :
    Outcome sample
      (letter 97)
      (stamped sample 3)
      0
      (add_reason (entry sample (letter 97)) (watch_ok sample 0))
      (Store.add sample 3 0 0)
add-Outcome_example = add-Outcome sample 3 0 0 sample-IsLinked sample-IsReady

replace-Outcome_example :
    Outcome sample
      (letter 97)
      (stamped sample 3)
      0
      (replace_reason (entry sample (letter 97)) (watch_ok sample 0) 0)
      (Store.replace sample 3 0 0)
replace-Outcome_example = replace-Outcome sample 3 0 0 sample-IsLinked sample-IsReady

remove-Removal_example :
    Removal sample
      (letter 98)
      (remove_reason (entry sample (letter 98)) 6)
      (Store.remove sample (letter 98) 6)
remove-Removal_example = remove-Removal sample (letter 98) 6 sample-IsLinked
