-- ===== src/Run/Sync/Lock.antt =====
-- sync/run.py: the advisory lock around a pass.
use aa_metadata_worker.Prelude.{◌≡◌, Text, Bool, List, Dict, arith}
use aa_metadata_worker.Result.{Result}
use aa_metadata_worker.Discovery.{Entry}
use aa_metadata_worker.Run.{World, Env}
use aa_metadata_worker.Run.Download.{PoolStep}
use aa_metadata_worker.Run.Sync.{run_sync}

-- A pass gives the lock back however it ends, and leaves the lock of another process alone.
pub run_sync-lock :
    (env : Env) (force : Bool) (pool : List PoolStep) (fetched : Result (List Entry))
    (collections : List Text) (overrides : Dict Text Text) (w : World)
    → (run_sync env force pool fetched collections overrides w).1.locked ≡ w.locked
unfolding run_sync
run_sync-lock env force pool fetched collections overrides w = ground arith
