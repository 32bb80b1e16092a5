-- ===== src/Bridge/Ownership/Evolution.antt =====
-- pkg/bridge/ownership.go: what can happen to one `targetRecord` in any history of calls.
mod Methods
pub use Methods.{Evolves}
use Methods.{Keeps, Keeps-apply, Keeps-run}
use foxbridge.Common.{ℕ, ◌<◌, ◌≡◌, true, false, List, some, arith}
use foxbridge.Heap.{load, load-store}
use foxbridge.Bridge.Ownership.{Registry}
use foxbridge.Bridge.Ownership.Cleanup.{begin_cleanup}
use foxbridge.Bridge.Ownership.Steps.{Op, apply, run, begins_cleanup}

-- In any history of calls a record keeps its target ids, its session ids, the Juggler
-- session's among them, and its pair. Once it is
-- cleaned, cancelled or no longer open, it stays so.
pub run-Evolves :
    (r : Registry) (ops : List Op) (p : ℕ)
    → p < r.records.next
    → Evolves (load r.records p) (load (run r ops).records p)
run-Evolves r ops p u = (Keeps-run p r ops u).evolves

begin_cleanup-marks :
    (r : Registry) (p : ℕ)
    → (begin_cleanup r (some p)).1 ≡ true
    → (load (begin_cleanup r (some p)).0.records p).cleaned ≡ true
unfolding begin_cleanup
begin_cleanup-marks r p h = grind (arith, load-store)

begin_cleanup-Keeps :
    (r : Registry) (p : ℕ)
    → p < r.records.next
    → Keeps p r.records (begin_cleanup r (some p)).0.records
unfolding apply
begin_cleanup-Keeps r p u = Keeps-apply p r (begins_cleanup (some p)) u

begin_cleanup-refuses :
    (r : Registry) (p : ℕ)
    → (load r.records p).cleaned ≡ true
    → (begin_cleanup r (some p)).1 ≡ false
unfolding begin_cleanup
begin_cleanup-refuses r p h = ground arith

-- `beginCleanup` lets one caller clean up a record: once it has returned true, it returns false
-- for that record after any further history of calls.
pub begin_cleanup_once :
    (r : Registry) (ops : List Op) (p : ℕ)
    → p < r.records.next
    → (begin_cleanup r (some p)).1 ≡ true
    → (begin_cleanup (run (begin_cleanup r (some p)).0 ops) (some p)).1 ≡ false
begin_cleanup_once r ops p u first =
    let r' = (begin_cleanup r (some p)).0 in
    let used = (begin_cleanup-Keeps r p u).used in
    begin_cleanup-refuses (run r' ops) p
      ((Keeps-run p r' ops used).evolves.cleaned (begin_cleanup-marks r p first))
